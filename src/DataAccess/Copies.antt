-- ===== src/DataAccess/Copies.antt =====
-- `copy_from`, `get` and `write`.
use power_sim_data.Prelude.{
  String, ◌≡◌, Bool, Option, none, some, string_eq, ◌==◌, ==_iff, ==_refl, if◌then◌else◌, arith,
  Option-cases, inl, inr,
}
use power_sim_data.Prelude.Result.{ok, raise, os_error}
use power_sim_data.DataAccess.{
  FileSystem, World, found, or_else, multi_read, check_file_exists, copy_from, get, write_new,
}

module _ {C : Type 0} (fs : FileSystem C) (blob : String → Option C) (path : String) where
  open fs use {State, read, write, read-write}

  -- `get` returns the local copy if there is one, else what the server holds, else what the blob
  -- containers hold, and raises if nobody has the file. It leaves the server alone, keeps what it
  -- returned as the local copy, and changes no other local file.
  pub get_lem :
      (w : World State) (q : String)
      → ((get fs blob path w).0
          ≡ elim (or_else (read w.local path) (multi_read fs blob w.server path)) [
            | none ↦ raise os_error
            | some c ↦ ok c
          ])
        × ((get fs blob path w).1.server ≡ w.server)
        × (read (get fs blob path w).1.local q ≡ (
            if path == q
            then or_else (read w.local path) (multi_read fs blob w.server path)
            else read w.local q))
  unfolding get copy_from
  get_lem w q = elim (Option-cases (read w.local path)) [
    | inr (a, there) ↦ (ground arith, ground arith, ground (arith, ==_iff path q))
    | inl missing ↦ elim (Option-cases (multi_read fs blob w.server path)) [
      | inl nowhere ↦ (ground arith, ground arith, ground (arith, ==_iff path q))
      | inr (c, there) ↦ (
        ground (arith, read-write w.local path path c, ==_refl path),
        ground arith,
        ground (arith, read-write w.local path q c),
      )
    ]
  ]

  -- `write` raises exactly when the file is there, and then changes nothing; otherwise the server,
  -- and the local disk if that is asked for, hold the content, and no other file has changed.
  pub write_new_lem :
      (c : C) (save_local : Bool) (w : World State) (q : String)
      → ((write_new fs blob path c save_local w).0
          ≡ (if found (multi_read fs blob w.server path) then raise os_error else ok tt))
        × (read (write_new fs blob path c save_local w).1.server q ≡ (
            if found (multi_read fs blob w.server path)
            then read w.server q
            else if path == q
            then some c
            else read w.server q))
        × (read (write_new fs blob path c save_local w).1.local q ≡ (
            if found (multi_read fs blob w.server path)
            then read w.local q
            else if save_local
            then (if path == q then some c else read w.local q)
            else read w.local q))
  unfolding write_new check_file_exists
  write_new_lem c save_local w q = (
    ground arith,
    ground (arith, read-write w.server path q c),
    ground (arith, read-write w.local path q c),
  )

  pub multi_read-server :
      (server : State) (c : C) → read server path ≡ some c → multi_read fs blob server path ≡ some c
  unfolding multi_read
  multi_read-server server c h = rw (h, or_else)
