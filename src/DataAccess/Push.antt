-- ===== src/DataAccess/Push.antt =====
-- `SSHDataAccess.push` and `checksum`: optimistic concurrency by checksum.
use text.Mathlib.TextLemmas.{length-append}
use power_sim_data.Prelude.{
  String, ◌≡◌, inl, inr, false, Option, none, some, Eq, string_eq, ◌==◌, ==_iff, ==_refl,
  if◌then◌else◌, arith, Option-cases,
}
use power_sim_data.Prelude.Result.{Error, ok, raise, os_error, io_error}
use power_sim_data.DataAccess.{
  FileSystem, World, temp, multi_read, check_file_exists, hash_of, checksum, backup, lock_file,
  move_if_same, push,
}

pub temp-ne : (file : String) → (temp file == file) ≡ false
unfolding temp
temp-ne file = ground (arith, length-append file ".temp", ==_iff (temp file) file)

module _ {C H : Type 0} (fs : FileSystem C) (blob : String → Option C) ⦃e : Eq H⦄ (hash : C → H)
    (file : String) (prev : H) (c : C) where
  open fs use {State, read, write, delete, read-write, read-delete}

  -- What a successful push has done, and what it found.
  pub record Replaced (w w' : World State) : Type 0 where
    pub old : C
    pub was : read w.server file ≡ some old
    pub checked : hash old ≡ prev
    pub copied : read w'.local file ≡ some c
    pub now : read w'.server file ≡ some c
    pub server :
        (p : String)
        → (lock_file == p) ≡ false
        → read w'.server p ≡ (
            if temp file == p
            then none
            else if file == p
            then some c
            else if backup file == p
            then some old
            else read w.server p)

  -- A push that returns replaced the file whose checksum it was given, kept the old content as a backup, left no
  -- upload behind, and touched no other file of the server, but for the lock file.
  pub push-Replaced :
      (w w' : World State) → push fs blob hash file prev c w ≡ (ok tt, w') → Replaced w w'
  unfolding push check_file_exists move_if_same
  push-Replaced w w' h =
      let uploaded = write w.server (temp file) c in
      elim (Option-cases (read w.server file)) [
        | inl missing ↦
            ground
              (arith, read-write w.server (temp file) file c, temp-ne file, ==_iff prev (hash c))
        | inr (old, there) ↦ record {
          old = old;
          was = there;
          checked =
              ground (
                arith,
                read-write w.server (temp file) file c,
                temp-ne file,
                ==_iff prev (hash old),
              );
          copied = ground (arith, read-write w.local file file c, ==_refl file);
          now = ground (
            arith,
            read-delete (write (write uploaded (backup file) old) file c) (temp file) file,
            read-write (write uploaded (backup file) old) file file c,
            read-write w.server (temp file) file c,
            temp-ne file,
            ==_refl file,
          );
          server = λ p unlocked. ground (
            arith,
            read-delete (write (write uploaded (backup file) old) file c) (temp file) p,
            read-write (write uploaded (backup file) old) file p c,
            read-write uploaded (backup file) p old,
            read-write w.server (temp file) p c,
            read-write w.server (temp file) file c,
            temp-ne file,
          );
        }
      ]

  -- A push that raises left every file of the server but the upload as it was.
  pub push-raise :
      (w w' : World State) (x : Error) (p : String)
      → push fs blob hash file prev c w ≡ (raise x, w')
      → (temp file == p) ≡ false
      → read w'.server p ≡ read w.server p
  unfolding push check_file_exists move_if_same
  push-raise w w' x p h ne = ground (arith, read-write w.server (temp file) p c)

  -- After a push that met a conflict, the upload that it leaves behind makes every later push of this
  -- file fail, from whichever client and with whatever checksum and content, and change nothing.
  pub conflict-blocks :
      (w w' v : World State) (prev' : H) (c' : C)
      → push fs blob hash file prev c w ≡ (raise io_error, w')
      → v.server ≡ w'.server
      → push fs blob hash file prev' c' v ≡ (raise os_error, v)
  unfolding push check_file_exists move_if_same
  conflict-blocks w w' v prev' c' h same =
      ground (arith, read-write w.server (temp file) (temp file) c, ==_refl (temp file))

  -- If no two contents have one checksum, a push with the checksum that was taken in `v` succeeds in
  -- `w` only if the file still has the content that it had in `v`: no update in between is lost.
  pub push-no_lost_update :
      (v w w' : World State)
      → ((a b : C) → hash a ≡ hash b → a ≡ b)
      → checksum fs blob hash file v ≡ ok prev
      → push fs blob hash file prev c w ≡ (ok tt, w')
      → read w.server file ≡ read v.server file
  unfolding checksum check_file_exists hash_of
  push-no_lost_update v w w' injective h k =
      let r = push-Replaced w w' k in
      elim (Option-cases (read v.server file)) [
        | inl missing ↦ ground arith
        | inr (a, there) ↦ ground (arith, r.was, r.checked, injective r.old a)
      ]

  -- The checksum of the file as it is, with no upload in the way, makes the push succeed.
  pub push-checksum :
      (w : World State)
      → checksum fs blob hash file w ≡ ok prev
      → multi_read fs blob w.server (temp file) ≡ none
      → (push fs blob hash file prev c w).0 ≡ ok tt
  unfolding checksum push check_file_exists move_if_same hash_of
  push-checksum w h free = elim (Option-cases (read w.server file)) [
    | inl missing ↦ ground arith
    | inr (a, there) ↦
        ground (arith, read-write w.server (temp file) file c, temp-ne file, ==_iff prev (hash a))
  ]
