-- ===== src/CsvStore/Elsewhere.antt =====
-- A method under `verify_hash` leaves the other files of the server alone.
use power_sim_data.Prelude.{String, ◌≡◌, false, Option, Eq, string_eq, ◌==◌, arith, inl, inr}
use power_sim_data.Prelude.Result.{Result, Result-cases}
use power_sim_data.DataAccess.{FileSystem, World, lock_file, beside, checksum, push}
use power_sim_data.DataAccess.Push.{push-Replaced, push-raise}
use power_sim_data.CsvStore.{Table, verify_hash}

module _ {C R H : Type 0} (fs : FileSystem C) (blob : String → Option C)
    (parse : C → Option (Table R)) ⦃e : Eq H⦄ (hash : C → H) (to_csv : Table R → C)
    (file p : String) (other : (file == p) ≡ false) (apart : beside file p ≡ false) where
  open fs use {State, read}

  push-elsewhere :
      (prev : H) (c : C) (w : World State)
      → read (push fs blob hash file prev c w).1.server p ≡ read w.server p
  unfolding beside
  push-elsewhere prev c w =
      let (r, w') = push fs blob hash file prev c w in
      elim (Result-cases (push fs blob hash file prev c w).0) [
        | inl (done, k) ↦
            let replaced = push-Replaced fs blob hash file prev c w w' (ground arith) in
            let unlocked : (lock_file == p) ≡ false = ground (arith, apart) in
            ground (arith, replaced.server p unlocked, apart)
        | inr (x, k) ↦
            push-raise fs blob hash file prev c w w' x p (ground arith) (ground (arith, apart))
      ]

  pub verify_hash-elsewhere :
      (func : World State → Result (Table R) × World State) (w : World State)
      → (func w).1.server ≡ w.server
      → read (verify_hash fs blob parse hash to_csv file func w).1.server p ≡ read w.server p
  unfolding verify_hash
  verify_hash-elsewhere func w quiet = elim (Result-cases (checksum fs blob hash file w)) [
    | inr (x, e₁) ↦ ground arith
    | inl (prev, e₁) ↦ elim (Result-cases (func w).0) [
      | inr (x, e₂) ↦ ground arith
      | inl (t, e₂) ↦ ground (arith, push-elsewhere prev (to_csv t) (func w).1)
    ]
  ]
