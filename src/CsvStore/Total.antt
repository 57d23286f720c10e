-- ===== src/CsvStore/Total.antt =====
-- The methods under `verify_hash` of powersimdata/data_access/csv_store.py go through when nothing is in
-- the way.
use power_sim_data.Prelude.{String, ◌≡◌, ap, ◌∙◌, Option, none, some, Eq, arith}
use power_sim_data.Prelude.Result.{Result, ok}
use power_sim_data.DataAccess.{FileSystem, World, temp, multi_read, checksum, push}
use power_sim_data.DataAccess
use power_sim_data.DataAccess.Push.{push-checksum}
use power_sim_data.CsvStore.{Table, verify_hash, commit}

module _ {C R H : Type 0} (fs : FileSystem C) (blob : String → Option C)
    (parse : C → Option (Table R)) ⦃e : Eq H⦄ (hash : C → H) (to_csv : Table R → C)
    (file : String) where
  open fs use {State, read}

  checksum-read :
      (w : World State) (c : C)
      → read w.server file ≡ some c
      → checksum fs blob hash file w ≡ ok (hash c)
  unfolding checksum DataAccess.check_file_exists multi_read DataAccess.hash_of
  checksum-read w c h = ground (arith, h)

  -- A method that reads only, and returns a table, gets it committed, if the file is on the server and
  -- no upload of it is in the way.
  pub verify_hash-returns :
      (func : World State → Result (Table R) × World State) (w : World State) (c : C) (t : Table R)
      → (func w).1.server ≡ w.server
      → (func w).0 ≡ ok t
      → read w.server file ≡ some c
      → multi_read fs blob w.server (temp file) ≡ none
      → (verify_hash fs blob parse hash to_csv file func w).0 ≡ ok t
  unfolding verify_hash commit
  verify_hash-returns func w c t same made there free =
      let u = (func w).1 in
      let first = checksum-read w c there in
      let again = checksum-read u c (ap (λ s. read s file) same ∙ there) in
      let pushed =
        push-checksum fs blob hash file (hash c) (to_csv t) u again
          (ap (λ s. multi_read fs blob s (temp file)) same ∙ free) in
      ground (arith, first, made, pushed)
