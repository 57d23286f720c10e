-- ===== src/ScenarioList/Entries.antt =====
-- `add_entry` and `delete_entry`, through the data store and back.
use power_sim_data.Prelude.{
  ℕ, String, ◌≡◌, refl, ◌≢◌, ◌∙◌, Option, none, some, [], ◌∷◌, ◌++◌, Eq, nat_eq, string_eq, ◌==◌,
  ==_refl, if◌then◌else◌, arith, Option-cases, inl, inr,
}
use power_sim_data.Prelude.Dict.{lookup, lookup-remove}
use power_sim_data.Prelude.Result.{Error, ok, raise, Result-cases}
use power_sim_data.DataAccess.{FileSystem, World, temp, multi_read, checksum}
use power_sim_data.DataAccess.Copies.{multi_read-server}
use power_sim_data.CsvStore.{Table, get_table}
use power_sim_data.CsvStore.Laws.{
  lookup-append, server-get_table, get_table-IsIndexed, verify_hash-ok, verify_hash-checksum,
  verify_hash-raise, lookup-get_table,
}
use power_sim_data.ScenarioList.{
  Row, Info, file_name, generate_scenario_id, by_id, with_entry, drop_row, get_scenario, appended,
  add_entry, delete_entry,
}
use power_sim_data.CsvStore.Total.{verify_hash-returns}
use power_sim_data.ScenarioList.Laws.{generate_scenario_id-fresh, find_scenario-by_id}

pub lookup-snoc :
    (t : Table Row) (i : ℕ) (r : Row) → lookup i t ≡ none → lookup i (t ++ (i, r) ∷ []) ≡ some r
unfolding lookup
lookup-snoc t i r h = ground (arith, lookup-append t ((i, r) ∷ []) i, ==_refl i)

module _ {C H : Type 0} (fs : FileSystem C) (blob : String → Option C)
    (parse : C → Option (Table Row)) ⦃e : Eq H⦄ (hash : C → H) (to_csv : Table Row → C) where
  open fs use {State, read}

  -- The table that `add_entry` and `delete_entry` start from.
  abbrev pub before : World State → Table Row
  before w = (get_table fs blob parse file_name w).0

  -- A successful `add_entry` gives the entry an id that no scenario of the table had, appends it, and
  -- leaves every other scenario as it was; the csv file on the server is that of the new table.
  pub add_entry-ok :
      (info info' : Info) (w w' : World State) (t : Table Row)
      → add_entry fs blob parse hash to_csv info w ≡ (ok t, info', w')
      → (info' ≡ record info { id = some (generate_scenario_id (before w)) })
        × (lookup (generate_scenario_id (before w)) (before w) ≡ none)
        × (t ≡ before w ++ (generate_scenario_id (before w), info.fields) ∷ [])
        × (read w'.server file_name ≡ some (to_csv t))
  unfolding add_entry with_entry
  add_entry-ok info info' w w' t h =
      let func = appended fs blob parse hash to_csv info.fields in
      let quiet = λ (v : World State). server-get_table fs blob parse file_name v in
      let done =
        verify_hash-ok fs blob parse hash to_csv file_name func quiet w w' t (ground arith) in
      let given =
        verify_hash-checksum fs blob parse hash to_csv file_name func quiet w w' t (ground arith) in
      (ground (arith, given.1), generate_scenario_id-fresh (before w), ground arith, done.1)

  -- If the list is on the server and no upload of it is in the way, then `add_entry` returns: the table
  -- that it read, with the entry at the end.
  pub add_entry-returns :
      (info : Info) (w : World State) (c : C)
      → read w.server file_name ≡ some c
      → multi_read fs blob w.server (temp file_name) ≡ none
      → (add_entry fs blob parse hash to_csv info w).0
        ≡ ok (before w ++ (generate_scenario_id (before w), info.fields) ∷ [])
  unfolding add_entry appended with_entry
  add_entry-returns info w c there free =
      let returned =
        verify_hash-returns fs blob parse hash to_csv file_name
          (appended fs blob parse hash to_csv info.fields) w c _
          (server-get_table fs blob parse file_name w) refl there free in
      elim (Result-cases (checksum fs blob hash file_name w)) [
        | inl (prev, k) ↦ ground (arith, k, returned)
        | inr (x, k) ↦ ground (arith, k, returned)
      ]

  -- If `add_entry` raises, the list on the server is as it was.
  pub add_entry-raise :
      (info info' : Info) (w w' : World State) (x : Error)
      → add_entry fs blob parse hash to_csv info w ≡ (raise x, info', w')
      → read w'.server file_name ≡ read w.server file_name
  unfolding add_entry
  add_entry-raise info info' w w' x h =
      verify_hash-raise fs blob parse hash to_csv file_name
        (appended fs blob parse hash to_csv info.fields)
        (λ v. server-get_table fs blob parse file_name v) w w' x (ground arith)

  -- `get_scenario` by id is a lookup in the table.
  get_scenario-by_id :
      (i : ℕ) (v : World State)
      → (get_scenario fs blob parse hash to_csv (by_id i) v).0 ≡ elim (lookup i (before v)) [
        | none ↦ none
        | some r ↦ some (record { id = some i; fields = r })
      ]
  unfolding get_scenario
  get_scenario-by_id i v =
      find_scenario-by_id (before v) i (get_table-IsIndexed fs blob parse file_name v)

  -- A client that finds a table on the server reads its rows by id.
  pub get_scenario-read :
      (v : World State) (t : Table Row) (i : ℕ) (r : Row)
      → parse (to_csv t) ≡ some t
      → read v.server file_name ≡ some (to_csv t)
      → lookup i t ≡ some r
      → (get_scenario fs blob parse hash to_csv (by_id i) v).0
        ≡ some (record { id = some i; fields = r })
  get_scenario-read v t i r reads there row =
      let on_server = multi_read-server fs blob file_name v.server (to_csv t) there in
      let found = lookup-get_table fs blob parse file_name v (to_csv t) t on_server reads i in
      let same : lookup i (before v) ≡ some r = ground (arith, found, row) in
      get_scenario-by_id i v ∙ rw same refl

  -- If csv is read back as it was printed, then whichever client asks for the new id gets the entry
  -- that `add_entry` has added.
  pub get_scenario-add_entry :
      (info info' : Info) (w w' v : World State) (t : Table Row) (i : ℕ)
      → ((u : Table Row) → parse (to_csv u) ≡ some u)
      → add_entry fs blob parse hash to_csv info w ≡ (ok t, info', w')
      → v.server ≡ w'.server
      → info'.id ≡ some i
      → (get_scenario fs blob parse hash to_csv (by_id i) v).0 ≡ some info'
  get_scenario-add_entry info info' w w' v t i reads added same named =
      let a = add_entry-ok info info' w w' t added in
      let is_new : i ≡ generate_scenario_id (before w) = ground arith in
      let row = lookup-snoc (before w) i info.fields (rw is_new a.1) in
      get_scenario-read v t i info.fields (reads t) (rw same a.3) (ground arith) ∙ ground arith

  -- A successful `delete_entry` had a row to delete; the table that it returns, and writes to the file on the
  -- server, has lost that row and no other.
  pub delete_entry-ok :
      (i : ℕ) (w w' : World State) (t : Table Row)
      → delete_entry fs blob parse hash to_csv i w ≡ (ok t, w')
      → (lookup i (before w) ≢ none)
        × ((j : ℕ) → lookup j t ≡ (if i == j then none else lookup j (before w)))
        × (read w'.server file_name ≡ some (to_csv t))
  unfolding delete_entry drop_row
  delete_entry-ok i w w' t h =
      let done =
        verify_hash-ok fs blob parse hash to_csv file_name
          (λ v. let (u, v') = get_table fs blob parse file_name v in (drop_row i u, v'))
          (λ v. server-get_table fs blob parse file_name v) w w' t h in
      elim (Option-cases (lookup i (before w))) [
        | inl missing ↦ ground arith
        | inr (r, there) ↦
            (λ e. ground arith, λ j. ground (arith, lookup-remove i j (before w)), done.1)
      ]
