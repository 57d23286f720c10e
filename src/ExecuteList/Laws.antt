-- ===== src/ExecuteList/Laws.antt =====
-- The status that is set is the status that every client reads.
use power_sim_data.Prelude.{
  ℕ, String, ◌≡◌, ◌⊎◌, true, Option, some, Eq, nat_eq, string_eq, ◌==◌, ==_refl, if◌then◌else◌,
  arith, inl,
}
use power_sim_data.Prelude.Dict.{lookup, insert, lookup-insert}
use power_sim_data.Prelude.Result.{ok}
use power_sim_data.DataAccess.{FileSystem, World}
use power_sim_data.DataAccess.Copies.{multi_read-server}
use power_sim_data.CsvStore.{Table, get_table}
use power_sim_data.CsvStore.Laws.{server-get_table, verify_hash-ok, lookup-get_table}
use power_sim_data.ExecuteList.{file_name, get_status, set_status, add_entry}

module _ {C H : Type 0} (fs : FileSystem C) (blob : String → Option C)
    (parse : C → Option (Table String)) ⦃e : Eq H⦄ (hash : C → H) (to_csv : Table String → C) where
  open fs use {State, read}

  abbrev pub before : World State → Table String
  before w = (get_table fs blob parse file_name w).0

  -- A successful `set_status` writes the status of that scenario and of no other.
  pub set_status-ok :
      (i : ℕ) (status : String) (w w' : World State) (t : Table String)
      → set_status fs blob parse hash to_csv i status w ≡ (ok t, w')
      → ((j : ℕ) → lookup j t ≡ (if i == j then some status else lookup j (before w)))
        × (read w'.server file_name ≡ some (to_csv t))
  unfolding set_status
  set_status-ok i status w w' t h =
      let done =
        verify_hash-ok fs blob parse hash to_csv file_name
          (λ v. let (u, v') = get_table fs blob parse file_name v in (ok (insert i status u), v'))
          (λ v. server-get_table fs blob parse file_name v) w w' t h in
      (λ j. ground (arith, lookup-insert i j status (before w)), done.1)

  -- If csv is read back as it was printed, then after a successful `set_status` whichever client asks
  -- for a scenario that the table knew is told the new status, if it is the one that was set, or else
  -- the status that the table held before.
  pub get_status-set_status :
      (i j : ℕ) (status old : String) (w w' v : World State) (t : Table String)
      → ((u : Table String) → parse (to_csv u) ≡ some u)
      → set_status fs blob parse hash to_csv i status w ≡ (ok t, w')
      → v.server ≡ w'.server
      → (i == j) ≡ true ⊎ (lookup j (before w) ≡ some old)
      → (get_status fs blob parse hash to_csv j v).0 ≡ ok (if i == j then status else old)
  unfolding get_status
  get_status-set_status i j status old w w' v t reads set same known =
      let a = set_status-ok i status w w' t set in
      let on_server = multi_read-server fs blob file_name v.server (to_csv t) (rw same a.1) in
      let there = lookup-get_table fs blob parse file_name v (to_csv t) t on_server (reads t) j in
      ground (arith, there, a.0 j)

  -- `add_entry` starts a scenario in the status "created".
  pub get_status-add_entry :
      (i : ℕ) (w w' v : World State) (t : Table String)
      → ((u : Table String) → parse (to_csv u) ≡ some u)
      → add_entry fs blob parse hash to_csv i w ≡ (ok t, w')
      → v.server ≡ w'.server
      → (get_status fs blob parse hash to_csv i v).0 ≡ ok "created"
  unfolding add_entry
  get_status-add_entry i w w' v t reads added same =
      let told =
        get_status-set_status i i "created" "created" w w' v t reads added same (inl (==_refl i)) in
      rw (==_refl i) at told
