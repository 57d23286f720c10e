-- ===== src/Scenario/Gates.antt =====
-- The status gates of powersimdata/scenario/execute.py, on the execute list.
use power_sim_data.Prelude.{
  ℕ, String, Bool, ◌||◌, ◌≡◌, refl, Option, some, List, [], ◌∷◌, Eq, string_eq, nat_eq, ◌==◌,
  ==_refl, ==_iff, contains, if◌then◌else◌, arith, inl,
}
use power_sim_data.Prelude.Result.{Result, ok, raise, value_error}
use power_sim_data.DataAccess.{FileSystem, World}
use power_sim_data.CsvStore.{Table}
use power_sim_data.ExecuteList.{get_status, set_status}
use power_sim_data.ExecuteList.Laws.{get_status-set_status}

module _ {C H : Type 0} (fs : FileSystem C) (blob : String → Option C)
    (parse : C → Option (Table String)) ⦃e : Eq H⦄ (hash : C → H) (to_csv : Table String → C) where
  open fs use {State}

  -- `valid_status`
  abbrev pub valid_status : List String
  valid_status = "prepared" ∷ "failed" ∷ "finished" ∷ []

  -- `_check_if_ready`
  unfoldable pub check_if_ready : ℕ → World State → Result (Unit {0}) × World State
  check_if_ready i w =
      let (r, w') = get_status fs blob parse hash to_csv i w in
      (
        elim r [
          | raise x ↦ raise x
          | ok status ↦ if contains valid_status status then ok tt else raise value_error
        ],
        w',
      )

  -- `extract_simulation_output`: whether the launcher is called.
  unfoldable pub extract_simulation_output : ℕ → World State → Result Bool × World State
  extract_simulation_output i w =
      let (r, w') = get_status fs blob parse hash to_csv i w in
      (elim r [ raise x ↦ raise x | ok status ↦ ok (status == "finished") ], w')

  -- If csv is read back as it was printed, then after a successful `set_status` whichever client asks may
  -- launch the scenario exactly if the status is prepared, failed or finished, with a ValueError
  -- otherwise, and has its output extracted exactly if the status is finished.
  pub set_status-gates :
      (i : ℕ) (status : String) (w w' v : World State) (t : Table String)
      → ((u : Table String) → parse (to_csv u) ≡ some u)
      → set_status fs blob parse hash to_csv i status w ≡ (ok t, w')
      → v.server ≡ w'.server
      → ((check_if_ready i v).0 ≡ (
          if status == "prepared" || (status == "failed" || status == "finished")
          then ok tt
          else raise value_error))
        × ((extract_simulation_output i v).0 ≡ ok (status == "finished"))
  unfolding check_if_ready extract_simulation_output
  set_status-gates i status w w' v t reads set same =
      let told =
        get_status-set_status fs blob parse hash to_csv i i status status w w' v t reads set same
          (inl (==_refl i)) in
      let read : (get_status fs blob parse hash to_csv i v).0 ≡ ok status =
        ground (arith, told, ==_refl i) in
      let ready : (if contains valid_status status then ok tt else raise value_error) ≡ (
          if status == "prepared" || (status == "failed" || status == "finished")
          then ok tt
          else raise value_error) =
        ground (
          arith,
          ==_iff status "prepared",
          ==_iff "prepared" status,
          ==_iff status "failed",
          ==_iff "failed" status,
          ==_iff status "finished",
          ==_iff "finished" status,
        ) in
      (rw (read, check_if_ready) ready, rw (read, extract_simulation_output) refl)
