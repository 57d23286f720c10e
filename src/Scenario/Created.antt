-- ===== src/Scenario/Created.antt =====
-- What a successful `create_scenario` of powersimdata/scenario/create.py has done.
use power_sim_data.Prelude.{
  ℕ, String, ◌≡◌, ◌⊎◌, inl, inr, true, Option, none, some, [], ◌∷◌, ◌++◌, Eq, nat_eq, string_eq,
  ==_refl, contains-append, arith, Bool-cases,
}
use power_sim_data.Prelude.Dict.{lookup}
use power_sim_data.Prelude.Result.{Result, ok, Result-cases}
use power_sim_data.Number.{Number}
use power_sim_data.Grid.{Bus, Grid}
use power_sim_data.Ct.{Ct}
use power_sim_data.TransformGrid.Apply.{is_empty, get_grid}
use power_sim_data.DataAccess.{FileSystem}
use power_sim_data.DataAccess.Copies.{write_new_lem}
use power_sim_data.CsvStore.{Table}
use power_sim_data.ScenarioList.{Row, Info, by_id, get_scenario}
use power_sim_data.ScenarioList
use power_sim_data.ScenarioList.Entries.{before, add_entry-ok}
use power_sim_data.ExecuteList
use power_sim_data.ExecuteList.{get_status}
use power_sim_data.Scenario.{create, execute, state_eq, finish_create, change_class}
use power_sim_data.Scenario.Builder.{Builder}
use power_sim_data.Scenario.Creation.{
  Session, ct_path, transform, list_scenario, list_execution, upload_change_table, add_details,
  completed, finish,
}

module _ {V S : Type 0} where
  pub add_details-ok :
      (b : Builder V) (s s' : Session V S)
      → add_details b s ≡ (ok tt, s')
      → (s'.info ≡ record s.info { fields = completed b s.info.fields })
        × (s'.scenario ≡ s.scenario)
        × (s'.world ≡ s.world)
  unfolding add_details
  add_details-ok b s s' h = (ground arith, ground arith, ground arith)

  pub finish-ok :
      (s s' : Session V S)
      → s.scenario.state ≡ create
      → finish s ≡ (ok tt, s')
      → (s'.scenario ≡ record { state = execute; status = some "created" })
        × (s'.info ≡ s.info)
        × (s'.world ≡ s.world)
  unfolding finish finish_create change_class
  finish-ok s s' fresh h =
      let switches = contains-append s.classes.create_allowed (execute ∷ []) execute in
      (ground (arith, switches), ground (arith, switches), ground (arith, switches))

module _ {V : Type 0} ⦃num : Number V⦄ (reactance : Grid V → Bus V → Bus V → Result V) where
  pub transform-ok :
      {S : Type 0} (b : Builder V) (s s' : Session V S)
      → transform reactance b s ≡ (ok tt, s')
      → (s'.info ≡ s.info) × (s'.scenario ≡ s.scenario) × (s'.world ≡ s.world)
  unfolding transform
  transform-ok b s s' h = elim (Result-cases (get_grid reactance b.change_table.ct b.base_grid)) [
    | inl (g, e) ↦ (ground arith, ground arith, ground arith)
    | inr (x, e) ↦ ground arith
  ]

module _ {V C : Type 0} (fs : FileSystem C) (blob : String → Option C) where
  open fs use {State, read}

  pub upload_change_table-ok :
      (pickle : Ct V → C) (b : Builder V) (s s' : Session V State) (i : ℕ)
      → s.info.id ≡ some i
      → upload_change_table fs blob pickle b s ≡ (ok tt, s')
      → (s'.info ≡ s.info)
        × (s'.scenario ≡ s.scenario)
        × ((is_empty b.change_table.ct ≡ true)
            ⊎ (read s'.world.server (ct_path i) ≡ some (pickle b.change_table.ct)))
  unfolding upload_change_table
  upload_change_table-ok pickle b s s' i named h = elim (Bool-cases (is_empty b.change_table.ct)) [
    | inl nothing ↦ (ground arith, ground arith, inl nothing)
    | inr e ↦
        let written =
          write_new_lem fs blob (ct_path i) (pickle b.change_table.ct) true s.world (ct_path i) in
        (
          ground arith,
          ground arith,
          inr (ground (arith, written.0, written.1, ==_refl (ct_path i))),
        )
  ]

  module _ {H : Type 0} ⦃e : Eq H⦄ (hash : C → H) where
    pub list_scenario-ok :
        (parse : C → Option (Table Row)) (to_csv : Table Row → C) (s s' : Session V State)
        → list_scenario fs blob hash parse to_csv s ≡ (ok tt, s')
        → (i : ℕ) × (t : Table Row) × (s'.info ≡ record s.info { id = some i })
          × (s'.scenario ≡ s.scenario)
          × (lookup i (before fs blob parse hash to_csv s.world) ≡ none)
          × (t ≡ before fs blob parse hash to_csv s.world ++ (i, s.info.fields) ∷ [])
          × (read s'.world.server "ScenarioList.csv" ≡ some (to_csv t))
    unfolding list_scenario
    list_scenario-ok parse to_csv s s' h =
        let (r, info, w) = ScenarioList.add_entry fs blob parse hash to_csv s.info s.world in
        elim (Result-cases (ScenarioList.add_entry fs blob parse hash to_csv s.info s.world).0) [
          | inr (x, raised) ↦ ground arith
          | inl (t, added) ↦
              let a =
                add_entry-ok fs blob parse hash to_csv s.info info s.world w t (ground arith) in
              (
                ScenarioList.generate_scenario_id (before fs blob parse hash to_csv s.world),
                t,
                ground arith,
                ground arith,
                a.1,
                a.2,
                ground arith,
              )
        ]

    pub list_execution-ok :
        (parse : C → Option (Table String)) (to_csv : Table String → C) (s s' : Session V State)
        (i : ℕ)
        → s.info.id ≡ some i
        → list_execution fs blob hash parse to_csv s ≡ (ok tt, s')
        → (t : Table String) × (ExecuteList.add_entry fs blob parse hash to_csv i s.world
            ≡ (ok t, s'.world))
          × (s'.info ≡ s.info)
          × (s'.scenario ≡ s.scenario)
    unfolding list_execution
    list_execution-ok parse to_csv s s' i named h =
        elim (Result-cases (ExecuteList.add_entry fs blob parse hash to_csv i s.world).0) [
          | inr (x, raised) ↦ ground arith
          | inl (t, added) ↦ (t, ground arith, ground arith, ground arith)
        ]
