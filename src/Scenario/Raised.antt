-- ===== src/Scenario/Raised.antt =====
-- What the steps of `create_scenario` in powersimdata/scenario/create.py leave alone, above all when they
-- raise.
use power_sim_data.Prelude.{
  String, ◌≡◌, ◌≢◌, refl, inl, inr, Option, [], ◌∷◌, Eq, nat_eq, string_eq, contains-append, arith,
  Option-cases,
}
use power_sim_data.Prelude.Dict.{insert}
use power_sim_data.Prelude.Result.{Error, Result, ok, raise, Result-cases}
use power_sim_data.Number.{Number}
use power_sim_data.Grid.{Bus, Grid}
use power_sim_data.Ct.{Ct}
use power_sim_data.DataAccess.{FileSystem, temp, backup, beside}
use power_sim_data.CsvStore.{Table, get_table}
use power_sim_data.CsvStore.Laws.{server-get_table, verify_hash-raise}
use power_sim_data.ScenarioList.{Row, Info}
use power_sim_data.ScenarioList
use power_sim_data.ScenarioList.Entries.{add_entry-raise}
use power_sim_data.ExecuteList
use power_sim_data.Scenario.{create, execute, state_eq, finish_create, change_class}
use power_sim_data.Scenario.Builder.{Builder}
use power_sim_data.Scenario.Creation.{
  Session, transform, list_scenario, list_execution, upload_change_table, add_details, finish,
}
use power_sim_data.Scenario.Run.{add_execution-elsewhere}

module _ {V S : Type 0} where
  -- `finish` goes through from the state create.
  pub finish-returns :
      (s s' : Session V S) (x : Error) → s.scenario.state ≡ create → finish s ≢ (raise x, s')
  unfolding finish finish_create change_class
  finish-returns s s' x fresh =
      ground (arith, contains-append s.classes.create_allowed (execute ∷ []) execute)

  pub add_details-returns :
      (b : Builder V) (s s' : Session V S) (x : Error) → add_details b s ≢ (raise x, s')
  unfolding add_details
  add_details-returns b s s' x = ground arith

  pub transform-raise :
      ⦃num : Number V⦄ (reactance : Grid V → Bus V → Bus V → Result V) (b : Builder V)
      (s s' : Session V S) (x : Error)
      → transform reactance b s ≡ (raise x, s')
      → s'.world ≡ s.world
  unfolding transform
  transform-raise reactance b s s' x h = ground arith

module _ {C H : Type 0} (fs : FileSystem C) (blob : String → Option C) ⦃e : Eq H⦄
    (hash : C → H) where
  open fs use {State, read}

  -- An entry of the execute list that raises leaves the list as it was.
  pub list_execution-raise :
      {V : Type 0} (parse : C → Option (Table String)) (to_csv : Table String → C)
      (s s' : Session V State) (x : Error)
      → list_execution fs blob hash parse to_csv s ≡ (raise x, s')
      → read s'.world.server "ExecuteList.csv" ≡ read s.world.server "ExecuteList.csv"
  unfolding list_execution ExecuteList.add_entry ExecuteList.set_status
  list_execution-raise parse to_csv s s' x h = elim (Option-cases s.info.id) [
    | inl no_id ↦ ground arith
    | inr (i, named) ↦
        let (r, w) = ExecuteList.add_entry fs blob parse hash to_csv i s.world in
        elim (Result-cases (ExecuteList.add_entry fs blob parse hash to_csv i s.world).0) [
          | inl (t, added) ↦ ground arith
          | inr (y, failed) ↦
              let kept =
                verify_hash-raise fs blob parse hash to_csv "ExecuteList.csv"
                  (λ v.
                    let (u, v') = get_table fs blob parse "ExecuteList.csv" v in
                    (ok (insert i "created" u), v'))
                  (λ v. server-get_table fs blob parse "ExecuteList.csv" v) s.world w y
                  (ground arith) in
              ground (arith, kept)
        ]
  ]

  pub list_execution-elsewhere :
      {V : Type 0} (parse : C → Option (Table String)) (to_csv : Table String → C)
      (s : Session V State)
      → read (list_execution fs blob hash parse to_csv s).1.world.server "ScenarioList.csv"
        ≡ read s.world.server "ScenarioList.csv"
  unfolding list_execution temp backup beside
  list_execution-elsewhere parse to_csv s = elim (Option-cases s.info.id) [
    | inl no_id ↦ ground arith
    | inr (i, named) ↦
        let kept =
          add_execution-elsewhere fs blob hash parse to_csv i s.world "ScenarioList.csv" refl
            refl in
        ground (arith, kept)
  ]

  pub list_execution-scenario :
      {V : Type 0} (parse : C → Option (Table String)) (to_csv : Table String → C)
      (s : Session V State)
      → (list_execution fs blob hash parse to_csv s).1.scenario ≡ s.scenario
  unfolding list_execution
  list_execution-scenario parse to_csv s = ground arith

  pub upload-scenario :
      {V : Type 0} (pickle : Ct V → C) (b : Builder V) (s : Session V State)
      → (upload_change_table fs blob pickle b s).1.scenario ≡ s.scenario
  unfolding upload_change_table
  upload-scenario pickle b s = ground arith

  pub list_scenario-raise :
      {V : Type 0} (parse : C → Option (Table Row)) (to_csv : Table Row → C)
      (s s' : Session V State) (x : Error)
      → list_scenario fs blob hash parse to_csv s ≡ (raise x, s')
      → read s'.world.server "ScenarioList.csv" ≡ read s.world.server "ScenarioList.csv"
  unfolding list_scenario
  list_scenario-raise parse to_csv s s' x h =
      let (r, info, w) = ScenarioList.add_entry fs blob parse hash to_csv s.info s.world in
      elim (Result-cases (ScenarioList.add_entry fs blob parse hash to_csv s.info s.world).0) [
        | inl (t, added) ↦ ground arith
        | inr (y, failed) ↦
            let kept =
              add_entry-raise fs blob parse hash to_csv s.info info s.world w y (ground arith) in
            ground (arith, kept)
      ]
