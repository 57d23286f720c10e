-- ===== src/Scenario/Run.antt =====
-- The steps of a `create_scenario` of powersimdata/scenario/create.py that goes through.
use power_sim_data.Prelude.Step.{then-ok}
use power_sim_data.Prelude.{
  ℕ, String, ◌≡◌, ◌⊎◌, refl, sym, ap, ◌∙◌, false, true, Option, none, some, Eq, nat_eq, string_eq,
  ◌==◌, arith,
}
use power_sim_data.Prelude.Dict.{lookup}
use power_sim_data.Prelude.Result.{Result, ok}
use power_sim_data.Number.{Number}
use power_sim_data.Grid.{Bus, Grid}
use power_sim_data.Ct.{Ct}
use power_sim_data.TransformGrid.Apply.{is_empty}
use power_sim_data.DataAccess.{FileSystem, World, beside}
use power_sim_data.CsvStore.{Table}
use power_sim_data.CsvStore.Laws.{server-get_table}
use power_sim_data.CsvStore.Elsewhere.{verify_hash-elsewhere}
use power_sim_data.ScenarioList.{Row, Info, by_id, get_scenario, appended}
use power_sim_data.ScenarioList
use power_sim_data.ScenarioList.Entries.{before, lookup-snoc}
use power_sim_data.ExecuteList
use power_sim_data.ExecuteList.{get_status}
use power_sim_data.Scenario.{create, execute}
use power_sim_data.Scenario.Builder.{Builder}
use power_sim_data.Scenario.Creation.{
  Session, ct_path, list_scenario, upload_change_table, register,
}
use power_sim_data.Scenario.Steps.{first_code, upload_change_table-elsewhere}
use power_sim_data.Scenario.Created.{
  add_details-ok, transform-ok, list_scenario-ok, upload_change_table-ok, list_execution-ok,
  finish-ok,
}

module _ {C H : Type 0} (fs : FileSystem C) (blob : String → Option C) ⦃e : Eq H⦄
    (hash : C → H) where
  open fs use {State, read}

  -- The execute list is a file of its own.
  pub add_execution-elsewhere :
      (parse : C → Option (Table String)) (to_csv : Table String → C) (i : ℕ) (w : World State)
      (p : String)
      → ("ExecuteList.csv" == p) ≡ false
      → beside "ExecuteList.csv" p ≡ false
      → read (ExecuteList.add_entry fs blob parse hash to_csv i w).1.server p ≡ read w.server p
  unfolding ExecuteList.add_entry ExecuteList.set_status
  add_execution-elsewhere parse to_csv i w p other apart_from =
      verify_hash-elsewhere fs blob parse hash to_csv "ExecuteList.csv" p other apart_from _ w
        (server-get_table fs blob parse "ExecuteList.csv" w)

  pub list_scenario-elsewhere :
      {V : Type 0} (parse : C → Option (Table Row)) (to_csv : Table Row → C) (s : Session V State)
      (p : String)
      → ("ScenarioList.csv" == p) ≡ false
      → beside "ScenarioList.csv" p ≡ false
      → read (list_scenario fs blob hash parse to_csv s).1.world.server p ≡ read s.world.server p
  unfolding list_scenario ScenarioList.add_entry
  list_scenario-elsewhere parse to_csv s p other apart_from =
      let kept =
        verify_hash-elsewhere fs blob parse hash to_csv "ScenarioList.csv" p other apart_from
          (appended fs blob parse hash to_csv s.info.fields) s.world
          (server-get_table fs blob parse "ScenarioList.csv" s.world) in
      ground (arith, kept)

module _ {V C H : Type 0} ⦃num : Number V⦄ (reactance : Grid V → Bus V → Bus V → Result V)
    (fs : FileSystem C) (blob : String → Option C) ⦃e : Eq H⦄ (hash : C → H)
    (parse_list : C → Option (Table Row)) (list_to_csv : Table Row → C)
    (parse_execute : C → Option (Table String)) (execute_to_csv : Table String → C)
    (pickle : Ct V → C) where
  open fs use {State, read}

  same_upload :
      (p : String)
      → (first_code p == 100) ≡ false
      → (b : Builder V) (s₃ s₄ : Session V State)
      → upload_change_table fs blob pickle b s₃ ≡ (ok tt, s₄)
      → read s₄.world.server p ≡ read s₃.world.server p
  same_upload p starts b s₃ s₄ uploaded =
      let kept = upload_change_table-elsewhere fs blob pickle b s₃ p starts in ground (arith, kept)

  -- A run to the end: the world in which the entry of the execute list was made, and what it held.
  pub record Run (b : Builder V) (s s' : Session V State) : Type 0 where
    pub id : ℕ
    pub row : Row
    pub table : Table Row
    pub statuses : Table String
    pub world : World State
    pub info : s'.info ≡ record { id = some id; fields = row }
    pub unused : lookup id (before fs blob parse_list hash list_to_csv s.world) ≡ none
    pub added : lookup id table ≡ some row
    pub there : read world.server "ScenarioList.csv" ≡ some (list_to_csv table)
    pub pickled :
        (is_empty b.change_table.ct ≡ true)
        ⊎ (read world.server (ct_path id) ≡ some (pickle b.change_table.ct))
    pub entry :
        ExecuteList.add_entry fs blob parse_execute hash execute_to_csv id world
        ≡ (ok statuses, s'.world)
    pub scenario : s'.scenario ≡ record { state = execute; status = some "created" }

  pub register-Run :
      (b : Builder V) (s s' : Session V State)
      → s.scenario.state ≡ create
      → register reactance fs blob hash parse_list list_to_csv parse_execute execute_to_csv pickle b
          s
        ≡ (ok tt, s')
      → Run b s s'
  unfolding register first_code
  register-Run b s s' fresh ran = then-ok _ _ s s' ran λ s₁ details ran₁.
      then-ok _ _ s₁ s' ran₁ λ s₂ transformed ran₂. then-ok _ _ s₂ s' ran₂ λ s₃ listed ran₃.
        then-ok _ _ s₃ s' ran₃ λ s₄ uploaded ran₄. then-ok _ _ s₄ s' ran₄ λ s₅ executed finished.
          let a = add_details-ok b s s₁ details in
          let g = transform-ok reactance b s₁ s₂ transformed in
          let (i, t, info, kept, unused, table, there) =
            list_scenario-ok fs blob hash parse_list list_to_csv s₂ s₃ listed in
          let named : s₃.info.id ≡ some i = ap (λ x. x.id) info in
          let u = upload_change_table-ok fs blob pickle b s₃ s₄ i named uploaded in
          let (te, entry, info', kept') =
            list_execution-ok fs blob hash parse_execute execute_to_csv s₄ s₅ i
              (ap (λ x. x.id) u.0 ∙ named) executed in
          let f = finish-ok s₅ s' (ground arith) finished in
          let old = ap (before fs blob parse_list hash list_to_csv) (g.2 ∙ a.2) in
          record {
            id = i;
            row = s₂.info.fields;
            table = t;
            statuses = te;
            world = s₄.world;
            info = f.1 ∙ info' ∙ u.0 ∙ info;
            unused = ap (lookup i) (sym old) ∙ unused;
            added = ap (lookup i) table ∙ lookup-snoc _ i s₂.info.fields unused;
            there = same_upload "ScenarioList.csv" refl b s₃ s₄ uploaded ∙ there;
            pickled = u.2;
            entry = ground (arith, entry, f.2);
            scenario = f.0;
          }
