-- ===== src/Scenario/Registration.antt =====
-- `create_scenario` of powersimdata/scenario/create.py as seen by every client of the two lists.
use power_sim_data.Prelude.{
  ℕ, String, ◌≡◌, ◌⊎◌, refl, sym, subst, ap, ◌∙◌, inl, inr, false, true, Option, none, some, [], Eq,
  nat_eq, string_eq, ◌==◌, arith,
}
use power_sim_data.Prelude.Dict.{lookup}
use power_sim_data.Prelude.Result.{Result, ok}
use power_sim_data.Number.{Number}
use power_sim_data.Grid.{Bus, Grid}
use power_sim_data.Ct.{Ct}
use power_sim_data.TransformGrid.Apply.{is_empty}
use power_sim_data.DataAccess.{FileSystem, World, temp, backup, beside}
use power_sim_data.CsvStore.{Table}
use power_sim_data.ScenarioList.{Row, by_id, get_scenario}
use power_sim_data.ScenarioList.Entries.{before, get_scenario-read}
use power_sim_data.ExecuteList.{get_status}
use power_sim_data.ExecuteList.Laws.{get_status-add_entry}
use power_sim_data.Scenario.{create, execute}
use power_sim_data.Scenario.Builder.{Builder}
use power_sim_data.Scenario.Creation.{
  Session, ct_path, updated, missing, update_scenario_info, register,
}
use power_sim_data.Prelude.Step.{then-ok}
use power_sim_data.Scenario.Loading.{set_ct_and_grid, create_scenario}
use power_sim_data.Scenario.Loaded.{Loads, set_ct_and_grid-Loads}
use power_sim_data.Scenario.Steps.{first_code, ne-ct_path, beside-ct_path}
use power_sim_data.Scenario.Run.{Run, register-Run, add_execution-elsewhere}

module _ {V C H : Type 0} ⦃num : Number V⦄ (reactance : Grid V → Bus V → Bus V → Result V)
    (fs : FileSystem C) (blob : String → Option C) ⦃e : Eq H⦄ (hash : C → H)
    (parse_list : C → Option (Table Row)) (list_to_csv : Table Row → C)
    (parse_execute : C → Option (Table String)) (execute_to_csv : Table String → C)
    (pickle : Ct V → C) where
  open fs use {State, read}

  -- What the data store holds for a scenario after it was created.
  pub record Registered (b : Builder V) (s s' : Session V State) (v : World State) : Type 0 where
    pub id : ℕ
    pub row : Row
    pub info : s'.info ≡ record { id = some id; fields = row }
    pub fresh : lookup id (before fs blob parse_list hash list_to_csv s.world) ≡ none
    pub listed : (get_scenario fs blob parse_list hash list_to_csv (by_id id) v).0 ≡ some s'.info
    pub status : (get_status fs blob parse_execute hash execute_to_csv id v).0 ≡ ok "created"
    pub change_table :
        (is_empty b.change_table.ct ≡ true)
        ⊎ (read v.server (ct_path id) ≡ some (pickle b.change_table.ct))
    pub scenario : s'.scenario ≡ record { state = execute; status = some "created" }

  abbrev Ran : Builder V → Session V State → Session V State → Type 0
  Ran b s s' =
      Run reactance fs blob hash parse_list list_to_csv parse_execute execute_to_csv pickle b s s'

  kept_at_end :
      (p : String) (b : Builder V) (s s' : Session V State) (run : Ran b s s') (v : World State)
      → ("ExecuteList.csv" == p) ≡ false
      → beside "ExecuteList.csv" p ≡ false
      → v.server ≡ s'.world.server
      → read v.server p ≡ read run.world.server p
  kept_at_end p b s s' run v other apart_from same =
      let kept =
        add_execution-elsewhere fs blob hash parse_execute execute_to_csv run.id run.world p other
          apart_from in
      ground (arith, kept, run.entry)

  Run-Registered :
      (b : Builder V) (s begun s' : Session V State) (v : World State)
      → ((t : Table Row) → parse_list (list_to_csv t) ≡ some t)
      → ((t : Table String) → parse_execute (execute_to_csv t) ≡ some t)
      → begun.world ≡ s.world
      → Ran b begun s'
      → v.server ≡ s'.world.server
      → Registered b s s' v
  unfolding temp backup beside first_code
  Run-Registered b s begun s' v reads_list reads_execute old run same = record {
    id = run.id;
    row = run.row;
    info = run.info;
    fresh =
        ap (λ w. lookup run.id (before fs blob parse_list hash list_to_csv w)) (sym old)
        ∙ run.unused;
    listed =
        get_scenario-read fs blob parse_list hash list_to_csv v run.table run.id run.row
          (reads_list run.table)
          (kept_at_end "ScenarioList.csv" b begun s' run v refl refl same ∙ run.there) run.added
        ∙ ap some (sym run.info);
    status =
        get_status-add_entry fs blob parse_execute hash execute_to_csv run.id run.world s'.world v
          run.statuses reads_execute run.entry same;
    change_table = elim run.pickled [
      | inl nothing ↦ inl nothing
      | inr written ↦ inr (
          kept_at_end (ct_path run.id) b begun s' run v (ne-ct_path run.id "ExecuteList.csv" refl)
            (beside-ct_path run.id "ExecuteList.csv" refl refl) same
          ∙ written)
    ];
    scenario = run.scenario;
  }

  Registered-Loads :
      (b : Builder V) (s t s' : Session V State) (v : World State)
      → Registered b s t v
      → Loads t s'
      → Registered b s s' v
  Registered-Loads b s t s' v r l = record {
    id = r.id;
    row = r.row;
    info = l.info ∙ r.info;
    fresh = r.fresh;
    listed = r.listed ∙ ap some (sym l.info);
    status = r.status;
    change_table = r.change_table;
    scenario = l.scenario ∙ r.scenario;
  }

  -- If csv is read back as it was printed, then once `create_scenario` has gone through with a builder and
  -- no field missing, the id was in no row of the scenario list, whichever client asks for it gets
  -- the entry, with the status "created", the change table is in the data store unless it is empty,
  -- and the object is in the state execute.
  pub create_scenario-Registered :
      (load : String → String → Option String → Result (Grid V × Option String))
      (unpickle : C → Result (Ct V)) (b : Builder V) (s s' : Session V State) (v : World State)
      → ((t : Table Row) → parse_list (list_to_csv t) ≡ some t)
      → ((t : Table String) → parse_execute (execute_to_csv t) ≡ some t)
      → s.scenario.state ≡ create
      → s.builder ≡ some b
      → missing (updated b s.info.fields) ≡ []
      → create_scenario reactance fs blob load unpickle hash parse_list list_to_csv parse_execute
          execute_to_csv pickle s
        ≡ (ok tt, s')
      → v.server ≡ s'.world.server
      → Registered b s s' v
  unfolding create_scenario update_scenario_info
  create_scenario-Registered load unpickle b s s' v reads_list reads_execute fresh built full ran
        same =
      let begun = update_scenario_info s in
      then-ok
        (register reactance fs blob hash parse_list list_to_csv parse_execute execute_to_csv pickle
          b)
        (set_ct_and_grid reactance fs blob load unpickle) begun s' (ground arith)
        λ t registered loaded.
          let run =
            register-Run reactance fs blob hash parse_list list_to_csv parse_execute execute_to_csv
              pickle b begun t (ground arith) registered in
          let loads : Loads t s' =
            subst (λ r. Loads t r.1) loaded
              (set_ct_and_grid-Loads reactance fs blob load unpickle t) in
          Registered-Loads b s t s' v
            (Run-Registered b s begun t v reads_list reads_execute (ground arith) run
              (same ∙ loads.server))
            loads
