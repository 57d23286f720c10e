-- ===== src/Scenario/Stored.antt =====
-- What the data store holds once a `create_scenario` of powersimdata/scenario/create.py has come to the loading
-- of the state execute.
use power_sim_data.Prelude.{
  ℕ, String, ◌≡◌, ◌⊎◌, refl, ap, ◌∙◌, inl, inr, false, true, Option, none, some, Eq, nat_eq,
  string_eq, ◌==◌, ==_refl, arith,
}
use power_sim_data.Prelude.Dict.{lookup}
use power_sim_data.Prelude.Result.{Result}
use power_sim_data.Number.{Number}
use power_sim_data.Grid.{Bus, Grid}
use power_sim_data.Ct.{Ct}
use power_sim_data.TransformGrid.Apply.{is_empty}
use power_sim_data.DataAccess.{FileSystem, temp, backup, beside}
use power_sim_data.CsvStore.{Table}
use power_sim_data.ScenarioList.{Row}
use power_sim_data.ScenarioList.Entries.{before}
use power_sim_data.ExecuteList.{add_entry}
use power_sim_data.ExecuteList.Laws.{set_status-ok}
use power_sim_data.Scenario.{execute}
use power_sim_data.Scenario.Builder.{Builder}
use power_sim_data.Scenario.Creation.{Session, ct_path}
use power_sim_data.Scenario.Steps.{first_code, ne-ct_path, beside-ct_path}
use power_sim_data.Scenario.Run.{Run, add_execution-elsewhere}
use power_sim_data.Scenario.Loaded.{Loads}

module _ {V C H : Type 0} ⦃num : Number V⦄ (reactance : Grid V → Bus V → Bus V → Result V)
    (fs : FileSystem C) (blob : String → Option C) ⦃e : Eq H⦄ (hash : C → H)
    (parse_list : C → Option (Table Row)) (list_to_csv : Table Row → C)
    (parse_execute : C → Option (Table String)) (execute_to_csv : Table String → C)
    (pickle : Ct V → C) where
  open fs use {State, read}

  -- Both lists have a new id, the change table is there unless it is empty, and the object is in the state
  -- execute.
  pub record Stored (b : Builder V) (s s' : Session V State) : Type 0 where
    pub id : ℕ
    pub row : Row
    pub table : Table Row
    pub statuses : Table String
    pub info : s'.info ≡ record { id = some id; fields = row }
    pub unused : lookup id (before fs blob parse_list hash list_to_csv s.world) ≡ none
    pub added : lookup id table ≡ some row
    pub scenario_list : read s'.world.server "ScenarioList.csv" ≡ some (list_to_csv table)
    pub created : lookup id statuses ≡ some "created"
    pub execute_list : read s'.world.server "ExecuteList.csv" ≡ some (execute_to_csv statuses)
    pub change_table :
        (is_empty b.change_table.ct ≡ true)
        ⊎ (read s'.world.server (ct_path id) ≡ some (pickle b.change_table.ct))
    pub scenario : s'.scenario ≡ record { state = execute; status = some "created" }

  abbrev Ran : Builder V → Session V State → Session V State → Type 0
  Ran b s t =
      Run reactance fs blob hash parse_list list_to_csv parse_execute execute_to_csv pickle b s t

  kept_at_end :
      (p : String) (b : Builder V) (s t s' : Session V State) (run : Ran b s t)
      → ("ExecuteList.csv" == p) ≡ false
      → beside "ExecuteList.csv" p ≡ false
      → Loads t s'
      → read s'.world.server p ≡ read run.world.server p
  kept_at_end p b s t s' run other apart l =
      let kept =
        add_execution-elsewhere fs blob hash parse_execute execute_to_csv run.id run.world p other
          apart in
      ap (λ server. read server p) l.server ∙ ground (arith, kept, run.entry)

  pub Run-Stored :
      (b : Builder V) (s t s' : Session V State) → Ran b s t → Loads t s' → Stored b s s'
  unfolding temp backup beside first_code add_entry
  Run-Stored b s t s' run l =
      let entry =
        set_status-ok fs blob parse_execute hash execute_to_csv run.id "created" run.world t.world
          run.statuses run.entry in
      record {
        id = run.id;
        row = run.row;
        table = run.table;
        statuses = run.statuses;
        info = l.info ∙ run.info;
        unused = run.unused;
        added = run.added;
        scenario_list = kept_at_end "ScenarioList.csv" b s t s' run refl refl l ∙ run.there;
        created = ground (arith, entry.0 run.id, ==_refl run.id);
        execute_list = ap (λ server. read server "ExecuteList.csv") l.server ∙ entry.1;
        change_table = elim run.pickled [
          | inl nothing ↦ inl nothing
          | inr written ↦ inr (
              kept_at_end (ct_path run.id) b s t s' run (ne-ct_path run.id "ExecuteList.csv" refl)
                (beside-ct_path run.id "ExecuteList.csv" refl refl) l
              ∙ written)
        ];
        scenario = l.scenario ∙ run.scenario;
      }
