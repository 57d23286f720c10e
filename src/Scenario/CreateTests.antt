-- ===== src/Scenario/CreateTests.antt =====
-- Scenarios that are created on a data store in memory.
use power_sim_data.Prelude.Step.{◌then◌}
use power_sim_data.Prelude.{
  ℕ, String, ◌≡◌, refl, true, Option, none, some, [], ◌∷◌, nat_eq, string_eq, arith,
}
use power_sim_data.Prelude.Dict.{Dict, lookup, insert, remove}
use power_sim_data.Prelude.Result.{Result, ok, raise, os_error, value_error}
use power_sim_data.Grid.{Bus, Grid}
use power_sim_data.Grid.Sample.{whole, sample}
use power_sim_data.Ct.{Ct}
use power_sim_data.TransformGrid.Apply.{get_grid, is_empty}
use power_sim_data.ChangeTable.Calls.{new_table}
use power_sim_data.DataAccess.{
  World, temp, backup, multi_read, get, copy_from, checksum, push, write_new,
}
use power_sim_data.DataAccess.Memory.{memory}
use power_sim_data.CsvStore.{Table, first_rows, read_table, get_table, verify_hash}
use power_sim_data.ScenarioList.{Row, Info}
use power_sim_data.ScenarioList
use power_sim_data.ExecuteList
use power_sim_data.Scenario.{loaded, new_scenario, finish_create, change_class}
use power_sim_data.Scenario.Builder.{Builder}
use power_sim_data.Scenario.Creation.{
  Session, default_info, decimal, ct_path, missing, updated, completed, update_scenario_info,
  add_details, finish, transform, list_scenario, upload_change_table, list_execution, register,
}
use power_sim_data.Scenario.Loading.{
  field, get_kwargs, load_base_grid, with_ct, load_ct, ct_of_info, set_ct_and_grid, create_scenario,
}
use power_sim_data.Scenario.Steps.{first_code, ne-ct_path}
use power_sim_data.Scenario.Registration.{Registered, create_scenario-Registered}
use power_sim_data.Scenario.Failure.{now, meanwhile, create_scenario-stuck}
use power_sim_data.Scenario.Partial.{Partial}
use power_sim_data.Scenario.Stored.{Stored}
use power_sim_data.Scenario.Returns.{NoChangeTable, Reaches, create_scenario-Reaches}

-- What a file holds.
pub data Content : Type 0 where
  scenarios : Table Row → Content
  statuses : Table String → Content
  pickled : Ct ℕ → Content

abbrev pub no_blob : String → Option Content
no_blob p = none

abbrev pub parse_list : Content → Option (Table Row)
parse_list (scenarios t) = some t
parse_list _ = none

abbrev pub parse_execute : Content → Option (Table String)
parse_execute (statuses t) = some t
parse_execute _ = none

-- No two of the files are compared.
abbrev pub hash : Content → ℕ
hash c = 0

abbrev reactance : Grid ℕ → Bus ℕ → Bus ℕ → Result ℕ
reactance g from to = ok 1

-- The one grid model that there is.
abbrev load : String → String → Option String → Result (Grid ℕ × Option String)
load name model reduction = ok (sample, none)

abbrev unpickle : Content → Result (Ct ℕ)
unpickle (pickled ct) = ok ct
unpickle _ = raise value_error

abbrev pub Store : Type 0
Store = Dict String Content

abbrev start : World Store
start = record {
  server =
      ("ScenarioList.csv", scenarios ((3, ("name", "base") ∷ []) ∷ []))
      ∷ ("ExecuteList.csv", statuses ((3, "created") ∷ []))
      ∷ [];
  local = [];
}

-- An upload of the execute list is in the way.
abbrev blocked : World Store
blocked = record {
  server =
      ("ScenarioList.csv", scenarios ((3, ("name", "base") ∷ []) ∷ []))
      ∷ ("ExecuteList.csv", statuses ((3, "created") ∷ []))
      ∷ ("ExecuteList.csv.temp", statuses [])
      ∷ [];
  local = [];
}

abbrev pub builder : Builder ℕ
builder = record {
  from_csv = true;
  grid_model = "usa_tamu";
  interconnect = "Texas";
  existing = [];
  plan_name = "test";
  scenario_name = "wind";
  start_date = "2016-01-01 00:00:00";
  end_date = "2016-12-31 23:00:00";
  interval = "24H";
  demand = "v1";
  hydro = "v1";
  solar = "v1";
  wind = "v1";
  engine = "REISE.jl";
  version = none;
  base_grid = sample;
  change_table = new_table sample;
}

abbrev begun : World Store → Session ℕ Store
begun w = record {
  info = record {
    id = none;
    fields = insert "interconnect" "Texas" (insert "grid_model" "usa_tamu" default_info.fields);
  };
  builder = some builder;
  grid = none;
  ct = none;
  scenario = new_scenario;
  classes = loaded;
  memory = [];
  world = w;
}

run : Unit {0}
unfolding push checksum multi_read temp backup get copy_from lookup insert remove read_table
    get_table first_rows verify_hash write_new ScenarioList.generate_scenario_id
    ScenarioList.appended ScenarioList.add_entry ExecuteList.set_status ExecuteList.add_entry
    is_empty get_grid finish_create change_class ◌then◌ decimal ct_path missing updated completed
    update_scenario_info add_details finish transform list_scenario upload_change_table
    list_execution register field get_kwargs load_base_grid with_ct load_ct ct_of_info
    set_ct_and_grid create_scenario
run = tt

abbrev result : World Store → Result (Unit {0}) × Session ℕ Store
result w =
    create_scenario reactance (memory Content) no_blob load unpickle hash parse_list scenarios
      parse_execute statuses pickled (begun w)

-- An object after a call, and the call itself, with the state it leaves.
abbrev created : Session ℕ Store
created = (result start).1

abbrev failed : Session ℕ Store
failed = (result blocked).1

no_change_tables :
    NoChangeTable reactance
      (memory Content)
      no_blob
      hash
      parse_list
      scenarios
      parse_execute
      statuses
      pickled
      start
unfolding multi_read lookup first_code
no_change_tables i unused =
    ground (arith, ne-ct_path i "ScenarioList.csv" refl, ne-ct_path i "ExecuteList.csv" refl)

create_scenario-Reaches_example :
    Reaches reactance
      (memory Content)
      no_blob
      hash
      parse_list
      scenarios
      parse_execute
      statuses
      pickled
      load
      unpickle
      builder
      (begun start)
unfolding run
create_scenario-Reaches_example =
    create_scenario-Reaches reactance (memory Content) no_blob hash parse_list scenarios
      parse_execute statuses pickled load unpickle builder (begun start) sample refl refl refl refl
      (record { content = scenarios ((3, ("name", "base") ∷ []) ∷ []); there = refl; free = refl })
      (record { content = statuses ((3, "created") ∷ []); there = refl; free = refl })
      no_change_tables

create_scenario-returns_example : (result start).0 ≡ ok tt
unfolding run
create_scenario-returns_example = refl

create_scenario-Registered_example :
    Registered reactance
      (memory Content)
      no_blob
      hash
      parse_list
      scenarios
      parse_execute
      statuses
      pickled
      builder
      (begun start)
      created
      created.world
unfolding run
create_scenario-Registered_example =
    create_scenario-Registered reactance (memory Content) no_blob hash parse_list scenarios
      parse_execute statuses pickled load unpickle builder (begun start) created created.world
      (λ t. refl) (λ t. refl) refl refl refl refl refl

abbrev again : Session ℕ Store → Result (Unit {0}) × Session ℕ Store
again s =
    create_scenario reactance (memory Content) no_blob load unpickle hash parse_list scenarios
      parse_execute statuses pickled s

-- Another client takes the upload out of the way.
abbrev unblocked : Session ℕ Store
unblocked = record failed { world = start; classes = failed.classes }

create_scenario-stuck_example :
    ((again unblocked).0 ≡ ok tt)
    × ((again unblocked).1.world ≡ unblocked.world)
    × ((again unblocked).1.scenario ≡ unblocked.scenario)
    × ((again unblocked).1.classes ≡ unblocked.classes)
unfolding run
create_scenario-stuck_example =
    create_scenario-stuck reactance (memory Content) no_blob hash parse_list scenarios parse_execute
      statuses pickled load unpickle builder (begun blocked) failed unblocked os_error refl refl
      refl refl (meanwhile now start failed.classes)
