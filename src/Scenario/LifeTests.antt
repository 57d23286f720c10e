-- ===== src/Scenario/LifeTests.antt =====
-- Scenarios that are named, dated, prepared and deleted, on a data store in memory.
use power_sim_data.Prelude.{
  ℕ, String, ◌≡◌, refl, Bool, true, false, ◌&&◌, Option, none, [], ◌∷◌, any, All, nat_eq, string_eq,
  ◌==◌, if◌then◌else◌, arith,
}
use power_sim_data.Prelude.Dict.{lookup, insert, remove, lookup-remove}
use power_sim_data.Prelude.Result.{Result, ok, raise, value_error, os_error}
use power_sim_data.Prelude.Step.{◌then◌}
use power_sim_data.Ct.{FlexValue}
use power_sim_data.DataAccess.{
  World, temp, backup, multi_read, get, copy_from, checksum, push, write_new,
}
use power_sim_data.DataAccess.Memory.{memory}
use power_sim_data.CsvStore.{first_rows, read_table, get_table, verify_hash}
use power_sim_data.ScenarioList.{Row}
use power_sim_data.ScenarioList
use power_sim_data.ExecuteList
use power_sim_data.ExecuteList.{get_status}
use power_sim_data.Scenario.CreateTests.{
  Content, scenarios, statuses, no_blob, parse_list, parse_execute, hash, Store, builder,
}
use power_sim_data.Scenario.Builder.{
  Builder, has, set_name, set_time, check_time_range, check_range, check_interval,
}
use power_sim_data.Scenario.Settings.{set_name-eq, ValidTime, set_time-ok}
use power_sim_data.Scenario.Gates.{check_if_ready}
use power_sim_data.Scenario.Creation.{decimal}
use power_sim_data.Scenario.Preparation.{
  base_kinds, tmp_folder, in_tmp_folder, profile_path, prepare_profile, prepare_profiles,
  prepare_grid, prepare_flexibility, prepare_files, set_prepared, prepare_simulation_input,
}
use power_sim_data.Scenario.Prepared.{HasProfile, HasGrid, prepare_simulation_input-ok}
use power_sim_data.Scenario.PrepareAgain.{prepare_simulation_input-again}
use power_sim_data.Scenario.Deletion.{go_on, remove_files, delete_entries, delete_scenario}
use power_sim_data.Scenario.Deletion
use power_sim_data.Scenario.Deleted.{Deleted, delete_scenario-cancelled}

abbrev taken : Builder ℕ
taken = record builder { existing = (3, ("plan", "test") ∷ ("name", "wind") ∷ []) ∷ [] }

set_name-eq_example : set_name "test" "wind" taken ≡ (
    if any (λ r. has "plan" "test" r && has "name" "wind" r) taken.existing
    then (raise value_error, taken)
    else (ok tt, record taken { plan_name = "test"; scenario_name = "wind" }))
set_name-eq_example = set_name-eq "test" "wind" taken

-- The year starts at 0, and a date is its day.
abbrev timestamp : String → Result ℕ
timestamp date =
    if date == "2016-01-01 00:00:00"
    then ok 0
    else if date == "2016-12-31 23:00:00"
    then ok 31618800
    else ok 82800

abbrev hours : String → Result ℕ
hours interval = ok 24

abbrev first_day : Builder ℕ
first_day = record builder {
  start_date = "2016-01-01 00:00:00";
  end_date = "2016-01-01 23:00:00";
  interval = "24H";
}

set_time-ok_example :
    ValidTime timestamp hours "2016-01-01 00:00:00" "2016-01-01 23:00:00" "24H"
    × (first_day ≡ record builder {
      start_date = "2016-01-01 00:00:00";
      end_date = "2016-01-01 23:00:00";
      interval = "24H";
    })
unfolding set_time check_time_range check_range check_interval
set_time-ok_example =
    set_time-ok timestamp hours "2016-01-01 00:00:00" "2016-01-01 23:00:00" "24H" builder first_day
      refl refl

abbrev profile : String → Result Content
profile kind = ok (statuses ((0, kind) ∷ []))

abbrev grid_file : Result Content
grid_file = ok (statuses [])

abbrev flexibility_csv : Option FlexValue → Content
flexibility_csv duration = statuses []

abbrev start : World Store
start = record {
  server =
      ("ScenarioList.csv", scenarios ((3, ("name", "base") ∷ []) ∷ []))
      ∷ ("ExecuteList.csv", statuses ((3, "created") ∷ []))
      ∷ [];
  local = [];
}

run : Unit {0}
unfolding push checksum multi_read temp backup get copy_from lookup insert remove read_table
    get_table first_rows verify_hash write_new ScenarioList.drop_row ScenarioList.delete_entry
    ExecuteList.status_in get_status ExecuteList.set_status ExecuteList.delete_entry ◌then◌ decimal
    tmp_folder in_tmp_folder profile_path prepare_profile prepare_profiles prepare_grid
    prepare_flexibility prepare_files set_prepared prepare_simulation_input go_on Deletion.remove
    remove_files delete_entries delete_scenario check_if_ready
run = tt

abbrev prepares : (String → Result Content) → World Store → Result (Unit {0}) × World Store
prepares profiles =
    prepare_simulation_input (memory Content) no_blob profiles grid_file flexibility_csv hash
      parse_execute statuses 3 none none

abbrev prepared : World Store
prepared = (prepares profile start).1

prepare_simulation_input-ok_example :
    ((check_if_ready (memory Content) no_blob parse_execute hash statuses 3 prepared).0 ≡ ok tt)
    × All (HasProfile (memory Content) no_blob profile 3 prepared.server) base_kinds
    × HasGrid (memory Content) no_blob profile grid_file flexibility_csv 3 prepared.server
unfolding run
prepare_simulation_input-ok_example =
    prepare_simulation_input-ok (memory Content) no_blob profile grid_file flexibility_csv hash
      parse_execute statuses 3 none start prepared prepared (λ u. refl) refl refl refl

-- No solar profile.
abbrev cloudy : String → Result Content
cloudy kind = if kind == "solar" then raise os_error else ok (statuses [])

abbrev halfway : World Store
halfway = (prepares cloudy start).1

prepare_simulation_input-again_example : (prepares cloudy halfway).0 ≡ raise os_error
unfolding run
prepare_simulation_input-again_example =
    prepare_simulation_input-again (memory Content) no_blob cloudy grid_file flexibility_csv hash
      parse_execute statuses 3 (statuses []) none none start halfway halfway os_error refl refl refl
      refl refl

abbrev purge : Store → String → String → Store
purge s base_dir pattern = s

abbrev deletes : Bool → Result Bool × World Store
deletes answer =
    delete_scenario (memory Content) (λ d p. answer) purge no_blob hash parse_list scenarios
      parse_execute statuses 3 true start

-- A store in which the scenario has its change table, which the first removal takes away; the second one
-- is turned down.
abbrev stored : World Store
stored = record {
  server = ("data/input/3_ct.pkl", statuses []) ∷ start.server;
  local = start.local;
}

abbrev purge_ct : Store → String → String → Store
purge_ct s base_dir pattern = if base_dir == "data/input" then remove "data/input/3_ct.pkl" s else s

abbrev turned_down : Result Bool × World Store
turned_down =
    delete_scenario (memory Content) (λ d p. d == "data/input") purge_ct no_blob hash parse_list
      scenarios parse_execute statuses 3 true stored

purge_ct-kept :
    (s : Store) (base_dir pattern p : String)
    → ("data/input/3_ct.pkl" == p) ≡ false
    → lookup p (purge_ct s base_dir pattern) ≡ lookup p s
unfolding lookup remove
purge_ct-kept s base_dir pattern p other = ground (arith, lookup-remove "data/input/3_ct.pkl" p s)

turned_down_example : lookup "data/input/3_ct.pkl" turned_down.1.server ≡ none
unfolding run
turned_down_example = refl

delete_scenario-cancelled_example :
    (true ≡ true)
    × (lookup "ScenarioList.csv" turned_down.1.server ≡ lookup "ScenarioList.csv" stored.server)
    × (lookup "ExecuteList.csv" turned_down.1.server ≡ lookup "ExecuteList.csv" stored.server)
unfolding run
delete_scenario-cancelled_example =
    delete_scenario-cancelled (memory Content) (λ d p. d == "data/input") purge_ct no_blob hash
      parse_list scenarios parse_execute statuses 3 true stored turned_down.1
      (λ s b p inside.
        (purge_ct-kept s b p "ScenarioList.csv" refl, purge_ct-kept s b p "ExecuteList.csv" refl))
      refl
