-- ===== src/Scenario/Tests.antt =====
-- Scenarios that share their classes, and the gates on an execute list in memory.
use power_sim_data.Prelude.{
  ◌≡◌, refl, String, false, Option, none, some, [], ◌∷◌, nat_eq, string_eq, length,
}
use power_sim_data.Prelude.Dict.{Dict, lookup, insert, remove}
use power_sim_data.Prelude.Result.{ok, raise, value_error}
use power_sim_data.DataAccess.{World, temp, backup, multi_read, get, copy_from, checksum, push}
use power_sim_data.DataAccess.Memory.{memory}
use power_sim_data.CsvStore.{Table, first_rows, read_table, get_table, verify_hash}
use power_sim_data.ExecuteList.{get_status, set_status}
use power_sim_data.Scenario.{
  execute, analyze, delete, loaded, Scenario, switch, finish_create, new_scenario,
}
use power_sim_data.Scenario.Shared.{finish_create-new_scenario}
use power_sim_data.Scenario.Gates.{check_if_ready, extract_simulation_output, set_status-gates}

abbrev running : Scenario
running = record { state = execute; status = some "created" }

abbrev stopped : Scenario
stopped = record { state = delete; status = some "created" }

abbrev analyzed : Scenario
analyzed = record { state = analyze; status = some "finished" }

finish_create-new_scenario_example :
    ((switch (raise value_error) execute new_scenario ((finish_create new_scenario loaded).1)).0
      ≡ raise value_error)
    × ((switch (raise value_error) execute new_scenario ((finish_create new_scenario loaded).1)).1
        ≡ record new_scenario { state = execute })
finish_create-new_scenario_example =
    finish_create-new_scenario (raise value_error) new_scenario loaded refl

abbrev no_blob : String → Option (Table String)
no_blob p = none

abbrev to_csv : Table String → Table String
to_csv t = t

abbrev old : Table String
old = (3, "created") ∷ []

abbrev new : Table String
new = (3, "prepared") ∷ []

abbrev before_set : World (Dict String (Table String))
before_set = record { server = ("ExecuteList.csv", old) ∷ []; local = [] }

abbrev after_set : World (Dict String (Table String))
after_set = record {
  server = ("ExecuteList.csv", new) ∷ ("ExecuteList.csv~", old) ∷ [];
  local = ("ExecuteList.csv", new) ∷ [];
}

-- What a run on these data takes.
run : Unit {0}
unfolding push checksum multi_read temp backup get copy_from lookup insert remove read_table
    get_table first_rows verify_hash get_status set_status
run = tt

set_status-gates_example :
    ((check_if_ready (memory (Table String)) no_blob some length to_csv 3 after_set).0 ≡ ok tt)
    × ((extract_simulation_output (memory (Table String)) no_blob some length to_csv 3 after_set).0
        ≡ ok false)
unfolding run
set_status-gates_example =
    set_status-gates (memory (Table String)) no_blob some length to_csv 3 "prepared" before_set
      after_set after_set new (λ u. refl) refl refl
