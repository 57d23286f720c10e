-- ===== src/ScenarioList/Tests.antt =====
-- The scenario list on a file system in memory: a file holds its table.
use power_sim_data.Prelude.{
  ℕ, ◌≡◌, ◌≢◌, refl, String, Option, none, some, [], ◌∷◌, ◌++◌, nat_eq, string_eq, ◌==◌, length,
  if◌then◌else◌,
}
use power_sim_data.Prelude.Dict.{Dict, lookup, insert, remove}
use power_sim_data.Prelude.Result.{ok}
use power_sim_data.DataAccess.{World, temp, backup, multi_read, get, copy_from, checksum, push}
use power_sim_data.DataAccess.Memory.{memory}
use power_sim_data.CsvStore.{Table, first_rows, read_table, get_table, verify_hash}
use power_sim_data.CsvStore.Laws.{lookup-get_table}
use power_sim_data.ScenarioList.{
  Row, Info, generate_scenario_id, by_id, find_scenario, get_scenario, appended, add_entry,
  delete_entry,
}
use power_sim_data.ScenarioList.Entries.{
  add_entry-ok, add_entry-returns, get_scenario-add_entry, delete_entry-ok,
}

abbrev Files : Type 0
Files = Dict String (Table Row)

abbrev no_blob : String → Option (Table Row)
no_blob p = none

abbrev to_csv : Table Row → Table Row
to_csv t = t

abbrev base : Row
base = ("name", "base") ∷ []

abbrev wind : Row
wind = ("name", "wind") ∷ []

abbrev wind_info : Info
wind_info = record { id = some 4; fields = wind }

abbrev old : Table Row
old = (3, base) ∷ []

abbrev new : Table Row
new = (3, base) ∷ (4, wind) ∷ []

abbrev start : World Files
start = record { server = ("ScenarioList.csv", old) ∷ []; local = [] }

abbrev added : World Files
added = record {
  server = ("ScenarioList.csv", new) ∷ ("ScenarioList.csv~", old) ∷ [];
  local = ("ScenarioList.csv", new) ∷ [];
}

-- An upload is in the way.
abbrev blocked : World Files
blocked = record {
  server = ("ScenarioList.csv", old) ∷ ("ScenarioList.csv.temp", old) ∷ [];
  local = [];
}

-- The table was downloaded before the push was refused.
abbrev refused : World Files
refused = record {
  server = ("ScenarioList.csv", old) ∷ ("ScenarioList.csv.temp", old) ∷ [];
  local = ("ScenarioList.csv", old) ∷ [];
}

abbrev deleted : World Files
deleted = record {
  server = ("ScenarioList.csv", []) ∷ ("ScenarioList.csv~", old) ∷ [];
  local = ("ScenarioList.csv", []) ∷ [];
}

-- What a run on these data takes.
run : Unit {0}
unfolding push checksum multi_read temp backup get copy_from lookup insert remove read_table
    get_table first_rows verify_hash generate_scenario_id find_scenario get_scenario appended
    add_entry delete_entry
run = tt

-- The hash is the number of rows.
add_entry-ok_example :
    (wind_info ≡ wind_info)
    × (lookup 4 old ≡ none)
    × (new ≡ old ++ (4, wind) ∷ [])
    × (lookup "ScenarioList.csv" added.server ≡ some new)
unfolding run
add_entry-ok_example =
    add_entry-ok (memory (Table Row)) no_blob some length to_csv
      (record { id = none; fields = wind }) (record { id = some 4; fields = wind }) start added new
      refl

add_entry-returns_example :
    (add_entry
      (memory (Table Row))
      no_blob
      some
      length
      to_csv
      (record { id = none; fields = wind })
      start).0
    ≡ ok new
unfolding run
add_entry-returns_example =
    add_entry-returns (memory (Table Row)) no_blob some length to_csv
      (record { id = none; fields = wind }) start old refl refl

get_scenario-add_entry_example :
    (get_scenario (memory (Table Row)) no_blob some length to_csv (by_id 4) added).0
    ≡ some (record { id = some 4; fields = wind })
unfolding run
get_scenario-add_entry_example =
    get_scenario-add_entry (memory (Table Row)) no_blob some length to_csv
      (record { id = none; fields = wind }) (record { id = some 4; fields = wind }) start added
      added new 4 (λ u. refl) refl refl refl

delete_entry-ok_example :
    (lookup 3 old ≢ none)
    × ((j : ℕ) → lookup j [] ≡ (if 3 == j then none else lookup j old))
    × (lookup "ScenarioList.csv" deleted.server ≡ some [])
unfolding run
delete_entry-ok_example =
    delete_entry-ok (memory (Table Row)) no_blob some length to_csv 3 start deleted [] refl

lookup-get_table_example :
    lookup 3 (get_table (memory (Table Row)) no_blob some "ScenarioList.csv" start).0 ≡ some base
unfolding run
lookup-get_table_example =
    lookup-get_table (memory (Table Row)) no_blob some "ScenarioList.csv" start old old refl refl 3
