-- ===== src/ExecuteList/Tests.antt =====
-- The execute list on a file system in memory.
use power_sim_data.Prelude.{
  ◌≡◌, refl, String, Option, none, some, [], ◌∷◌, nat_eq, string_eq, length, inr,
}
use power_sim_data.Prelude.Dict.{Dict, lookup, insert, remove}
use power_sim_data.Prelude.Result.{ok}
use power_sim_data.DataAccess.{World, temp, backup, multi_read, get, copy_from, checksum, push}
use power_sim_data.DataAccess.Memory.{memory}
use power_sim_data.CsvStore.{Table, first_rows, read_table, get_table, verify_hash}
use power_sim_data.ExecuteList.{get_status, set_status, add_entry}
use power_sim_data.ExecuteList.Laws.{get_status-set_status}

abbrev Files : Type 0
Files = Dict String (Table String)

abbrev no_blob : String → Option (Table String)
no_blob p = none

abbrev to_csv : Table String → Table String
to_csv t = t

abbrev old : Table String
old = (3, "finished") ∷ []

abbrev new : Table String
new = (3, "finished") ∷ (4, "created") ∷ []

abbrev start : World Files
start = record { server = ("ExecuteList.csv", old) ∷ []; local = [] }

abbrev added : World Files
added = record {
  server = ("ExecuteList.csv", new) ∷ ("ExecuteList.csv~", old) ∷ [];
  local = ("ExecuteList.csv", new) ∷ [];
}

-- What a run on these data takes.
run : Unit {0}
unfolding push checksum multi_read temp backup get copy_from lookup insert remove read_table
    get_table first_rows verify_hash get_status set_status add_entry
run = tt

get_status-set_status_example :
    (get_status (memory (Table String)) no_blob some length to_csv 3 added).0 ≡ ok "finished"
unfolding run
get_status-set_status_example =
    get_status-set_status (memory (Table String)) no_blob some length to_csv 4 3 "created"
      "finished" start added added new (λ u. refl) refl refl (inr refl)
