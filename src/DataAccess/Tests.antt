-- ===== src/DataAccess/Tests.antt =====
-- The data store on a file system in memory: two clients push one file.
use power_sim_data.Prelude.{◌≡◌, refl, String, Option, none, some, [], ◌∷◌, string_eq}
use power_sim_data.Prelude.Dict.{Dict, lookup, insert, remove}
use power_sim_data.Prelude.Result.{raise, os_error}
use power_sim_data.DataAccess.{World, temp, backup, multi_read, checksum, push}
use power_sim_data.DataAccess.Memory.{memory}
use power_sim_data.DataAccess.Push.{Replaced, push-Replaced, conflict-blocks, push-no_lost_update}

abbrev no_blob : String → Option String
no_blob p = none

abbrev same : String → String
same c = c

-- The server holds "v1".
abbrev start : World (Dict String String)
start = record { server = ("list.csv", "v1") ∷ []; local = [] }

-- After a push of "v2" over "v1".
abbrev pushed : World (Dict String String)
pushed = record {
  server = ("list.csv", "v2") ∷ ("list.csv~", "v1") ∷ [];
  local = ("list.csv", "v2") ∷ [];
}

-- After a push over "v0", which the server does not hold.
abbrev blocked : World (Dict String String)
blocked = record {
  server = ("list.csv", "v1") ∷ ("list.csv.temp", "v2") ∷ [];
  local = ("list.csv", "v2") ∷ [];
}

-- What a run on these data takes.
run : Unit {0}
unfolding push checksum multi_read temp backup lookup insert remove
run = tt

push-Replaced_example : Replaced (memory String) no_blob same "list.csv" "v1" "v2" start pushed
unfolding run
push-Replaced_example =
    push-Replaced (memory String) no_blob same "list.csv" "v1" "v2" start pushed refl

conflict-blocks_example :
    push (memory String) no_blob same "list.csv" "v1" "v3" blocked ≡ (raise os_error, blocked)
unfolding run
conflict-blocks_example =
    conflict-blocks (memory String) no_blob same "list.csv" "v0" "v2" start blocked blocked "v1"
      "v3" refl refl

push-no_lost_update_example : lookup "list.csv" start.server ≡ some "v1"
unfolding run
push-no_lost_update_example =
    push-no_lost_update (memory String) no_blob same "list.csv" "v1" "v2" start start pushed
      (λ a b h. h) refl refl
