-- ===== src/InputData/Tests.antt =====
-- `get_data` on a file system in memory, where another client changes the file in between.
use power_sim_data.Prelude.{◌≡◌, refl, String, Option, none, List, [], ◌∷◌}
use power_sim_data.Prelude.Dict.{Dict, lookup, insert}
use power_sim_data.Prelude.Result.{Result, ok, raise, value_error, os_error}
use power_sim_data.DataAccess.{World, get}
use power_sim_data.DataAccess.Memory.{memory}
use power_sim_data.InputData.{Process, data_path, read_file, get_data}
use power_sim_data.InputData.Uncached.{
  Event, load, elsewhere, answers, uncached, uncached_answers, answers-uncached,
}

abbrev no_blob : String → Option String
no_blob p = none

abbrev unpickle : String → String → Result String
unpickle path c = ok c

abbrev start : World (Dict String String)
start = record { server = ("data/input/1_grid.pkl", "grid") ∷ []; local = [] }

abbrev fetched : Process (Dict String String) String
fetched = record {
  cache = ("data/input/1_grid.pkl", "grid") ∷ [];
  world = record {
    server = ("data/input/1_grid.pkl", "grid") ∷ [];
    local = ("data/input/1_grid.pkl", "grid") ∷ [];
  };
}

abbrev events : List (Event (Dict String String))
events =
    load "1" "grid"
    ∷ elsewhere (("data/input/1_grid.pkl", "other") ∷ [])
    ∷ load "1" "grid"
    ∷ load "1" "ct"
    ∷ load "1" "bus"
    ∷ []

data_path_example : data_path "7" "ct" ≡ ok "data/input/7_ct.pkl"
unfolding data_path lookup
data_path_example = refl

get_data_example :
    get_data (memory String) no_blob unpickle "1" "grid" (record { cache = []; world = start })
    ≡ (ok "grid", fetched)
unfolding get_data lookup insert get
get_data_example = refl

answers-uncached_example :
    answers (memory String) no_blob unpickle events (record { cache = []; world = start })
    ≡ ok "grid" ∷ ok "grid" ∷ raise os_error ∷ raise value_error ∷ []
unfolding answers lookup insert uncached_answers uncached data_path read_file get
answers-uncached_example = answers-uncached (memory String) no_blob unpickle events start
