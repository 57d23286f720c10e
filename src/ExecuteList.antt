-- ===== src/ExecuteList.antt =====
-- powersimdata/data_access/execute_list.py: the status of each scenario.
pub mod Laws
mod Tests
use power_sim_data.Prelude.{ℕ, String, Option, none, some, Eq, nat_eq, string_eq}
use power_sim_data.Prelude.Dict.{lookup, insert}
use power_sim_data.Prelude.Result.{Result, ok, raise, exception}
use power_sim_data.DataAccess.{FileSystem, World}
use power_sim_data.CsvStore.{Table, get_table, verify_hash}
use power_sim_data.ScenarioList.{drop_row}

abbrev pub file_name : String
file_name = "ExecuteList.csv"

-- A row holds the status alone.
unfoldable pub status_in : Table String → ℕ → Result String
status_in t i = elim (lookup i t) [ none ↦ raise exception | some status ↦ ok status ]

module _ {C H : Type 0} (fs : FileSystem C) (blob : String → Option C)
    (parse : C → Option (Table String)) ⦃e : Eq H⦄ (hash : C → H) (to_csv : Table String → C) where
  open fs use {State}

  unfoldable pub get_status : ℕ → World State → Result String × World State
  unfolding status_in
  get_status i w = let (t, w') = get_table fs blob parse file_name w in (status_in t i, w')

  -- `table.loc[int(scenario_id), "status"] = status` writes the row, or adds it.
  unfoldable pub set_status : ℕ → String → World State → Result (Table String) × World State
  set_status i status =
      verify_hash fs blob parse hash to_csv file_name
        (λ w. let (t, w') = get_table fs blob parse file_name w in (ok (insert i status t), w'))

  unfoldable pub add_entry : ℕ → World State → Result (Table String) × World State
  unfolding set_status
  add_entry i = set_status i "created"

  unfoldable pub delete_entry : ℕ → World State → Result (Table String) × World State
  unfolding drop_row
  delete_entry i =
      verify_hash fs blob parse hash to_csv file_name
        (λ w. let (t, w') = get_table fs blob parse file_name w in (drop_row i t, w'))
