-- ===== src/Scenario/Partial.antt =====
-- The two lists after a `create_scenario` of powersimdata/scenario/create.py that raised.
use power_sim_data.Prelude.{
  ℕ, String, ◌≡◌, ◌⊎◌, Option, none, some, [], ◌∷◌, ◌++◌, Eq, nat_eq, string_eq,
}
use power_sim_data.Prelude.Dict.{lookup}
use power_sim_data.Prelude.Result.{Result}
use power_sim_data.Number.{Number}
use power_sim_data.Grid.{Bus, Grid}
use power_sim_data.Ct.{Ct}
use power_sim_data.DataAccess.{FileSystem, World}
use power_sim_data.CsvStore.{Table}
use power_sim_data.ScenarioList.{Row}
use power_sim_data.ScenarioList.Entries.{before}
use power_sim_data.Scenario.{state_eq}
use power_sim_data.Scenario.Builder.{Builder}
use power_sim_data.Scenario.Creation.{Session}
use power_sim_data.Scenario.Loading.{create_scenario}
use power_sim_data.Scenario.Stored.{Stored}

module _ {V C H : Type 0} ⦃num : Number V⦄ (reactance : Grid V → Bus V → Bus V → Result V)
    (fs : FileSystem C) (blob : String → Option C) ⦃e : Eq H⦄ (hash : C → H)
    (parse_list : C → Option (Table Row)) (list_to_csv : Table Row → C)
    (parse_execute : C → Option (Table String)) (execute_to_csv : Table String → C)
    (pickle : Ct V → C) where
  open fs use {State, read}

  -- The execute list is as it was, and the scenario list too, or it has one new row at the end.
  pub record Partial (w w' : World State) : Type 0 where
    pub execute_list : read w'.server "ExecuteList.csv" ≡ read w.server "ExecuteList.csv"
    pub scenario_list :
        (read w'.server "ScenarioList.csv" ≡ read w.server "ScenarioList.csv")
        ⊎ ((i : ℕ) × (row : Row) × (lookup i (before fs blob parse_list hash list_to_csv w) ≡ none)
            × (read w'.server "ScenarioList.csv"
                ≡ some
                    (list_to_csv (before fs blob parse_list hash list_to_csv w ++ (i, row) ∷ []))))

  module _ (load : String → String → Option String → Result (Grid V × Option String))
      (unpickle : C → Result (Ct V)) where
    abbrev creates : Session V State → Result (Unit {0}) × Session V State
    creates =
        create_scenario reactance fs blob load unpickle hash parse_list list_to_csv parse_execute
          execute_to_csv pickle
