-- ===== src/Scenario/GetBuilder.antt =====
-- `get_builder` of powersimdata/scenario/create.py, with the constructors of the builders. `load` is
-- `Grid(…)`, which reads the csv files of a grid model or downloads a network, with the grid's version.
use Prim.Native.String.{◌++◌ as append}
use power_sim_data.Prelude.{
  String, Bool, true, false, Option, none, some, List, [], ◌∷◌, select, string_eq, if◌then◌else◌,
}
use power_sim_data.Prelude.Dict.{Dict, lookup}
use power_sim_data.Prelude.Result.{Result, ok, raise, key_error, ◌>>=◌, ◌>>◌}
use power_sim_data.Grid.{Grid}
use power_sim_data.ChangeTable.Calls.{new_table}
use power_sim_data.CsvStore.{Table}
use power_sim_data.ScenarioList.{Row}
use power_sim_data.Scenario.Interconnect.{check_model, interconnect_to_name}
use power_sim_data.Scenario.Builder.{Builder, has}

-- `model2builder`, where true is the class `FromCSV`.
abbrev model2builder : Dict String Bool
model2builder = ("usa_tamu", true) ∷ ("hifld", true) ∷ ("europe_tub", false) ∷ []

-- `f"{self.base_grid.version}"` with the reduction, the profiles of `FromPyPSA`.
unfoldable pub pypsa_profile : Option String → Option String → String
pypsa_profile version reduction =
    let shown : String = elim version [ none ↦ "None" | some v ↦ v ] in
    elim reduction [ none ↦ shown | some r ↦ append shown (append "_" r) ]

module _ {V : Type 0}
    (load : String → String → Option String → Result (Grid V × Option String)) where
  -- `FromCSV.__init__` and `FromPyPSA.__init__`
  unfoldable pub new_builder :
      Bool → String → String → Table Row → Option String → Grid V × Option String → Builder V
  unfolding has pypsa_profile
  new_builder from_csv grid_model interconnect table reduction (grid, version) =
      let profile = if from_csv then "" else pypsa_profile version reduction in
      record {
        from_csv = from_csv;
        grid_model = grid_model;
        interconnect = interconnect;
        existing = select (has "interconnect" interconnect) table;
        plan_name = "";
        scenario_name = "";
        start_date = "2016-01-01 00:00:00";
        end_date = "2016-12-31 23:00:00";
        interval = "24H";
        demand = profile;
        hydro = profile;
        solar = profile;
        wind = profile;
        engine = "REISE.jl";
        version = version;
        base_grid = grid;
        change_table = new_table grid;
      }

  unfoldable pub get_builder : String → List String → Table Row → Option String → Result (Builder V)
  unfolding new_builder
  get_builder grid_model interconnect table reduction =
      check_model grid_model >> elim (lookup grid_model model2builder) [
        | none ↦ raise key_error
        | some from_csv ↦ interconnect_to_name interconnect grid_model >>= λ name.
            load name grid_model (if from_csv then none else reduction) >>= λ loaded.
            ok (new_builder from_csv grid_model name table reduction loaded)
      ]
