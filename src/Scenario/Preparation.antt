-- ===== src/Scenario/Preparation.antt =====
-- `prepare_simulation_input` of powersimdata/scenario/execute.py with `SimulationInput`. The profiles come
-- from `TransformProfile` and the grid from `prepare_grid`'s adjustments: both are arguments, as the
-- contents that are written, and so is the printing of the flexibility parameters by pandas.
use Prim.Native.String.{◌++◌ as append}
use power_sim_data.Prelude.{
  ℕ, String, false, not, Option, none, some, List, [], ◌∷◌, Eq, nat_eq, string_eq, ◌==◌, select,
  if◌then◌else◌,
}
use power_sim_data.Prelude.Dict.{Dict, keys, lookup}
use power_sim_data.Prelude.Result.{Result, ok, raise, exception}
use power_sim_data.Prelude.Step.{Step, ◌then◌}
use power_sim_data.Ct.{FlexValue}
use power_sim_data.DataAccess.{FileSystem, World, found, multi_read, write_new}
use power_sim_data.CsvStore.{Table}
use power_sim_data.ExecuteList.{get_status, set_status}
use power_sim_data.Scenario.Creation.{decimal}

-- `DataAccess.tmp_folder` of powersimdata/data_access/data_access.py
unfoldable pub tmp_folder : ℕ → String
tmp_folder i = append "tmp/scenario_" (decimal i)

unfoldable pub in_tmp_folder : ℕ → String → String
unfolding tmp_folder
in_tmp_folder i file = append (tmp_folder i) (append "/" file)

unfoldable pub profile_path : ℕ → String → String
unfolding in_tmp_folder
profile_path i kind = in_tmp_folder i (append kind ".csv")

abbrev pub base_kinds : List String
base_kinds = "demand" ∷ "hydro" ∷ "solar" ∷ "wind" ∷ []

module _ {C : Type 0} (fs : FileSystem C) (blob : String → Option C) where
  open fs use {State, write}

  -- `self._data_access.fs.copy(src, dest_path)`, which overwrites nothing. Directories are not modelled: the
  -- folder of the scenario is taken to be there.
  unfoldable pub copy_file : String → String → Step (World State)
  unfolding multi_read
  copy_file src dest w =
      if found (multi_read fs blob w.server dest)
      then (raise exception, w)
      else elim (multi_read fs blob w.server src) [
        | none ↦ (raise exception, w)
        | some c ↦ (ok tt, record w { server = write w.server dest c })
      ]

  module _ (profile : String → Result C) where
    unfoldable pub prepare_profile : ℕ → Option ℕ → String → Step (World State)
    unfolding copy_file profile_path
    prepare_profile i profiles_as kind w = elim profiles_as [
      | some j ↦ copy_file (profile_path j kind) (profile_path i kind) w
      | none ↦ elim (profile kind) [
        | raise x ↦ (raise x, w)
        | ok c ↦ write_new fs blob (profile_path i kind) c false w
      ]
    ]

    unfoldable pub prepare_profiles : ℕ → Option ℕ → List String → Step (World State)
    unfolding prepare_profile
    prepare_profiles i profiles_as [] w = (ok tt, w)
    prepare_profiles i profiles_as (kind ∷ kinds) w =
        (prepare_profile i profiles_as kind then prepare_profiles i profiles_as kinds) w

    module _ (grid_file : Result C) (flexibility_csv : Option FlexValue → C) where
      unfoldable pub prepare_grid : ℕ → Step (World State)
      unfolding in_tmp_folder
      prepare_grid i w = elim grid_file [
        | raise x ↦ (raise x, w)
        | ok c ↦ write_new fs blob (in_tmp_folder i "grid.pkl") c false w
      ]

      -- `prepare_demand_flexibility_parameters`; without a duration the balance does not roll.
      unfoldable pub prepare_demand_flexibility_parameters :
          ℕ → Dict String FlexValue → Step (World State)
      unfolding in_tmp_folder
      prepare_demand_flexibility_parameters i flex =
          write_new fs blob (in_tmp_folder i "demand_flexibility_parameters.csv")
            (flexibility_csv (lookup "demand_flexibility_duration" flex)) false

      unfoldable pub prepare_flexibility :
          ℕ → Option ℕ → Option (Dict String FlexValue) → Step (World State)
      unfolding prepare_profiles prepare_demand_flexibility_parameters
      prepare_flexibility i profiles_as none w = (ok tt, w)
      prepare_flexibility i profiles_as (some flex) w =
          (prepare_profiles i profiles_as
                (select (λ p. not (p == "demand_flexibility_duration")) (keys flex))
              then prepare_demand_flexibility_parameters i flex)
            w

      -- The work for a scenario that is created.
      unfoldable pub prepare_files :
          ℕ → Option ℕ → Option (Dict String FlexValue) → Step (World State)
      unfolding prepare_profiles prepare_grid prepare_flexibility
      prepare_files i profiles_as flex =
          prepare_profiles i profiles_as base_kinds
          then prepare_grid i
          then prepare_flexibility i profiles_as flex

      module _ {H : Type 0} ⦃e : Eq H⦄ (hash : C → H) (parse : C → Option (Table String))
          (to_csv : Table String → C) where
        unfoldable pub set_prepared : ℕ → Step (World State)
        set_prepared i w =
            let (r, w') = set_status fs blob parse hash to_csv i "prepared" w in
            elim r [ raise x ↦ (raise x, w') | ok t ↦ (ok tt, w') ]

        -- Any other status than "created" is printed, and nothing is done.
        unfoldable pub prepare_simulation_input :
            ℕ → Option ℕ → Option (Dict String FlexValue) → Step (World State)
        unfolding prepare_files set_prepared
        prepare_simulation_input i profiles_as flex w =
            let (r, w') = get_status fs blob parse hash to_csv i w in
            let prepared = (prepare_files i profiles_as flex then set_prepared i) w' in
            elim r [
              | raise x ↦ (raise x, w')
              | ok status ↦ if status == "created" then prepared else (ok tt, w')
            ]
