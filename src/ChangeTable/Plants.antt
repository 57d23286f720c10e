-- ===== src/ChangeTable/Plants.antt =====
-- `add_plant` and `remove_plant` of powersimdata/input/changes/plant.py, `remove_bus` of bus.py, and
-- `find_closest_neighbor` of powersimdata/utility/distance.py.
use power_sim_data.Prelude.{
  ℕ, Bool, not, some, List, ◌++◌, map, nat_eq, string_eq, any, select, contains, subset,
}
use power_sim_data.Prelude.Result.{Result, require, value_error}
use power_sim_data.Number.{Number, of_ℕ}
use power_sim_data.Grid.{Bus, Grid}
use power_sim_data.Grid.Rows.{ids}
use power_sim_data.Ct.{NewPlant, Ct}
use power_sim_data.TransformGrid.Add.{entries}
use power_sim_data.ChangeTable.Entries.{Entry, check_all}
use power_sim_data.ChangeTable.Checks.{check_plant}
use power_sim_data.ChangeTable.Frames.{
  Method, ◌>>=◌, lift, modify, branch_frame, dcline_frame, bus_frame, storage_frame,
  get_transformed_df,
}
use power_sim_data.ChangeTable.PlantTable.{get_plant_df}
use power_sim_data.ChangeTable.Lines.{union}

-- Whether `set(info) & set(…)` is empty.
unfoldable pub disjoint : List ℕ → List ℕ → Bool
disjoint info l = not (any (contains l) info)

module _ {V : Type 0} where
  unfoldable pub append_plants : List (NewPlant V) → Ct V → Ct V
  append_plants plants ct = record ct { new_plant = some (entries ct.new_plant ++ plants) }

  unfoldable pub drop_plants : List ℕ → Ct V → Ct V
  unfolding union
  drop_plants info ct = record ct { remove_plant = some (union (entries ct.remove_plant) info) }

  unfoldable pub drop_buses : List ℕ → Ct V → Ct V
  unfolding union
  drop_buses info ct = record ct { remove_bus = some (union (entries ct.remove_bus) info) }

  module _ ⦃num : Number V⦄ (reactance : Grid V → Bus V → Bus V → Result V) where
    open num use {lt}

    unfoldable pub remove_plant : List ℕ → Method V Unit
    unfolding drop_plants get_plant_df
    remove_plant info = do
      anticipated ← get_plant_df reactance
      _ ← lift (λ s. require (subset info (ids (λ r. r.plant_id) anticipated)) value_error)
      modify (drop_plants info)

    -- Buses may be removed that no plant with capacity, no storage unit and no line is at.
    unfoldable pub remove_bus : List ℕ → Method V Unit
    unfolding drop_buses disjoint get_plant_df get_transformed_df branch_frame dcline_frame
        bus_frame storage_frame
    remove_bus info = do
      buses ← get_transformed_df reactance bus_frame
      _ ← lift (λ s. require (subset info (ids (λ r. r.bus_id) buses)) value_error)
      plants ← get_plant_df reactance
      let running = select (λ r. lt (of_ℕ 0) r.pmax) plants
      _ ← lift (λ s. require (disjoint info (map (λ r. r.bus_id) running)) value_error)
      units ← get_transformed_df reactance storage_frame
      _ ← lift (λ s. require (disjoint info (map (λ r. r.bus_id) units)) value_error)
      branches ← get_transformed_df reactance branch_frame
      _ ← lift (λ s. require (disjoint info (map (λ r. r.from_bus_id) branches)) value_error)
      _ ← lift (λ s. require (disjoint info (map (λ r. r.to_bus_id) branches)) value_error)
      dclines ← get_transformed_df reactance dcline_frame
      _ ← lift (λ s. require (disjoint info (map (λ r. r.from_bus_id) dclines)) value_error)
      _ ← lift (λ s. require (disjoint info (map (λ r. r.to_bus_id) dclines)) value_error)
      modify (drop_buses info)

    -- `angle` is `angular_distance` of two points (lon, lat).
    module _ (angle : V × V → V × V → V) where
      unfoldable pub add_plant : List (Entry V) → Method V Unit
      unfolding check_all check_plant append_plants get_transformed_df bus_frame
      add_plant info = do
        anticipated ← get_transformed_df reactance bus_frame
        plants ← lift (λ s. check_all (check_plant angle s.grid anticipated) info)
        modify (append_plants plants)
