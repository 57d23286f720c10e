-- ===== src/TransformProfile/Tests.antt =====
-- The wind profile of a small grid to which a wind farm is added.
use power_sim_data.Prelude.{
  ℕ, String, ◌≡◌, refl, none, some, List, [], ◌∷◌, nat_eq, string_eq, select,
}
use power_sim_data.Prelude.Dict.{Dict, keys, lookup}
use power_sim_data.Prelude.Result.{Result, ok, raise, each}
use power_sim_data.Grid.{Bus, Grid}
use power_sim_data.Grid.Rows.{ids, at_rows, row_at, last_id, max_id, where_rows, without}
use power_sim_data.Grid.Sample.{whole, sample}
use power_sim_data.Ct.{Ct, empty_ct, NewPlant}
use power_sim_data.TransformGrid.Scale
use power_sim_data.TransformGrid.Add
use power_sim_data.TransformGrid.Apply
use power_sim_data.TransformGrid.Apply.{get_grid}
use power_sim_data.TransformProfile.{
  Frame, take, drop, concat, types_of, is_of, number_of_new_plant, old_plant_ids, columns,
  scale_plant_profile, new_of, neighbor_columns, add_plant_profile, get_renewable_profile,
}
use power_sim_data.TransformProfile.Columns.{get_renewable_profile-columns}

abbrev reactance : Grid ℕ → Bus ℕ → Bus ℕ → Result ℕ
reactance g from to = ok 1

abbrev wind_farm : NewPlant ℕ
wind_farm = record {
  bus_id = 2;
  type = "wind";
  pmin = 0;
  pmax = 20;
  c0 = none;
  c1 = none;
  c2 = none;
  plant_id_neighbor = some 1;
}

abbrev change : Ct ℕ
change = record empty_ct { new_plant = some (wind_farm ∷ []) }

abbrev groups : Dict String (List String)
groups = ("wind", "wind" ∷ "wind_offshore" ∷ []) ∷ ("solar", "solar" ∷ []) ∷ []

-- Two hours of the one wind farm that the grid has.
abbrev stored : String → Result (Frame ℕ)
stored resource = ok ((1, 3 ∷ 4 ∷ []) ∷ [])

run : Unit {0}
unfolding Scale.scale_gen_by_zone Scale.scale_gencost_by_zone Scale.scale_gen_pmin_by_zone
    Scale.scale_branch_by_zone Scale.scale_gen_by_id Scale.scale_gencost_by_id
    Scale.scale_gen_pmin_by_id Scale.scale_branch_by_id Scale.scale_dcline Scale.branch_at
    Scale.branch_items Scale.branches_in_zone Scale.cost_at Scale.id_branch Scale.id_capacity
    Scale.id_cost Scale.id_dcline Scale.id_pmin Scale.in_zone Scale.plants_in_zone Scale.pmin_at
    Scale.remove_branch Scale.remove_bus Scale.scale_branch Scale.scale_dcline_row
    Scale.scale_gen_capacity Scale.scale_gencost Scale.scale_gencost_by_capacity
    Scale.scale_gencost_with_capacity Scale.scale_plant Scale.scale_plant_pmin Scale.scale_thermal
    Scale.zone_branch Scale.zone_capacity Scale.zone_cost Scale.zone_pmin Add.add_bus Add.add_branch
    Add.add_dcline Add.add_gen Add.add_bus2sub Add.add_one_branch Add.add_one_bus Add.add_one_dcline
    Add.add_one_gencost Add.add_one_plant Add.coefficient Add.new_bus Add.sub_at
    Add.zone_interconnect Apply.add_storage Apply.apply_change_table Apply.is_empty
    Apply.scale_resource_by_id Apply.scale_resource_by_zone get_grid at_rows row_at last_id max_id
    where_rows without lookup each take drop concat number_of_new_plant old_plant_ids columns
    scale_plant_profile new_of neighbor_columns add_plant_profile get_renewable_profile
run = tt

abbrev or_sample : Result (Grid ℕ) → Grid ℕ
or_sample (ok g) = g
or_sample (raise e) = sample

changed : Grid ℕ
unfolding run
changed = or_sample (get_grid reactance change sample)

abbrev or_empty : Result (Frame ℕ) → Frame ℕ
or_empty (ok f) = f
or_empty (raise e) = []

profile : Frame ℕ
unfolding changed
profile = or_empty (get_renewable_profile groups changed change stored "wind")

get_renewable_profile-columns_example :
    keys profile ≡ ids (λ p. p.plant_id) (select (is_of (types_of groups "wind")) changed.plant)
unfolding profile
get_renewable_profile-columns_example =
    get_renewable_profile-columns reactance groups sample changed change stored "wind" profile refl
      refl

-- The new farm has the neighbor's hours.
new_column : lookup 3 profile ≡ some (60 ∷ 80 ∷ [])
unfolding profile
new_column = refl
