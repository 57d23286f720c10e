-- ===== src/TransformGrid/Tests.antt =====
-- The transformation of a small grid.
use power_sim_data.Prelude.{
  ◌&&◌, ℕ, ◌≡◌, refl, false, none, some, map, [], ◌∷◌, nat_eq, string_eq, contains,
}
use power_sim_data.Prelude.Dict.{lookup}
use power_sim_data.Prelude.Result.{Result, ok, raise, each}
use power_sim_data.Grid.{Bus, Grid}
use power_sim_data.Grid.Rows.{where_rows, ids, at_rows, row_at, last_id, max_id, without}
use power_sim_data.Grid.Sample.{whole, sample}
use power_sim_data.Ct.{Ct, empty_ct, no_scaling, NewPlant, capacity, key_eq}
use power_sim_data.TransformGrid.Scale
use power_sim_data.TransformGrid.Add
use power_sim_data.TransformGrid.Apply
use power_sim_data.TransformGrid.Add.{entries}
use power_sim_data.TransformGrid.BusTable.{bus_table, get_grid-bus_table}
use power_sim_data.TransformGrid.Apply.{get_grid}
use power_sim_data.TransformGrid.Removal.{get_grid-removed}
use power_sim_data.TransformGrid.Zones.{scaled_by, scale_gen_by_zone-scaled_by}
use power_sim_data.TransformGrid.Kept.{Extends, get_grid-Kept}

abbrev reactance : Grid ℕ → Bus ℕ → Bus ℕ → Result ℕ
reactance g from to = ok 1

abbrev new_coal : NewPlant ℕ
new_coal = record {
  bus_id = 2;
  type = "coal";
  pmin = 0;
  pmax = 80;
  c0 = some 1;
  c1 = some 2;
  c2 = some 3;
  plant_id_neighbor = none;
}

-- Twice the wind in the north, a new coal plant, and a branch and a bus less.
abbrev change : Ct ℕ
change = record empty_ct {
  plant =
      (
        record { resource = "wind"; kind = capacity },
        record no_scaling { zone_id = some ((1, 2) ∷ []) },
      )
      ∷ [];
  new_plant = some (new_coal ∷ []);
  remove_branch = some (2 ∷ []);
  remove_bus = some (3 ∷ []);
}

-- What a run on these data takes.
run : Unit {0}
unfolding Scale.scale_gen_by_zone Scale.scale_gencost_by_zone Scale.scale_gen_pmin_by_zone
    Scale.scale_branch_by_zone Scale.scale_gen_by_id Scale.scale_gencost_by_id
    Scale.scale_gen_pmin_by_id Scale.scale_branch_by_id Scale.scale_dcline Scale.branch_at
    Scale.branch_items Scale.branches_in_zone Scale.cost_at Scale.id_branch Scale.id_capacity
    Scale.id_cost Scale.id_dcline Scale.id_pmin Scale.in_zone Scale.plants_in_zone Scale.pmin_at
    Scale.remove_branch Scale.remove_bus Scale.scale_branch Scale.scale_dcline_row
    Scale.scale_gen_capacity Scale.scale_gencost Scale.scale_gencost_by_capacity
    Scale.scale_gencost_with_capacity Scale.scale_plant Scale.scale_plant_pmin Scale.scale_thermal
    Scale.zone_branch Scale.zone_capacity Scale.zone_cost Scale.zone_pmin Add.add_bus Add.add_branch
    Add.add_dcline Add.add_gen Add.add_bus2sub Add.add_one_branch Add.add_one_bus Add.add_one_dcline
    Add.add_one_gencost Add.add_one_plant Add.coefficient Add.new_bus Add.sub_at
    Add.zone_interconnect Apply.add_storage Apply.apply_change_table Apply.is_empty
    Apply.scale_resource_by_id Apply.scale_resource_by_zone get_grid at_rows row_at last_id max_id
    where_rows without lookup each
run = tt

transformed : Result (Grid ℕ)
unfolding run
transformed = get_grid reactance change sample

abbrev or_sample : Result (Grid ℕ) → Grid ℕ
or_sample (ok g) = g
or_sample (raise e) = sample

changed : Grid ℕ
unfolding transformed
changed = or_sample transformed

get_grid-Kept_example : Extends (new_coal ∷ []) sample changed
unfolding changed
get_grid-Kept_example = get_grid-Kept reactance change sample changed refl refl

get_grid-removed_example :
    ((contains {A = ℕ} (2 ∷ []) 2 && contains (ids (λ r. r.branch_id) changed.branch) 2) ≡ false)
    × ((contains {A = ℕ} (3 ∷ []) 3 && contains (ids (λ r. r.bus_id) changed.bus) 3) ≡ false)
unfolding changed
get_grid-removed_example = get_grid-removed reactance change 2 3 sample changed refl

scaled : Grid ℕ
unfolding run
scaled = or_sample (Scale.scale_gen_by_zone change "wind" sample)

scale_gen_by_zone-scaled_by_example :
    scaled.plant ≡ map (scaled_by "wind" ((1, 2) ∷ [])) sample.plant
unfolding scaled
scale_gen_by_zone-scaled_by_example =
    scale_gen_by_zone-scaled_by change "wind" sample scaled (refl, (refl, tt)) (refl, tt) refl

get_grid-bus_table_example :
    bus_table (entries change.new_bus) (entries change.remove_bus) sample.bus ≡ ok changed.bus
unfolding changed
get_grid-bus_table_example = get_grid-bus_table reactance change sample changed refl
