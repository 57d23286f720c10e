-- ===== src/ChangeTable/Runs.antt =====
-- Calls of a change table of a small grid, one after the other.
use power_sim_data.Prelude.{ℕ, ◌≡◌, refl, List, [], ◌∷◌, eqb_iff, nat_eq, string_eq}
use power_sim_data.Prelude.Dict.{lookup, insert, update}
use power_sim_data.Prelude.Result.{Result, ok, raise, each, value_error}
use power_sim_data.Grid.{Bus, Grid}
use power_sim_data.Grid.Rows.{at_rows, row_at, last_id, max_id, where_rows, without}
use power_sim_data.Grid.Sample.{whole, sample}
use power_sim_data.Ct.{empty_ct}
use power_sim_data.TransformGrid.Scale
use power_sim_data.TransformGrid.Add
use power_sim_data.TransformGrid.Add.{entries}
use power_sim_data.TransformGrid.Apply
use power_sim_data.TransformGrid.Apply.{get_grid}
use power_sim_data.TransformGrid.BusTable.{bus_table}
use power_sim_data.ChangeTable.Entries.{
  Entry, index, text, check_entry_keys, check_all, as_number, bus_of, zone_of, number_or, check_bus,
}
use power_sim_data.ChangeTable.Frames.{
  ◌>>=◌, ChangeTable, find_cached, bus_frame, get_transformed_df,
}
use power_sim_data.ChangeTable.Checks.{
  closest_from, neighbor_of, bus_in, resource_of, compared, needed, coefficient_of, pmin_of,
  neighbor_for, check_plant, quantity, share_of, check_storage,
}
use power_sim_data.ChangeTable.Checks
use power_sim_data.ChangeTable.Lines
use power_sim_data.ChangeTable.Plants.{append_plants, add_plant}
use power_sim_data.ChangeTable.Plants
use power_sim_data.ChangeTable.Storages.{append_storages, add_storage_capacity}
use power_sim_data.ChangeTable.Calls
use power_sim_data.ChangeTable.Calls.{Call, new_table, call, after}
use power_sim_data.ChangeTable.Cache.{after-bus_table}
use power_sim_data.ChangeTable.AllOrNothing.{last_step, call-raise}
use power_sim_data.ChangeTable.Units.{ValidPlant, ValidStorage}
use power_sim_data.ChangeTable.Valid.{Added}
use power_sim_data.ChangeTable.ValidUnits.{add_plant-ok, add_storage_capacity-ok}

abbrev reactance : Grid ℕ → Bus ℕ → Bus ℕ → Result ℕ
reactance g from to = ok 1

abbrev angle : ℕ × ℕ → ℕ × ℕ → ℕ
angle p q = 0

abbrev new_bus : Entry ℕ
new_bus = ("lat", index 40) ∷ ("lon", index 7) ∷ ("zone_name", text "north") ∷ []

abbrev wind : Entry ℕ
wind = ("type", text "wind") ∷ ("bus_id", index 1) ∷ ("Pmax", index 20) ∷ []

abbrev coal_without_costs : Entry ℕ
coal_without_costs = ("type", text "coal") ∷ ("bus_id", index 1) ∷ ("Pmax", index 20) ∷ []

abbrev battery : Entry ℕ
battery = ("bus_id", index 2) ∷ ("capacity", index 30) ∷ []

run : Unit {0}
unfolding Scale.scale_gen_by_zone Scale.scale_gencost_by_zone Scale.scale_gen_pmin_by_zone
    Scale.scale_branch_by_zone Scale.scale_gen_by_id Scale.scale_gencost_by_id
    Scale.scale_gen_pmin_by_id Scale.scale_branch_by_id Scale.scale_dcline Scale.branch_at
    Scale.branch_items Scale.branches_in_zone Scale.cost_at Scale.id_branch Scale.id_capacity
    Scale.id_cost Scale.id_dcline Scale.id_pmin Scale.in_zone Scale.plants_in_zone Scale.pmin_at
    Scale.remove_branch Scale.remove_bus Scale.scale_branch Scale.scale_dcline_row
    Scale.scale_gen_capacity Scale.scale_gencost Scale.scale_gencost_by_capacity
    Scale.scale_gencost_with_capacity Scale.scale_plant Scale.scale_plant_pmin Scale.scale_thermal
    Scale.zone_branch Scale.zone_capacity Scale.zone_cost Scale.zone_pmin Add.add_bus Add.add_branch
    Add.add_dcline Add.add_gen Add.add_bus2sub Add.add_one_branch Add.add_one_bus Add.add_one_dcline
    Add.add_one_gencost Add.add_one_plant Add.coefficient Add.new_bus Add.sub_at
    Add.zone_interconnect Apply.add_storage Apply.apply_change_table Apply.is_empty
    Apply.scale_resource_by_id Apply.scale_resource_by_zone get_grid at_rows row_at last_id max_id
    where_rows without lookup each insert update check_entry_keys check_all as_number bus_of zone_of
    number_or check_bus ◌>>=◌ find_cached bus_frame get_transformed_df closest_from neighbor_of
    bus_in resource_of compared needed coefficient_of pmin_of neighbor_for check_plant quantity
    share_of check_storage append_plants add_plant append_storages add_storage_capacity Checks.given
    Lines.append_buses Lines.add_bus Plants.drop_buses call after
run = tt

abbrev calls : List (Call ℕ)
calls = Calls.add_bus (new_bus ∷ []) ∷ Calls.add_plant (wind ∷ []) ∷ []

abbrev rows_of : Result (List (Bus ℕ)) → List (Bus ℕ)
rows_of (ok rows) = rows
rows_of (raise e) = []

state : ChangeTable ℕ
unfolding run
state = after reactance angle calls (new_table sample)

rows : List (Bus ℕ)
unfolding run state
rows = rows_of (get_transformed_df reactance bus_frame state).0

after-bus_table_example :
    bus_table (entries state.ct.new_bus) (entries state.ct.remove_bus) sample.bus ≡ ok rows
unfolding run state rows
after-bus_table_example =
    after-bus_table (λ x y h. (eqb_iff x y).0 h) reactance angle calls sample rows refl

call-raise_example :
    (call reactance angle
      (Calls.add_plant (wind ∷ coal_without_costs ∷ []))
      (new_table sample)).1.ct
    ≡ empty_ct
unfolding run last_step
call-raise_example =
    call-raise reactance angle (Calls.add_plant (wind ∷ coal_without_costs ∷ [])) (new_table sample)
      value_error refl refl

with_wind : ChangeTable ℕ
unfolding run
with_wind = (add_plant reactance angle (wind ∷ []) (new_table sample)).1

add_plant-ok_example :
    Added (ValidPlant sample sample.bus) (wind ∷ []) append_plants (new_table sample) with_wind
unfolding run with_wind
add_plant-ok_example =
    add_plant-ok reactance (new_table sample) (new_table sample) with_wind sample.bus angle
      (wind ∷ []) refl refl

with_battery : ChangeTable ℕ
unfolding run
with_battery = (add_storage_capacity reactance (battery ∷ []) (new_table sample)).1

add_storage_capacity-ok_example :
    Added (ValidStorage sample.bus) (battery ∷ []) append_storages (new_table sample) with_battery
unfolding run with_battery
add_storage_capacity-ok_example =
    add_storage_capacity-ok reactance (new_table sample) (new_table sample) with_battery sample.bus
      (battery ∷ []) refl refl

with_bus : ChangeTable ℕ
unfolding run
with_bus = after reactance angle (Calls.add_bus (new_bus ∷ []) ∷ []) (new_table sample)

without_bus : ChangeTable ℕ
unfolding run with_bus Plants.remove_bus
without_bus = (Plants.remove_bus reactance (4 ∷ []) with_bus).1
