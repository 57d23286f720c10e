-- ===== src/ChangeTable/Tests.antt =====
-- Changes to a small grid.
use power_sim_data.Prelude.{ℕ, refl, some, [], ◌∷◌, nat_eq, string_eq}
use power_sim_data.Prelude.Dict.{lookup, insert, update}
use power_sim_data.Prelude.Result.{Result, ok}
use power_sim_data.Grid.{Bus, Grid}
use power_sim_data.Grid.Rows.{row_at}
use power_sim_data.Grid.Sample.{whole, sample}
use power_sim_data.Ct.{Ct, empty_ct, NewLine}
use power_sim_data.ChangeTable.Entries.{
  Entry, index, text, new_branch, exactly_one, check_entry_keys, check_all, as_number, bus_of,
  limits_of_capacity, limits_of_range, line_limits, check_line, zone_of, number_or, check_bus,
}
use power_sim_data.ChangeTable.Frames.{
  ◌>>=◌, ChangeTable, find_cached, dcline_frame, bus_frame, get_transformed_df,
}
use power_sim_data.ChangeTable.Scaling.{scale_demand}
use power_sim_data.ChangeTable.Lines.{append_lines, append_buses, add_bus, add_line, remove_dcline}
use power_sim_data.ChangeTable.Checked.{ValidBus, ValidLine}
use power_sim_data.ChangeTable.Valid.{Added, add_bus-ok, add_line-ok}

abbrev reactance : Grid ℕ → Bus ℕ → Bus ℕ → Result ℕ
reactance g from to = ok 1

abbrev with_ct : Ct ℕ → ChangeTable ℕ
with_ct c = record {
  grid = sample;
  ct = c;
  branch_cache = [];
  dcline_cache = [];
  bus_cache = [];
  plant_cache = [];
  storage_cache = [];
}

abbrev start : ChangeTable ℕ
start = with_ct empty_ct

abbrev good_bus : Entry ℕ
good_bus = ("lat", index 40) ∷ ("lon", index 7) ∷ ("zone_name", text "north") ∷ []

abbrev far_bus : Entry ℕ
far_bus = ("lat", index 91) ∷ ("lon", index 7) ∷ ("zone_id", index 1) ∷ []

abbrev good_line : Entry ℕ
good_line = ("from_bus_id", index 1) ∷ ("to_bus_id", index 2) ∷ ("capacity", index 10) ∷ []

abbrev loop_line : Entry ℕ
loop_line = ("from_bus_id", index 1) ∷ ("to_bus_id", index 1) ∷ ("capacity", index 10) ∷ []

abbrev new_line : NewLine ℕ
new_line = record { from_bus_id = 1; to_bus_id = 2; pmin = 0; pmax = 10 }

abbrev with_bus : ChangeTable ℕ
with_bus = with_ct (record empty_ct {
  new_bus = some (record { lat = 40; lon = 7; zone_id = 1; pd = 0; base_kv = 230 } ∷ []);
})

abbrev with_branch : ChangeTable ℕ
with_branch = with_ct (record empty_ct { new_branch = some (new_line ∷ []) })

abbrev with_dcline : ChangeTable ℕ
with_dcline = with_ct (record empty_ct { new_dcline = some (new_line ∷ []) })

-- What a run on these data takes.
run : Unit {0}
unfolding lookup insert update row_at exactly_one check_entry_keys check_all as_number bus_of ◌>>=◌
    limits_of_capacity limits_of_range line_limits check_line zone_of number_or check_bus
    find_cached bus_frame dcline_frame get_transformed_df scale_demand append_lines append_buses
    add_bus add_line remove_dcline
run = tt

add_bus-ok_example : Added (ValidBus sample) (good_bus ∷ []) append_buses start with_bus
unfolding run
add_bus-ok_example = add_bus-ok (good_bus ∷ []) start with_bus refl

add_line-ok_example :
    Added
      (ValidLine new_branch sample.bus)
      (good_line ∷ [])
      (append_lines new_branch)
      start
      with_branch
unfolding run
add_line-ok_example =
    add_line-ok reactance new_branch (good_line ∷ []) start start with_branch sample.bus refl refl
