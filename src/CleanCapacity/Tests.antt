-- ===== src/CleanCapacity/Tests.antt =====
-- Targets for the zones of a small grid.
use power_sim_data.Prelude.{
  ℕ, ◌≤◌, String, ◌≡◌, refl, true, ◌&&◌, Option, none, some, List, [], ◌∷◌, nat_eq, string_eq, ◌==◌,
  contains, if◌then◌else◌,
}
use power_sim_data.Prelude.Dict.{Dict, lookup, insert}
use power_sim_data.Prelude.Result.{Result, ok, each}
use power_sim_data.Grid.Sample.{whole, sample}
use power_sim_data.CleanCapacity.Zones.{
  distinct, union, total, check_collisions, assign, assign_all, zones_of_targets,
  make_zonename2target,
}
use power_sim_data.CleanCapacity.Factors.{
  Factors, Capacities, factors_of, scaled, apply_zone_scale_factor_to_ct, apply_to_zones,
  scale_resource, ids_of_zones, scale_region, create_change_table,
}
use power_sim_data.CleanCapacity.Partition.{owners, Owns, make_zonename2target-ok}
use power_sim_data.CleanCapacity.Untouched.{
  factor, Kept, apply_zone_scale_factor_to_ct-factor, create_change_table-Kept,
}

abbrev zones : String → Option String → Result (List String)
zones area area_type = if area == "hills" then ok ("north" ∷ "east" ∷ []) else ok ("south" ∷ [])

abbrev targets : List (String × Option String)
targets = ("hills", none) ∷ ("plains", none) ∷ []

make_zonename2target-ok_example :
    (tz : Dict String (List String)) × (zones_of_targets zones targets ≡ ok tz)
    × ((z : String)
        → contains ("north" ∷ "south" ∷ []) z ≡ true
        → (t : String) × (lookup z (("north", "hills") ∷ ("south", "plains") ∷ []) ≡ some t)
          × Owns t z tz)
    × ((z : String) → owners z tz ≤ 1)
    × ((z t : String)
        → lookup z (("north", "hills") ∷ ("south", "plains") ∷ []) ≡ some t
        → contains ("north" ∷ "south" ∷ []) z ≡ true)
unfolding make_zonename2target zones_of_targets check_collisions distinct union total assign
    assign_all insert
make_zonename2target-ok_example =
    make_zonename2target-ok zones ("north" ∷ "south" ∷ []) targets
      (("north", "hills") ∷ ("south", "plains") ∷ []) refl

abbrev ct : Dict String (Factors ℕ)
ct =
    ("wind", record { zone_id = some ((1, 2) ∷ []); plant_id = none })
    ∷ ("coal", record { zone_id = none; plant_id = some ((2, 3) ∷ []) })
    ∷ []

abbrev fuel : String
fuel = "wind"

abbrev zone : ℕ
zone = 1

apply_zone_scale_factor_to_ct-factor_example :
    (factor (apply_zone_scale_factor_to_ct fuel zone 5 ct) fuel zone ≡ (
      if fuel == fuel && zone == zone
      then some (scaled (factor ct fuel zone) 5)
      else factor ct fuel zone))
    × ((factors_of (apply_zone_scale_factor_to_ct fuel zone 5 ct) fuel).plant_id
        ≡ (factors_of ct fuel).plant_id)
apply_zone_scale_factor_to_ct-factor_example =
    apply_zone_scale_factor_to_ct-factor ct "wind" fuel zone 1 5

abbrev hills : Capacities ℕ
hills = record {
  region = "hills";
  prev_solar = 0;
  prev_wind = 10;
  next_solar = 0;
  next_wind = 1007;
}

abbrev area : String → Result (List String)
area region = zones region none

abbrev made : Dict String (Factors ℕ)
made =
    ("wind", record { zone_id = some ((1, 2014) ∷ []); plant_id = none })
    ∷ ("coal", record { zone_id = none; plant_id = some ((2, 3) ∷ []) })
    ∷ []

create_change_table-Kept_example : Kept ct made
unfolding create_change_table scale_region scale_resource apply_to_zones
    apply_zone_scale_factor_to_ct scaled ids_of_zones each lookup insert
create_change_table-Kept_example = create_change_table-Kept area sample ct made (hills ∷ []) refl
