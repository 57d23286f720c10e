-- ===== src/CleanCapacity/Zones.antt =====
-- `_make_zonename2target` of powersimdata/design/generation/clean_capacity_scaling.py. The sets of zones of
-- an area come from the network model as an argument.
use power_sim_data.Prelude.{
  ℕ, ◌+◌, String, Option, List, [], ◌∷◌, ◌++◌, eqb, string_eq, select, contains, subset, length,
  if◌then◌else◌,
}
use power_sim_data.Prelude.Dict.{Dict, keys, insert}
use power_sim_data.Prelude.Result.{Result, ok, raise, require, type_error, value_error, ◌>>=◌}

-- The elements of `set(xs)`.
unfoldable pub distinct : List String → List String
distinct [] = []
distinct (x ∷ xs) = let rest = distinct xs in if contains xs x then rest else x ∷ rest

-- The zones of each target, which are sets.
unfoldable pub union : Dict String (List String) → List String
union [] = []
union ((target, zones) ∷ rest) = zones ++ union rest

unfoldable pub total : Dict String (List String) → ℕ
total [] = 0
total ((target, zones) ∷ rest) = length zones + total rest

-- `len(set.union(*zone_sets)) != sum(…)`; the union of no sets at all is a TypeError.
unfoldable pub check_collisions : Dict String (List String) → Result (Unit {0})
unfolding distinct union total
check_collisions [] = raise type_error
check_collisions (t ∷ target_zones) =
    require (eqb (length (distinct (union (t ∷ target_zones)))) (total (t ∷ target_zones)))
      value_error

unfoldable pub assign : String → List String → Dict String String → Dict String String
assign target [] d = d
assign target (zone ∷ zones) d = assign target zones (insert zone target d)

-- The zones of each target that the grid has.
unfoldable pub assign_all :
    List String → Dict String (List String) → Dict String String → Dict String String
unfolding assign
assign_all grid_zones [] d = d
assign_all grid_zones ((target, zones) ∷ rest) d =
    assign_all grid_zones rest (assign target (select (contains grid_zones) zones) d)

module _ (area_to_loadzone : String → Option String → Result (List String)) where
  -- The dictionary of the zones of each target.
  unfoldable pub zones_of_targets :
      List (String × Option String) → Result (Dict String (List String))
  zones_of_targets [] = ok []
  zones_of_targets ((name, area_type) ∷ targets) = do
    zones ← area_to_loadzone name area_type
    rest ← zones_of_targets targets
    ok ((name, zones) ∷ rest)

  unfoldable pub make_zonename2target :
      List String → List (String × Option String) → Result (Dict String String)
  unfolding zones_of_targets check_collisions assign_all
  make_zonename2target grid_zones targets = do
    target_zones ← zones_of_targets targets
    _ ← check_collisions target_zones
    let zonename2target = assign_all grid_zones target_zones []
    _ ← require (subset grid_zones (keys zonename2target)) value_error
    ok zonename2target
