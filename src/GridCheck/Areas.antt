-- ===== src/GridCheck/Areas.antt =====
-- The checks of areas, resources and plants of powersimdata/input/check.py. A set is a list, in which the
-- order and repetitions say nothing.
use power_sim_data.Prelude.{
  String, not, Option, none, some, List, [], ◌∷◌, ◌++◌, map, nat_eq, string_eq, ◌==◌, length,
  select, subset, contains, ltb, if◌then◌else◌,
}
use power_sim_data.Prelude.Dict.{Dict, lookup}
use power_sim_data.Prelude.Result.{
  Result, ok, raise, require, value_error, type_error, key_error, ◌>>=◌,
}
use power_sim_data.Grid.{Grid}

-- What is given as areas or resources: a str, a list, tuple or set, whose members that are not str are
-- `none`, or something else.
pub data Names : Type 0 where
  one : String → Names
  several : List (Option String) → Names
  neither : Names

-- What the checks read of `mi.zones`: `mappings` has the set under each name in zones["mappings"], and
-- `abv2division` is "abv2state" or "abv2country".
pub record Zones : Type 0 where
  pub mappings : List (List String)
  pub abv : List String
  pub abv2division : Dict String String
  pub division : String
  pub loadzone : List String
  pub interconnect2loadzone : Dict String (List String)
  pub division2loadzone : Dict String (List String)

unfoldable pub strings : List (Option String) → Result (List String)
strings [] = ok []
strings (none ∷ l) = raise type_error
strings (some s ∷ l) = do rest ← strings l; ok (s ∷ rest)

unfoldable pub names_of : Names → Result (List String)
unfolding strings
names_of (one s) = ok (s ∷ [])
names_of (several l) = strings l
names_of neither = raise type_error

abbrev pub or_raise : {A : Type 0} → Option A → Result A
or_raise none = raise key_error
or_raise (some a) = ok a

abbrev pub all_areas : List (List String) → List String
all_areas [] = []
all_areas (l ∷ mappings) = l ++ all_areas mappings

-- `for a in abv_in_areas: areas.remove(a); areas.add(…)`
unfoldable pub expand : Zones → List String → List String → Result (List String)
unfolding lookup
expand z [] areas = ok areas
expand z (a ∷ abbreviations) areas = do
  full ← or_raise (lookup a z.abv2division)
  expand z abbreviations (full ∷ select (λ s. not (s == a)) areas)

unfoldable pub check_areas_and_format : Zones → Names → Result (List String)
unfolding names_of expand
check_areas_and_format z given = do
  areas ← names_of given
  _ ← require (ltb 0 (length areas)) value_error
  _ ← require (subset areas (all_areas z.mappings)) value_error
  expand z (select (contains z.abv) areas) areas

unfoldable pub check_resources_and_format : List String → Names → Result (List String)
unfolding names_of
check_resources_and_format all_resources given = do
  resources ← names_of given
  _ ← require (ltb 0 (length resources)) value_error
  _ ← require (subset resources all_resources) value_error
  ok resources

unfoldable pub check_resources_are_renewable_and_format :
    List String → List String → Names → Result (List String)
unfolding check_resources_and_format
check_resources_are_renewable_and_format all_resources renewable given = do
  resources ← check_resources_and_format all_resources given
  _ ← require (subset resources renewable) value_error
  ok resources

-- The load zones of each of a list of interconnects or divisions.
unfoldable pub loadzones_of : Dict String (List String) → List String → Result (List String)
unfolding lookup
loadzones_of d [] = ok []
loadzones_of d (s ∷ areas) = elim (lookup s d) [
  | none ↦ raise value_error
  | some l ↦ do rest ← loadzones_of d areas; ok (l ++ rest)
]

-- One round of the loop over the items: the areas under the key, and their load zones.
unfoldable pub check_item : Zones → Option String × Names → Result (List String × List String)
unfolding check_areas_and_format loadzones_of
check_item z (none, given) = raise type_error
check_item z (some k, given) =
    if k == "interconnect"
    then (do
      areas ← check_areas_and_format z given
      zones ← loadzones_of z.interconnect2loadzone areas
      ok (areas, zones))
    else if k == z.division
    then (do
      areas ← check_areas_and_format z given
      zones ← loadzones_of z.division2loadzone areas
      ok (areas, zones))
    else if k == "loadzone"
    then (do
      areas ← check_areas_and_format z given
      _ ← require (subset areas z.loadzone) value_error
      ok (areas, areas))
    else raise value_error

-- The areas of each item, and all the load zones.
unfoldable pub check_items :
    Zones → List (Option String × Names) → Result (List (List String) × List String)
unfolding check_item
check_items z [] = ok ([], [])
check_items z (p ∷ items) = do
  (areas, zones) ← check_item z p
  (formatted, all_zones) ← check_items z items
  ok (areas ∷ formatted, zones ++ all_zones)

module _ {V : Type 0} where
  -- The sets in the dictionary that is returned, in the order of its keys.
  unfoldable pub check_areas_are_in_grid_and_format :
      Zones → List (Option String × Names) → Grid V → Result (List (List String))
  unfolding check_items
  check_areas_are_in_grid_and_format z areas g = do
    (formatted, all_zones) ← check_items z areas
    _ ← require (subset all_zones (map (λ r. r.zone_name) g.plant)) value_error
    ok formatted

  unfoldable pub check_resources_are_in_grid_and_format : Names → Grid V → Result (List String)
  unfolding check_resources_and_format
  check_resources_are_in_grid_and_format given g = do
    resources ← check_resources_and_format g.immutables.all_resources given
    _ ← require (subset resources (map (λ r. r.type) g.plant)) value_error
    ok resources
