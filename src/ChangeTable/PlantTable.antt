-- ===== src/ChangeTable/PlantTable.antt =====
-- `_get_transformed_df("plant")` of powersimdata/input/change_table.py, with the key of its cache.
use Prim.Native.String.{compare}
use Prim.Native.Nat.{Ordering}
use power_sim_data.Prelude.{
  ℕ, String, Bool, true, false, not, ◌&&◌, ◌||◌, Option, none, some, List, [], ◌∷◌, ◌++◌, map,
  nat_eq, string_eq, ◌==◌, length, all, any, if◌then◌else◌,
}
use power_sim_data.Prelude.Dict.{Dict, lookup}
use power_sim_data.Prelude.Result.{Result, ok, raise, attribute_error}
use power_sim_data.Number.{Number}
use power_sim_data.Grid.{Plant, Bus, Grid}
use power_sim_data.Ct.{capacity, key_eq, Scaling, NewPlant, Ct}
use power_sim_data.TransformGrid.Scale.{key}
use power_sim_data.TransformGrid.Add.{entries}
use power_sim_data.TransformGrid.Apply.{get_grid}
use power_sim_data.ChangeTable.Frames.{CachedPlants, Method, same_entries}

-- A name put in order among names in order, once.
unfoldable pub insert_name : String → List String → List String
insert_name s [] = s ∷ []
insert_name s (t ∷ names) =
    let rest = insert_name s names in
    elim (compare s t) [
      | Ordering.lt ↦ s ∷ t ∷ names
      | Ordering.eq ↦ t ∷ names
      | Ordering.gt ↦ t ∷ rest
    ]

-- `sorted(… .unique())`
unfoldable pub sorted_names : List String → List String
unfolding insert_name
sorted_names [] = []
sorted_names (s ∷ names) = insert_name s (sorted_names names)

abbrev pub is_some : {A : Type 0} → Option A → Bool
is_some none = false
is_some (some a) = true

abbrev bool_eq : Bool → Bool → Bool
bool_eq true b = b
bool_eq false b = not b

abbrev same_neighbor : Option ℕ → Option ℕ → Bool
same_neighbor none none = true
same_neighbor (some a) (some b) = a == b
same_neighbor _ _ = false

module _ {V : Type 0} where
  abbrev tagged : Bool → Option (Dict ℕ V) → List (Bool × Dict ℕ V)
  tagged zone none = []
  tagged zone (some d) = (zone, d) ∷ []

  -- The items of the dictionary under the key of a resource.
  unfoldable pub factors_of : Option (Scaling V) → List (Bool × Dict ℕ V)
  factors_of none = []
  factors_of (some s) =
      if s.ids_first
      then tagged false s.by_id ++ tagged true s.zone_id
      else tagged true s.zone_id ++ tagged false s.by_id

  unfoldable pub plant_factors : List String → Ct V → List (Bool × Dict ℕ V)
  unfolding factors_of lookup
  plant_factors [] ct = []
  plant_factors (t ∷ types) ct =
      factors_of (lookup (key t capacity) ct.plant) ++ plant_factors types ct

  unfoldable pub any_factor : List String → Ct V → Bool
  unfolding lookup
  any_factor types ct = any (λ t. is_some (lookup (key t capacity) ct.plant)) types

  unfoldable pub types_of : Grid V → List String
  unfolding sorted_names
  types_of g = sorted_names (map (λ r. r.type) g.plant)

module _ {V : Type 0} ⦃num : Number V⦄ where
  open num use {equal}

  -- Equality of the sorted items of two dictionaries.
  unfoldable pub same_items : Dict ℕ V → Dict ℕ V → Bool
  unfolding lookup
  same_items a b =
      length a == length b
      && all (λ p. elim (lookup p.0 b) [ none ↦ false | some v ↦ equal p.1 v ]) a

  abbrev same_option : Option V → Option V → Bool
  same_option none none = true
  same_option (some a) (some b) = equal a b
  same_option _ _ = false

  unfoldable pub same_plant : NewPlant V → NewPlant V → Bool
  same_plant a b =
      a.bus_id == b.bus_id
      && a.type == b.type
      && equal a.pmin b.pmin
      && equal a.pmax b.pmax
      && same_option a.c0 b.c0
      && same_option a.c1 b.c1
      && same_option a.c2 b.c2
      && same_neighbor a.plant_id_neighbor b.plant_id_neighbor

  unfoldable pub same_factors : List (Bool × Dict ℕ V) → List (Bool × Dict ℕ V) → Bool
  unfolding same_items
  same_factors = same_entries (λ a b. bool_eq a.0 b.0 && same_items a.1 b.1)

  unfoldable pub find_plants :
      List (NewPlant V) → List (Bool × Dict ℕ V) → List (CachedPlants V) → Option (List (Plant V))
  unfolding same_plant same_factors same_entries
  find_plants added factors [] = none
  find_plants added factors (c ∷ cs) =
      if same_entries same_plant c.added added && same_factors c.factors factors
      then some c.rows
      else find_plants added factors cs

  module _ (reactance : Grid V → Bus V → Bus V → Result V) where
    -- With "remove_plant" set, its `.items()` for the key of the cache is an AttributeError.
    unfoldable pub get_plant_df : Method V (List (Plant V))
    unfolding types_of plant_factors any_factor find_plants get_grid
    get_plant_df s =
        let types = types_of s.grid in
        let added = entries s.ct.new_plant in
        let factors = plant_factors types s.ct in
        if is_some s.ct.remove_plant
        then (raise attribute_error, s)
        else (if is_some s.ct.new_plant || any_factor types s.ct
            then (elim (find_plants added factors s.plant_cache) [
              | some rows ↦ (ok rows, s)
              | none ↦ elim (get_grid reactance s.ct s.grid) [
                | raise e ↦ (raise e, s)
                | ok g ↦ (
                  ok g.plant,
                  record s {
                    plant_cache =
                        record { added = added; factors = factors; rows = g.plant } ∷ s.plant_cache;
                  },
                )
              ]
            ])
            else (ok s.grid.plant, s))
