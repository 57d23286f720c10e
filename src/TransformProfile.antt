-- ===== src/TransformProfile.antt =====
-- powersimdata/input/transform_profile.py: the profiles of a transformed grid. What `ProfileInput` reads from
-- csv files, and the electrified demand, are arguments. A data frame is the list of its columns,
-- each under its id; slicing by dates keeps some rows of each column.
mod Lists
mod NewPlants
pub mod Columns
mod Tests
use power_sim_data.Prelude.{
  ℕ, zero, suc, ◌+◌, ◌-◌, ◌*◌, String, Bool, true, false, not, Option, none, some, List, [], ◌∷◌,
  ◌++◌, map, eqb, ltb, nat_eq, string_eq, ◌==◌, select, contains, length, if◌then◌else◌,
}
use power_sim_data.Prelude.Dict.{Dict, keys, values, lookup}
use power_sim_data.Prelude.Result.{
  Result, ok, raise, key_error, value_error, require, each, ◌>>=◌, ◌>>◌,
}
use power_sim_data.Number.{Number}
use power_sim_data.Grid.{Plant, Grid}
use power_sim_data.Grid.Rows.{ids, row_at}
use power_sim_data.Ct.{NewPlant, Ct}
use power_sim_data.TransformGrid.Add.{entries}

abbrev pub Frame : Type 0 → Type 0
Frame V = Dict ℕ (List V)

-- `xs[:n]` and `xs[n:]`
unfoldable pub take : {A : Type 0} → ℕ → List A → List A
take zero xs = []
take (suc n) [] = []
take (suc n) (x ∷ xs) = x ∷ take n xs

unfoldable pub drop : {A : Type 0} → ℕ → List A → List A
drop zero xs = xs
drop (suc n) [] = []
drop (suc n) (x ∷ xs) = drop n xs

unfoldable pub concat : {A : Type 0} → List (List A) → List A
concat [] = []
concat (xs ∷ xss) = xs ++ concat xss

-- Ids go in before the first that is larger.
unfoldable pub insert_id : ℕ → List ℕ → List ℕ
insert_id i [] = i ∷ []
insert_id i (j ∷ js) = let rest = insert_id i js in if ltb j i then j ∷ rest else i ∷ j ∷ js

unfoldable pub sorted_ids : List ℕ → List ℕ
unfolding insert_id
sorted_ids [] = []
sorted_ids (i ∷ is) = insert_id i (sorted_ids is)

-- `self.scale_keys`: "demand", and the types of plants of each resource.
abbrev pub scale_keys : Dict String (List String) → Dict String (List String)
scale_keys group_profile_resources = ("demand", "demand" ∷ []) ∷ group_profile_resources

abbrev pub types_of : Dict String (List String) → String → List String
types_of groups resource = elim (lookup resource groups) [ none ↦ [] | some types ↦ types ]

module _ {V : Type 0} ⦃num : Number V⦄ where
  open num use {mul}

  abbrev pub is_of : List String → Plant V → Bool
  is_of types p = contains types p.type

  abbrev pub built_as : List String → NewPlant V → Bool
  built_as types entry = contains types entry.type

  -- `_get_number_of_new_plant`: all of them, and those with profiles.
  unfoldable pub number_of_new_plant : Dict String (List String) → Ct V → ℕ × ℕ
  unfolding concat
  number_of_new_plant groups ct =
      let new = entries ct.new_plant in
      (length new, length (select (built_as (concat (values (scale_keys groups)))) new))

  -- The plants of the resource in front of the new ones.
  unfoldable pub old_plant_ids : Grid V → ℕ → List String → List ℕ
  unfolding take
  old_plant_ids g n types =
      ids (λ p. p.plant_id) (select (is_of types) (take (length g.plant - n) g.plant))

  -- `profile[plant_id]`
  unfoldable pub columns : List ℕ → Frame V → Result (Frame V)
  columns [] f = ok []
  columns (i ∷ is) f = elim (lookup i f) [
    | none ↦ raise key_error
    | some xs ↦ columns is f >>= λ rest. ok ((i, xs) ∷ rest)
  ]

  abbrev pub times : V → List V → List V
  times factor xs = map (λ x. mul x factor) xs

  -- `_scale_plant_profile`
  unfoldable pub scale_plant_profile : Grid V → Frame V → Result (Frame V)
  scale_plant_profile g [] = ok []
  scale_plant_profile g ((i, xs) ∷ f) = row_at (λ p. p.plant_id) i g.plant >>= λ p.
      scale_plant_profile g f >>= λ rest. ok ((i, times p.pmax xs) ∷ rest)

  -- The entries of a resource, with the ids that stand at their places at the end of the plant table.
  unfoldable pub new_of : List String → List (NewPlant V) → List ℕ → List (ℕ × NewPlant V)
  new_of types (entry ∷ new) (i ∷ is) =
      let rest = new_of types new is in if built_as types entry then (i, entry) ∷ rest else rest
  new_of types _ _ = []

  -- The column of the neighbor, under the id of the new plant.
  unfoldable pub neighbor_columns : Frame V → List (ℕ × NewPlant V) → Result (Frame V)
  neighbor_columns profile [] = ok []
  neighbor_columns profile ((i, entry) ∷ new) = elim entry.plant_id_neighbor [
    | none ↦ raise key_error
    | some j ↦ elim (lookup j profile) [
      | none ↦ raise key_error
      | some xs ↦ neighbor_columns profile new >>= λ rest. ok ((i, times entry.pmax xs) ∷ rest)
    ]
  ]

  -- `_add_plant_profile`
  unfoldable pub add_plant_profile :
      Grid V → List (NewPlant V) → List String → Frame V → Result (Frame V)
  unfolding new_of neighbor_columns drop
  add_plant_profile g new types profile =
      neighbor_columns profile
        (new_of types new (ids (λ p. p.plant_id) (drop (length g.plant - length new) g.plant)))

  module _ (group_profile_resources : Dict String (List String)) (g : Grid V) (ct : Ct V)
      (stored : String → Result (Frame V)) where
    -- `_get_renewable_profile`
    unfoldable pub get_renewable_profile : String → Result (Frame V)
    unfolding number_of_new_plant old_plant_ids columns scale_plant_profile add_plant_profile
    get_renewable_profile resource = do
      let types = types_of group_profile_resources resource
      let (n_new, n_new_clean) = number_of_new_plant group_profile_resources ct
      raw ← stored resource
      profile ← columns (old_plant_ids g n_new types) raw
      scaled ← scale_plant_profile g profile
      if eqb n_new_clean 0
          then ok scaled
          else (add_plant_profile g (entries ct.new_plant) types profile >>= λ more.
              ok (scaled ++ more))

    -- `demand.loc[:, key] *= value`
    unfoldable pub scale_zone : ℕ × V → Frame V → Result (Frame V)
    scale_zone (key, value) f = elim (lookup key g.id2zone) [
      | none ↦ raise key_error
      | some name ↦
          require (contains (keys f) key) key_error
          >> ok (map (λ c. if c.0 == key then (c.0, times value c.1) else c) f)
    ]

    unfoldable pub get_demand_profile : Result (Frame V)
    unfolding columns scale_zone each sorted_ids
    get_demand_profile = do
      raw ← stored "demand"
      demand ← columns (sorted_ids (keys g.id2zone)) raw
      elim ct.demand [ none ↦ ok demand | some factors ↦ each scale_zone factors demand ]
