-- ===== src/ChangeTable/Resources.antt =====
-- `_check_resource`, `_get_plant_id`, `_add_plant_entries` and the methods
-- that call it, of powersimdata/input/change_table.py; and `scale_plant_pmin` of
-- powersimdata/input/changes/plant.py.
use power_sim_data.Prelude.{
  ℕ, String, Bool, true, false, ◌&&◌, ◌||◌, Option, none, some, List, [], ◌∷◌, map, nat_eq,
  string_eq, ◌==◌, all, select, contains, subset, if◌then◌else◌,
}
use power_sim_data.Prelude.Dict.{Dict, keys, values, lookup, insert, remove}
use power_sim_data.Prelude.Result.{Result, raise, require, value_error, key_error}
use power_sim_data.Number.{Number, of_ℕ}
use power_sim_data.Grid.{Plant, Bus, Grid}
use power_sim_data.Grid.Rows.{ids}
use power_sim_data.Ct.{Kind, capacity, cost, pmin, PlantKey, key_eq, Scaling, no_scaling, Ct}
use power_sim_data.TransformGrid.Scale.{key}
use power_sim_data.TransformGrid.Add.{or_key_error}
use power_sim_data.TransformGrid.Apply.{get_grid}
use power_sim_data.ChangeTable.Frames.{Method, ◌>>=◌, return, lift, modify}
use power_sim_data.ChangeTable.Scaling.{check_zone}
use power_sim_data.ChangeTable.PlantTable.{is_some, get_plant_df}

abbrev truthy : {A : Type 0} → Option (List A) → Bool
truthy (some (x ∷ l)) = true
truthy _ = false

module _ {V : Type 0} where
  -- `_check_resource`
  unfoldable pub check_resource : Grid V → String → Result (Unit {0})
  check_resource g t = require (contains g.immutables.all_resources t) value_error

  -- `_get_plant_id`: no KeyError for a group that is not there.
  unfoldable pub get_plant_id : Grid V → String → String → List ℕ
  get_plant_id g zone resource =
      map (λ r. r.plant_id) (select (λ r. r.zone_name == zone && r.type == resource) g.plant)

  -- `self.ct[ct_key]`, set, changed or popped.
  abbrev with_key : PlantKey → Ct V → Ct V
  with_key k ct = elim (lookup k ct.plant) [
    | none ↦ record ct { plant = insert k no_scaling ct.plant }
    | some s ↦ ct
  ]

  abbrev pop_key : PlantKey → Ct V → Ct V
  pop_key k ct = record ct { plant = remove k ct.plant }

  abbrev under : PlantKey → Ct V → Scaling V
  under k ct = elim (lookup k ct.plant) [ none ↦ no_scaling | some s ↦ s ]

  abbrev or_new : Option (Dict ℕ V) → Dict ℕ V
  or_new none = []
  or_new (some d) = d

  unfoldable pub with_zones : PlantKey → Ct V → Ct V
  unfolding lookup insert
  with_zones k ct =
      let s = under k ct in
      let first = if is_some s.zone_id then s.ids_first else is_some s.by_id in
      record ct {
        plant =
            insert k (record s { zone_id = some (or_new s.zone_id); ids_first = first }) ct.plant;
      }

  unfoldable pub put_zone : PlantKey → ℕ → V → Ct V → Ct V
  unfolding lookup insert
  put_zone k i v ct =
      let s = under k ct in
      record ct {
        plant = insert k (record s { zone_id = some (insert i v (or_new s.zone_id)) }) ct.plant;
      }

  unfoldable pub with_ids : PlantKey → Ct V → Ct V
  unfolding lookup insert
  with_ids k ct =
      let s = under k ct in
      record ct { plant = insert k (record s { by_id = some (or_new s.by_id) }) ct.plant }

  unfoldable pub put_ids : PlantKey → Dict ℕ V → Ct V → Ct V
  unfolding lookup insert
  put_ids k [] ct = ct
  put_ids k ((i, v) ∷ d) ct =
      let s = under k ct in
      put_ids k d (record ct {
        plant = insert k (record s { by_id = some (insert i v (or_new s.by_id)) }) ct.plant;
      })

  -- The loop over the zones: a zone without a plant of the resource is passed over.
  unfoldable pub put_zones : String → PlantKey → Dict String V → Method V Unit
  unfolding get_plant_id put_zone lookup
  put_zones resource k [] s = return tt s
  put_zones resource k ((z, v) ∷ d) s = elim (get_plant_id s.grid z resource) [
    | [] ↦ put_zones resource k d s
    | i ∷ l ↦
        (lift (λ s. or_key_error (lookup z s.grid.zone2id)) >>= λ zone.
        modify (put_zone k zone v) >>= λ _. put_zones resource k d)
          s
  ]

  -- `if len(self.ct[ct_key]["zone_id"]) == 0: self.ct.pop(ct_key)`
  unfoldable pub pop_if_empty : PlantKey → Ct V → Ct V
  unfolding lookup remove
  pop_if_empty k ct = elim (or_new (under k ct).zone_id) [ [] ↦ pop_key k ct | p ∷ d ↦ ct ]

  -- `self.ct.pop(ct_key)`, and then the exception.
  unfoldable pub pop_and_raise : PlantKey → Method V Unit
  unfolding lookup remove
  pop_and_raise k s = elim (lookup k s.ct.plant) [
    | none ↦ (raise key_error, s)
    | some d ↦ (raise value_error, record s { ct = pop_key k s.ct })
  ]

module _ {V : Type 0} ⦃num : Number V⦄ where
  open num use {le, lt, mul, div, equal}

  -- `all([v >= 0 for v in …])`
  abbrev non_negative : {K : Type 0} → Dict K V → Bool
  non_negative d = all (λ v. le (of_ℕ 0) v) (values d)

  -- The part of `_add_plant_entries` for `zone_name`.
  unfoldable pub add_zone_entries : String → PlantKey → Option (Dict String V) → Method V Unit
  unfolding check_zone with_zones put_zones pop_if_empty remove
  add_zone_entries resource k none s = return tt s
  add_zone_entries resource k (some d) s =
      if check_zone s.grid (keys d)
      then (if non_negative d
          then (modify (with_zones k) >>= λ _.
                put_zones resource k d >>= λ _. modify (pop_if_empty k))
              s
          else (raise value_error, s))
      else (raise value_error, record s { ct = pop_key k s.ct })

  -- The part for `plant_id`, given the ids of the transformed plant table.
  unfoldable pub add_id_entries : List ℕ → PlantKey → Dict ℕ V → Method V Unit
  unfolding with_ids put_ids pop_and_raise lookup
  add_id_entries present k d s =
      if subset (keys d) present
      then (if non_negative d
          then (elim (lookup k s.ct.plant) [
            | none ↦ (raise key_error, s)
            | some c ↦ modify (λ ct. put_ids k d (with_ids k ct)) s
          ])
          else (raise value_error, s))
      else pop_and_raise k s

  module _ (reactance : Grid V → Bus V → Bus V → Result V) where
    unfoldable pub add_plant_ids : PlantKey → Option (Dict ℕ V) → Method V Unit
    unfolding get_plant_df add_id_entries
    add_plant_ids k none = return tt
    add_plant_ids k (some d) = do
      anticipated ← get_plant_df reactance
      add_id_entries (ids (λ r. r.plant_id) anticipated) k d

    -- `_add_plant_entries`
    unfoldable pub add_plant_entries :
        String → Kind → Option (Dict String V) → Option (Dict ℕ V) → Method V Unit
    unfolding check_resource add_zone_entries add_plant_ids lookup insert
    add_plant_entries resource kind zone_name plant_id = do
      _ ← lift (λ s. check_resource s.grid resource)
      _ ← lift (λ s. require (truthy zone_name || truthy plant_id) value_error)
      _ ← modify (with_key (key resource kind))
      _ ← add_zone_entries resource (key resource kind) zone_name
      add_plant_ids (key resource kind) plant_id

    unfoldable pub scale_plant_capacity :
        String → Option (Dict String V) → Option (Dict ℕ V) → Method V Unit
    unfolding add_plant_entries
    scale_plant_capacity resource = add_plant_entries resource capacity

    unfoldable pub scale_plant_cost :
        String → Option (Dict String V) → Option (Dict ℕ V) → Method V Unit
    unfolding add_plant_entries
    scale_plant_cost resource = add_plant_entries resource cost

    -- One round of the loop over the plants to be clipped.
    unfoldable pub clip : PlantKey → ℕ × V → Method V Unit
    unfolding lookup insert
    clip k (i, correction) s = elim (lookup k s.ct.plant) [
      | none ↦ (raise key_error, s)
      | some c ↦
          let d = or_new c.by_id in
          let v : V = elim (lookup i d) [ none ↦ correction | some old ↦ mul old correction ] in
          modify
            (λ ct. record ct {
              plant = insert k (record c { by_id = some (insert i v d) }) ct.plant;
            })
            s
    ]

    unfoldable pub clip_all : PlantKey → Dict ℕ V → Method V Unit
    unfolding clip
    clip_all k [] = return tt
    clip_all k (p ∷ d) = do _ ← clip k p; clip_all k d

    -- The ratios of Pmax to Pmin that are below 1.
    unfoldable pub to_be_clipped : List (Plant V) → Dict ℕ V
    to_be_clipped [] = []
    to_be_clipped (r ∷ rows) =
        let rest = to_be_clipped rows in
        if lt (div r.pmax r.pmin) (of_ℕ 1) then (r.plant_id, div r.pmax r.pmin) ∷ rest else rest

    unfoldable pub scale_plant_pmin :
        String → Option (Dict String V) → Option (Dict ℕ V) → Method V Unit
    unfolding add_plant_entries clip_all to_be_clipped get_grid
    scale_plant_pmin resource zone_name plant_id = do
      _ ← add_plant_entries resource pmin zone_name plant_id
      g ← lift (λ s. get_grid reactance s.ct s.grid)
      clip_all (key resource pmin) (to_be_clipped g.plant)
