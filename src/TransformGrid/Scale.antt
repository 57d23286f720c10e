-- ===== src/TransformGrid/Scale.antt =====
-- The methods `_scale_*` of `TransformGrid`, and the removals.
use power_sim_data.Prelude.{
  ℕ, String, Bool, true, false, ◌&&◌, Option, none, some, List, [], ◌∷◌, nat_eq, string_eq, ◌==◌,
  contains, select, map, if◌then◌else◌,
}
use power_sim_data.Prelude.Dict.{Dict, lookup}
use power_sim_data.Prelude.Result.{Result, ok, raise, each, key_error, ◌>>=◌}
use power_sim_data.Number.{Number, of_ℕ}
use power_sim_data.Grid.{Plant, Gencost, Branch, Dcline, Grid}
use power_sim_data.Grid.Rows.{at_rows, without}
use power_sim_data.Ct.{Kind, capacity, cost, pmin, PlantKey, key_eq, Scaling, Ct}

abbrev pub key : String → Kind → PlantKey
key resource kind = record { resource = resource; kind = kind }

abbrev pub is_nil : {A : Type 0} → List A → Bool
is_nil [] = true
is_nil (x ∷ xs) = false

-- The items of a dictionary that is under a key, if the key is there.
abbrev pub items : {V : Type 0} → Option (Dict ℕ V) → Dict ℕ V
items none = []
items (some d) = d

abbrev pub scaling : {V : Type 0} → Ct V → PlantKey → (Scaling V → Option (Dict ℕ V)) → Dict ℕ V
scaling ct k part = elim (lookup k ct.plant) [ none ↦ [] | some s ↦ items (part s) ]

module _ {V : Type 0} ⦃num : Number V⦄ where
  open num use {mul, div, equal}

  unfoldable pub scale_plant : V → Plant V → Plant V
  scale_plant factor r = record r { pmin = mul r.pmin factor; pmax = mul r.pmax factor }

  unfoldable pub scale_plant_pmin : V → Plant V → Plant V
  scale_plant_pmin factor r = record r { pmin = mul r.pmin factor }

  unfoldable pub scale_gencost : V → Gencost V → Gencost V
  scale_gencost factor r = record r {
    c0 = mul r.c0 factor;
    c1 = mul r.c1 factor;
    c2 = mul r.c2 factor;
  }

  -- The cost curve keeps the slopes at its ends when the capacity is scaled.
  unfoldable pub scale_gencost_with_capacity : V → Gencost V → Gencost V
  scale_gencost_with_capacity factor r = record r {
    c0 = mul r.c0 factor;
    c2 = if equal factor (of_ℕ 0) then r.c2 else div r.c2 factor;
  }

  unfoldable pub scale_branch : V → Branch V → Branch V
  scale_branch factor r = record r { rate_a = mul r.rate_a factor; x = div r.x factor }

  unfoldable pub scale_dcline_row : V → Dcline V → Dcline V
  scale_dcline_row factor r = record r {
    pmin = mul r.pmin factor;
    pmax = mul r.pmax factor;
    status = if equal factor (of_ℕ 0) then 0 else r.status;
  }

  -- `_scale_gen_capacity`
  unfoldable pub scale_gen_capacity : List ℕ → V → Grid V → Result (Grid V)
  scale_gen_capacity wanted factor g = do
    rows ← at_rows (λ r. r.plant_id) wanted (scale_plant factor) g.plant
    ok (record g { plant = rows })

  -- `_scale_gencost_by_capacity`
  unfoldable pub scale_gencost_by_capacity : List ℕ → V → Grid V → Result (Grid V)
  scale_gencost_by_capacity wanted factor g = do
    rows ← at_rows (λ r. r.plant_id) wanted (scale_gencost_with_capacity factor) g.gencost_before
    ok (record g { gencost_before = rows })

  -- Under `if gen_type in thermal_resources`.
  unfoldable pub scale_thermal : String → List ℕ → V → Grid V → Result (Grid V)
  unfolding scale_gencost_by_capacity
  scale_thermal gen_type wanted factor g =
      if contains g.immutables.thermal_resources gen_type
      then scale_gencost_by_capacity wanted factor g
      else ok g

  unfoldable pub in_zone : String → ℕ → Plant V → Bool
  in_zone gen_type z r = r.zone_id == z && r.type == gen_type

  -- `plant.groupby(["zone_id", "type"]).get_group((zone_id, gen_type)).index`
  unfoldable pub plants_in_zone : String → ℕ → Grid V → Result (List ℕ)
  unfolding in_zone
  plants_in_zone gen_type z g =
      let rows = select (in_zone gen_type z) g.plant in
      if is_nil rows then raise key_error else ok (map (λ r. r.plant_id) rows)

  -- The bodies of the loops over a dictionary from zones or ids to factors.
  unfoldable pub zone_capacity : String → ℕ × V → Grid V → Result (Grid V)
  unfolding plants_in_zone scale_gen_capacity scale_thermal
  zone_capacity gen_type (z, factor) g = do
    wanted ← plants_in_zone gen_type z g
    g' ← scale_gen_capacity wanted factor g
    scale_thermal gen_type wanted factor g'

  unfoldable pub id_capacity : String → ℕ × V → Grid V → Result (Grid V)
  unfolding scale_gen_capacity scale_thermal
  id_capacity gen_type (i, factor) g = do
    g' ← scale_gen_capacity (i ∷ []) factor g
    scale_thermal gen_type (i ∷ []) factor g'

  unfoldable pub cost_at : List ℕ → V → Grid V → Result (Grid V)
  cost_at wanted factor g = do
    rows ← at_rows (λ r. r.plant_id) wanted (scale_gencost factor) g.gencost_before
    ok (record g { gencost_before = rows })

  unfoldable pub zone_cost : String → ℕ × V → Grid V → Result (Grid V)
  unfolding plants_in_zone cost_at
  zone_cost gen_type (z, factor) g = do
    wanted ← plants_in_zone gen_type z g
    cost_at wanted factor g

  unfoldable pub id_cost : ℕ × V → Grid V → Result (Grid V)
  unfolding cost_at
  id_cost (i, factor) g = cost_at (i ∷ []) factor g

  unfoldable pub pmin_at : List ℕ → V → Grid V → Result (Grid V)
  pmin_at wanted factor g = do
    rows ← at_rows (λ r. r.plant_id) wanted (scale_plant_pmin factor) g.plant
    ok (record g { plant = rows })

  unfoldable pub zone_pmin : String → ℕ × V → Grid V → Result (Grid V)
  unfolding plants_in_zone pmin_at
  zone_pmin gen_type (z, factor) g = do
    wanted ← plants_in_zone gen_type z g
    pmin_at wanted factor g

  unfoldable pub id_pmin : ℕ × V → Grid V → Result (Grid V)
  unfolding pmin_at
  id_pmin (i, factor) g = pmin_at (i ∷ []) factor g

  module _ (ct : Ct V) where
    unfoldable pub scale_gen_by_zone : String → Grid V → Result (Grid V)
    unfolding zone_capacity each lookup
    scale_gen_by_zone t = each (zone_capacity t) (scaling ct (key t capacity) (λ s. s.zone_id))

    unfoldable pub scale_gencost_by_zone : String → Grid V → Result (Grid V)
    unfolding zone_cost each lookup
    scale_gencost_by_zone t = each (zone_cost t) (scaling ct (key t cost) (λ s. s.zone_id))

    unfoldable pub scale_gen_pmin_by_zone : String → Grid V → Result (Grid V)
    unfolding zone_pmin each lookup
    scale_gen_pmin_by_zone t = each (zone_pmin t) (scaling ct (key t pmin) (λ s. s.zone_id))

    unfoldable pub scale_gen_by_id : String → Grid V → Result (Grid V)
    unfolding id_capacity each lookup
    scale_gen_by_id t = each (id_capacity t) (scaling ct (key t capacity) (λ s. s.by_id))

    unfoldable pub scale_gencost_by_id : String → Grid V → Result (Grid V)
    unfolding id_cost each lookup
    scale_gencost_by_id t = each id_cost (scaling ct (key t cost) (λ s. s.by_id))

    unfoldable pub scale_gen_pmin_by_id : String → Grid V → Result (Grid V)
    unfolding id_pmin each lookup
    scale_gen_pmin_by_id t = each id_pmin (scaling ct (key t pmin) (λ s. s.by_id))

  unfoldable pub branch_at : List ℕ → V → Grid V → Result (Grid V)
  branch_at wanted factor g = do
    rows ← at_rows (λ r. r.branch_id) wanted (scale_branch factor) g.branch
    ok (record g { branch = rows })

  -- Lines with both ends in the zone.
  unfoldable pub branches_in_zone : ℕ → Grid V → Result (List ℕ)
  branches_in_zone z g =
      let rows = select (λ r. r.from_zone_id == z && r.to_zone_id == z) g.branch in
      if is_nil rows then raise key_error else ok (map (λ r. r.branch_id) rows)

  unfoldable pub zone_branch : ℕ × V → Grid V → Result (Grid V)
  unfolding branch_at branches_in_zone
  zone_branch (z, factor) g = do wanted ← branches_in_zone z g; branch_at wanted factor g

  unfoldable pub id_branch : ℕ × V → Grid V → Result (Grid V)
  unfolding branch_at
  id_branch (i, factor) g = branch_at (i ∷ []) factor g

  unfoldable pub id_dcline : ℕ × V → Grid V → Result (Grid V)
  id_dcline (i, factor) g = do
    rows ← at_rows (λ r. r.dcline_id) (i ∷ []) (scale_dcline_row factor) g.dcline
    ok (record g { dcline = rows })

  unfoldable pub branch_items : Ct V → (Scaling V → Option (Dict ℕ V)) → Dict ℕ V
  branch_items ct part = elim ct.branch [ none ↦ [] | some s ↦ items (part s) ]

  unfoldable pub scale_branch_by_zone : Ct V → Grid V → Result (Grid V)
  unfolding zone_branch branch_items each
  scale_branch_by_zone ct = each zone_branch (branch_items ct (λ s. s.zone_id))

  unfoldable pub scale_branch_by_id : Ct V → Grid V → Result (Grid V)
  unfolding id_branch branch_items each
  scale_branch_by_id ct = each id_branch (branch_items ct (λ s. s.by_id))

  -- With the key "dcline" there, but not "dcline_id" under it, this is a KeyError.
  unfoldable pub scale_dcline : Ct V → Grid V → Result (Grid V)
  unfolding id_dcline each
  scale_dcline ct g = elim ct.dcline [
    | none ↦ ok g
    | some none ↦ raise key_error
    | some (some d) ↦ each id_dcline d g
  ]

  unfoldable pub remove_branch : Ct V → Grid V → Grid V
  remove_branch ct g = elim ct.remove_branch [
    | none ↦ g
    | some removed ↦ record g { branch = without (λ r. r.branch_id) removed g.branch }
  ]

  unfoldable pub remove_bus : Ct V → Grid V → Grid V
  remove_bus ct g = elim ct.remove_bus [
    | none ↦ g
    | some removed ↦ record g { bus = without (λ r. r.bus_id) removed g.bus }
  ]
