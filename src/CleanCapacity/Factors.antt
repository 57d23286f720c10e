-- ===== src/CleanCapacity/Factors.antt =====
-- `_apply_zone_scale_factor_to_ct` and `create_change_table` of
-- powersimdata/design/generation/clean_capacity_scaling.py. The change table of
-- `mimic_generation_capacity`, from which the latter starts, is an argument.
use power_sim_data.Prelude.{
  ℕ, String, Option, none, some, List, [], ◌∷◌, map, nat_eq, string_eq, contains, if◌then◌else◌,
}
use power_sim_data.Prelude.Dict.{Dict, lookup, insert}
use power_sim_data.Prelude.Result.{Result, ok, raise, key_error, each, ◌>>=◌}
use power_sim_data.Number.{Number, of_ℕ}
use power_sim_data.Grid.{Grid}

-- `{"zone_id": {...}, "plant_id": {...}}`
pub record Factors (V : Type 0) : Type 0 where
  pub zone_id : Option (Dict ℕ V)
  pub plant_id : Option (Dict ℕ V)

-- A row of the targets, with the columns that are read here.
pub record Capacities (V : Type 0) : Type 0 where
  pub region : String
  pub prev_solar : V
  pub prev_wind : V
  pub next_solar : V
  pub next_wind : V

abbrev pub factors_of : {V : Type 0} → Dict String (Factors V) → String → Factors V
factors_of ct fuel = elim (lookup fuel ct) [
  | none ↦ record { zone_id = none; plant_id = none }
  | some f ↦ f
]

abbrev pub zones_of : {V : Type 0} → Factors V → Dict ℕ V
zones_of f = elim f.zone_id [ none ↦ [] | some zones ↦ zones ]

module _ {V : Type 0} ⦃num : Number V⦄ where
  open num use {mul, div, add, neg, lt}

  -- A new key has the factor, one that is there is multiplied by it.
  unfoldable pub scaled : Option V → V → V
  scaled none factor = factor
  scaled (some old) factor = mul old factor

  unfoldable pub apply_zone_scale_factor_to_ct :
      String → ℕ → V → Dict String (Factors V) → Dict String (Factors V)
  unfolding scaled
  apply_zone_scale_factor_to_ct fuel zone factor ct =
      let f = factors_of ct fuel in
      let zones = zones_of f in
      insert fuel
        (record f { zone_id = some (insert zone (scaled (lookup zone zones) factor) zones) }) ct

  unfoldable pub apply_to_zones :
      String → V → List ℕ → Dict String (Factors V) → Dict String (Factors V)
  unfolding apply_zone_scale_factor_to_ct
  apply_to_zones fuel factor [] ct = ct
  apply_to_zones fuel factor (zone ∷ zones) ct =
      apply_to_zones fuel factor zones (apply_zone_scale_factor_to_ct fuel zone factor ct)

  magnitude : V → V
  magnitude x = if lt x (of_ℕ 0) then neg x else x

  -- One of the two resources of a region, with epsilon a thousandth.
  unfoldable pub scale_resource :
      String → V → V → List ℕ → Dict String (Factors V) → Dict String (Factors V)
  unfolding apply_to_zones magnitude
  scale_resource fuel prev next zone_ids ct =
      let scale = div next prev in
      let scaled_ct = apply_to_zones fuel scale zone_ids ct in
      if lt (of_ℕ 0) prev
      then (if lt (num.decimal 1 3) (magnitude (add scale (neg (of_ℕ 1)))) then scaled_ct else ct)
      else ct

  -- `[base_grid.zone2id[n] for n in zone_names if n in grid_zones]`
  unfoldable pub ids_of_zones : Grid V → List String → List String → Result (List ℕ)
  ids_of_zones g grid_zones [] = ok []
  ids_of_zones g grid_zones (n ∷ names) =
      let rest = ids_of_zones g grid_zones names in
      if contains grid_zones n
      then elim (lookup n g.zone2id) [
        | none ↦ raise key_error
        | some i ↦ rest >>= λ ids. ok (i ∷ ids)
      ]
      else rest

  module _ (area_to_loadzone : String → Result (List String)) where
    unfoldable pub scale_region :
        Grid V → Capacities V → Dict String (Factors V) → Result (Dict String (Factors V))
    unfolding scale_resource ids_of_zones
    scale_region base_grid target ct = do
      zone_names ← area_to_loadzone target.region
      zone_ids ← ids_of_zones base_grid (map (λ p. p.zone_name) base_grid.plant) zone_names
      ok (
          scale_resource "wind" target.prev_wind target.next_wind zone_ids
            (scale_resource "solar" target.prev_solar target.next_solar zone_ids ct))

    unfoldable pub create_change_table :
        Grid V → Dict String (Factors V) → List (Capacities V) → Result (Dict String (Factors V))
    unfolding scale_region each
    create_change_table base_grid mimicked targets = each (scale_region base_grid) targets mimicked
