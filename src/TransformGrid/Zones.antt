-- ===== src/TransformGrid/Zones.antt =====
-- What scaling by zone does to the capacities of plants: `_scale_gen_by_zone`, against a description
-- of each row on its own.
use power_sim_data.Prelude.{
  ℕ, String, ◌≡◌, refl, sym, ap, ◌∙◌, subst, Bool, none, some, List, [], ◌∷◌, map, nat_eq,
  string_eq, ◌==◌, ==_iff, if◌then◌else◌, arith,
}
use power_sim_data.Prelude.Dict.{Dict, lookup}
use power_sim_data.Prelude.Result.{ok, each, ok-injective, >>=-eq-ok}
use power_sim_data.Number.{Number}
use power_sim_data.Grid.{Plant, Grid}
use power_sim_data.Grid.Rows.{where_rows, at_rows, ids}
use power_sim_data.Grid.Select.{IsUnique, where_rows-select}
use power_sim_data.CsvStore.Laws.{IsIndexed}
use power_sim_data.Ct.{Ct, capacity, key_eq}
use power_sim_data.TransformGrid.Scale
use power_sim_data.TransformGrid.Scale.{
  in_zone, scale_plant, zone_capacity, scale_gen_by_zone, scaling, key,
}

module _ {V : Type 0} ⦃num : Number V⦄ where
  -- A plant of the type whose zone has a factor is scaled by it, once; every other plant stays as it is.
  pub scaled_by : String → Dict ℕ V → Plant V → Plant V
  scaled_by t d r = elim (lookup r.zone_id d) [
    | none ↦ r
    | some factor ↦ if r.type == t then scale_plant factor r else r
  ]

  ids-where_rows :
      (p : Plant V → Bool) (factor : V) (rows : List (Plant V))
      → ids (λ r. r.plant_id) (where_rows p (scale_plant factor) rows) ≡ ids (λ r. r.plant_id) rows
  unfolding where_rows scale_plant
  ids-where_rows p factor [] = refl
  ids-where_rows p factor (r ∷ rows) = ground (arith, ids-where_rows p factor rows)

  IsUnique-where_rows :
      (p : Plant V → Bool) (factor : V) (rows : List (Plant V))
      → IsUnique (λ r. r.plant_id) rows
      → IsUnique (λ r. r.plant_id) (where_rows p (scale_plant factor) rows)
  unfolding where_rows scale_plant
  IsUnique-where_rows p factor [] h = tt
  IsUnique-where_rows p factor (r ∷ rows) (new, h) =
      (ground (arith, ids-where_rows p factor rows, new), IsUnique-where_rows p factor rows h)

  plant-scale_thermal :
      (t : String) (wanted : List ℕ) (factor : V) (g h : Grid V)
      → Scale.scale_thermal t wanted factor g ≡ ok h
      → h.plant ≡ g.plant
  unfolding Scale.scale_thermal at_rows
  plant-scale_thermal t wanted factor g h e = ground arith

  plant-zone_capacity :
      (t : String) (z : ℕ) (factor : V) (g h : Grid V)
      → IsUnique (λ r. r.plant_id) g.plant
      → zone_capacity t (z, factor) g ≡ ok h
      → h.plant ≡ where_rows (in_zone t z) (scale_plant factor) g.plant
  unfolding zone_capacity at_rows
  plant-zone_capacity t z factor g h unique e =
      let (wanted, chosen, e₁) = >>=-eq-ok (Scale.plants_in_zone t z g) _ e in
      let (u, scaled, e₂) = >>=-eq-ok (Scale.scale_gen_capacity wanted factor g) _ e₁ in
      let same =
        where_rows-select (λ r. r.plant_id) (in_zone t z) (scale_plant factor) g.plant unique in
      plant-scale_thermal t wanted factor u h e₂ ∙ ground (arith, chosen, scaled, same)

  scaled_by-step :
      (t : String) (z : ℕ) (factor : V) (d : Dict ℕ V) (rows : List (Plant V))
      → lookup z d ≡ none
      → map (scaled_by t d) (where_rows (in_zone t z) (scale_plant factor) rows)
        ≡ map (scaled_by t ((z, factor) ∷ d)) rows
  unfolding where_rows scaled_by in_zone scale_plant lookup
  scaled_by-step t z factor d [] new = refl
  scaled_by-step t z factor d (r ∷ rows) new =
      ground (arith, scaled_by-step t z factor d rows, ==_iff z r.zone_id, ==_iff r.zone_id z)

  map-scaled_by-[] : (t : String) (rows : List (Plant V)) → map (scaled_by t []) rows ≡ rows
  unfolding scaled_by lookup
  map-scaled_by-[] t [] = refl
  map-scaled_by-[] t (r ∷ rows) = ap (λ l. r ∷ l) (map-scaled_by-[] t rows)

  each-scaled_by :
      (t : String) (d : Dict ℕ V) (g h : Grid V)
      → IsUnique (λ r. r.plant_id) g.plant
      → IsIndexed d
      → each (zone_capacity t) d g ≡ ok h
      → h.plant ≡ map (scaled_by t d) g.plant
  unfolding each
  each-scaled_by t [] g h unique indexed e =
      ap (λ g. g.plant) (sym (ok-injective e)) ∙ sym (map-scaled_by-[] t g.plant)
  each-scaled_by t ((z, factor) ∷ d) g h unique (new, indexed) e =
      let (u, first, rest) = >>=-eq-ok (zone_capacity t (z, factor) g) _ e in
      let one = plant-zone_capacity t z factor g u unique first in
      let still =
        subst (IsUnique (λ r. r.plant_id)) (sym one)
          (IsUnique-where_rows (in_zone t z) factor g.plant unique) in
      each-scaled_by t d u h still indexed rest
      ∙ ap (map (scaled_by t d)) one
      ∙ scaled_by-step t z factor d g.plant new

  -- If the plant ids are distinct and no zone has two factors, scaling by zone leaves the plant table
  -- in order and scales each plant of the type by the factor of its zone, once, and no other plant.
  pub scale_gen_by_zone-scaled_by :
      (ct : Ct V) (t : String) (g h : Grid V)
      → IsUnique (λ r. r.plant_id) g.plant
      → IsIndexed (scaling ct (key t capacity) (λ s. s.zone_id))
      → scale_gen_by_zone ct t g ≡ ok h
      → h.plant ≡ map (scaled_by t (scaling ct (key t capacity) (λ s. s.zone_id))) g.plant
  unfolding scale_gen_by_zone
  scale_gen_by_zone-scaled_by ct t g h unique indexed e = each-scaled_by t _ g h unique indexed e
