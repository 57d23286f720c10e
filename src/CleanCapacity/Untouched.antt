-- ===== src/CleanCapacity/Untouched.antt =====
-- What `create_change_table` of powersimdata/design/generation/clean_capacity_scaling.py scales, and what
-- it leaves as it was.
use power_sim_data.Prelude.{
  ℕ, String, ◌≡◌, ◌⊎◌, refl, subst, ap, ◌∙◌, inl, inr, Bool, true, false, ◌&&◌, Option, some, List,
  [], ◌∷◌, map, nat_eq, string_eq, ==_iff, ◌==◌, if◌then◌else◌, arith, Bool-cases,
}
use power_sim_data.Prelude.Dict.{Dict, lookup, insert, lookup-insert}
use power_sim_data.Prelude.Result.{Result, ok, ok-injective, each-keeps}
use power_sim_data.Number.{Number, of_ℕ}
use power_sim_data.Grid.{Grid}
use power_sim_data.ChangeTable.Units.{then_ok}
use power_sim_data.CleanCapacity.Factors.{
  Factors, Capacities, factors_of, zones_of, scaled, apply_zone_scale_factor_to_ct, apply_to_zones,
  scale_resource, ids_of_zones, scale_region, create_change_table,
}

-- The factor of a zone.
abbrev pub factor : {V : Type 0} → Dict String (Factors V) → String → ℕ → Option V
factor ct fuel zone = lookup zone (zones_of (factors_of ct fuel))

-- Solar or wind.
abbrev Renewable : String → Type 0
Renewable fuel = (fuel ≡ "solar") ⊎ (fuel ≡ "wind")

module _ {V : Type 0} ⦃num : Number V⦄ where
  open num use {div, lt}

  factors_of-insert :
      (ct : Dict String (Factors V)) (fuel other : String) (f : Factors V)
      → factors_of (insert fuel f ct) other ≡ (if fuel == other then f else factors_of ct other)
  factors_of-insert ct fuel other f = elim (Bool-cases (fuel == other)) [
    | inl same ↦ ground (arith, lookup-insert fuel other f ct, same)
    | inr apart ↦ ground (arith, lookup-insert fuel other f ct, apart)
  ]

  -- `_apply_zone_scale_factor_to_ct` sets the factor of one zone of one fuel, or multiplies the one that is there,
  -- and changes no other factor of a zone and no factor of a plant.
  pub apply_zone_scale_factor_to_ct-factor :
      (ct : Dict String (Factors V)) (fuel other : String) (zone z : ℕ) (x : V)
      → (factor (apply_zone_scale_factor_to_ct fuel zone x ct) other z ≡ (
          if fuel == other && zone == z
          then some (scaled (factor ct fuel zone) x)
          else factor ct other z))
        × ((factors_of (apply_zone_scale_factor_to_ct fuel zone x ct) other).plant_id
            ≡ (factors_of ct other).plant_id)
  unfolding apply_zone_scale_factor_to_ct
  apply_zone_scale_factor_to_ct-factor ct fuel other zone z x =
      let zones = zones_of (factors_of ct fuel) in
      let value = scaled (lookup zone zones) x in
      let f : Factors V = record (factors_of ct fuel) {
        zone_id = some (insert zone value zones);
      } in
      let at_key = factors_of-insert ct fuel other f in
      let at_zone = lookup-insert zone z value zones in
      elim (Bool-cases (fuel == other)) [
        | inr apart ↦
            let kept : factors_of (insert fuel f ct) other ≡ factors_of ct other =
              at_key ∙ rw apart refl in
            (ap (λ g. lookup z (zones_of g)) kept ∙ rw apart refl, ap (λ g. g.plant_id) kept)
        | inl same ↦
            let is_f : factors_of (insert fuel f ct) other ≡ f = at_key ∙ rw same refl in
            let named = (==_iff fuel other).0 same in
            (
              ap (λ g. lookup z (zones_of g)) is_f
                  ∙ at_zone
                  ∙ ap (λ n. if zone == z then some value else factor ct n z) named
                  ∙ rw same refl,
              ap (λ g. g.plant_id) is_f ∙ ap (λ n. (factors_of ct n).plant_id) named,
            )
      ]

  -- Between two change tables: no factor of a plant, and of the other resources nothing, has changed.
  pub record Kept (s t : Dict String (Factors V)) : Type 0 where
    pub plants : (fuel : String) → (factors_of t fuel).plant_id ≡ (factors_of s fuel).plant_id
    pub others :
        (fuel : String) (zone : ℕ)
        → ("solar" == fuel) ≡ false
        → ("wind" == fuel) ≡ false
        → factor t fuel zone ≡ factor s fuel zone

  Kept-same : (s : Dict String (Factors V)) → Kept s s
  Kept-same s = record { plants = λ fuel. refl; others = λ fuel zone solar wind. refl }

  Kept-chain : (s t u : Dict String (Factors V)) → Kept s t → Kept t u → Kept s u
  Kept-chain s t u a b = record {
    plants = λ fuel. b.plants fuel ∙ a.plants fuel;
    others = λ fuel zone solar wind. b.others fuel zone solar wind ∙ a.others fuel zone solar wind;
  }

  apply-Kept :
      (fuel : String) (zone : ℕ) (x : V) (ct : Dict String (Factors V))
      → Renewable fuel
      → Kept ct (apply_zone_scale_factor_to_ct fuel zone x ct)
  apply-Kept fuel zone x ct renewable = record {
    plants = λ other. (apply_zone_scale_factor_to_ct-factor ct fuel other zone 0 x).1;
    others = λ other z solar wind.
        let apart : (fuel == other) ≡ false = elim renewable [
          | inl is ↦ ap (λ n. n == other) is ∙ solar
          | inr is ↦ ap (λ n. n == other) is ∙ wind
        ] in
        (apply_zone_scale_factor_to_ct-factor ct fuel other zone z x).0 ∙ rw apart refl;
  }

  apply_to_zones-Kept :
      (fuel : String) (x : V) (zones : List ℕ) (ct : Dict String (Factors V))
      → Renewable fuel
      → Kept ct (apply_to_zones fuel x zones ct)
  unfolding apply_to_zones
  apply_to_zones-Kept fuel x [] ct renewable = Kept-same ct
  apply_to_zones-Kept fuel x (zone ∷ zones) ct renewable =
      let next = apply_zone_scale_factor_to_ct fuel zone x ct in
      Kept-chain ct next (apply_to_zones fuel x zones next) (apply-Kept fuel zone x ct renewable)
        (apply_to_zones-Kept fuel x zones next renewable)

  either-Kept :
      (b : Bool) (s t u : Dict String (Factors V))
      → Kept s t
      → Kept s u
      → Kept s (if b then t else u)
  either-Kept true s t u one two = one
  either-Kept false s t u one two = two

  scale_resource-Kept :
      (fuel : String) (prev next : V) (zones : List ℕ) (ct : Dict String (Factors V))
      → Renewable fuel
      → Kept ct (scale_resource fuel prev next zones ct)
  unfolding scale_resource
  scale_resource-Kept fuel prev next zones ct renewable =
      let done = apply_to_zones-Kept fuel (div next prev) zones ct renewable in
      either-Kept (lt (of_ℕ 0) prev) ct _ ct
        (either-Kept _ ct (apply_to_zones fuel (div next prev) zones ct) ct done (Kept-same ct))
        (Kept-same ct)

  scale_region-Kept :
      (area_to_loadzone : String → Result (List String)) (g : Grid V) (target : Capacities V)
      (s t : Dict String (Factors V))
      → scale_region area_to_loadzone g target s ≡ ok t
      → Kept s t
  unfolding scale_region
  scale_region-Kept area_to_loadzone g target s t h =
      then_ok (area_to_loadzone target.region) _ h λ names e₁ h₁.
        then_ok (ids_of_zones g (map (λ p. p.zone_name) g.plant) names) _ h₁ λ zone_ids e₂ h₂.
          let solar = scale_resource "solar" target.prev_solar target.next_solar zone_ids s in
          let both = scale_resource "wind" target.prev_wind target.next_wind zone_ids solar in
          subst (Kept s) (ok-injective h₂) (
            Kept-chain s solar both
              (scale_resource-Kept "solar" target.prev_solar target.next_solar zone_ids s
                (inl refl))
              (scale_resource-Kept "wind" target.prev_wind target.next_wind zone_ids solar
                (inr refl)))

  -- A change table that `create_change_table` makes has the plant factors of the one it starts from, and the
  -- same factors for every resource but solar and wind.
  pub create_change_table-Kept :
      (area_to_loadzone : String → Result (List String)) (g : Grid V)
      (mimicked ct : Dict String (Factors V)) (targets : List (Capacities V))
      → create_change_table area_to_loadzone g mimicked targets ≡ ok ct
      → Kept mimicked ct
  unfolding create_change_table
  create_change_table-Kept area_to_loadzone g mimicked ct targets h =
      each-keeps Kept (scale_region area_to_loadzone g) Kept-same Kept-chain
        (scale_region-Kept area_to_loadzone g) targets mimicked ct h
