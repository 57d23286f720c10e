-- ===== src/CleanCapacity/Shortfall.antt =====
-- The columns that powersimdata/design/generation/clean_capacity_scaling.py adds to its targets: the
-- shortfall, and the new capacities of the two methods. `nan` is the missing number of numpy.
use power_sim_data.Prelude.{
  String, Bool, false, not, ◌||◌, Option, none, some, List, [], ◌∷◌, map, any, select, string_eq,
  ◌==◌, subset, if◌then◌else◌,
}
use power_sim_data.Prelude.Dict.{Dict, keys, values, lookup}
use power_sim_data.Prelude.Result.{Result, ok, raise, require, value_error, ◌>>=◌, ◌>>◌}
use power_sim_data.Number.{Number, of_ℕ}

-- The columns of solar and of wind under one name.
pub record Pair (V : Type 0) : Type 0 where
  pub solar : V
  pub wind : V

-- A row of the targets; `allowed_resources` is the set in the text of that name. The columns of the two
-- resources are there; `other_generation` holds "….prev_generation" for the others that are.
pub record Target (V : Type 0) : Type 0 where
  pub name : String
  pub ce_target_fraction : V
  pub external_ce_addl_historical_amount : V
  pub solar_percentage : Option V
  pub allowed_resources : List String
  pub demand : V
  pub prev_generation : Pair V
  pub other_generation : Dict String V
  pub prev_capacity : Pair V
  pub prev_cap_factor : Pair V
  pub addl_curtailment : Pair V

-- The columns of `add_shortfall_to_targets`.
pub record Short (V : Type 0) : Type 0 where
  pub target : Target V
  pub prev_ce_generation : V
  pub ce_target : V
  pub ce_shortfall : V
  pub ce_overgeneration : V

module _ {V : Type 0} ⦃num : Number V⦄ where
  open num use {add, mul, div, neg, lt, equal}

  -- Python's `sum`
  sum_from : V → List V → V
  sum_from acc [] = acc
  sum_from acc (x ∷ xs) = sum_from (add acc x) xs

  -- `np.isnan`
  unfoldable pub is_nan : V → Bool
  is_nan x = not (equal x x)

  -- The sum of a column, which passes over what is missing.
  unfoldable pub total : List V → V
  unfolding sum_from is_nan
  total xs = sum_from (of_ℕ 0) (select (λ x. not (is_nan x)) xs)

  sub : V → V → V
  sub a b = add a (neg b)

  -- `_check_solar_fraction`
  unfoldable pub check_solar_fraction : Option V → Result (Unit {0})
  check_solar_fraction none = ok tt
  check_solar_fraction (some f) =
      require (num.le (of_ℕ 0) f) value_error >> require (num.le f (of_ℕ 1)) value_error

  -- `.clip(lower=0)`
  unfoldable pub clip : V → V
  clip x = if lt x (of_ℕ 0) then of_ℕ 0 else x

  -- "….prev_generation" of a resource: a column that is not there is added with 0.
  generation : Target V → String → V
  generation t r =
      if r == "solar"
      then t.prev_generation.solar
      else if r == "wind"
      then t.prev_generation.wind
      else elim (lookup r t.other_generation) [ none ↦ of_ℕ 0 | some x ↦ x ]

  unfoldable pub shortfall_of : Target V → Short V
  unfolding sum_from sub clip generation
  shortfall_of t =
      let prev = sum_from (of_ℕ 0) (map (generation t) t.allowed_resources) in
      let ce_target = mul t.demand t.ce_target_fraction in
      let raw_shortfall = sub ce_target (add prev t.external_ce_addl_historical_amount) in
      record {
        target = t;
        prev_ce_generation = prev;
        ce_target = ce_target;
        ce_shortfall = clip raw_shortfall;
        ce_overgeneration = clip (neg raw_shortfall);
      }

  abbrev pub add_shortfall_to_targets : List (Target V) → List (Short V)
  add_shortfall_to_targets targets = map shortfall_of targets

  -- `targets[targets.ce_target > 0]`
  unfoldable pub participates : Short V → Bool
  participates s = lt (of_ℕ 0) s.ce_target

  unfoldable pub overall : String → List (Short V) → Result V
  unfolding participates total sub
  overall method targets =
      let participating = select participates targets in
      if method == "collaborative"
      then ok (
          sub (total (map (λ s. s.ce_shortfall) participating))
            (total (map (λ s. s.ce_overgeneration) participating)))
      else if method == "independent"
      then ok (total (map (λ s. s.ce_shortfall) targets))
      else raise value_error

  -- The columns are there, since the rows have them.
  unfoldable pub calculate_overall_shortfall : List (Short V) → String → Bool → Result V
  unfolding overall
  calculate_overall_shortfall targets method normalized = overall method targets >>= λ shortfall.
      ok (
        if normalized
        then div shortfall (total (map (λ s. s.target.demand) targets))
        else shortfall)

  -- `calculate_added_capacity`
  unfoldable pub calculate_added_capacity : V → Short V → Pair V
  unfolding sub is_nan
  calculate_added_capacity scenario_length s =
      let t = s.target in
      let solar_share : V = elim t.solar_percentage [
        | none ↦ div t.prev_capacity.solar (add t.prev_capacity.solar t.prev_capacity.wind)
        | some share ↦ share
      ] in
      let wind_share = sub (of_ℕ 1) solar_share in
      let solar_cf = mul t.prev_cap_factor.solar (sub (of_ℕ 1) t.addl_curtailment.solar) in
      let wind_cf = mul t.prev_cap_factor.wind (sub (of_ℕ 1) t.addl_curtailment.wind) in
      let avg_new_cf =
        if is_nan solar_cf
        then mul wind_cf wind_share
        else if is_nan wind_cf
        then mul solar_cf solar_share
        else add (mul solar_cf solar_share) (mul wind_cf wind_share) in
      let total_new_capacity = div s.ce_shortfall (mul avg_new_cf scenario_length) in
      record {
        solar = mul total_new_capacity solar_share;
        wind = mul total_new_capacity (sub (of_ℕ 1) solar_share);
      }

  -- The columns "….next_capacity" of `add_new_capacities_independent`.
  unfoldable pub next_independent : V → Short V → Pair V
  unfolding calculate_added_capacity
  next_independent scenario_length s =
      let added = calculate_added_capacity scenario_length s in
      record {
        solar = add s.target.prev_capacity.solar added.solar;
        wind = add s.target.prev_capacity.wind added.wind;
      }

  -- The checks of `addl_curtailment`.
  unfoldable pub check_curtailment : Dict String V → Result (Unit {0})
  check_curtailment d =
      require (subset (keys d) ("solar" ∷ "wind" ∷ [])) value_error
      >> require (not (any (λ x. lt x (of_ℕ 0) || lt (of_ℕ 1) x) (values d))) value_error

  module _ (nan : V) where
    participating_sum : (Target V → V) → List (Short V) → V
    unfolding total
    participating_sum column targets =
        total (map (λ s. column s.target) (select participates targets))

    -- A resource that a given dictionary leaves out has no factor.
    curtailed : Option (Dict String V) → String → V
    curtailed none r = of_ℕ 0
    curtailed (some d) r = elim (lookup r d) [ none ↦ nan | some x ↦ x ]

    -- The factors by which participating targets are scaled.
    unfoldable pub scaling_factors :
        List (Short V) → V → Option V → Option (Dict String V) → V → Pair V
    unfolding curtailed sub participating_sum total
    scaling_factors targets scenario_length solar_fraction addl_curtailment shortfall =
        let solar_capacity = participating_sum (λ t. t.prev_capacity.solar) targets in
        let wind_capacity = participating_sum (λ t. t.prev_capacity.wind) targets in
        let solar_generation = participating_sum (λ t. t.prev_generation.solar) targets in
        let wind_generation = participating_sum (λ t. t.prev_generation.wind) targets in
        let solar_cf =
          mul (div solar_generation (mul solar_capacity scenario_length))
            (sub (of_ℕ 1) (curtailed addl_curtailment "solar")) in
        let wind_cf =
          mul (div wind_generation (mul wind_capacity scenario_length))
            (sub (of_ℕ 1) (curtailed addl_curtailment "wind")) in
        let solar : V = elim solar_fraction [
          | none ↦ div solar_capacity (total (solar_capacity ∷ wind_capacity ∷ []))
          | some f ↦ f
        ] in
        let wind = sub (of_ℕ 1) solar in
        let avg_new_cf = add (mul solar_cf solar) (mul wind_cf wind) in
        let total_new_capacity = div shortfall (mul avg_new_cf scenario_length) in
        record {
          solar = add (of_ℕ 1) (div (mul total_new_capacity solar) solar_capacity);
          wind = add (of_ℕ 1) (div (mul total_new_capacity wind) wind_capacity);
        }

    -- Targets that do not take part keep their capacities.
    unfoldable pub next_collaborative : Pair V → Short V → Pair V
    unfolding participates
    next_collaborative factors s =
        let solar = s.target.prev_capacity.solar in
        let wind = s.target.prev_capacity.wind in
        if participates s
        then record { solar = mul solar factors.solar; wind = mul wind factors.wind }
        else record { solar = solar; wind = wind }

    unfoldable pub add_new_capacities_collaborative :
        List (Short V) → V → Option V → Option (Dict String V) → Result (List (Pair V))
    unfolding check_curtailment scaling_factors next_collaborative
    add_new_capacities_collaborative targets scenario_length solar_fraction addl_curtailment =
        let checked : Result (Unit {0}) = elim addl_curtailment [
          | none ↦ ok tt
          | some d ↦ check_curtailment d
        ] in
        checked >> calculate_overall_shortfall targets "collaborative" false >>= λ shortfall. ok (
          map
            (next_collaborative
              (scaling_factors targets scenario_length solar_fraction addl_curtailment shortfall))
            targets)
