-- ===== src/Configure.antt =====
-- powersimdata/input/configure.py: what is set in a grid before a simulation. The costs and the plants have
-- one index, so that a row of costs comes with the limits of its generator. The columns "startup" and
-- "shutdown" of the costs, which are copied, are left out.
pub mod Laws
mod Tests
use power_sim_data.Prelude.{
  ℕ, zero, suc, ◌+◌, String, Bool, true, false, not, Option, none, some, List, [], ◌∷◌, map, any,
  eqb, nat_eq, string_eq, ◌==◌, contains, if◌then◌else◌,
}
use power_sim_data.Prelude.Dict.{Dict, lookup}
use power_sim_data.Prelude.Result.{Result, ok, raise, require, value_error, ◌>>◌}
use power_sim_data.Number.{Number, of_ℕ}
use power_sim_data.Grid.{Plant, Grid, Immutables}

-- A point of a line over two values of Pmax.
pub record Points (V : Type 0) : Type 0 where
  pub x₀ : V
  pub x₁ : V
  pub y₀ : V
  pub y₁ : V

-- A row of the costs before, with the two limits of its generator.
pub record Curve (V : Type 0) : Type 0 where
  pub type : ℕ
  pub n : ℕ
  pub c0 : V
  pub c1 : V
  pub c2 : V
  pub pmin : V
  pub pmax : V

-- A row of the costs after: `points` holds the columns p1, f1, p2, f2 and so on.
pub record Linear (V : Type 0) : Type 0 where
  pub type : ℕ
  pub n : ℕ
  pub c0 : V
  pub c1 : V
  pub c2 : V
  pub points : List (V × V)

module _ {V : Type 0} ⦃num : Number V⦄ where
  open num use {decimal, neg, add, mul, div, lt, equal}

  -- `_scale`
  unfoldable pub share_of_pmax : Immutables V → Plant V → V
  share_of_pmax mi p = elim (mi.pmin_share p.type) [
    | none ↦ p.pmin
    | some factor ↦ mul factor p.pmax
  ]

  -- The Pmin of one plant: scaled, then 0 for a profile based resource, then 0 for one that is off.
  unfoldable pub adjusted_pmin : Immutables V → Plant V → V
  unfolding share_of_pmax
  adjusted_pmin mi p =
      let scaled = share_of_pmax mi p in
      let by_type = if contains mi.profile_resources p.type then of_ℕ 0 else scaled in
      if p.status == 0 then of_ℕ 0 else by_type

  unfoldable pub with_pmin : Immutables V → Plant V → Plant V
  unfolding adjusted_pmin
  with_pmin mi p = record p { pmin = adjusted_pmin mi p }

  unfoldable pub adjust_pmin : Grid V → Grid V
  unfolding with_pmin
  adjust_pmin g = record g { plant = map (with_pmin g.immutables) g.plant }

  ramp30_points : Dict String (Points V)
  ramp30_points =
      ("coal", record { x₀ = of_ℕ 200; x₁ = of_ℕ 1400; y₀ = decimal 4 1; y₁ = decimal 15 2 })
      ∷ ("dfo", record { x₀ = of_ℕ 200; x₁ = of_ℕ 1200; y₀ = decimal 5 1; y₁ = decimal 2 1 })
      ∷ ("ng", record { x₀ = of_ℕ 200; x₁ = of_ℕ 600; y₀ = decimal 5 1; y₁ = decimal 2 1 })
      ∷ []

  unfoldable pub sub : V → V → V
  sub a b = add a (neg b)

  -- The share of Pmax, on the line between the points and constant outside of them.
  unfoldable pub norm_ramp : Points V → V → V
  unfolding sub
  norm_ramp p pmax =
      let slope = div (sub p.y₁ p.y₀) (sub p.x₁ p.x₀) in
      let intercept = sub p.y₀ (mul slope p.x₀) in
      let on_line = add (mul pmax slope) intercept in
      let below = if lt pmax p.x₀ then p.y₀ else on_line in if lt p.x₁ pmax then p.y₁ else below

  -- The ramp of one plant, where `none` is `np.inf`.
  unfoldable pub ramp_30 : String → V → Option V
  unfolding ramp30_points norm_ramp
  ramp_30 type pmax = elim (lookup type ramp30_points) [
    | none ↦ none
    | some points ↦ some (mul (norm_ramp points pmax) pmax)
  ]

  -- `adjust_ramp30`: the column, under the plants' ids.
  unfoldable pub adjust_ramp30 : List (Plant V) → Dict ℕ (Option V)
  unfolding ramp_30
  adjust_ramp30 plant = map (λ p. (p.plant_id, ramp_30 p.type p.pmax)) plant

  -- `quad_term * x**2 + lin_term * x + const_term`
  unfoldable pub price : Curve V → V → V
  price c x = add (add (mul c.c2 (mul x x)) (mul c.c1 x)) c.c0

  -- The points from number `i` on, `count` of them.
  unfoldable pub segment_points : Curve V → V → ℕ → ℕ → List (V × V)
  unfolding price
  segment_points c step i zero = []
  segment_points c step i (suc count) =
      let capacity = add c.pmin (mul step (of_ℕ i)) in
      (capacity, price c capacity) ∷ segment_points c step (i + 1) count

  zeros : ℕ → List (V × V)
  zeros zero = []
  zeros (suc count) = (of_ℕ 0, of_ℕ 0) ∷ zeros count

  unfoldable pub dispatchable : Curve V → Bool
  dispatchable c = not (equal c.pmin c.pmax)

  unfoldable pub linear_row : ℕ → Curve V → Linear V
  unfolding segment_points sub
  linear_row segments c = record {
    type = 1;
    n = segments + 1;
    c0 = c.c0;
    c1 = c.c1;
    c2 = c.c2;
    points = segment_points c (div (sub c.pmax c.pmin) (of_ℕ segments)) 0 (segments + 1);
  }

  -- A generator that cannot be dispatched costs what it costs at its Pmax; the columns of the points, if
  -- the table has any, are filled with 0.
  unfoldable pub fixed_row : ℕ → Curve V → Linear V
  unfolding price zeros
  fixed_row columns c = record {
    type = c.type;
    n = c.n;
    c0 = price c c.pmax;
    c1 = of_ℕ 0;
    c2 = of_ℕ 0;
    points = zeros columns;
  }

  unfoldable pub after_row : Bool → ℕ → Curve V → Linear V
  unfolding linear_row fixed_row dispatchable
  after_row some_dispatchable segments c =
      if dispatchable c
      then linear_row segments c
      else fixed_row (if some_dispatchable then segments + 1 else 0) c

  unfoldable pub linearize_gencost : ℕ → List (Curve V) → Result (List (Linear V))
  unfolding after_row
  linearize_gencost segments curves =
      require (not (any (λ c. not (eqb c.type 2)) curves)) value_error
      >> require (not (any (λ c. not (eqb c.n 3)) curves)) value_error
      >> ok (map (after_row (any dispatchable curves) segments) curves)
