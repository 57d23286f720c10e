-- ===== src/Configure/Laws.antt =====
-- Laws of powersimdata/input/configure.py.
use power_sim_data.Prelude.{
  ℕ, zero, suc, ◌+◌, ◌≡◌, refl, sym, subst, ap, ◌⊎◌, inl, inr, Bool, true, false, not, List, [],
  ◌∷◌, map, any, eqb, string_eq, nat_eq, length, if◌then◌else◌, arith, Bool-cases, Option-cases,
  All,
}
use power_sim_data.Prelude.Result.{ok}
use power_sim_data.Number.{Number, of_ℕ}
use power_sim_data.Grid.{Plant, Grid, Immutables}
use power_sim_data.Configure.{
  Curve, Linear, sub, share_of_pmax, adjusted_pmin, with_pmin, adjust_pmin, price, segment_points,
  dispatchable, linear_row, fixed_row, after_row, linearize_gencost,
}

-- The elements, numbered from `i` on.
abbrev pub Numbered : {A : Type 0} → (ℕ → A → Type 0) → ℕ → List A → Type 0
Numbered R i [] = Unit
Numbered R i (x ∷ xs) = R i x × Numbered R (i + 1) xs

module _ {V : Type 0} ⦃num : Number V⦄ where
  open num use {add, neg, mul, div}

  -- Once the minimum of a plant is adjusted, adjusting it again changes nothing.
  adjusted_pmin_idem :
      (mi : Immutables V) (p : Plant V)
      → adjusted_pmin mi (record p { pmin = adjusted_pmin mi p }) ≡ adjusted_pmin mi p
  unfolding adjusted_pmin share_of_pmax
  adjusted_pmin_idem mi p = elim (Option-cases (mi.pmin_share p.type)) [
    | inl kept ↦ ground arith
    | inr (factor, scaled) ↦ ground arith
  ]

  adjust_all_idem :
      (mi : Immutables V) (plants : List (Plant V))
      → map (with_pmin mi) (map (with_pmin mi) plants) ≡ map (with_pmin mi) plants
  unfolding with_pmin
  adjust_all_idem mi [] = refl
  adjust_all_idem mi (p ∷ plants) =
      ground (arith, adjusted_pmin_idem mi p, adjust_all_idem mi plants)

  -- A second `adjust_pmin` changes nothing.
  pub adjust_pmin_idem : (g : Grid V) → adjust_pmin (adjust_pmin g) ≡ adjust_pmin g
  unfolding adjust_pmin
  adjust_pmin_idem g = ap (λ rows. record g { plant = rows }) (adjust_all_idem g.immutables g.plant)

  -- The quadratic c2 x² + c1 x + c0.
  abbrev pub quadratic : Curve V → V → V
  quadratic c x = add (add (mul c.c2 (mul x x)) (mul c.c1 x)) c.c0

  -- Number `i` of the points that divide the range of the generator into equal segments, with what the quadratic
  -- costs there.
  abbrev pub IsPoint : Curve V → ℕ → ℕ → V × V → Type 0
  IsPoint c segments i (x, f) =
      (x ≡ add c.pmin (mul (div (add c.pmax (neg c.pmin)) (of_ℕ segments)) (of_ℕ i)))
      × (f ≡ quadratic c x)

  segment_points-Numbered :
      (c : Curve V) (segments i count : ℕ)
      → Numbered
          (IsPoint c segments)
          i
          (segment_points c (div (sub c.pmax c.pmin) (of_ℕ segments)) i count)
        × (length (segment_points c (div (sub c.pmax c.pmin) (of_ℕ segments)) i count) ≡ count)
  unfolding segment_points sub price
  segment_points-Numbered c segments i zero = (tt, refl)
  segment_points-Numbered c segments i (suc count) =
      let later = segment_points-Numbered c segments (i + 1) count in
      (((refl, refl), later.0), ap suc later.1)

  -- A piecewise linear cost with one more point than segments.
  abbrev pub Rising : ℕ → Curve V → Linear V → Type 0
  Rising segments c r =
      (dispatchable c ≡ true)
      × (r.type ≡ 1)
      × (r.n ≡ segments + 1)
      × Numbered (IsPoint c segments) 0 r.points
      × (length r.points ≡ segments + 1)

  -- A polynomial that is the cost at Pmax, a constant.
  abbrev pub Level : Curve V → Linear V → Type 0
  Level c r =
      (dispatchable c ≡ false)
      × (r.type ≡ c.type)
      × (r.n ≡ c.n)
      × (r.c0 ≡ quadratic c c.pmax)
      × (r.c1 ≡ of_ℕ 0)
      × (r.c2 ≡ of_ℕ 0)

  -- The rows of the two tables, side by side.
  abbrev pub Each : (Curve V → Linear V → Type 0) → List (Curve V) → List (Linear V) → Type 0
  Each R [] [] = Unit
  Each R (c ∷ cs) (r ∷ rs) = R c r × Each R cs rs
  Each R _ _ = ⊥

  after_row-cases :
      (some_dispatchable : Bool) (segments : ℕ) (c : Curve V)
      → Rising segments c (after_row some_dispatchable segments c)
        ⊎ Level c (after_row some_dispatchable segments c)
  unfolding after_row linear_row fixed_row price sub
  after_row-cases some_dispatchable segments c = elim (Bool-cases (dispatchable c)) [
    | inl rises ↦
        let same : after_row some_dispatchable segments c ≡ linear_row segments c =
          ground (arith, rises) in
        let points = segment_points-Numbered c segments 0 (segments + 1) in
        inl (subst (Rising segments c) (sym same) (rises, refl, refl, points.0, points.1))
    | inr level ↦
        let same : after_row some_dispatchable segments c
            ≡ fixed_row (if some_dispatchable then segments + 1 else 0) c =
          ground (arith, level) in
        inr (subst (Level c) (sym same) (level, refl, refl, refl, refl, refl))
  ]

  rows-cases :
      (some_dispatchable : Bool) (segments : ℕ) (curves : List (Curve V))
      → Each
          (λ c r. Rising segments c r ⊎ Level c r)
          curves
          (map (after_row some_dispatchable segments) curves)
  rows-cases some_dispatchable segments [] = tt
  rows-cases some_dispatchable segments (c ∷ curves) =
      (after_row-cases some_dispatchable segments c, rows-cases some_dispatchable segments curves)

  all_of :
      (p : Curve V → ℕ) (k : ℕ) (curves : List (Curve V))
      → any (λ c. not (eqb (p c) k)) curves ≡ false
      → All (λ c. p c ≡ k) curves
  all_of p k [] h = tt
  all_of p k (c ∷ curves) h = (ground (arith, h), all_of p k curves (ground (arith, h)))

  -- If `linearize_gencost` goes through, every row it was given is a quadratic polynomial. If the limits of its
  -- generator differ, it has become points, one more than segments, at equal steps of
  -- (Pmax - Pmin) / segments from Pmin on, each with what the quadratic costs there; or else a
  -- polynomial that is the cost at Pmax as a constant.
  pub linearize_gencost-ok :
      (segments : ℕ) (curves : List (Curve V)) (rows : List (Linear V))
      → linearize_gencost segments curves ≡ ok rows
      → All (λ c. c.type ≡ 2) curves
        × All (λ c. c.n ≡ 3) curves
        × Each (λ c r. Rising segments c r ⊎ Level c r) curves rows
  unfolding linearize_gencost
  linearize_gencost-ok segments curves rows h =
      let made : rows ≡ map (after_row (any dispatchable curves) segments) curves = ground arith in
      (
        all_of (λ c. c.type) 2 curves (ground arith),
        all_of (λ c. c.n) 3 curves (ground arith),
        subst (Each (λ c r. Rising segments c r ⊎ Level c r) curves) (sym made)
            (rows-cases (any dispatchable curves) segments curves),
      )
