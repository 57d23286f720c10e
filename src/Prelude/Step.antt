-- ===== src/Prelude/Step.antt =====
-- Methods that change a state and return nothing, one after the other: an exception leaves the state as
-- it is at that point.
use mathlib.Core.Path.{◌≡◌, subst, sym}
use mathlib.Core.Logic.{inl, inr}
use native.Mathlib.Omega.{arith}
use power_sim_data.Prelude.Result.{Result, Error, ok, raise, Result-cases}

abbrev pub Step : Type 0 → Type 0
Step X = X → Result (Unit {0}) × X

infixr 5 ◌then◌
unfoldable pub ◌then◌ : {X : Type 0} → Step X → Step X → Step X
(first then next) s = let (r, s') = first s in elim r [ raise x ↦ (raise x, s') | ok _ ↦ next s' ]

module _ {X : Type 0} where
  -- The rest of a run that succeeded.
  pub then-ok :
      {G : Type 0} (first next : Step X) (s s' : X)
      → (first then next) s ≡ (ok tt, s')
      → ((s₁ : X) → first s ≡ (ok tt, s₁) → next s₁ ≡ (ok tt, s') → G)
      → G
  unfolding ◌then◌
  then-ok first next s s' h k = elim (Result-cases (first s).0) [
    | inl (done, e) ↦ k (first s).1 (ground arith) (ground arith)
    | inr (x, e) ↦ ground arith
  ]

  -- Where a run was cut short.
  pub then-raise :
      {G : Type 0} (first next : Step X) (s s' : X) (x : Error)
      → (first then next) s ≡ (raise x, s')
      → (first s ≡ (raise x, s') → G)
      → ((s₁ : X) → first s ≡ (ok tt, s₁) → next s₁ ≡ (raise x, s') → G)
      → G
  unfolding ◌then◌
  then-raise first next s s' x h here later = elim (Result-cases (first s).0) [
    | inl (done, e) ↦ later (first s).1 (ground arith) (ground arith)
    | inr (y, e) ↦ here (ground arith)
  ]

  -- What every step keeps, whether it raises or not, is kept by their sequence.
  pub then-keeps :
      (P : X → Type 0) (first next : Step X)
      → ((s : X) → P s → P (first s).1)
      → ((s : X) → P s → P (next s).1)
      → (s : X) → P s
      → P ((first then next) s).1
  unfolding ◌then◌
  then-keeps P first next one two s p = elim (Result-cases (first s).0) [
    | inl (done, e) ↦
        let on : ((first then next) s).1 ≡ (next (first s).1).1 = ground arith in
        subst P (sym on) (two (first s).1 (one s p))
    | inr (x, e) ↦
        let here : ((first then next) s).1 ≡ (first s).1 = ground arith in
        subst P (sym here) (one s p)
  ]

  pub then-returns :
      (first next : Step X) (s : X)
      → (first s).0 ≡ ok tt
      → (next (first s).1).0 ≡ ok tt
      → ((first then next) s).0 ≡ ok tt
  unfolding ◌then◌
  then-returns first next s one two = ground (arith, one, two)

  pub then-after :
      (P : X → Type 0) (first next : Step X) (s : X)
      → P (first s).1
      → ((t : X) → P t → P (next t).1)
      → P ((first then next) s).1
  unfolding ◌then◌
  then-after P first next s one two = elim (Result-cases (first s).0) [
    | inl (done, e) ↦
        let on : ((first then next) s).1 ≡ (next (first s).1).1 = ground arith in
        subst P (sym on) (two (first s).1 one)
    | inr (x, e) ↦
        let here : ((first then next) s).1 ≡ (first s).1 = ground arith in subst P (sym here) one
  ]

  pub then-stops :
      (first next : Step X) (s : X) (x : Error)
      → (first s).0 ≡ raise x
      → ((first then next) s).0 ≡ raise x
  unfolding ◌then◌
  then-stops first next s x h = ground (arith, h)
