-- ===== src/Prelude/Dict.antt =====
-- Python's `dict`, insertion ordered: an association list that is written in place.
use mathlib.Core.Path.{◌≡◌, refl}
use mathlib.Core.Option.{Option, none, some}
use mathlib.Core.List.{List, [], ◌∷◌, map}
use native.Mathlib.Omega.{arith}
use power_sim_data.Prelude.Tests.{Eq, ◌==◌, ==_iff, if◌then◌else◌}

abbrev pub Dict : Type 0 → Type 0 → Type 0
Dict K V = List (K × V)

module _ {K V : Type 0} where
  abbrev pub keys : Dict K V → List K
  keys d = map (λ p. p.0) d

  abbrev pub values : Dict K V → List V
  values d = map (λ p. p.1) d

module _ {K V : Type 0} ⦃e : Eq K⦄ where
  -- d.get(k)
  unfoldable pub lookup : K → Dict K V → Option V
  lookup k [] = none
  lookup k ((j, v) ∷ d) = if j == k then some v else lookup k d

  -- d[k] = v
  unfoldable pub insert : K → V → Dict K V → Dict K V
  insert k v [] = (k, v) ∷ []
  insert k v ((j, w) ∷ d) = let rest = insert k v d in if j == k then (k, v) ∷ d else (j, w) ∷ rest

  -- d.pop(k, None)
  unfoldable pub remove : K → Dict K V → Dict K V
  remove k [] = []
  remove k ((j, v) ∷ d) = let rest = remove k d in if j == k then rest else (j, v) ∷ rest

  -- d.update(new)
  unfoldable pub update : Dict K V → Dict K V → Dict K V
  update d [] = d
  update d ((k, v) ∷ new) = update (insert k v d) new

  pub lookup-insert :
      (k j : K) (v : V) (d : Dict K V)
      → lookup j (insert k v d) ≡ (if k == j then some v else lookup j d)
  unfolding lookup insert
  lookup-insert k j v [] = refl
  lookup-insert k j v ((i, w) ∷ d) =
      ground (arith, ==_iff k j, ==_iff i k, ==_iff i j, lookup-insert k j v d)

  pub lookup-remove :
      (k j : K) (d : Dict K V) → lookup j (remove k d) ≡ (if k == j then none else lookup j d)
  unfolding lookup remove
  lookup-remove k j [] = ground arith
  lookup-remove k j ((i, w) ∷ d) =
      ground (arith, ==_iff k j, ==_iff i k, ==_iff i j, lookup-remove k j d)
