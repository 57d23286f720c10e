-- ===== src/ScenarioList/Laws.antt =====
-- Ids are fresh, entries are found again, and a name finds a scenario only if it is the only one.
use power_sim_data.Prelude.{
  ℕ, ◌<◌, String, ◌≡◌, ◌↔◌, refl, true, false, none, some, [], ◌∷◌, nat_eq, string_eq, ◌==◌, ==_iff,
  ==_refl, select, arith, Option-cases, inl, inr,
}
use power_sim_data.Prelude.Dict.{lookup}
use power_sim_data.CsvStore.{Table}
use power_sim_data.CsvStore.Laws.{IsIndexed}
use power_sim_data.ScenarioList.{
  Row, generate_scenario_id, by_id, by_name, matches, only_match, find_scenario,
}

max_index-bound :
    (t : Table Row) (j : ℕ) (r : Row) → lookup j t ≡ some r → j < generate_scenario_id t
unfolding generate_scenario_id lookup
max_index-bound [] j r h = cc
max_index-bound ((i, s) ∷ t) j r h = ground (arith, max_index-bound t j r, ==_iff i j)

-- The generated id is above every id in the table.
pub generate_scenario_id-fresh : (t : Table Row) → lookup (generate_scenario_id t) t ≡ none
generate_scenario_id-fresh t = elim (Option-cases (lookup (generate_scenario_id t) t)) [
  | inl e ↦ e
  | inr (r, e) ↦ absurd (omega (arith, max_index-bound t (generate_scenario_id t) r e))
]

select-by_id-none : (i : ℕ) (t : Table Row) → lookup i t ≡ none → select (matches (by_id i)) t ≡ []
unfolding lookup matches
select-by_id-none i [] h = refl
select-by_id-none i ((j, r) ∷ t) h = ground (arith, select-by_id-none i t)

-- Looking up an id in a table that has one row for each id returns that row.
pub find_scenario-by_id :
    (t : Table Row) (i : ℕ)
    → IsIndexed t
    → find_scenario t (by_id i)
      ≡ elim (lookup i t) [ none ↦ none | some r ↦ some (record { id = some i; fields = r }) ]
unfolding find_scenario lookup matches
find_scenario-by_id [] i h = refl
find_scenario-by_id ((j, r) ∷ t) i h =
    ground (arith, find_scenario-by_id t i h.1, select-by_id-none i t, ==_iff j i)

abbrev pub HasName : String → Row → Type 0
HasName s r = lookup "name" r ≡ some s

select-by_name-none :
    (s : String) (t : Table Row) (j : ℕ) (q : Row)
    → select (matches (by_name s)) t ≡ []
    → lookup j t ≡ some q
    → ¬ HasName s q
unfolding lookup matches
select-by_name-none s [] j q none_left h = cc
select-by_name-none s ((i, r) ∷ t) j q none_left h =
    ground (arith, select-by_name-none s t j q, ==_refl s)

only_match-eq-some :
    (l : Table Row) (i : ℕ) (r : Row)
    → only_match l ≡ some (record { id = some i; fields = r })
    → l ≡ (i, r) ∷ []
unfolding only_match
only_match-eq-some [] i r h = cc
only_match-eq-some ((j, q) ∷ []) i r h = ground arith
only_match-eq-some (x ∷ y ∷ l) i r h = cc

module _ (s : String) (i : ℕ) (r : Row) where
  lookup_of_only :
      (t : Table Row)
      → select (matches (by_name s)) t ≡ (i, r) ∷ []
      → IsIndexed t
      → (lookup i t ≡ some r) × HasName s r
  unfolding lookup matches
  lookup_of_only [] h indexed = cc
  lookup_of_only ((j, q) ∷ t) h indexed = ground (arith, lookup_of_only t, ==_iff j i, eq_of_name q)
    where
      eq_of_name :
          (p : Row)
          → (elim (lookup "name" p) [ none ↦ false | some name ↦ name == s ]) ≡ true
          → HasName s p
      eq_of_name p m = elim (Option-cases (lookup "name" p)) [
        | inl e ↦ ground arith
        | inr (n, e) ↦ ground (arith, ==_iff n s)
      ]

  unique_of_only :
      (t : Table Row) (j : ℕ) (q : Row)
      → select (matches (by_name s)) t ≡ (i, r) ∷ []
      → lookup j t ≡ some q
      → HasName s q
      → j ≡ i
  unfolding lookup matches
  unique_of_only [] j q h found named = cc
  unique_of_only ((k, p) ∷ t) j q h found named =
      ground (arith, unique_of_only t j q, select-by_name-none s t j q, ==_iff k j, ==_refl s)

-- A name finds a scenario only if its row bears the name, and no row under another id does.
pub find_scenario-by_name :
    (t : Table Row) (s : String) (i j : ℕ) (r q : Row)
    → find_scenario t (by_name s) ≡ some (record { id = some i; fields = r })
    → IsIndexed t
    → lookup j t ≡ some q
    → (lookup i t ≡ some r) × HasName s r × (HasName s q ↔ (j ≡ i))
unfolding find_scenario
find_scenario-by_name t s i j r q h indexed found =
    let single = only_match-eq-some (select (matches (by_name s)) t) i r h in
    let at = lookup_of_only s i r t single indexed in
    (
      at.0,
      at.1,
      (λ named. unique_of_only s i r t j q single found named, λ same. ground (arith, at)),
    )
