-- ===== src/Grid/Select.antt =====
-- An update of the rows whose ids were selected by a test is an update of the rows that pass the test.
use power_sim_data.Prelude.{
  ℕ, ◌≡◌, refl, Bool, false, List, [], ◌∷◌, nat_eq, ==_iff, ==_refl, contains, select, arith,
  Bool-cases, inl, inr,
}
use power_sim_data.Grid.Rows.{where_rows, ids}

module _ {A : Type 0} (index : A → ℕ) where
  -- No two rows have one id.
  abbrev pub IsUnique : List A → Type 0
  IsUnique [] = Unit
  IsUnique (r ∷ rows) = (contains (ids index rows) (index r) ≡ false) × IsUnique rows

  contains-select :
      (p : A → Bool) (rows : List A) (i : ℕ)
      → contains (ids index rows) i ≡ false
      → contains (ids index (select p rows)) i ≡ false
  contains-select p [] i h = refl
  contains-select p (r ∷ rows) i h = ground (arith, contains-select p rows i)

  where_rows-skip :
      (i : ℕ) (wanted : List ℕ) (f : A → A) (rows : List A)
      → contains (ids index rows) i ≡ false
      → where_rows (λ r. contains (i ∷ wanted) (index r)) f rows
        ≡ where_rows (λ r. contains wanted (index r)) f rows
  unfolding where_rows
  where_rows-skip i wanted f [] h = refl
  where_rows-skip i wanted f (r ∷ rows) h =
      ground (arith, where_rows-skip i wanted f rows, ==_iff i (index r), ==_iff (index r) i)

  pub where_rows-select :
      (p : A → Bool) (f : A → A) (rows : List A)
      → IsUnique rows
      → where_rows (λ r. contains (ids index (select p rows)) (index r)) f rows
        ≡ where_rows p f rows
  unfolding where_rows
  where_rows-select p f [] h = refl
  where_rows-select p f (r ∷ rows) h = elim (Bool-cases (p r)) [
    | inl k ↦ ground (
      arith,
      k,
      ==_refl (index r),
      where_rows-skip (index r) (ids index (select p rows)) f rows,
      where_rows-select p f rows,
      h.0,
      h.1,
    )
    | inr k ↦
        ground (arith, k, contains-select p rows (index r), where_rows-select p f rows, h.0, h.1)
  ]
