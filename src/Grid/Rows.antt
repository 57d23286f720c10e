-- ===== src/Grid/Rows.antt =====
-- What the code does with the rows of a data frame, over any type of rows.
use power_sim_data.Prelude.{
  ℕ, ◌≡◌, refl, Bool, not, ◌&&◌, List, [], ◌∷◌, map, nat_eq, ◌==◌, subset, contains, if◌then◌else◌,
  arith, ==_iff,
}
use power_sim_data.Prelude.Result.{Result, ok, raise, require, key_error, index_error, ◌>>◌}
use Prim.Native.Nat.{max}

module _ {A : Type 0} where
  -- `df.loc[mask, …] = …` for the rows that pass the test.
  unfoldable pub where_rows : (A → Bool) → (A → A) → List A → List A
  where_rows p f [] = []
  where_rows p f (r ∷ rs) = (if p r then f r else r) ∷ where_rows p f rs

  module _ (index : A → ℕ) where
    abbrev pub ids : List A → List ℕ
    ids rows = map index rows

    -- `df.loc[ids, …] *= …`: a KeyError if the index lacks one of them.
    unfoldable pub at_rows : List ℕ → (A → A) → List A → Result (List A)
    unfolding where_rows
    at_rows wanted f rows =
        require (subset wanted (ids rows)) key_error
        >> ok (where_rows (λ r. contains wanted (index r)) f rows)

    -- `df.loc[id]`: a KeyError if there is no such row. (The first one; an index is unique.)
    unfoldable pub row_at : ℕ → List A → Result A
    row_at i [] = raise key_error
    row_at i (r ∷ rs) = if index r == i then ok r else row_at i rs

    -- `df.index[-1]`: an IndexError if there is no row.
    unfoldable pub last_id : List A → Result ℕ
    last_id [] = raise index_error
    last_id (r ∷ []) = ok (index r)
    last_id (r ∷ q ∷ rs) = last_id (q ∷ rs)

    -- `df.index.max()`; 0 stands for the NaN of an empty table.
    unfoldable pub max_id : List A → ℕ
    max_id [] = 0
    max_id (r ∷ rs) = max (index r) (max_id rs)

    -- `df.loc[~df.index.isin(removed)]`
    unfoldable pub without : List ℕ → List A → List A
    without removed [] = []
    without removed (r ∷ rs) =
        let rest = without removed rs in if contains removed (index r) then rest else r ∷ rest

  module _ (index : A → ℕ) where
    -- Nothing that was to be removed is left, and nothing else is gone.
    pub contains-without :
        (removed : List ℕ) (rows : List A) (i : ℕ)
        → contains (ids index (without index removed rows)) i
          ≡ contains (ids index rows) i && not (contains removed i)
    unfolding without
    contains-without removed [] i = refl
    contains-without removed (r ∷ rows) i =
        ground (arith, contains-without removed rows i, ==_iff (index r) i)

module _ {A B : Type 0} (k : A → B) where
  pub map-where_rows :
      (p : A → Bool) (f : A → A) (rows : List A)
      → ((r : A) → k (f r) ≡ k r)
      → map k (where_rows p f rows) ≡ map k rows
  unfolding where_rows
  map-where_rows p f [] h = refl
  map-where_rows p f (r ∷ rows) h = ground (arith, map-where_rows p f rows h, h r)

  -- A column that the update leaves alone is as it was.
  pub map-at_rows :
      (index : A → ℕ) (wanted : List ℕ) (f : A → A) (rows rows' : List A)
      → at_rows index wanted f rows ≡ ok rows'
      → ((r : A) → k (f r) ≡ k r)
      → map k rows' ≡ map k rows
  unfolding at_rows
  map-at_rows index wanted f rows rows' h same =
      ground (arith, map-where_rows (λ r. contains wanted (index r)) f rows same)
