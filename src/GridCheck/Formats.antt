-- ===== src/GridCheck/Formats.antt =====
-- What the checks of areas return.
use power_sim_data.Prelude.{
  String, ◌≡◌, refl, sym, ap, ◌∙◌, Bool, true, false, not, ◌&&◌, ◌||◌, Option, none, some, List, [],
  ◌∷◌, ◌++◌, map, string_eq, ◌==◌, ==_iff, any, all, All, select, contains, subset, if◌then◌else◌,
  arith, Option-cases, inl, inr,
}
use power_sim_data.Prelude.Dict.{lookup}
use power_sim_data.Prelude.Result.{ok, require, value_error, >>=-eq-ok, ok-injective}
use power_sim_data.ChangeTable.Checked.{require-ok}
use power_sim_data.Grid.{Grid}
use power_sim_data.GridCheck.Areas.{
  Names, Zones, names_of, or_raise, expand, check_areas_and_format, check_item, check_items,
  check_areas_are_in_grid_and_format,
}

abbrev pub is : Option String → String → Bool
is none s = false
is (some t) s = t == s

-- The name of an area: an abbreviation is replaced.
unfoldable pub full_name : Zones → String → Option String
full_name z a = if contains z.abv a then lookup a z.abv2division else some a

contains-select :
    (p : String → Bool) (l : List String) (s : String)
    → contains (select p l) s ≡ (contains l s && p s)
contains-select p [] s = refl
contains-select p (x ∷ l) s = ground (arith, contains-select p l s, ==_iff x s)

module _ (z : Zones)
    (expanded : (a b : String) → lookup a z.abv2division ≡ some b → contains z.abv b ≡ false) where
  contains-none :
      (l : List String) (b : String)
      → All (λ a. contains z.abv a ≡ true) l
      → contains z.abv b ≡ false
      → contains l b ≡ false
  contains-none [] b k h = refl
  contains-none (x ∷ l) b k h = ground (arith, contains-none l b k.1 h, ==_iff x b)

  one_more :
      (a full : String) (abbreviations areas : List String) (s : String)
      → lookup a z.abv2division ≡ some full
      → contains abbreviations full ≡ false
      → ((contains (full ∷ select (λ s. not (s == a)) areas) s && not (contains abbreviations s))
          || any (λ a. is (lookup a z.abv2division) s) abbreviations)
        ≡ ((contains areas s && not (contains (a ∷ abbreviations) s))
            || any (λ a. is (lookup a z.abv2division) s) (a ∷ abbreviations))
  one_more a full abbreviations areas s h k = ground (
    arith,
    h,
    k,
    contains-select (λ s. not (s == a)) areas s,
    ==_iff full s,
    ==_iff s a,
    ==_iff a s,
  )

  contains-expand :
      (abbreviations areas r : List String) (s : String)
      → All (λ a. contains z.abv a ≡ true) abbreviations
      → expand z abbreviations areas ≡ ok r
      → contains r s ≡ (
          (contains areas s && not (contains abbreviations s))
          || any (λ a. is (lookup a z.abv2division) s) abbreviations)
  unfolding expand
  contains-expand [] areas r s k h = ground arith
  contains-expand (a ∷ abbreviations) areas r s k h =
      let (full, found, rest) = >>=-eq-ok (or_raise (lookup a z.abv2division)) _ h in
      let is_full : lookup a z.abv2division ≡ some full =
        elim (Option-cases (lookup a z.abv2division)) [
          | inl e ↦ ground (arith, e)
          | inr (b, e) ↦ ground (arith, e)
        ] in
      let other = contains-none abbreviations full k.1 (expanded a full is_full) in
      let by_rest = contains-expand abbreviations _ r s k.1 rest in
      by_rest ∙ one_more a full abbreviations areas s is_full other

  select-All : (l : List String) → All (λ a. contains z.abv a ≡ true) (select (contains z.abv) l)
  select-All [] = tt
  select-All (x ∷ l) = ground (arith, select-All l)

  -- Of each area the full name.
  any-full_name :
      (l : List String) (s : String)
      → ((contains l s && not (contains z.abv s))
          || any (λ a. is (lookup a z.abv2division) s) (select (contains z.abv) l))
        ≡ any (λ a. is (full_name z a) s) l
  unfolding full_name
  any-full_name [] s = refl
  any-full_name (x ∷ l) s = ground (arith, any-full_name l s, ==_iff x s)

  -- If no abbreviation stands for another, then the areas that `_check_areas_and_format` returns are the
  -- full names of the given ones: each abbreviation is replaced, and nothing else changes.
  pub check_areas_and_format-full_name :
      (given : Names) (names r : List String) (s : String)
      → names_of given ≡ ok names
      → check_areas_and_format z given ≡ ok r
      → contains r s ≡ any (λ a. is (full_name z a) s) names
  unfolding check_areas_and_format
  check_areas_and_format-full_name given names r s e h =
      let there : expand z (select (contains z.abv) names) names ≡ ok r = ground (arith, e) in
      contains-expand (select (contains z.abv) names) names r s (select-All names) there
      ∙ ground (arith, contains-select (contains z.abv) names s, any-full_name names s)

-- What the check of an item returns, with all its load zones among the given names.
pub record AllIn (z : Zones) (names : List String) (item : Option String × Names) : Type 0 where
  pub areas : List String
  pub loadzones : List String
  pub checked : check_item z item ≡ ok (areas, loadzones)
  pub there : subset loadzones names ≡ true

all-append : (p : String → Bool) (a b : List String) → all p (a ++ b) ≡ (all p a && all p b)
all-append p [] b = refl
all-append p (x ∷ a) b = ground (arith, all-append p a b)

check_items-AllIn :
    (z : Zones) (names : List String) (items : List (Option String × Names))
    (formatted : List (List String)) (zones : List String)
    → check_items z items ≡ ok (formatted, zones)
    → subset zones names ≡ true
    → All (AllIn z names) items
unfolding check_items
check_items-AllIn z names [] formatted zones h k = tt
check_items-AllIn z names (p ∷ items) formatted zones h k =
    let ((a, l), first, rest) = >>=-eq-ok (check_item z p) _ h in
    let ((f, ls), others, last) = >>=-eq-ok (check_items z items) _ rest in
    let both : (all (contains names) l && all (contains names) ls) ≡ true =
      sym (all-append (contains names) l ls)
      ∙ ap (all (contains names)) (ap (λ r. r.1) (ok-injective last))
      ∙ k in
    (
      record { areas = a; loadzones = l; checked = first; there = ground (arith, both) },
      check_items-AllIn z names items f ls others (ground (arith, both)),
    )

-- If `_check_areas_are_in_grid_and_format` accepts its areas, then each key with its areas has passed
-- the check, and every load zone of these areas has a plant in the grid.
pub check_areas_are_in_grid-AllIn :
    {V : Type 0} (z : Zones) (areas : List (Option String × Names)) (g : Grid V)
    (formatted : List (List String))
    → check_areas_are_in_grid_and_format z areas g ≡ ok formatted
    → All (AllIn z (map (λ r. r.zone_name) g.plant)) areas
unfolding check_areas_are_in_grid_and_format
check_areas_are_in_grid-AllIn z areas g formatted h =
    let ((f, zones), found, rest) = >>=-eq-ok (check_items z areas) _ h in
    let (u, there, last) =
      >>=-eq-ok (require (subset zones (map (λ r. r.zone_name) g.plant)) value_error) _ rest in
    check_items-AllIn z _ areas f zones found (require-ok _ value_error there)
