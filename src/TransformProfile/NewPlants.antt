-- ===== src/TransformProfile/NewPlants.antt =====
-- The new plants of a transformed grid, as powersimdata/input/transform_profile.py finds them: behind the
-- old ones.
use mathlib.Core.List.{map-append, append-nil}
use power_sim_data.Prelude.{
  ℕ, ◌+◌, ◌-◌, String, ◌≡◌, refl, sym, ap, ◌∙◌, inl, inr, true, false, List, [], ◌∷◌, ◌++◌, map,
  nat_eq, string_eq, select, contains, length, arith, Bool-cases,
}
use power_sim_data.Number.{Number}
use power_sim_data.Grid.{Plant, Grid}
use power_sim_data.Grid.Rows.{ids}
use power_sim_data.Ct.{NewPlant}
use power_sim_data.TransformGrid.Plants.{site, sites}
use power_sim_data.TransformGrid.Kept.{Extends, ordered, built}
use power_sim_data.TransformProfile.Lists.{
  take-drop, select-append, drop-append, length-append, map-drop, length-map, map-map,
}
use power_sim_data.TransformProfile.{take, drop, is_of, built_as, new_of}

module _ {V : Type 0} ⦃num : Number V⦄ where
  -- Rows and entries of the same types, side by side.
  pub ids-new_of :
      (types : List String) (new : List (NewPlant V)) (rows : List (Plant V))
      → map (λ p. p.type) rows ≡ map (λ e. e.type) new
      → map (λ e. e.0) (new_of types new (ids (λ p. p.plant_id) rows))
        ≡ ids (λ p. p.plant_id) (select (is_of types) rows)
  unfolding new_of
  ids-new_of types [] [] h = refl
  ids-new_of types [] (row ∷ rows) h = ground arith
  ids-new_of types (entry ∷ new) [] h = ground arith
  ids-new_of types (entry ∷ new) (row ∷ rows) h =
      let same : row.type ≡ entry.type = ground arith in
      let rest = ids-new_of types new rows (ground arith) in
      elim (Bool-cases (contains types row.type)) [
        | inl yes_of ↦
            let built_of : contains types entry.type ≡ true =
              ap (contains types) (sym same) ∙ yes_of in
            ground (arith, rest, yes_of, built_of)
        | inr not_of ↦
            let built_of : contains types entry.type ≡ false =
              ap (contains types) (sym same) ∙ not_of in
            ground (arith, rest, not_of, built_of)
      ]

  pub no_new_of :
      (types all_types : List String) (new : List (NewPlant V)) (rows : List (Plant V))
      → ((t : String) → contains types t ≡ true → contains all_types t ≡ true)
      → length (select (built_as all_types) new) ≡ 0
      → map (λ p. p.type) rows ≡ map (λ e. e.type) new
      → select (is_of types) rows ≡ []
  no_new_of types all_types [] [] inside clean_none h = refl
  no_new_of types all_types [] (row ∷ rows) inside clean_none h = ground arith
  no_new_of types all_types (entry ∷ new) [] inside clean_none h = ground arith
  no_new_of types all_types (entry ∷ new) (row ∷ rows) inside clean_none h =
      let same : row.type ≡ entry.type = ground arith in
      elim (Bool-cases (contains types row.type)) [
        | inl yes_of ↦
            let clean : contains all_types entry.type ≡ true =
              inside entry.type (ap (contains types) (sym same) ∙ yes_of) in
            ground (arith, clean)
        | inr not_of ↦ elim (Bool-cases (contains all_types entry.type)) [
          | inl clean ↦ ground (arith, clean)
          | inr dirty ↦
              let rest =
                no_new_of types all_types new rows inside (ground (arith, dirty)) (ground arith) in
              ground (arith, rest, not_of)
        ]
      ]

  -- The new plants stand behind the old ones.
  pub record Behind (new : List (NewPlant V)) (g g' : Grid V) : Type 0 where
    pub in_front : length g'.plant - length new ≡ length g.plant
    pub typed :
        map (λ p. p.type) (drop (length g'.plant - length new) g'.plant) ≡ map (λ e. e.type) new

  pub Extends-Behind :
      (new : List (NewPlant V)) (g g' : Grid V) → Extends new g g' → Behind new g g'
  Extends-Behind new g g' x =
      let all_sites = length-append (sites g) x.added in
      let front = length-map site g.plant in
      let whole = length-map site g'.plant in
      let added_length : length x.added ≡ length new =
        sym (length-map built x.added) ∙ ap length x.as_ordered ∙ length-map ordered new in
      let counted : length (sites g') ≡ length (sites g ++ x.added) = ap length x.in_front in
      let size : length g'.plant ≡ length g.plant + length new =
        omega (arith, all_sites, front, whole, added_length, counted) in
      let cut : length g'.plant - length new ≡ length g.plant = omega (arith, size) in
      let types : map (λ s. s.type) x.added ≡ map (λ e. e.type) new =
        sym (map-map built (λ b. b.1) x.added)
        ∙ ap (map (λ b. b.1)) x.as_ordered
        ∙ map-map ordered (λ b. b.1) new in
      let at_cut = length g'.plant - length new in
      let in_order : drop at_cut (sites g') ≡ x.added =
        ap (λ n. drop n (sites g')) (cut ∙ sym front)
        ∙ ap (drop (length (sites g))) x.in_front
        ∙ drop-append (sites g) x.added in
      record {
        in_front = cut;
        typed =
            sym (map-map site (λ s. s.type) (drop at_cut g'.plant))
            ∙ ap (map (λ s. s.type)) (map-drop site at_cut g'.plant ∙ in_order)
            ∙ types;
      }

  pub ids-parts :
      (types : List String) (n : ℕ) (rows : List (Plant V))
      → ids (λ p. p.plant_id) (select (is_of types) (take n rows))
          ++ ids (λ p. p.plant_id) (select (is_of types) (drop n rows))
        ≡ ids (λ p. p.plant_id) (select (is_of types) rows)
  ids-parts types n rows =
      sym (
        map-append (λ p. p.plant_id) (select (is_of types) (take n rows))
          (select (is_of types) (drop n rows)))
      ∙ ap (ids (λ p. p.plant_id)) (
          sym (select-append (is_of types) (take n rows) (drop n rows))
          ∙ ap (select (is_of types)) (take-drop n rows))

  -- If none of the rest is of these types, the part in front has all that are.
  pub ids-front :
      (types : List String) (n : ℕ) (rows : List (Plant V))
      → select (is_of types) (drop n rows) ≡ []
      → ids (λ p. p.plant_id) (select (is_of types) (take n rows))
        ≡ ids (λ p. p.plant_id) (select (is_of types) rows)
  ids-front types n rows empty =
      let front = ids (λ p. p.plant_id) (select (is_of types) (take n rows)) in
      sym (append-nil front)
      ∙ ap (λ l. front ++ ids (λ p. p.plant_id) l) (sym empty)
      ∙ ids-parts types n rows
