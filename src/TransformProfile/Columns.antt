-- ===== src/TransformProfile/Columns.antt =====
-- The columns of the profile of a resource are its plants in the transformed grid.
use mathlib.Core.List.{map-append}
use power_sim_data.Prelude.{
  ℕ, ◌-◌, String, ◌≡◌, sym, ap, ◌∙◌, inl, inr, List, [], ◌∷◌, ◌++◌, map, eqb, nat_eq, string_eq,
  select, length, arith, Bool-cases, Option-cases,
}
use power_sim_data.Prelude.Dict.{Dict, keys, values, lookup}
use power_sim_data.Prelude.Result.{Result, ok, ◌>>=◌, ok-injective}
use power_sim_data.Number.{Number}
use power_sim_data.Grid.{Bus, Grid}
use power_sim_data.Grid.Rows.{ids, row_at}
use power_sim_data.Ct.{NewPlant, Ct}
use power_sim_data.ChangeTable.Units.{then_ok}
use power_sim_data.TransformGrid.Add.{entries}
use power_sim_data.TransformGrid.Apply.{get_grid}
use power_sim_data.TransformGrid.Kept.{get_grid-Extends}
use power_sim_data.TransformProfile.Lists.{known_types}
use power_sim_data.TransformProfile.NewPlants.{
  ids-new_of, no_new_of, Extends-Behind, ids-parts, ids-front,
}
use power_sim_data.TransformProfile.{
  Frame, take, drop, concat, scale_keys, types_of, is_of, built_as, number_of_new_plant,
  old_plant_ids, columns, times, scale_plant_profile, neighbor_columns, add_plant_profile,
  get_renewable_profile,
}

module _ {V : Type 0} ⦃num : Number V⦄ where
  keys-columns : (is : List ℕ) (raw f : Frame V) → columns is raw ≡ ok f → keys f ≡ is
  unfolding columns
  keys-columns [] raw f h = ap keys (sym (ok-injective h))
  keys-columns (i ∷ is) raw f h = elim (Option-cases (lookup i raw)) [
    | inl missing ↦ ground arith
    | inr (xs, there) ↦
        then_ok (columns is raw) (λ rest. ok ((i, xs) ∷ rest)) (ground arith)
          λ rest e done.
            ap keys (sym (ok-injective done)) ∙ ap (λ l. i ∷ l) (keys-columns is raw rest e)
  ]

  keys-scale_plant_profile :
      (g : Grid V) (p f : Frame V) → scale_plant_profile g p ≡ ok f → keys f ≡ keys p
  unfolding scale_plant_profile
  keys-scale_plant_profile g [] f h = ap keys (sym (ok-injective h))
  keys-scale_plant_profile g ((i, xs) ∷ p) f h =
      then_ok (row_at (λ q. q.plant_id) i g.plant) _ h λ row e₁ h₁.
        then_ok (scale_plant_profile g p) _ h₁ λ rest e₂ done.
          ap keys (sym (ok-injective done)) ∙ ap (λ l. i ∷ l) (keys-scale_plant_profile g p rest e₂)

  keys-neighbor_columns :
      (p f : Frame V) (new : List (ℕ × NewPlant V))
      → neighbor_columns p new ≡ ok f
      → keys f ≡ map (λ e. e.0) new
  unfolding neighbor_columns
  keys-neighbor_columns p f [] h = ap keys (sym (ok-injective h))
  keys-neighbor_columns p f ((i, entry) ∷ new) h = elim (Option-cases entry.plant_id_neighbor) [
    | inl none_given ↦ ground arith
    | inr (j, given) ↦ elim (Option-cases (lookup j p)) [
      | inl missing ↦ ground arith
      | inr (xs, there) ↦
          then_ok (neighbor_columns p new) (λ rest. ok ((i, times entry.pmax xs) ∷ rest))
            (ground arith)
            λ rest e done.
              ap keys (sym (ok-injective done))
              ∙ ap (λ l. i ∷ l) (keys-neighbor_columns p rest new e)
    ]
  ]

  keys-append : (f h : Frame V) → keys (f ++ h) ≡ keys f ++ keys h
  keys-append f h = map-append (λ c. c.0) f h

  -- The profile that `_get_renewable_profile` returns for a grid that `TransformGrid` has made with the same change
  -- table has a column for each plant of the resource in that grid, old and new, in the order of the
  -- plant table, and no other column.
  pub get_renewable_profile-columns :
      (reactance : Grid V → Bus V → Bus V → Result V)
      (group_profile_resources : Dict String (List String)) (g g' : Grid V) (ct : Ct V)
      (stored : String → Result (Frame V)) (resource : String) (f : Frame V)
      → get_grid reactance ct g ≡ ok g'
      → get_renewable_profile group_profile_resources g' ct stored resource ≡ ok f
      → keys f
        ≡ ids
            (λ p. p.plant_id)
            (select (is_of (types_of group_profile_resources resource)) g'.plant)
  unfolding get_renewable_profile number_of_new_plant old_plant_ids add_plant_profile
  get_renewable_profile-columns reactance groups g g' ct stored resource f made h =
      let types = types_of groups resource in
      let new = entries ct.new_plant in
      let n = length g'.plant - length new in
      let behind = Extends-Behind new g g' (get_grid-Extends reactance ct g g' made) in
      then_ok (stored resource) _ h λ raw e₁ h₁.
        then_ok (columns (old_plant_ids g' (length new) types) raw) _ h₁ λ profile e₂ h₂.
          then_ok (scale_plant_profile g' profile) _ h₂ λ scaled e₃ h₃.
            let old =
              keys-scale_plant_profile g' profile scaled e₃ ∙ keys-columns _ raw profile e₂ in
            let all_types = concat (values (scale_keys groups)) in
            elim (Bool-cases (eqb (length (select (built_as all_types) new)) 0)) [
              | inl clean_none ↦
                  let empty =
                    no_new_of types all_types new (drop n g'.plant) (known_types groups resource)
                      (ground (arith, clean_none)) behind.typed in
                  let same : f ≡ scaled = ground (arith, h₃, clean_none) in
                  ap keys same ∙ old ∙ ids-front types n g'.plant empty
              | inr some_clean ↦
                  let later : (add_plant_profile g' new types profile >>= λ more.
                  ok (scaled ++ more))
                      ≡ ok f =
                    ground (arith, h₃, some_clean) in
                  then_ok (add_plant_profile g' new types profile) (λ more. ok (scaled ++ more))
                    later
                    λ more e₄ done.
                      let new_keys =
                        keys-neighbor_columns profile more _ e₄
                        ∙ ids-new_of types new (drop n g'.plant) behind.typed in
                      ap keys (sym (ok-injective done))
                      ∙ keys-append scaled more
                      ∙ ap (λ l. l ++ keys more) old
                      ∙ ap
                          (λ l. ids (λ p. p.plant_id) (select (is_of types) (take n g'.plant)) ++ l)
                          new_keys
                      ∙ ids-parts types n g'.plant
            ]
