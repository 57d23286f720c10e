-- ===== src/TransformGrid/SameBuses.antt =====
-- The operations of powersimdata/input/transform_grid.py that leave the bus table as it is.
use power_sim_data.Prelude.{
  ℕ, String, ◌≡◌, refl, ◌∙◌, Option, none, some, List, [], ◌∷◌, nat_eq, arith,
}
use power_sim_data.Prelude.Result.{Result, key_error, ok, raise, each, each-keeps, >>=-eq-ok}
use power_sim_data.Number.{Number}
use power_sim_data.Grid.{Bus, Grid}
use power_sim_data.Grid.Rows.{at_rows}
use power_sim_data.Ct.{Ct, NewLine, NewPlant}
use power_sim_data.TransformGrid.Scale
use power_sim_data.TransformGrid.Add
use power_sim_data.TransformGrid.Add.{entries, zone_interconnect, new_bus}
use power_sim_data.TransformGrid.Apply
use power_sim_data.TransformGrid.Apply.{get_grid}

module _ {V : Type 0} ⦃num : Number V⦄ where
  abbrev pub SameBuses : Grid V → Grid V → Type 0
  SameBuses g h = h.bus ≡ g.bus

  pub buses-each {ℓ} :
      {A : Type ℓ} (step : A → Grid V → Result (Grid V))
      → ((a : A) (g h : Grid V) → step a g ≡ ok h → SameBuses g h)
      → (l : List A) (g h : Grid V) → each step l g ≡ ok h
      → SameBuses g h
  buses-each step one = each-keeps SameBuses step (λ g. refl) (λ g h k p q. q ∙ p) one

  buses-scale_gen_capacity :
      (wanted : List ℕ) (factor : V) (g h : Grid V)
      → Scale.scale_gen_capacity wanted factor g ≡ ok h
      → SameBuses g h
  unfolding Scale.scale_gen_capacity at_rows
  buses-scale_gen_capacity wanted factor g h e = ground arith

  buses-scale_thermal :
      (t : String) (wanted : List ℕ) (factor : V) (g h : Grid V)
      → Scale.scale_thermal t wanted factor g ≡ ok h
      → SameBuses g h
  unfolding Scale.scale_thermal at_rows
  buses-scale_thermal t wanted factor g h e = ground arith

  buses-zone_capacity :
      (t : String) (item : ℕ × V) (g h : Grid V)
      → Scale.zone_capacity t item g ≡ ok h
      → SameBuses g h
  unfolding Scale.zone_capacity
  buses-zone_capacity t (z, factor) g h e =
      let (wanted, _, rest) = >>=-eq-ok (Scale.plants_in_zone t z g) _ e in
      let (u, first, then_) = >>=-eq-ok (Scale.scale_gen_capacity wanted factor g) _ rest in
      buses-scale_thermal t wanted factor u h then_
      ∙ buses-scale_gen_capacity wanted factor g u first

  buses-id_capacity :
      (t : String) (item : ℕ × V) (g h : Grid V) → Scale.id_capacity t item g ≡ ok h → SameBuses g h
  unfolding Scale.id_capacity
  buses-id_capacity t (i, factor) g h e =
      let (u, first, then_) = >>=-eq-ok (Scale.scale_gen_capacity (i ∷ []) factor g) _ e in
      buses-scale_thermal t (i ∷ []) factor u h then_
      ∙ buses-scale_gen_capacity (i ∷ []) factor g u first

  buses-cost_at :
      (wanted : List ℕ) (factor : V) (g h : Grid V)
      → Scale.cost_at wanted factor g ≡ ok h
      → SameBuses g h
  unfolding Scale.cost_at at_rows
  buses-cost_at wanted factor g h e = ground arith

  buses-pmin_at :
      (wanted : List ℕ) (factor : V) (g h : Grid V)
      → Scale.pmin_at wanted factor g ≡ ok h
      → SameBuses g h
  unfolding Scale.pmin_at at_rows
  buses-pmin_at wanted factor g h e = ground arith

  buses-zone_cost :
      (t : String) (item : ℕ × V) (g h : Grid V) → Scale.zone_cost t item g ≡ ok h → SameBuses g h
  unfolding Scale.zone_cost
  buses-zone_cost t (z, factor) g h e =
      let (wanted, _, rest) = >>=-eq-ok (Scale.plants_in_zone t z g) _ e in
      buses-cost_at wanted factor g h rest

  buses-zone_pmin :
      (t : String) (item : ℕ × V) (g h : Grid V) → Scale.zone_pmin t item g ≡ ok h → SameBuses g h
  unfolding Scale.zone_pmin
  buses-zone_pmin t (z, factor) g h e =
      let (wanted, _, rest) = >>=-eq-ok (Scale.plants_in_zone t z g) _ e in
      buses-pmin_at wanted factor g h rest

  buses-id_cost : (item : ℕ × V) (g h : Grid V) → Scale.id_cost item g ≡ ok h → SameBuses g h
  unfolding Scale.id_cost
  buses-id_cost (i, factor) g h e = buses-cost_at (i ∷ []) factor g h e

  buses-id_pmin : (item : ℕ × V) (g h : Grid V) → Scale.id_pmin item g ≡ ok h → SameBuses g h
  unfolding Scale.id_pmin
  buses-id_pmin (i, factor) g h e = buses-pmin_at (i ∷ []) factor g h e

  module _ (ct : Ct V) where
    pub buses-by_zone :
        (t : String) (g h : Grid V) → Apply.scale_resource_by_zone ct t g ≡ ok h → SameBuses g h
    unfolding Apply.scale_resource_by_zone Scale.scale_gen_by_zone Scale.scale_gencost_by_zone
        Scale.scale_gen_pmin_by_zone
    buses-by_zone t g h e =
        let (u, first, rest) = >>=-eq-ok (Scale.scale_gen_by_zone ct t g) _ e in
        let (v, second, third) = >>=-eq-ok (Scale.scale_gencost_by_zone ct t u) _ rest in
        buses-each (Scale.zone_pmin t) (buses-zone_pmin t) _ v h third
        ∙ buses-each (Scale.zone_cost t) (buses-zone_cost t) _ u v second
        ∙ buses-each (Scale.zone_capacity t) (buses-zone_capacity t) _ g u first

    pub buses-by_id :
        (t : String) (g h : Grid V) → Apply.scale_resource_by_id ct t g ≡ ok h → SameBuses g h
    unfolding Apply.scale_resource_by_id Scale.scale_gen_by_id Scale.scale_gencost_by_id
        Scale.scale_gen_pmin_by_id
    buses-by_id t g h e =
        let (u, first, rest) = >>=-eq-ok (Scale.scale_gen_by_id ct t g) _ e in
        let (v, second, third) = >>=-eq-ok (Scale.scale_gencost_by_id ct t u) _ rest in
        buses-each Scale.id_pmin buses-id_pmin _ v h third
        ∙ buses-each Scale.id_cost buses-id_cost _ u v second
        ∙ buses-each (Scale.id_capacity t) (buses-id_capacity t) _ g u first

  pub buses-zone_branch :
      (item : ℕ × V) (g h : Grid V) → Scale.zone_branch item g ≡ ok h → SameBuses g h
  unfolding Scale.zone_branch at_rows
  buses-zone_branch (z, factor) g h e = ground arith

  pub buses-id_branch :
      (item : ℕ × V) (g h : Grid V) → Scale.id_branch item g ≡ ok h → SameBuses g h
  unfolding Scale.id_branch at_rows
  buses-id_branch (i, factor) g h e = ground arith

  buses-id_dcline : (item : ℕ × V) (g h : Grid V) → Scale.id_dcline item g ≡ ok h → SameBuses g h
  unfolding Scale.id_dcline at_rows
  buses-id_dcline (i, factor) g h e = ground arith

  pub buses-scale_dcline :
      (ct : Ct V) (g h : Grid V) → Scale.scale_dcline ct g ≡ ok h → SameBuses g h
  unfolding Scale.scale_dcline
  buses-scale_dcline ct g h e = go ct.dcline e
    where
      go :
          (d : Option (Option (List (ℕ × V))))
          → elim d [
            | none ↦ ok g
            | some none ↦ raise key_error
            | some (some l) ↦ each Scale.id_dcline l g
          ]
            ≡ ok h
          → SameBuses g h
      go none e' = ground arith
      go (some none) e' = ground arith
      go (some (some l)) e' = buses-each Scale.id_dcline buses-id_dcline l g h e'

  pub buses-add_one_branch :
      (reactance : Grid V → Bus V → Bus V → Result V) (old : Grid V) (entry : NewLine V)
      (g h : Grid V)
      → Add.add_one_branch reactance old entry g ≡ ok h
      → SameBuses g h
  unfolding Add.add_one_branch
  buses-add_one_branch reactance old entry g h e = ground arith

  pub buses-add_one_dcline :
      (entry : NewLine V) (g h : Grid V) → Add.add_one_dcline entry g ≡ ok h → SameBuses g h
  unfolding Add.add_one_dcline
  buses-add_one_dcline entry g h e = ground arith

  buses-add_one_plant :
      (entry : NewPlant V) (g h : Grid V) → Add.add_one_plant entry g ≡ ok h → SameBuses g h
  unfolding Add.add_one_plant
  buses-add_one_plant entry g h e = ground arith

  buses-add_one_gencost :
      (entry : NewPlant V) (g h : Grid V) → Add.add_one_gencost entry g ≡ ok h → SameBuses g h
  unfolding Add.add_one_gencost
  buses-add_one_gencost entry g h e = ground arith

  pub buses-add_gen : (ct : Ct V) (g h : Grid V) → Add.add_gen ct g ≡ ok h → SameBuses g h
  unfolding Add.add_gen
  buses-add_gen ct g h e =
      let (u, first, rest) = >>=-eq-ok (each Add.add_one_plant (entries ct.new_plant) g) _ e in
      buses-each Add.add_one_gencost buses-add_one_gencost _ u h rest
      ∙ buses-each Add.add_one_plant buses-add_one_plant _ g u first
