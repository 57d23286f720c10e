-- ===== src/TransformGrid/Plants.antt =====
-- No plant is lost or moved by a transformation; new plants come last.
use power_sim_data.Prelude.{ℕ, String, ◌≡◌, refl, ◌∙◌, List, [], ◌∷◌, map, nat_eq, arith}
use power_sim_data.Prelude.Result.{Result, ok, each, each-keeps, >>=-eq-ok}
use power_sim_data.Number.{Number}
use power_sim_data.Grid.{Plant, Grid}
use power_sim_data.Grid.Rows.{at_rows, map-at_rows}
use power_sim_data.Ct.{Ct}
use power_sim_data.TransformGrid.Scale
use power_sim_data.TransformGrid.Apply

-- What a scaling leaves alone in a row of the plant table.
pub record Site : Type 0 where
  pub plant_id : ℕ
  pub bus_id : ℕ
  pub type : String
  pub zone_id : ℕ
  pub zone_name : String
  pub interconnect : String
  pub status : ℕ

abbrev pub site : {V : Type 0} → Plant V → Site
site r = record {
  plant_id = r.plant_id;
  bus_id = r.bus_id;
  type = r.type;
  zone_id = r.zone_id;
  zone_name = r.zone_name;
  interconnect = r.interconnect;
  status = r.status;
}

abbrev pub sites : {V : Type 0} → Grid V → List Site
sites g = map site g.plant

module _ {V : Type 0} ⦃num : Number V⦄ where
  abbrev pub SameSites : Grid V → Grid V → Type 0
  SameSites g h = sites h ≡ sites g

  site-scale_plant : (factor : V) (r : Plant V) → site (Scale.scale_plant factor r) ≡ site r
  unfolding Scale.scale_plant
  site-scale_plant factor r = refl

  site-scale_plant_pmin :
      (factor : V) (r : Plant V) → site (Scale.scale_plant_pmin factor r) ≡ site r
  unfolding Scale.scale_plant_pmin
  site-scale_plant_pmin factor r = refl

  pub sites-scale_gen_capacity :
      (wanted : List ℕ) (factor : V) (g h : Grid V)
      → Scale.scale_gen_capacity wanted factor g ≡ ok h
      → SameSites g h
  unfolding Scale.scale_gen_capacity
  sites-scale_gen_capacity wanted factor g h e =
      let (rows, found, done) =
        >>=-eq-ok (at_rows (λ r. r.plant_id) wanted (Scale.scale_plant factor) g.plant) _ e in
      let kept =
        map-at_rows site (λ r. r.plant_id) wanted (Scale.scale_plant factor) g.plant rows found
          (site-scale_plant factor) in
      ground arith

  sites-scale_thermal :
      (t : String) (wanted : List ℕ) (factor : V) (g h : Grid V)
      → Scale.scale_thermal t wanted factor g ≡ ok h
      → SameSites g h
  unfolding Scale.scale_thermal at_rows
  sites-scale_thermal t wanted factor g h e = ground arith

  sites-pmin_at :
      (wanted : List ℕ) (factor : V) (g h : Grid V)
      → Scale.pmin_at wanted factor g ≡ ok h
      → SameSites g h
  unfolding Scale.pmin_at
  sites-pmin_at wanted factor g h e =
      let (rows, found, done) =
        >>=-eq-ok (at_rows (λ r. r.plant_id) wanted (Scale.scale_plant_pmin factor) g.plant) _ e in
      let kept =
        map-at_rows site (λ r. r.plant_id) wanted (Scale.scale_plant_pmin factor) g.plant rows found
          (site-scale_plant_pmin factor) in
      ground arith

  sites-cost_at :
      (wanted : List ℕ) (factor : V) (g h : Grid V)
      → Scale.cost_at wanted factor g ≡ ok h
      → SameSites g h
  unfolding Scale.cost_at at_rows
  sites-cost_at wanted factor g h e = ground arith

  pub sites-zone_capacity :
      (t : String) (item : ℕ × V) (g h : Grid V)
      → Scale.zone_capacity t item g ≡ ok h
      → SameSites g h
  unfolding Scale.zone_capacity
  sites-zone_capacity t (z, factor) g h e =
      let (wanted, _, rest) = >>=-eq-ok (Scale.plants_in_zone t z g) _ e in
      let (u, first, then_) = >>=-eq-ok (Scale.scale_gen_capacity wanted factor g) _ rest in
      sites-scale_thermal t wanted factor u h then_
      ∙ sites-scale_gen_capacity wanted factor g u first

  sites-id_capacity :
      (t : String) (item : ℕ × V) (g h : Grid V) → Scale.id_capacity t item g ≡ ok h → SameSites g h
  unfolding Scale.id_capacity
  sites-id_capacity t (i, factor) g h e =
      let (u, first, then_) = >>=-eq-ok (Scale.scale_gen_capacity (i ∷ []) factor g) _ e in
      sites-scale_thermal t (i ∷ []) factor u h then_
      ∙ sites-scale_gen_capacity (i ∷ []) factor g u first

  sites-zone_cost :
      (t : String) (item : ℕ × V) (g h : Grid V) → Scale.zone_cost t item g ≡ ok h → SameSites g h
  unfolding Scale.zone_cost
  sites-zone_cost t (z, factor) g h e =
      let (wanted, _, rest) = >>=-eq-ok (Scale.plants_in_zone t z g) _ e in
      sites-cost_at wanted factor g h rest

  sites-id_cost : (item : ℕ × V) (g h : Grid V) → Scale.id_cost item g ≡ ok h → SameSites g h
  unfolding Scale.id_cost
  sites-id_cost (i, factor) g h e = sites-cost_at (i ∷ []) factor g h e

  sites-zone_pmin :
      (t : String) (item : ℕ × V) (g h : Grid V) → Scale.zone_pmin t item g ≡ ok h → SameSites g h
  unfolding Scale.zone_pmin
  sites-zone_pmin t (z, factor) g h e =
      let (wanted, _, rest) = >>=-eq-ok (Scale.plants_in_zone t z g) _ e in
      sites-pmin_at wanted factor g h rest

  sites-id_pmin : (item : ℕ × V) (g h : Grid V) → Scale.id_pmin item g ≡ ok h → SameSites g h
  unfolding Scale.id_pmin
  sites-id_pmin (i, factor) g h e = sites-pmin_at (i ∷ []) factor g h e

  -- A loop whose body keeps the sites keeps them.
  pub sites-each {ℓ} :
      {A : Type ℓ} (step : A → Grid V → Result (Grid V))
      → ((a : A) (g h : Grid V) → step a g ≡ ok h → SameSites g h)
      → (l : List A) (g h : Grid V) → each step l g ≡ ok h
      → SameSites g h
  sites-each step one = each-keeps SameSites step (λ g. refl) (λ g h k p q. q ∙ p) one

  module _ (ct : Ct V) where
    pub sites-by_zone :
        (t : String) (g h : Grid V) → Apply.scale_resource_by_zone ct t g ≡ ok h → SameSites g h
    unfolding Apply.scale_resource_by_zone Scale.scale_gen_by_zone Scale.scale_gencost_by_zone
        Scale.scale_gen_pmin_by_zone
    sites-by_zone t g h e =
        let (u, first, rest) = >>=-eq-ok (Scale.scale_gen_by_zone ct t g) _ e in
        let (v, second, third) = >>=-eq-ok (Scale.scale_gencost_by_zone ct t u) _ rest in
        sites-each (Scale.zone_pmin t) (sites-zone_pmin t) _ v h third
        ∙ sites-each (Scale.zone_cost t) (sites-zone_cost t) _ u v second
        ∙ sites-each (Scale.zone_capacity t) (sites-zone_capacity t) _ g u first

    pub sites-by_id :
        (t : String) (g h : Grid V) → Apply.scale_resource_by_id ct t g ≡ ok h → SameSites g h
    unfolding Apply.scale_resource_by_id Scale.scale_gen_by_id Scale.scale_gencost_by_id
        Scale.scale_gen_pmin_by_id
    sites-by_id t g h e =
        let (u, first, rest) = >>=-eq-ok (Scale.scale_gen_by_id ct t g) _ e in
        let (v, second, third) = >>=-eq-ok (Scale.scale_gencost_by_id ct t u) _ rest in
        sites-each Scale.id_pmin sites-id_pmin _ v h third
        ∙ sites-each Scale.id_cost sites-id_cost _ u v second
        ∙ sites-each (Scale.id_capacity t) (sites-id_capacity t) _ g u first
