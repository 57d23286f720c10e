-- ===== src/TransformGrid/Kept.antt =====
-- The plants of a transformed grid, from end to end.
use power_sim_data.Prelude.{
  ℕ, ◌+◌, String, ◌≡◌, refl, sym, ap, ◌∙◌, Option, none, some, List, [], ◌∷◌, ◌++◌, map, nat_eq,
  arith,
}
use mathlib.Core.List.{append_assoc, append-nil, map-append}
use power_sim_data.Prelude.Dict.{lookup}
use power_sim_data.Prelude.Result.{
  Result, key_error, ok, raise, each, each-keeps, ok-injective, >>=-eq-ok,
}
use power_sim_data.Number.{Number}
use power_sim_data.Grid.{Bus, Grid}
use power_sim_data.Grid.Rows.{at_rows, last_id}
use power_sim_data.Ct.{Ct, NewBus, NewLine, NewPlant}
use power_sim_data.TransformGrid.Scale
use power_sim_data.TransformGrid.Add
use power_sim_data.TransformGrid.Add.{entries}
use power_sim_data.TransformGrid.Apply
use power_sim_data.TransformGrid.Apply.{get_grid}
use power_sim_data.TransformGrid.Stages.{apply-Stages}
use power_sim_data.TransformGrid.Removal.{get_grid-eq-apply}
use power_sim_data.TransformGrid.Plants.{Site, site, sites, sites-each, sites-by_zone, sites-by_id}

-- What an entry of "new_plant" asks for, and what a row of the plant table has of it.
abbrev pub ordered : {V : Type 0} → NewPlant V → ℕ × String
ordered entry = (entry.bus_id, entry.type)

abbrev pub built : Site → ℕ × String
built s = (s.bus_id, s.type)

-- The plant table of `h` is that of `g`, up to what is scaled, and then one row for each entry.
pub record Extends {V : Type 0} (new : List (NewPlant V)) (g h : Grid V) : Type 0 where
  pub added : List Site
  pub in_front : sites h ≡ sites g ++ added
  pub as_ordered : map built added ≡ map ordered new

module _ {V : Type 0} ⦃num : Number V⦄ where
  abbrev SamePlants : Grid V → Grid V → Type 0
  SamePlants g h = h.plant ≡ g.plant

  plants-each {ℓ} :
      {A : Type ℓ} (step : A → Grid V → Result (Grid V))
      → ((a : A) (g h : Grid V) → step a g ≡ ok h → SamePlants g h)
      → (l : List A) (g h : Grid V) → each step l g ≡ ok h
      → SamePlants g h
  plants-each step one = each-keeps SamePlants step (λ g. refl) (λ g h k p q. q ∙ p) one

  plants-zone_branch :
      (item : ℕ × V) (g h : Grid V) → Scale.zone_branch item g ≡ ok h → SamePlants g h
  unfolding Scale.zone_branch at_rows
  plants-zone_branch (z, factor) g h e = ground arith

  plants-id_branch : (item : ℕ × V) (g h : Grid V) → Scale.id_branch item g ≡ ok h → SamePlants g h
  unfolding Scale.id_branch at_rows
  plants-id_branch (i, factor) g h e = ground arith

  plants-id_dcline : (item : ℕ × V) (g h : Grid V) → Scale.id_dcline item g ≡ ok h → SamePlants g h
  unfolding Scale.id_dcline at_rows
  plants-id_dcline (i, factor) g h e = ground arith

  plants-scale_dcline : (ct : Ct V) (g h : Grid V) → Scale.scale_dcline ct g ≡ ok h → SamePlants g h
  unfolding Scale.scale_dcline
  plants-scale_dcline ct g h e = go ct.dcline e
    where
      go :
          (d : Option (Option (List (ℕ × V))))
          → elim d [
            | none ↦ ok g
            | some none ↦ raise key_error
            | some (some l) ↦ each Scale.id_dcline l g
          ]
            ≡ ok h
          → SamePlants g h
      go none e' = ground arith
      go (some none) e' = ground arith
      go (some (some l)) e' = plants-each Scale.id_dcline plants-id_dcline l g h e'

  plants-add_one_bus :
      (old : List (Bus V)) (entry : NewBus V) (g h : Grid V)
      → Add.add_one_bus old entry g ≡ ok h
      → SamePlants g h
  unfolding Add.add_one_bus
  plants-add_one_bus old entry g h e = ground arith

  plants-add_one_dcline :
      (entry : NewLine V) (g h : Grid V) → Add.add_one_dcline entry g ≡ ok h → SamePlants g h
  unfolding Add.add_one_dcline
  plants-add_one_dcline entry g h e = ground arith

  plants-add_one_branch :
      (reactance : Grid V → Bus V → Bus V → Result V) (old : Grid V) (entry : NewLine V)
      (g h : Grid V)
      → Add.add_one_branch reactance old entry g ≡ ok h
      → SamePlants g h
  unfolding Add.add_one_branch
  plants-add_one_branch reactance old entry g h e = ground arith

  plants-add_one_gencost :
      (entry : NewPlant V) (g h : Grid V) → Add.add_one_gencost entry g ≡ ok h → SamePlants g h
  unfolding Add.add_one_gencost
  plants-add_one_gencost entry g h e = ground arith

  Extends-add_one_plant :
      (entry : NewPlant V) (g h : Grid V)
      → Add.add_one_plant entry g ≡ ok h
      → Extends (entry ∷ []) g h
  unfolding Add.add_one_plant
  Extends-add_one_plant entry g h e =
      let (bus, found, e₁) = >>=-eq-ok (Add.bus_at entry.bus_id g) _ e in
      let (zone_name, named, e₂) =
        >>=-eq-ok (Add.or_key_error (lookup bus.zone_id g.id2zone)) _ e₁ in
      let (last, ends, e₃) = >>=-eq-ok (last_id (λ r. r.plant_id) g.plant) _ e₂ in
      let row : Site = record {
        plant_id = last + 1;
        bus_id = entry.bus_id;
        type = entry.type;
        zone_id = bus.zone_id;
        zone_name = zone_name;
        interconnect = bus.interconnect;
        status = 1;
      } in
      record {
        added = row ∷ [];
        in_front = ap sites (sym (ok-injective e₃)) ∙ map-append site g.plant _;
        as_ordered = refl;
      }

  Extends-add_plants :
      (new : List (NewPlant V)) (g h : Grid V)
      → each Add.add_one_plant new g ≡ ok h
      → Extends new g h
  unfolding each
  Extends-add_plants [] g h e = record {
    added = [];
    in_front = ground (arith, append-nil (sites g));
    as_ordered = refl;
  }
  Extends-add_plants (entry ∷ new) g h e =
      let (u, first, rest) = >>=-eq-ok (Add.add_one_plant entry g) _ e in
      let one = Extends-add_one_plant entry g u first in
      let more = Extends-add_plants new u h rest in
      record {
        added = one.added ++ more.added;
        in_front =
            more.in_front
            ∙ ap (λ l. l ++ more.added) one.in_front
            ∙ append_assoc (sites g) one.added more.added;
        as_ordered =
            ground (arith, map-append built one.added more.added, one.as_ordered, more.as_ordered);
      }

  plants-add_gen :
      (ct : Ct V) (g h : Grid V) → Add.add_gen ct g ≡ ok h → Extends (entries ct.new_plant) g h
  unfolding Add.add_gen
  plants-add_gen ct g h e =
      let (u, first, rest) = >>=-eq-ok (each Add.add_one_plant (entries ct.new_plant) g) _ e in
      let one = Extends-add_plants (entries ct.new_plant) g u first in
      let same =
        plants-each Add.add_one_gencost plants-add_one_gencost (entries ct.new_plant) u h rest in
      record {
        added = one.added;
        in_front = ap (map site) same ∙ one.in_front;
        as_ordered = one.as_ordered;
      }

  plants-removals :
      (ct : Ct V) (g : Grid V) → SamePlants g (Scale.remove_bus ct (Scale.remove_branch ct g))
  unfolding Scale.remove_branch Scale.remove_bus
  plants-removals ct g = ground arith

  module _ (reactance : Grid V → Bus V → Bus V → Result V) where
    -- For any change table, also one with "remove_plant", which the transformation does not read.
    pub get_grid-Extends :
        (ct : Ct V) (g g' : Grid V)
        → get_grid reactance ct g ≡ ok g'
        → Extends (entries ct.new_plant) g g'
    unfolding Scale.scale_branch_by_zone Scale.scale_branch_by_id Add.add_bus Add.add_branch
        Add.add_dcline Apply.add_storage
    get_grid-Extends ct g g' h =
        let s = apply-Stages reactance ct g g' (sym (get_grid-eq-apply reactance ct g) ∙ h) in
        let zones =
          sites-each (Apply.scale_resource_by_zone ct) (sites-by_zone ct) _ g s.zones s.to_zones in
        let lines = plants-each Scale.zone_branch plants-zone_branch _ s.zones s.lines s.to_lines in
        let buses =
          plants-each (Add.add_one_bus s.lines.bus) (plants-add_one_bus s.lines.bus) _ s.lines
            s.buses s.to_buses in
        let branches =
          plants-each (Add.add_one_branch reactance s.buses)
            (plants-add_one_branch reactance s.buses) _ s.buses s.branches s.to_branches in
        let dclines =
          plants-each Add.add_one_dcline plants-add_one_dcline _ s.branches s.dclines
            s.to_dclines in
        let before = dclines ∙ branches ∙ buses ∙ lines in
        let new = plants-add_gen ct s.dclines s.plants s.to_plants in
        let by_ids =
          sites-each (Apply.scale_resource_by_id ct) (sites-by_id ct) _ _ s.ids s.to_ids in
        let line_ids =
          plants-each Scale.id_branch plants-id_branch _ s.ids s.line_ids s.to_line_ids in
        let dcline_ids = plants-scale_dcline ct s.line_ids s.dcline_ids s.to_dcline_ids in
        let last = plants-removals ct s.dcline_ids in
        record {
          added = new.added;
          in_front =
              ap sites (sym s.removed)
              ∙ ap (map site) (last ∙ dcline_ids ∙ line_ids)
              ∙ by_ids
              ∙ new.in_front
              ∙ ap (λ l. l ++ new.added) (ap (map site) before ∙ zones);
          as_ordered = new.as_ordered;
        }

    -- If the change table has no plants to remove, a transformed grid has the plants of the given one in the
    -- same order, each with its id, bus, type, zone, interconnect and status, and behind them one plant
    -- for each entry of "new_plant", in order, with the bus and the type of the entry.
    pub get_grid-Kept :
        (ct : Ct V) (g g' : Grid V)
        → ct.remove_plant ≡ none
        → get_grid reactance ct g ≡ ok g'
        → Extends (entries ct.new_plant) g g'
    get_grid-Kept ct g g' keeps_all h = get_grid-Extends ct g g' h
