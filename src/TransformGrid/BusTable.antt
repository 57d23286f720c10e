-- ===== src/TransformGrid/BusTable.antt =====
-- The bus table of a transformed grid, as a function of the bus table, the buses to add and those to
-- remove alone: nothing else in the change table has a say in it.
use power_sim_data.Prelude.{
  ℕ, ◌+◌, String, ◌≡◌, refl, sym, ap, ◌∙◌, List, [], ◌∷◌, ◌++◌, nat_eq, arith,
}
use power_sim_data.Prelude.Result.{Result, ok, each, ok-injective, >>=-eq-ok, ◌>>=◌}
use power_sim_data.Number.{Number}
use power_sim_data.Grid.{Bus, Grid}
use power_sim_data.Grid.Rows.{max_id, without}
use power_sim_data.Ct.{Ct, NewBus}
use power_sim_data.TransformGrid.Scale
use power_sim_data.TransformGrid.Add
use power_sim_data.TransformGrid.Add.{entries, zone_interconnect, new_bus}
use power_sim_data.TransformGrid.Apply
use power_sim_data.TransformGrid.Apply.{get_grid}
use power_sim_data.TransformGrid.Stages.{apply-Stages}
use power_sim_data.TransformGrid.Removal.{get_grid-eq-apply}
use power_sim_data.TransformGrid.SameBuses.{
  buses-each, buses-by_zone, buses-by_id, buses-zone_branch, buses-id_branch, buses-scale_dcline,
  buses-add_one_branch, buses-add_one_dcline, buses-add_gen,
}

pub without-[] : {A : Type 0} (index : A → ℕ) (rows : List A) → without index [] rows ≡ rows
unfolding without
without-[] index [] = refl
without-[] index (r ∷ rows) = ap (λ l. r ∷ l) (without-[] index rows)

module _ {V : Type 0} ⦃num : Number V⦄ where
  unfoldable pub bus_rows : List (Bus V) → List (NewBus V) → List (Bus V) → Result (List (Bus V))
  bus_rows old [] buses = ok buses
  bus_rows old (entry ∷ new) buses = do
    interconnect ← zone_interconnect old entry.zone_id
    bus_rows old new (buses ++ new_bus (max_id (λ b. b.bus_id) buses + 1) interconnect entry ∷ [])

  -- The buses with the new ones, numbered on from the largest id, and without the removed ones.
  unfoldable pub bus_table : List (NewBus V) → List ℕ → List (Bus V) → Result (List (Bus V))
  unfolding bus_rows
  bus_table new removed buses = do
    rows ← bus_rows buses new buses
    ok (without (λ b. b.bus_id) removed rows)

  bus-add_bus2sub :
      (i : ℕ) (interconnect : String) (entry : NewBus V) (g : Grid V)
      → (Add.add_bus2sub i interconnect entry g).bus ≡ g.bus
  unfolding Add.add_bus2sub
  bus-add_bus2sub i interconnect entry g = ground arith

  add_one_bus-new_bus :
      (old : List (Bus V)) (entry : NewBus V) (g u : Grid V)
      → Add.add_one_bus old entry g ≡ ok u
      → (i : String) × (zone_interconnect old entry.zone_id ≡ ok i)
        × (g.bus ++ new_bus (max_id (λ b. b.bus_id) g.bus + 1) i entry ∷ [] ≡ u.bus)
  unfolding Add.add_one_bus
  add_one_bus-new_bus old entry g u e =
      let (i, found, made) = >>=-eq-ok (zone_interconnect old entry.zone_id) _ e in
      (i, found, sym (bus-add_bus2sub _ i entry _) ∙ ap (λ k. k.bus) (ok-injective made))

  add_buses-bus_rows :
      (old : List (Bus V)) (new : List (NewBus V)) (g h : Grid V)
      → each (Add.add_one_bus old) new g ≡ ok h
      → bus_rows old new g.bus ≡ ok h.bus
  unfolding each bus_rows
  add_buses-bus_rows old [] g h e = ap (λ k. ok k.bus) (ok-injective e)
  add_buses-bus_rows old (entry ∷ new) g h e =
      let (u, first, rest) = >>=-eq-ok (Add.add_one_bus old entry g) _ e in
      let (i, found, made) = add_one_bus-new_bus old entry g u first in
      ap
        (λ r. r >>= λ j.
          bus_rows old new (g.bus ++ new_bus (max_id (λ b. b.bus_id) g.bus + 1) j entry ∷ []))
        found
      ∙ ap (bus_rows old new) made
      ∙ add_buses-bus_rows old new u h rest

  bus-removals :
      (ct : Ct V) (g : Grid V)
      → (Scale.remove_bus ct (Scale.remove_branch ct g)).bus
        ≡ without (λ b. b.bus_id) (entries ct.remove_bus) g.bus
  unfolding Scale.remove_branch Scale.remove_bus
  bus-removals ct g = ground (arith, without-[] (λ b. b.bus_id) g.bus)

  module _ (reactance : Grid V → Bus V → Bus V → Result V) where
    -- The bus table of a transformed grid is computed from the given bus table, "new_bus" and "remove_bus"
    -- alone: no scaling, no addition of another kind and no removal of another kind changes it.
    pub get_grid-bus_table :
        (ct : Ct V) (g g' : Grid V)
        → get_grid reactance ct g ≡ ok g'
        → bus_table (entries ct.new_bus) (entries ct.remove_bus) g.bus ≡ ok g'.bus
    unfolding bus_table Scale.scale_branch_by_zone Scale.scale_branch_by_id Add.add_bus
        Add.add_branch Add.add_dcline Apply.add_storage
    get_grid-bus_table ct g g' h =
        let s = apply-Stages reactance ct g g' (sym (get_grid-eq-apply reactance ct g) ∙ h) in
        let zones =
          buses-each (Apply.scale_resource_by_zone ct) (buses-by_zone ct) _ g s.zones s.to_zones in
        let lines = buses-each Scale.zone_branch buses-zone_branch _ s.zones s.lines s.to_lines in
        let rows = add_buses-bus_rows s.lines.bus (entries ct.new_bus) s.lines s.buses s.to_buses in
        let branches =
          buses-each (Add.add_one_branch reactance s.buses) (buses-add_one_branch reactance s.buses)
            _ s.buses s.branches s.to_branches in
        let dclines =
          buses-each Add.add_one_dcline buses-add_one_dcline _ s.branches s.dclines s.to_dclines in
        let plants = buses-add_gen ct s.dclines s.plants s.to_plants in
        let by_ids =
          buses-each (Apply.scale_resource_by_id ct) (buses-by_id ct) _ _ s.ids s.to_ids in
        let line_ids =
          buses-each Scale.id_branch buses-id_branch _ s.ids s.line_ids s.to_line_ids in
        let dcline_ids = buses-scale_dcline ct s.line_ids s.dcline_ids s.to_dcline_ids in
        let after = dcline_ids ∙ line_ids ∙ by_ids ∙ plants ∙ dclines ∙ branches in
        let all_rows = ap (λ b. bus_rows b (entries ct.new_bus) b) (sym (lines ∙ zones)) ∙ rows in
        ap (λ r. r >>= λ b. ok (without (λ b. b.bus_id) (entries ct.remove_bus) b)) all_rows
        ∙ ap (λ b. ok (without (λ b. b.bus_id) (entries ct.remove_bus) b)) (sym after)
        ∙ ap ok (sym (bus-removals ct s.dcline_ids) ∙ ap (λ g. g.bus) s.removed)
