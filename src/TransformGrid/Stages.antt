-- ===== src/TransformGrid/Stages.antt =====
-- The grids between the stages of a successful `_apply_change_table`.
use power_sim_data.Prelude.{◌≡◌}
use power_sim_data.Prelude.Result.{Result, ok, each, ok-injective, >>=-eq-ok}
use power_sim_data.Number.{Number}
use power_sim_data.Grid.{Bus, Grid}
use power_sim_data.Ct.{Ct}
use power_sim_data.TransformGrid.Scale.{
  scale_branch_by_zone, scale_branch_by_id, scale_dcline, remove_branch, remove_bus,
}
use power_sim_data.TransformGrid.Add.{add_bus, add_branch, add_dcline, add_gen}
use power_sim_data.TransformGrid.Apply.{
  scale_resource_by_zone, scale_resource_by_id, add_storage, apply_change_table,
}

module _ {V : Type 0} ⦃num : Number V⦄ (reactance : Grid V → Bus V → Bus V → Result V) where
  pub record Stages (ct : Ct V) (g g' : Grid V) : Type 0 where
    pub zones : Grid V
    pub lines : Grid V
    pub buses : Grid V
    pub branches : Grid V
    pub dclines : Grid V
    pub plants : Grid V
    pub ids : Grid V
    pub line_ids : Grid V
    pub dcline_ids : Grid V
    pub to_zones : each (scale_resource_by_zone ct) g.immutables.all_resources g ≡ ok zones
    pub to_lines : scale_branch_by_zone ct zones ≡ ok lines
    pub to_buses : add_bus ct lines ≡ ok buses
    pub to_branches : add_branch reactance ct buses ≡ ok branches
    pub to_dclines : add_dcline ct branches ≡ ok dclines
    pub to_plants : add_gen ct dclines ≡ ok plants
    pub to_ids :
        each (scale_resource_by_id ct) plants.immutables.all_resources (add_storage ct plants)
        ≡ ok ids
    pub to_line_ids : scale_branch_by_id ct ids ≡ ok line_ids
    pub to_dcline_ids : scale_dcline ct line_ids ≡ ok dcline_ids
    pub removed : remove_bus ct (remove_branch ct dcline_ids) ≡ g'

  pub apply-Stages :
      (ct : Ct V) (g g' : Grid V) → apply_change_table reactance ct g ≡ ok g' → Stages ct g g'
  unfolding apply_change_table add_storage
  apply-Stages ct g g' h =
      let (g₁, e₁, r₁) =
        >>=-eq-ok (each (scale_resource_by_zone ct) g.immutables.all_resources g) _ h in
      let (g₂, e₂, r₂) = >>=-eq-ok (scale_branch_by_zone ct g₁) _ r₁ in
      let (g₃, e₃, r₃) = >>=-eq-ok (add_bus ct g₂) _ r₂ in
      let (g₄, e₄, r₄) = >>=-eq-ok (add_branch reactance ct g₃) _ r₃ in
      let (g₅, e₅, r₅) = >>=-eq-ok (add_dcline ct g₄) _ r₄ in
      let (g₆, e₆, r₆) = >>=-eq-ok (add_gen ct g₅) _ r₅ in
      let (g₈, e₈, r₈) =
        >>=-eq-ok (each (scale_resource_by_id ct) g₆.immutables.all_resources (add_storage ct g₆)) _
          r₆ in
      let (g₉, e₉, r₉) = >>=-eq-ok (scale_branch_by_id ct g₈) _ r₈ in
      let (g₁₀, e₁₀, r₁₀) = >>=-eq-ok (scale_dcline ct g₉) _ r₉ in
      record {
        zones = g₁;
        lines = g₂;
        buses = g₃;
        branches = g₄;
        dclines = g₅;
        plants = g₆;
        ids = g₈;
        line_ids = g₉;
        dcline_ids = g₁₀;
        to_zones = e₁;
        to_lines = e₂;
        to_buses = e₃;
        to_branches = e₄;
        to_dclines = e₅;
        to_plants = e₆;
        to_ids = e₈;
        to_line_ids = e₉;
        to_dcline_ids = e₁₀;
        removed = ok-injective r₁₀;
      }
