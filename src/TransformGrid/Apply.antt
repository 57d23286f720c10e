-- ===== src/TransformGrid/Apply.antt =====
-- `_add_storage`, and `get_grid`, which composes the scalings, additions and removals.
use power_sim_data.Prelude.{
  ℕ, ◌+◌, String, Bool, true, false, ◌&&◌, Option, none, some, List, [], ◌∷◌, ◌++◌, if◌then◌else◌,
}
use power_sim_data.Prelude.Result.{Result, ok, each, ◌>>=◌}
use power_sim_data.Number.{Number, of_ℕ}
use power_sim_data.Grid.{Bus, StorageGen, StorageData, Storage, Grid}
use power_sim_data.Grid.Rows.{max_id}
use power_sim_data.Ct.{NewStorage, Ct}
use power_sim_data.TransformGrid.Scale.{
  scale_gen_by_zone, scale_gencost_by_zone, scale_gen_pmin_by_zone, scale_gen_by_id,
  scale_gencost_by_id, scale_gen_pmin_by_id, scale_branch_by_zone, scale_branch_by_id, scale_dcline,
  remove_branch, remove_bus,
}
use power_sim_data.TransformGrid.Add.{entries, add_bus, add_branch, add_dcline, add_gen}

abbrev absent : {A : Type 0} → Option A → Bool
absent none = true
absent (some a) = false

abbrev no_items : {A : Type 0} → List A → Bool
no_items [] = true
no_items (x ∷ xs) = false

-- `not bool(self.ct)`
unfoldable pub is_empty : {V : Type 0} → Ct V → Bool
is_empty ct =
    no_items ct.plant
    && absent ct.branch
    && absent ct.dcline
    && absent ct.demand
    && absent ct.new_bus
    && absent ct.new_branch
    && absent ct.new_dcline
    && absent ct.new_plant
    && absent ct.storage
    && absent ct.remove_branch
    && absent ct.remove_bus
    && absent ct.remove_dcline
    && absent ct.remove_plant
    && absent ct.demand_flexibility

module _ {V : Type 0} ⦃num : Number V⦄ where
  open num use {neg, mul, div}

  -- `_add_storage_unit`
  storage_gen : NewStorage V → StorageGen V
  storage_gen entry = record {
    bus_id = entry.bus_id;
    vg = of_ℕ 1;
    m_base = of_ℕ 100;
    status = 1;
    pmax = entry.capacity;
    pmin = neg entry.capacity;
    ramp_10 = entry.capacity;
    ramp_30 = entry.capacity;
  }

  -- `_add_storage_data`
  storage_data : ℕ → NewStorage V → StorageData V
  storage_data i entry =
      let energy = mul entry.capacity entry.duration in
      let half = div energy (of_ℕ 2) in
      record {
        unit_idx = i;
        expected_terminal_storage_max = mul energy entry.terminal_max;
        expected_terminal_storage_min = mul energy entry.terminal_min;
        initial_storage = half;
        initial_storage_lower_bound = half;
        initial_storage_upper_bound = half;
        initial_storage_cost = entry.energy_value;
        terminal_storage_price = entry.energy_value;
        min_storage_level = mul energy entry.min_stor;
        max_storage_level = mul energy entry.max_stor;
        out_eff = entry.out_eff;
        in_eff = entry.in_eff;
        loss_factor = entry.loss_factor;
        rho = of_ℕ 1;
      }

  -- `_add_storage_unit`, `_add_storage_gencost`, `_add_storage_genfuel`, `_add_storage_data`.
  add_unit : ℕ → NewStorage V → Storage V → Storage V
  unfolding storage_gen storage_data
  add_unit i entry s = record s {
    gen = s.gen ++ storage_gen entry ∷ [];
    gencost = s.gencost ++ record { type = 2; n = 3 } ∷ [];
    genfuel = s.genfuel ++ "ess" ∷ [];
    storage_data = s.storage_data ++ storage_data i entry ∷ [];
  }

  add_units : ℕ → List (NewStorage V) → Storage V → Storage V
  unfolding add_unit
  add_units i [] s = s
  add_units i (entry ∷ rest) s = add_units (i + 1) rest (add_unit i entry s)

  unfoldable pub add_storage : Ct V → Grid V → Grid V
  unfolding add_units
  add_storage ct g = record g {
    storage = add_units (max_id (λ r. r.plant_id) g.plant + 1) (entries ct.storage) g.storage;
  }

  -- One round of the loop over `all_resources` that scales by zone, and of the one by id.
  unfoldable pub scale_resource_by_zone : Ct V → String → Grid V → Result (Grid V)
  scale_resource_by_zone ct t g = do
    g₁ ← scale_gen_by_zone ct t g
    g₂ ← scale_gencost_by_zone ct t g₁
    scale_gen_pmin_by_zone ct t g₂

  unfoldable pub scale_resource_by_id : Ct V → String → Grid V → Result (Grid V)
  scale_resource_by_id ct t g = do
    g₁ ← scale_gen_by_id ct t g
    g₂ ← scale_gencost_by_id ct t g₁
    scale_gen_pmin_by_id ct t g₂

  module _ (reactance : Grid V → Bus V → Bus V → Result V) where
    -- `_apply_change_table`: there is no call of `_remove_dcline` and `_remove_plant`.
    unfoldable pub apply_change_table : Ct V → Grid V → Result (Grid V)
    unfolding scale_resource_by_zone scale_resource_by_id each
    apply_change_table ct g = do
      g₁ ← each (scale_resource_by_zone ct) g.immutables.all_resources g
      g₂ ← scale_branch_by_zone ct g₁
      g₃ ← add_bus ct g₂
      g₄ ← add_branch reactance ct g₃
      g₅ ← add_dcline ct g₄
      g₆ ← add_gen ct g₅
      let g₇ = add_storage ct g₆
      g₈ ← each (scale_resource_by_id ct) g₇.immutables.all_resources g₇
      g₉ ← scale_branch_by_id ct g₈
      g₁₀ ← scale_dcline ct g₉
      ok (remove_bus ct (remove_branch ct g₁₀))

    -- The grid is a deep copy, so the given one does not change.
    unfoldable pub get_grid : Ct V → Grid V → Result (Grid V)
    unfolding apply_change_table is_empty
    get_grid ct g = if is_empty ct then ok g else apply_change_table ct g
