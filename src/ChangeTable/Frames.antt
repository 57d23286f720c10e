-- ===== src/ChangeTable/Frames.antt =====
-- The state of a `ChangeTable`, its methods, and `_get_transformed_df` of
-- powersimdata/input/change_table.py with its caches, for the tables "branch", "dcline", "bus" and "storage_gen".
use power_sim_data.Prelude.{
  ℕ, Bool, true, false, ◌&&◌, Option, none, some, List, [], ◌∷◌, nat_eq, string_eq, ◌==◌, subset,
  if◌then◌else◌,
}
use power_sim_data.Prelude.Dict.{Dict}
use power_sim_data.Prelude.Result.{Result, ok, raise}
use power_sim_data.Number.{Number}
use power_sim_data.Grid.{Plant, Branch, Dcline, Bus, StorageGen, Grid}
use power_sim_data.Ct.{NewBus, NewLine, NewPlant, NewStorage, Ct}
use power_sim_data.TransformGrid.Add.{entries}
use power_sim_data.TransformGrid.Apply.{get_grid}

-- An entry of a cache: the additions and removals that the table was computed for, and its rows.
pub record Cached (E R : Type 0) : Type 0 where
  pub added : List E
  pub removed : List ℕ
  pub rows : List R

-- The key of the plant table has in addition what the key of each resource of the grid holds, in the
-- order of the resources' names: the names "zone_id" (`true`) and "plant_id" and the sorted items. The
-- resource itself is not in the key.
pub record CachedPlants (V : Type 0) : Type 0 where
  pub added : List (NewPlant V)
  pub factors : List (Bool × Dict ℕ V)
  pub rows : List (Plant V)

-- `_new_element_caches` is a cache for each table.
pub record ChangeTable (V : Type 0) : Type 0 where
  pub grid : Grid V
  pub ct : Ct V
  pub branch_cache : List (Cached (NewLine V) (Branch V))
  pub dcline_cache : List (Cached (NewLine V) (Dcline V))
  pub bus_cache : List (Cached (NewBus V) (Bus V))
  pub plant_cache : List (CachedPlants V)
  pub storage_cache : List (Cached (NewStorage V) (StorageGen V))

-- A method: what it returns or raises, and the state that it leaves.
abbrev pub Method : Type 0 → Type 0 → Type 0
Method V A = ChangeTable V → Result A × ChangeTable V

module _ {V : Type 0} where
  infixl 5 ◌>>=◌
  unfoldable pub ◌>>=◌ : {A B : Type 0} → Method V A → (A → Method V B) → Method V B
  (m >>= f) s = let (r, s') = m s in elim r [ ok a ↦ f a s' | raise e ↦ (raise e, s') ]

  abbrev pub return : {A : Type 0} → A → Method V A
  return a s = (ok a, s)

  -- A check that reads nothing of the state that it could change.
  abbrev pub lift : {A : Type 0} → (ChangeTable V → Result A) → Method V A
  lift f s = (f s, s)

  -- `self.ct[…] = …`
  abbrev pub modify : (Ct V → Ct V) → Method V Unit
  modify f s = (ok tt, record s { ct = f s.ct })

-- A table of the grid, with the keys "new_…" and "remove_…" and its cache.
pub record Frame (V E R : Type 0) : Type 0 where
  pub rows : Grid V → List R
  pub news : Ct V → Option (List E)
  pub removals : Ct V → Option (List ℕ)
  pub same : E → E → Bool
  pub cache : ChangeTable V → List (Cached E R)
  pub keep : List (Cached E R) → ChangeTable V → ChangeTable V

abbrev pub absent : {A : Type 0} → Option A → Bool
absent none = true
absent (some a) = false

-- Equality of the tuples of entries, and of the sorted tuples of ids.
unfoldable pub same_entries : {E : Type 0} → (E → E → Bool) → List E → List E → Bool
same_entries same [] [] = true
same_entries same (a ∷ l) (b ∷ k) = same a b && same_entries same l k
same_entries same _ _ = false

abbrev same_ids : List ℕ → List ℕ → Bool
same_ids a b = subset a b && subset b a

unfoldable pub find_cached :
    {E R : Type 0} → (E → E → Bool) → List E → List ℕ → List (Cached E R) → Option (List R)
unfolding same_entries
find_cached same added removed [] = none
find_cached same added removed (c ∷ cs) =
    if same_entries same c.added added && same_ids c.removed removed
    then some c.rows
    else find_cached same added removed cs

module _ {V : Type 0} ⦃num : Number V⦄ where
  open num use {equal}

  same_line : NewLine V → NewLine V → Bool
  same_line a b =
      a.from_bus_id == b.from_bus_id
      && a.to_bus_id == b.to_bus_id
      && equal a.pmin b.pmin
      && equal a.pmax b.pmax

  unfoldable pub same_bus : NewBus V → NewBus V → Bool
  same_bus a b =
      equal a.lat b.lat
      && equal a.lon b.lon
      && a.zone_id == b.zone_id
      && equal a.pd b.pd
      && equal a.base_kv b.base_kv

  unfoldable pub branch_frame : Frame V (NewLine V) (Branch V)
  unfolding same_line
  branch_frame = record {
    rows = λ g. g.branch;
    news = λ ct. ct.new_branch;
    removals = λ ct. ct.remove_branch;
    same = same_line;
    cache = λ s. s.branch_cache;
    keep = λ c s. record s { branch_cache = c };
  }

  unfoldable pub dcline_frame : Frame V (NewLine V) (Dcline V)
  unfolding same_line
  dcline_frame = record {
    rows = λ g. g.dcline;
    news = λ ct. ct.new_dcline;
    removals = λ ct. ct.remove_dcline;
    same = same_line;
    cache = λ s. s.dcline_cache;
    keep = λ c s. record s { dcline_cache = c };
  }

  same_storage : NewStorage V → NewStorage V → Bool
  same_storage a b =
      a.bus_id == b.bus_id
      && equal a.capacity b.capacity
      && equal a.duration b.duration
      && equal a.min_stor b.min_stor
      && equal a.max_stor b.max_stor
      && equal a.energy_value b.energy_value
      && equal a.in_eff b.in_eff
      && equal a.out_eff b.out_eff
      && equal a.loss_factor b.loss_factor
      && equal a.terminal_min b.terminal_min
      && equal a.terminal_max b.terminal_max

  -- The table "storage_gen".
  unfoldable pub storage_frame : Frame V (NewStorage V) (StorageGen V)
  unfolding same_storage
  storage_frame = record {
    rows = λ g. g.storage.gen;
    news = λ ct. ct.storage;
    removals = λ ct. none;
    same = same_storage;
    cache = λ s. s.storage_cache;
    keep = λ c s. record s { storage_cache = c };
  }

  unfoldable pub bus_frame : Frame V (NewBus V) (Bus V)
  unfolding same_bus
  bus_frame = record {
    rows = λ g. g.bus;
    news = λ ct. ct.new_bus;
    removals = λ ct. ct.remove_bus;
    same = same_bus;
    cache = λ s. s.bus_cache;
    keep = λ c s. record s { bus_cache = c };
  }

  module _ (reactance : Grid V → Bus V → Bus V → Result V) where
    -- `_get_transformed_df`
    unfoldable pub get_transformed_df : {E R : Type 0} → Frame V E R → Method V (List R)
    unfolding find_cached get_grid
    get_transformed_df f s =
        let added = entries (f.news s.ct) in
        let removed = entries (f.removals s.ct) in
        if absent (f.news s.ct) && absent (f.removals s.ct)
        then (ok (f.rows s.grid), s)
        else (elim (find_cached f.same added removed (f.cache s)) [
          | some rows ↦ (ok rows, s)
          | none ↦ elim (get_grid reactance s.ct s.grid) [
            | raise e ↦ (raise e, s)
            | ok g ↦ (
              ok (f.rows g),
              f.keep (record { added = added; removed = removed; rows = f.rows g } ∷ f.cache s) s,
            )
          ]
        ])
