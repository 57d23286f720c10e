-- ===== src/ChangeTable/Lines.antt =====
-- `_add_line` with `add_branch` and `add_dcline`, `remove_branch` and `remove_dcline` of
-- powersimdata/input/change_table.py, and `add_bus` of powersimdata/input/changes/bus.py.
-- `_check_for_islanded_load_buses` only prints, but computes the bus table.
use power_sim_data.Prelude.{ℕ, some, List, [], ◌∷◌, ◌++◌, nat_eq, subset, contains, if◌then◌else◌}
use power_sim_data.Prelude.Result.{Result, require, value_error}
use power_sim_data.Number.{Number}
use power_sim_data.Grid.{Bus, Grid}
use power_sim_data.Grid.Rows.{ids}
use power_sim_data.Ct.{NewBus, NewLine, Ct}
use power_sim_data.TransformGrid.Add.{entries}
use power_sim_data.ChangeTable.Entries.{
  Entry, LineKind, new_branch, new_dcline, check_line, check_bus, check_all,
}
use power_sim_data.ChangeTable.Frames.{
  Method, ◌>>=◌, return, lift, modify, branch_frame, dcline_frame, bus_frame, get_transformed_df,
}

-- `s |= set(info)`
unfoldable pub union : List ℕ → List ℕ → List ℕ
union s [] = s
union s (i ∷ l) = union (if contains s i then s else s ++ i ∷ []) l

module _ {V : Type 0} where
  unfoldable pub append_lines : LineKind → List (NewLine V) → Ct V → Ct V
  append_lines new_branch lines ct = record ct {
    new_branch = some (entries ct.new_branch ++ lines);
  }
  append_lines new_dcline lines ct = record ct {
    new_dcline = some (entries ct.new_dcline ++ lines);
  }

  unfoldable pub append_buses : List (NewBus V) → Ct V → Ct V
  append_buses buses ct = record ct { new_bus = some (entries ct.new_bus ++ buses) }

  unfoldable pub drop_branches : List ℕ → Ct V → Ct V
  unfolding union
  drop_branches info ct = record ct { remove_branch = some (union (entries ct.remove_branch) info) }

  unfoldable pub drop_dclines : List ℕ → Ct V → Ct V
  unfolding union
  drop_dclines info ct = record ct { remove_dcline = some (union (entries ct.remove_dcline) info) }

  module _ ⦃num : Number V⦄ where
    unfoldable pub add_bus : List (Entry V) → Method V Unit
    unfolding check_all check_bus append_buses
    add_bus info = do
      buses ← lift (λ s. check_all (check_bus s.grid) info)
      modify (append_buses buses)

    module _ (reactance : Grid V → Bus V → Bus V → Result V) where
      -- `_add_line`
      unfoldable pub add_line : LineKind → List (Entry V) → Method V Unit
      unfolding check_all check_line append_lines get_transformed_df bus_frame
      add_line kind info = do
        anticipated ← get_transformed_df reactance bus_frame
        lines ← lift (λ s. check_all (check_line kind anticipated) info)
        modify (append_lines kind lines)

      unfoldable pub add_branch : List (Entry V) → Method V Unit
      unfolding add_line
      add_branch = add_line new_branch

      unfoldable pub add_dcline : List (Entry V) → Method V Unit
      unfolding add_line
      add_dcline = add_line new_dcline

      unfoldable pub remove_branch : List ℕ → Method V Unit
      unfolding drop_branches get_transformed_df branch_frame bus_frame
      remove_branch info = do
        anticipated ← get_transformed_df reactance branch_frame
        _ ← lift (λ s. require (subset info (ids (λ r. r.branch_id) anticipated)) value_error)
        _ ← modify (drop_branches info)
        buses ← get_transformed_df reactance bus_frame
        return tt

      unfoldable pub remove_dcline : List ℕ → Method V Unit
      unfolding drop_dclines get_transformed_df dcline_frame
      remove_dcline info = do
        anticipated ← get_transformed_df reactance dcline_frame
        _ ← lift (λ s. require (subset info (ids (λ r. r.dcline_id) anticipated)) value_error)
        modify (drop_dclines info)
