-- ===== src/ChangeTable/Storages.antt =====
-- `add_storage_capacity` of powersimdata/input/changes/storage.py.
use power_sim_data.Prelude.{some, List, ◌++◌}
use power_sim_data.Prelude.Result.{Result}
use power_sim_data.Number.{Number}
use power_sim_data.Grid.{Bus, Grid}
use power_sim_data.Ct.{NewStorage, Ct}
use power_sim_data.TransformGrid.Add.{entries}
use power_sim_data.ChangeTable.Entries.{Entry, check_all}
use power_sim_data.ChangeTable.Checks.{check_storage}
use power_sim_data.ChangeTable.Frames.{Method, ◌>>=◌, lift, modify, bus_frame, get_transformed_df}

module _ {V : Type 0} where
  unfoldable pub append_storages : List (NewStorage V) → Ct V → Ct V
  append_storages units ct = record ct { storage = some (entries ct.storage ++ units) }

  unfoldable pub add_storage_capacity :
      ⦃num : Number V⦄ → (Grid V → Bus V → Bus V → Result V) → List (Entry V) → Method V Unit
  unfolding check_all check_storage append_storages get_transformed_df bus_frame
  add_storage_capacity reactance info = do
    anticipated ← get_transformed_df reactance bus_frame
    units ← lift (λ s. check_all (check_storage s.grid anticipated) info)
    modify (append_storages units)
