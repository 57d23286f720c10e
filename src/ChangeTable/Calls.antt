-- ===== src/ChangeTable/Calls.antt =====
-- A fresh `ChangeTable` of powersimdata/input/change_table.py, and the calls of its public methods one
-- after the other by a client that goes on after an exception.
use power_sim_data.Prelude.{ℕ, String, Option, List, [], ◌∷◌}
use power_sim_data.Prelude.Dict.{Dict}
use power_sim_data.Prelude.Result.{Result}
use power_sim_data.Number.{Number}
use power_sim_data.Grid.{Bus, Grid}
use power_sim_data.Ct.{empty_ct}
use power_sim_data.ChangeTable.Entries.{Entry}
use power_sim_data.ChangeTable.Frames.{ChangeTable, Method}
use power_sim_data.ChangeTable.Scaling
use power_sim_data.ChangeTable.Lines
use power_sim_data.ChangeTable.Resources
use power_sim_data.ChangeTable.Plants
use power_sim_data.ChangeTable.Storages
use power_sim_data.ChangeTable.Clear
use power_sim_data.ChangeTable.Clear.{SingleKey}
use power_sim_data.ChangeTable.Flexibility
use power_sim_data.ChangeTable.Flexibility.{FlexEntry}

-- A call of a method with its arguments. The order in which a set is gone through, and the profiles
-- that the server holds at the time, come with the call.
pub data Call (V : Type 0) : Type 0 where
  add_bus add_branch add_dcline add_plant add_storage_capacity : List (Entry V) → Call V
  remove_branch remove_dcline remove_plant remove_bus : List ℕ → Call V
  scale_demand scale_branch_capacity : Option (Dict String V) → Option (Dict ℕ V) → Call V
  scale_dcline_capacity : Dict ℕ V → Call V
  scale_plant_capacity scale_plant_cost scale_plant_pmin :
      String → Option (Dict String V) → Option (Dict ℕ V) → Call V
  clear : List SingleKey → Option (List String) → Call V
  add_demand_flexibility : (String → List String) → List String → Dict String FlexEntry → Call V

module _ {V : Type 0} where
  -- `__init__`
  abbrev pub new_table : Grid V → ChangeTable V
  new_table g = record {
    grid = g;
    ct = empty_ct;
    branch_cache = [];
    dcline_cache = [];
    bus_cache = [];
    plant_cache = [];
    storage_cache = [];
  }

  module _ ⦃num : Number V⦄ (reactance : Grid V → Bus V → Bus V → Result V)
      (angle : V × V → V × V → V) where
    unfoldable pub call : Call V → Method V Unit
    call (add_bus info) = Lines.add_bus info
    call (add_branch info) = Lines.add_branch reactance info
    call (add_dcline info) = Lines.add_dcline reactance info
    call (add_plant info) = Plants.add_plant reactance angle info
    call (add_storage_capacity info) = Storages.add_storage_capacity reactance info
    call (remove_branch info) = Lines.remove_branch reactance info
    call (remove_dcline info) = Lines.remove_dcline reactance info
    call (remove_plant info) = Plants.remove_plant reactance info
    call (remove_bus info) = Plants.remove_bus reactance info
    call (scale_demand z i) = Scaling.scale_demand z i
    call (scale_branch_capacity z i) = Scaling.scale_branch_capacity reactance z i
    call (scale_dcline_capacity d) = Scaling.scale_dcline_capacity reactance d
    call (scale_plant_capacity t z i) = Resources.scale_plant_capacity reactance t z i
    call (scale_plant_cost t z i) = Resources.scale_plant_cost reactance t z i
    call (scale_plant_pmin t z i) = Resources.scale_plant_pmin reactance t z i
    call (clear order which) = Clear.clear order which
    call (add_demand_flexibility versions order info) =
        Flexibility.add_demand_flexibility versions order info

    -- The state after a sequence of calls.
    unfoldable pub after : List (Call V) → ChangeTable V → ChangeTable V
    unfolding call
    after [] s = s
    after (c ∷ calls) s = after calls (call c s).1
