-- ===== src/ChangeTable/Steps/Tables.antt =====
-- A property of the state that neither an edit of the dictionary nor a table that is looked up can break
-- is kept by every method.
use power_sim_data.Prelude.{
  ℕ, String, Option, none, some, List, [], ◌∷◌, nat_eq, string_eq, if◌then◌else◌,
}
use power_sim_data.Prelude.Dict.{Dict, lookup}
use power_sim_data.Prelude.Result.{Result}
use power_sim_data.Number.{Number}
use power_sim_data.Grid.{Bus, Grid}
use power_sim_data.Ct.{Ct, PlantKey, key_eq, Kind, capacity, cost, pmin}
use power_sim_data.ChangeTable.Entries.{Entry, LineKind, new_branch, new_dcline}
use power_sim_data.ChangeTable.Frames.{
  ChangeTable, branch_frame, dcline_frame, bus_frame, storage_frame, get_transformed_df,
}
use power_sim_data.ChangeTable.PlantTable.{get_plant_df}
use power_sim_data.ChangeTable.Keeps.{Keeps, ◌then◌, look, done, set, split_option}
use power_sim_data.ChangeTable.Scaling
use power_sim_data.ChangeTable.Scaling.{check_zone}
use power_sim_data.ChangeTable.Lines
use power_sim_data.ChangeTable.Resources
use power_sim_data.ChangeTable.Plants
use power_sim_data.ChangeTable.Storages
use power_sim_data.ChangeTable.Calls.{
  Call, add_bus, add_branch, add_dcline, add_plant, add_storage_capacity, remove_branch,
  remove_dcline, remove_plant, remove_bus, scale_demand, scale_branch_capacity,
  scale_dcline_capacity, scale_plant_capacity, scale_plant_cost, scale_plant_pmin, clear,
  add_demand_flexibility, call, after,
}
use power_sim_data.ChangeTable.Steps.{
  scale_demand-Keeps, scale_branches-Keeps, scale_dclines-Keeps, clear-Keeps,
  add_demand_flexibility-Keeps, add_bus-Keeps, add_zone_entries-Keeps, add_id_entries-Keeps,
}

module _ {V : Type 0} ⦃num : Number V⦄ (P : ChangeTable V → Type 0)
    (edit : (ct : Ct V) (s : ChangeTable V) → P s → P (record s { ct = ct })) where
  module _ (reactance : Grid V → Bus V → Bus V → Result V)
      (branches : Keeps P (get_transformed_df reactance branch_frame))
      (dclines : Keeps P (get_transformed_df reactance dcline_frame))
      (buses : Keeps P (get_transformed_df reactance bus_frame))
      (units : Keeps P (get_transformed_df reactance storage_frame))
      (plants : Keeps P (get_plant_df reactance)) where
    add_line-Keeps :
        (kind : LineKind) (info : List (Entry V)) → Keeps P (Lines.add_line reactance kind info)
    unfolding Lines.add_line
    add_line-Keeps kind info = buses then λ r. look then λ l. set P edit _

    remove_branch-Keeps : (info : List ℕ) → Keeps P (Lines.remove_branch reactance info)
    unfolding Lines.remove_branch
    remove_branch-Keeps info =
        branches then λ r. look then λ u. set P edit _ then λ v. buses then λ b. done

    remove_dcline-Keeps : (info : List ℕ) → Keeps P (Lines.remove_dcline reactance info)
    unfolding Lines.remove_dcline
    remove_dcline-Keeps info = dclines then λ r. look then λ u. set P edit _

    remove_plant-Keeps : (info : List ℕ) → Keeps P (Plants.remove_plant reactance info)
    unfolding Plants.remove_plant
    remove_plant-Keeps info = plants then λ r. look then λ u. set P edit _

    remove_bus-Keeps : (info : List ℕ) → Keeps P (Plants.remove_bus reactance info)
    unfolding Plants.remove_bus
    remove_bus-Keeps info = buses then λ b. look then λ u. plants then λ r. look then λ v.
        units then λ q. look then λ w. branches then λ l.
        look then λ x. look then λ y. dclines then λ d. look then λ z. look then λ k. set P edit _

    add_plant-Keeps :
        (angle : V × V → V × V → V) (info : List (Entry V))
        → Keeps P (Plants.add_plant reactance angle info)
    unfolding Plants.add_plant
    add_plant-Keeps angle info = buses then λ r. look then λ l. set P edit _

    add_storage_capacity-Keeps :
        (info : List (Entry V)) → Keeps P (Storages.add_storage_capacity reactance info)
    unfolding Storages.add_storage_capacity
    add_storage_capacity-Keeps info = buses then λ r. look then λ l. set P edit _

    scale_branch_capacity-Keeps :
        (z : Option (Dict String V)) (i : Option (Dict ℕ V))
        → Keeps P (Scaling.scale_branch_capacity reactance z i)
    unfolding Scaling.scale_branch_capacity
    scale_branch_capacity-Keeps z i = branches then λ r. scale_branches-Keeps P edit _ z i

    scale_dcline_capacity-Keeps :
        (d : Dict ℕ V) → Keeps P (Scaling.scale_dcline_capacity reactance d)
    unfolding Scaling.scale_dcline_capacity
    scale_dcline_capacity-Keeps d =
        set P edit _ then λ u. dclines then λ r. scale_dclines-Keeps P edit _ d

    add_plant_ids-Keeps :
        (k : PlantKey) (d : Option (Dict ℕ V)) → Keeps P (Resources.add_plant_ids reactance k d)
    unfolding Resources.add_plant_ids
    add_plant_ids-Keeps k none = done
    add_plant_ids-Keeps k (some d) = plants then λ r. add_id_entries-Keeps P edit _ k d

    add_plant_entries-Keeps :
        (t : String) (kind : Kind) (z : Option (Dict String V)) (i : Option (Dict ℕ V))
        → Keeps P (Resources.add_plant_entries reactance t kind z i)
    unfolding Resources.add_plant_entries
    add_plant_entries-Keeps t kind z i = look then λ u. look then λ v.
        set P edit _ then λ w. add_zone_entries-Keeps P edit t _ z then λ x. add_plant_ids-Keeps _ i

    clip-Keeps : (k : PlantKey) (p : ℕ × V) → Keeps P (Resources.clip reactance k p)
    unfolding Resources.clip
    clip-Keeps k (i, correction) = record {
      keep = λ s h. split_option P (lookup k s.ct.plant) _ _ h (λ c. edit _ s h);
    }

    clip_all-Keeps : (k : PlantKey) (d : Dict ℕ V) → Keeps P (Resources.clip_all reactance k d)
    unfolding Resources.clip_all
    clip_all-Keeps k [] = done
    clip_all-Keeps k (p ∷ d) = clip-Keeps k p then λ u. clip_all-Keeps k d

    scale_plant_pmin-Keeps :
        (t : String) (z : Option (Dict String V)) (i : Option (Dict ℕ V))
        → Keeps P (Resources.scale_plant_pmin reactance t z i)
    unfolding Resources.scale_plant_pmin
    scale_plant_pmin-Keeps t z i =
        add_plant_entries-Keeps t pmin z i then λ u. look then λ g. clip_all-Keeps _ _

    pub call-Keeps : (angle : V × V → V × V → V) (c : Call V) → Keeps P (call reactance angle c)
    unfolding call Lines.add_branch Lines.add_dcline Resources.scale_plant_capacity
        Resources.scale_plant_cost
    call-Keeps angle (add_bus info) = add_bus-Keeps P edit info
    call-Keeps angle (add_branch info) = add_line-Keeps new_branch info
    call-Keeps angle (add_dcline info) = add_line-Keeps new_dcline info
    call-Keeps angle (add_plant info) = add_plant-Keeps angle info
    call-Keeps angle (add_storage_capacity info) = add_storage_capacity-Keeps info
    call-Keeps angle (remove_branch info) = remove_branch-Keeps info
    call-Keeps angle (remove_dcline info) = remove_dcline-Keeps info
    call-Keeps angle (remove_plant info) = remove_plant-Keeps info
    call-Keeps angle (remove_bus info) = remove_bus-Keeps info
    call-Keeps angle (scale_demand z i) = scale_demand-Keeps P edit z i
    call-Keeps angle (scale_branch_capacity z i) = scale_branch_capacity-Keeps z i
    call-Keeps angle (scale_dcline_capacity d) = scale_dcline_capacity-Keeps d
    call-Keeps angle (scale_plant_capacity t z i) = add_plant_entries-Keeps t capacity z i
    call-Keeps angle (scale_plant_cost t z i) = add_plant_entries-Keeps t cost z i
    call-Keeps angle (scale_plant_pmin t z i) = scale_plant_pmin-Keeps t z i
    call-Keeps angle (clear order which) = clear-Keeps P edit order which
    call-Keeps angle (add_demand_flexibility versions order info) =
        add_demand_flexibility-Keeps P edit versions order info

    pub after-Keeps :
        (angle : V × V → V × V → V) (calls : List (Call V)) (s : ChangeTable V)
        → P s
        → P (after reactance angle calls s)
    unfolding after
    after-Keeps angle [] s h = h
    after-Keeps angle (c ∷ calls) s h = after-Keeps angle calls _ ((call-Keeps angle c).keep s h)
