-- ===== src/ChangeTable/Steps.antt =====
-- A property of the state that no edit of the dictionary can break is kept by the parts of methods that
-- only edit it.
pub mod Tables
use power_sim_data.Prelude.{
  ℕ, String, Bool, true, false, Option, none, some, List, [], ◌∷◌, subset, nat_eq, string_eq, ◌==◌,
  ◌||◌, if◌then◌else◌,
}
use power_sim_data.Prelude.Dict.{Dict, lookup, keys}
use power_sim_data.Prelude.Result.{Result, ok, raise}
use power_sim_data.Number.{Number}
use power_sim_data.Grid.{Bus, Grid}
use power_sim_data.Ct.{Ct, PlantKey, key_eq, Kind, capacity, cost, pmin}
use power_sim_data.TransformGrid.Add.{or_key_error}
use power_sim_data.ChangeTable.Entries.{Entry, LineKind, new_branch, new_dcline}
use power_sim_data.ChangeTable.Frames.{
  ChangeTable, Method, ◌>>=◌, return, lift, modify, branch_frame, dcline_frame, bus_frame,
  storage_frame, get_transformed_df,
}
use power_sim_data.ChangeTable.PlantTable.{get_plant_df}
use power_sim_data.ChangeTable.Keeps.{Keeps, ◌then◌, look, done, set, split, split_option}
use power_sim_data.ChangeTable.Scaling
use power_sim_data.ChangeTable.Scaling.{check_zone}
use power_sim_data.ChangeTable.Lines
use power_sim_data.ChangeTable.Resources
use power_sim_data.ChangeTable.Plants
use power_sim_data.ChangeTable.Storages
use power_sim_data.ChangeTable.Clear
use power_sim_data.ChangeTable.Clear.{SingleKey}
use power_sim_data.ChangeTable.Flexibility
use power_sim_data.ChangeTable.Flexibility.{FlexEntry, whole, negative, word}
use power_sim_data.ChangeTable.Calls.{
  Call, add_bus, add_branch, add_dcline, add_plant, add_storage_capacity, remove_branch,
  remove_dcline, remove_plant, remove_bus, scale_demand, scale_branch_capacity,
  scale_dcline_capacity, scale_plant_capacity, scale_plant_cost, scale_plant_pmin, clear,
  add_demand_flexibility, call, after,
}

module _ {V : Type 0} (P : ChangeTable V → Type 0)
    (edit : (ct : Ct V) (s : ChangeTable V) → P s → P (record s { ct = ct })) where
  pub set_zones-Keeps :
      (put : ℕ → V → Ct V → Ct V) (d : Dict String V) → Keeps P (Scaling.set_zones put d)
  unfolding Scaling.set_zones
  set_zones-Keeps put [] = done
  set_zones-Keeps put ((z, v) ∷ d) = look then λ i. set P edit _ then λ u. set_zones-Keeps put d

  pub scale_demand_by_id-Keeps : (d : Option (Dict ℕ V)) → Keeps P (Scaling.scale_demand_by_id d)
  unfolding Scaling.scale_demand_by_id
  scale_demand_by_id-Keeps none = done
  scale_demand_by_id-Keeps (some d) = record {
    keep = λ s h. split P _ _ _ (edit _ s h) (edit _ s h);
  }

  pub scale_branches_by_id-Keeps :
      (present : List ℕ) (d : Option (Dict ℕ V)) → Keeps P (Scaling.scale_branches_by_id present d)
  unfolding Scaling.scale_branches_by_id
  scale_branches_by_id-Keeps present none = done
  scale_branches_by_id-Keeps present (some d) = record {
    keep = λ s h. split P _ _ _ (edit _ s h) (edit _ s h);
  }

  pub scale_demand-Keeps :
      (z : Option (Dict String V)) (i : Option (Dict ℕ V)) → Keeps P (Scaling.scale_demand z i)
  unfolding Scaling.scale_demand
  scale_demand-Keeps none i = record {
    keep =
        λ s h. split P (Scaling.truthy i) _ _ ((scale_demand_by_id-Keeps i).keep _ (edit _ s h)) h;
  }
  scale_demand-Keeps (some d) i = record {
    keep = λ s h.
        split P (Scaling.truthy (some d) || Scaling.truthy i) _ _
          (split P (check_zone s.grid (keys d)) _ _
            ((set_zones-Keeps _ d then λ u. scale_demand_by_id-Keeps i).keep _ (edit _ s h))
            (edit _ s h))
          h;
  }

  pub scale_branches-Keeps :
      (present : List ℕ) (z : Option (Dict String V)) (i : Option (Dict ℕ V))
      → Keeps P (Scaling.scale_branches present z i)
  unfolding Scaling.scale_branches
  scale_branches-Keeps present none i = record {
    keep = λ s h.
        split P (Scaling.truthy i) _ _ ((scale_branches_by_id-Keeps present i).keep _ (edit _ s h))
          h;
  }
  scale_branches-Keeps present (some d) i = record {
    keep = λ s h.
        split P (Scaling.truthy (some d) || Scaling.truthy i) _ _
          (split P (check_zone s.grid (keys d)) _ _
            ((set P edit _ then λ u.
                set_zones-Keeps _ d then λ v. scale_branches_by_id-Keeps present i).keep
              _ (edit _ s h))
            (edit _ s h))
          h;
  }

  pub scale_dclines-Keeps :
      (present : List ℕ) (d : Dict ℕ V) → Keeps P (Scaling.scale_dclines present d)
  unfolding Scaling.scale_dclines
  scale_dclines-Keeps present d = go (subset (keys d) present) _ _
    where
      go : (b : Bool) (f g : Ct V → Ct V) → Keeps P (if b then modify f else modify g)
      go true f g = set P edit f
      go false f g = set P edit g

  pub delete_keys-Keeps :
      (order : List SingleKey) (which : List String) → Keeps P (Clear.delete_keys order which)
  unfolding Clear.delete_keys
  delete_keys-Keeps [] which = done
  delete_keys-Keeps (k ∷ order) which =
      let rest = delete_keys-Keeps order which in
      record {
        keep = λ s h. split P _ _ _ (delete (Clear.delete_key k s.ct) s rest h) (rest.keep s h);
      }
    where
      delete :
          (r : Result (Ct V)) (s : ChangeTable V)
          → Keeps P (Clear.delete_keys order which)
          → P s
          → let next : Result {0} (Unit {0}) × ChangeTable V = elim r [
            | raise e ↦ (raise e, s)
            | ok ct ↦ Clear.delete_keys order which (record s { ct = ct })
          ] in
            P next.1
      delete (ok ct) s rest h = rest.keep _ (edit ct s h)
      delete (raise e) s rest h = h

  pub clear-Keeps :
      (order : List SingleKey) (which : Option (List String)) → Keeps P (Clear.clear order which)
  unfolding Clear.clear
  clear-Keeps order none = set P edit _
  clear-Keeps order (some which) = record {
    keep = λ s h. split P _ _ _ ((delete_keys-Keeps order which then λ u. set P edit _).keep s h) h;
  }

  pub set_duration-Keeps : (k : String) (v : FlexEntry) → Keeps P (Flexibility.set_duration k v)
  unfolding Flexibility.set_duration
  set_duration-Keeps k (whole n) = record { keep = λ s h. split P _ _ _ (edit _ s h) h }
  set_duration-Keeps k (negative n) = record { keep = λ s h. h }
  set_duration-Keeps k (word w) = record { keep = λ s h. h }

  pub set_profile-Keeps :
      (possible : List String) (k : String) (v : FlexEntry)
      → Keeps P (Flexibility.set_profile possible k v)
  unfolding Flexibility.set_profile
  set_profile-Keeps possible k (whole n) = record { keep = λ s h. edit _ s h }
  set_profile-Keeps possible k (negative n) = record { keep = λ s h. edit _ s h }
  set_profile-Keeps possible k (word w) = record {
    keep = λ s h. split P _ _ _ (edit _ s h) (edit _ s h);
  }

  pub set_all-Keeps :
      (versions : String → List String) (order : List String) (info : Dict String FlexEntry)
      → Keeps P (Flexibility.set_all versions order info)
  unfolding Flexibility.set_all
  set_all-Keeps versions [] info = done
  set_all-Keeps versions (k ∷ order) info = look then λ v.
      one (k == "demand_flexibility_duration") v then λ u. set_all-Keeps versions order info
    where
      one :
          (b : Bool) (v : FlexEntry)
          → Keeps P
              (if b then Flexibility.set_duration k v else Flexibility.set_profile (versions k) k v)
      one true v = set_duration-Keeps k v
      one false v = set_profile-Keeps (versions k) k v

  pub add_demand_flexibility-Keeps :
      (versions : String → List String) (order : List String) (info : Dict String FlexEntry)
      → Keeps P (Flexibility.add_demand_flexibility versions order info)
  unfolding Flexibility.add_demand_flexibility
  add_demand_flexibility-Keeps versions order info =
      look then λ u. set P edit _ then λ v. set_all-Keeps versions order info

  pub put_zones-Keeps :
      (t : String) (k : PlantKey) (d : Dict String V) → Keeps P (Resources.put_zones t k d)
  unfolding Resources.put_zones
  put_zones-Keeps t k [] = done
  put_zones-Keeps t k ((z, v) ∷ d) =
      let rest = put_zones-Keeps t k d in
      record { keep = λ s h. go (Resources.get_plant_id s.grid z t) rest s h }
    where
      go :
          (l : List ℕ)
          → Keeps P (Resources.put_zones t k d)
          → (s : ChangeTable V) → P s
          → let next : Result {0} (Unit {0}) × ChangeTable V = elim l [
            | [] ↦ Resources.put_zones t k d s
            | i ∷ m ↦
                (lift (λ s. or_key_error (lookup z s.grid.zone2id)) >>= λ zone.
                modify (Resources.put_zone k zone v) >>= λ _. Resources.put_zones t k d)
                  s
          ] in
            P next.1
      go [] rest = rest.keep
      go (i ∷ l) rest = (look then λ zone. set P edit _ then λ u. rest).keep

  pub pop_and_raise-Keeps : (k : PlantKey) → Keeps P (Resources.pop_and_raise k)
  unfolding Resources.pop_and_raise
  pop_and_raise-Keeps k = record {
    keep = λ s h. split_option P (lookup k s.ct.plant) _ _ h (λ d. edit _ s h);
  }

  module _ ⦃num : Number V⦄ where
    pub add_bus-Keeps : (info : List (Entry V)) → Keeps P (Lines.add_bus info)
    unfolding Lines.add_bus
    add_bus-Keeps info = look then λ b. set P edit _

    pub add_zone_entries-Keeps :
        (t : String) (k : PlantKey) (d : Option (Dict String V))
        → Keeps P (Resources.add_zone_entries t k d)
    unfolding Resources.add_zone_entries
    add_zone_entries-Keeps t k none = done
    add_zone_entries-Keeps t k (some d) = record {
      keep = λ s h.
          split P (check_zone s.grid (keys d)) _ _
            (split P _ _ _
              ((set P edit _ then λ u. put_zones-Keeps t k d then λ v. set P edit _).keep s h) h)
            (edit _ s h);
    }

    pub add_id_entries-Keeps :
        (present : List ℕ) (k : PlantKey) (d : Dict ℕ V)
        → Keeps P (Resources.add_id_entries present k d)
    unfolding Resources.add_id_entries
    add_id_entries-Keeps present k d = record {
      keep = λ s h.
          split P (subset (keys d) present) _ _
            (split P _ _ _ (split_option P (lookup k s.ct.plant) _ _ h (λ c. edit _ s h)) h)
            ((pop_and_raise-Keeps k).keep s h);
    }
