-- ===== src/ChangeTable/AllOrNothing.antt =====
-- Which methods leave the dictionary as it was when they raise.
use power_sim_data.Prelude.{◌≡◌, refl, ap, ◌∙◌, Bool, true, false, List, arith}
use power_sim_data.Prelude.Result.{Result, Error, ok, raise}
use power_sim_data.Number.{Number}
use power_sim_data.Grid.{Bus, Grid}
use power_sim_data.Ct.{Ct}
use power_sim_data.ChangeTable.Frames.{
  Cached, ChangeTable, Frame, Method, ◌>>=◌, lift, modify, branch_frame, dcline_frame, bus_frame,
  storage_frame, get_transformed_df,
}
use power_sim_data.ChangeTable.PlantTable.{get_plant_df}
use power_sim_data.ChangeTable.Found.{
  plain, cached, failed, computed, get_transformed_df-Found, get_plant_df-state,
}
use power_sim_data.ChangeTable.Lines
use power_sim_data.ChangeTable.Plants
use power_sim_data.ChangeTable.Storages
use power_sim_data.ChangeTable.Calls.{
  Call, add_bus, add_branch, add_dcline, add_plant, add_storage_capacity, remove_branch,
  remove_dcline, remove_plant, remove_bus, scale_demand, scale_branch_capacity,
  scale_dcline_capacity, scale_plant_capacity, scale_plant_cost, scale_plant_pmin, clear,
  add_demand_flexibility, call,
}

module _ {V : Type 0} where
  record Reads {A : Type 0} (m : Method V A) : Type 0 where
    same_ct : (s : ChangeTable V) → (m s).1.ct ≡ s.ct

  record Undone {A : Type 0} (m : Method V A) : Type 0 where
    as_before : (s : ChangeTable V) (e : Error) → (m s).0 ≡ raise e → (m s).1.ct ≡ s.ct

  infixr 5 ◌then◌
  ◌then◌ :
      {A B : Type 0} {m : Method V A} {f : A → Method V B}
      → Reads m
      → ((a : A) → Undone (f a))
      → Undone (m >>= f)
  unfolding ◌>>=◌
  ◌then◌ {A} {B} {m} {f} first next = record { as_before = λ s e. go (m s) s (first.same_ct s) e }
    where
      go :
          (r : Result A × ChangeTable V) (s : ChangeTable V)
          → r.1.ct ≡ s.ct
          → (e : Error) → (((λ (t : ChangeTable V). r) >>= f) s).0 ≡ raise e
          → (((λ (t : ChangeTable V). r) >>= f) s).1.ct ≡ s.ct
      go (ok a, t) s k e h = (next a).as_before t e h ∙ k
      go (raise x, t) s k e h = k

  set : (f : Ct V → Ct V) → Undone (modify f)
  set f = record { as_before = λ s e h. ground arith }

  look : {A : Type 0} {f : ChangeTable V → Result A} → Reads (lift f)
  look = record { same_ct = λ s. refl }

  module _ ⦃num : Number V⦄ (reactance : Grid V → Bus V → Bus V → Result V) where
    frame-Reads :
        {E R : Type 0} (f : Frame V E R)
        → ((c : List (Cached E R)) (s : ChangeTable V) → (f.keep c s).ct ≡ s.ct)
        → Reads (get_transformed_df reactance f)
    frame-Reads f kept = record {
      same_ct = λ s. elim (get_transformed_df-Found reactance f s) [
        | plain a b e ↦ ap (λ r. r.1.ct) e
        | cached old k e ↦ ap (λ r. r.1.ct) e
        | failed r k e ↦ ap (λ r. r.1.ct) e
        | computed u k e ↦ ap (λ r. r.1.ct) e ∙ kept _ s
      ];
    }

    plants : Reads (get_plant_df reactance)
    plants = record { same_ct = λ s. ap (λ t. t.ct) (get_plant_df-state reactance s).1 }

    buses : Reads (get_transformed_df reactance bus_frame)
    unfolding bus_frame
    buses = frame-Reads bus_frame (λ c s. refl)

    branches : Reads (get_transformed_df reactance branch_frame)
    unfolding branch_frame
    branches = frame-Reads branch_frame (λ c s. refl)

    dclines : Reads (get_transformed_df reactance dcline_frame)
    unfolding dcline_frame
    dclines = frame-Reads dcline_frame (λ c s. refl)

    units : Reads (get_transformed_df reactance storage_frame)
    unfolding storage_frame
    units = frame-Reads storage_frame (λ c s. refl)

    -- The methods that change the dictionary in their last step.
    unfoldable pub last_step : Call V → Bool
    last_step (add_bus info) = true
    last_step (add_branch info) = true
    last_step (add_dcline info) = true
    last_step (add_plant info) = true
    last_step (add_storage_capacity info) = true
    last_step (remove_dcline info) = true
    last_step (remove_plant info) = true
    last_step (remove_bus info) = true
    last_step _ = false

    call-Undone :
        (angle : V × V → V × V → V) (c : Call V)
        → last_step c ≡ true
        → Undone (call reactance angle c)
    unfolding last_step call Lines.add_bus Lines.add_branch Lines.add_dcline Lines.add_line
        Lines.remove_dcline Plants.add_plant Plants.remove_plant Plants.remove_bus
        Storages.add_storage_capacity
    call-Undone angle (add_bus info) h = look then λ b. set _
    call-Undone angle (add_branch info) h = buses then λ r. look then λ l. set _
    call-Undone angle (add_dcline info) h = buses then λ r. look then λ l. set _
    call-Undone angle (add_plant info) h = buses then λ r. look then λ l. set _
    call-Undone angle (add_storage_capacity info) h = buses then λ r. look then λ l. set _
    call-Undone angle (remove_dcline info) h = dclines then λ r. look then λ u. set _
    call-Undone angle (remove_plant info) h = plants then λ r. look then λ u. set _
    call-Undone angle (remove_bus info) h = buses then λ b. look then λ u. plants then λ r.
        look then λ v. units then λ q. look then λ w. branches then λ l.
        look then λ x. look then λ y. dclines then λ d. look then λ z. look then λ k. set _
    call-Undone angle (remove_branch info) h = ground arith
    call-Undone angle (scale_demand z i) h = ground arith
    call-Undone angle (scale_branch_capacity z i) h = ground arith
    call-Undone angle (scale_dcline_capacity d) h = ground arith
    call-Undone angle (scale_plant_capacity t z i) h = ground arith
    call-Undone angle (scale_plant_cost t z i) h = ground arith
    call-Undone angle (scale_plant_pmin t z i) h = ground arith
    call-Undone angle (clear order which) h = ground arith
    call-Undone angle (add_demand_flexibility versions order info) h = ground arith

    -- A call of "add_bus", "add_branch", "add_dcline", "add_plant", "add_storage_capacity", "remove_dcline",
    -- "remove_plant" or "remove_bus" that raises leaves the dictionary of changes as it was: all entries
    -- of a call are added or removed, or none.
    pub call-raise :
        (angle : V × V → V × V → V) (c : Call V) (s : ChangeTable V) (e : Error)
        → last_step c ≡ true
        → (call reactance angle c s).0 ≡ raise e
        → (call reactance angle c s).1.ct ≡ s.ct
    call-raise angle c s e last = (call-Undone angle c last).as_before s e
