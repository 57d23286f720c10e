-- ===== src/ChangeTable/Looks.antt =====
-- What a method of powersimdata/input/change_table.py and of input/changes/ sees when it looks at one
-- transformed table after the other.
use power_sim_data.Prelude.{◌≡◌, refl, sym, ap, ◌∙◌, Bool, true, false, List, nat_eq, arith}
use power_sim_data.Prelude.Result.{Result, ok, raise, require, value_error}
use power_sim_data.Number.{Number}
use power_sim_data.Grid.{Branch, Bus, StorageGen, Grid}
use power_sim_data.Ct.{NewBus, NewLine, NewStorage}
use power_sim_data.ChangeTable.Frames.{
  Cached, CachedPlants, ChangeTable, Frame, Method, ◌>>=◌, lift, branch_frame, dcline_frame,
  bus_frame, storage_frame, get_transformed_df,
}
use power_sim_data.ChangeTable.PlantTable.{get_plant_df}
use power_sim_data.ChangeTable.Found.{plain, cached, failed, computed, get_transformed_df-Found}

module _ {V : Type 0} where
  -- The next step of a method that returned.
  pub and_then :
      {A B C : Type 0} (m : Method V A) (f : A → Method V B) (s : ChangeTable V) {b : B}
      {s' : ChangeTable V}
      → (m >>= f) s ≡ (ok b, s')
      → ((a : A) (t : ChangeTable V) → m s ≡ (ok a, t) → f a t ≡ (ok b, s') → C)
      → C
  unfolding ◌>>=◌
  and_then {A} {B} {C} m f s {b} {s'} h k = go (m s) refl h k
    where
      go :
          (r : Result A × ChangeTable V)
          → m s ≡ r
          → ((λ (t : ChangeTable V). r) >>= f) s ≡ (ok b, s')
          → ((a : A) (t : ChangeTable V) → m s ≡ (ok a, t) → f a t ≡ (ok b, s') → C)
          → C
      go (ok a, t) e h k = k a t e h
      go (raise x, t) e h k = ground arith

  pub and_check :
      {B C : Type 0} (x : ChangeTable V → Bool) (f : Unit {0} → Method V B) (s : ChangeTable V)
      {b : B} {s' : ChangeTable V}
      → (lift (λ t. require (x t) value_error) >>= f) s ≡ (ok b, s')
      → (x s ≡ true → f tt s ≡ (ok b, s') → C)
      → C
  unfolding ◌>>=◌
  and_check {B} {C} x f s {b} {s'} h k = go (x s) h k
    where
      go :
          (y : Bool)
          → (lift (λ t. require y value_error) >>= f) s ≡ (ok b, s')
          → (y ≡ true → f tt s ≡ (ok b, s') → C)
          → C
      go true h k = k refl h
      go false h k = ground arith

  module _ ⦃num : Number V⦄ (reactance : Grid V → Bus V → Bus V → Result V) where
    open num use {lt}

    frame-state :
        {E R : Type 0} (f : Frame V E R) (s : ChangeTable V)
        → f.keep (f.cache s) s ≡ s
        → (c : List (Cached E R)) × ((get_transformed_df reactance f s).1 ≡ f.keep c s)
    frame-state f s same = elim (get_transformed_df-Found reactance f s) [
      | plain a b e ↦ (f.cache s, ap (λ r. r.1) e ∙ sym same)
      | cached old k e ↦ (f.cache s, ap (λ r. r.1) e ∙ sym same)
      | failed r k e ↦ (f.cache s, ap (λ r. r.1) e ∙ sym same)
      | computed u k e ↦ (_, ap (λ r. r.1) e)
    ]

    pub bus-state :
        (s : ChangeTable V)
        → (c : _) × ((get_transformed_df reactance bus_frame s).1 ≡ record s { bus_cache = c })
    unfolding bus_frame
    bus-state s = frame-state bus_frame s refl

    pub storage-state :
        (s : ChangeTable V)
        → (c : _) × ((get_transformed_df reactance storage_frame s).1
            ≡ record s { storage_cache = c })
    unfolding storage_frame
    storage-state s = frame-state storage_frame s refl

    pub branch-state :
        (s : ChangeTable V)
        → (c : _) × ((get_transformed_df reactance branch_frame s).1
            ≡ record s { branch_cache = c })
    unfolding branch_frame
    branch-state s = frame-state branch_frame s refl

    -- A look at one table changes nothing for the next one.
    pub plants_after :
        (s t : ChangeTable V) (b : List (Cached (NewBus V) (Bus V)))
        → t ≡ record s { bus_cache = b }
        → (get_plant_df reactance s).0 ≡ (get_plant_df reactance t).0
    unfolding get_plant_df
    plants_after s t b e =
        let same : (get_plant_df reactance s).0
            ≡ (get_plant_df reactance (record s { bus_cache = b })).0 =
          ground arith in
        same ∙ ap (λ t. (get_plant_df reactance t).0) (sym e)

    pub units_after :
        (s t : ChangeTable V) (b : List (Cached (NewBus V) (Bus V))) (p : List (CachedPlants V))
        → t ≡ record s { bus_cache = b; plant_cache = p }
        → (get_transformed_df reactance storage_frame s).0
          ≡ (get_transformed_df reactance storage_frame t).0
    unfolding get_transformed_df storage_frame
    units_after s t b p e =
        let same : (get_transformed_df reactance storage_frame s).0
            ≡ (get_transformed_df reactance storage_frame
                (record s { bus_cache = b; plant_cache = p })).0 =
          ground arith in
        same ∙ ap (λ t. (get_transformed_df reactance storage_frame t).0) (sym e)

    pub branches_after :
        (s t : ChangeTable V) (b : List (Cached (NewBus V) (Bus V))) (p : List (CachedPlants V))
        (u : List (Cached (NewStorage V) (StorageGen V)))
        → t ≡ record s { bus_cache = b; plant_cache = p; storage_cache = u }
        → (get_transformed_df reactance branch_frame s).0
          ≡ (get_transformed_df reactance branch_frame t).0
    unfolding get_transformed_df branch_frame
    branches_after s t b p u e =
        let same : (get_transformed_df reactance branch_frame s).0
            ≡ (get_transformed_df reactance branch_frame
                (record s { bus_cache = b; plant_cache = p; storage_cache = u })).0 =
          ground arith in
        same ∙ ap (λ t. (get_transformed_df reactance branch_frame t).0) (sym e)

    pub dclines_after :
        (s t : ChangeTable V) (b : List (Cached (NewBus V) (Bus V))) (p : List (CachedPlants V))
        (u : List (Cached (NewStorage V) (StorageGen V))) (l : List (Cached (NewLine V) (Branch V)))
        → t ≡ record s { bus_cache = b; plant_cache = p; storage_cache = u; branch_cache = l }
        → (get_transformed_df reactance dcline_frame s).0
          ≡ (get_transformed_df reactance dcline_frame t).0
    unfolding get_transformed_df dcline_frame
    dclines_after s t b p u l e =
        let same : (get_transformed_df reactance dcline_frame s).0
            ≡ (get_transformed_df reactance dcline_frame (record s {
              bus_cache = b;
              plant_cache = p;
              storage_cache = u;
              branch_cache = l;
            })).0 =
          ground arith in
        same ∙ ap (λ t. (get_transformed_df reactance dcline_frame t).0) (sym e)

    pub dclines-ct : (s : ChangeTable V) → (get_transformed_df reactance dcline_frame s).1.ct ≡ s.ct
    unfolding get_transformed_df dcline_frame
    dclines-ct s = ground arith
