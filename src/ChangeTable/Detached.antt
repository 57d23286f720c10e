-- ===== src/ChangeTable/Detached.antt =====
-- `remove_bus` of powersimdata/input/changes/bus.py removes buses that nothing is attached to.
use power_sim_data.Prelude.{
  ℕ, ◌≡◌, refl, sym, ap, ◌∙◌, true, false, not, ◌&&◌, List, [], ◌∷◌, map, nat_eq, ==_iff, select,
  contains, subset, All, arith,
}
use power_sim_data.Prelude.Result.{Result, ok}
use power_sim_data.Number.{Number, of_ℕ}
use power_sim_data.Grid.{Plant, Branch, Dcline, Bus, StorageGen, Grid}
use power_sim_data.Grid.Rows.{ids}
use power_sim_data.Ct.{NewLine, NewStorage}
use power_sim_data.ChangeTable.Frames.{
  Cached, CachedPlants, ChangeTable, branch_frame, dcline_frame, bus_frame, storage_frame,
  get_transformed_df,
}
use power_sim_data.ChangeTable.PlantTable.{get_plant_df}
use power_sim_data.ChangeTable.Found.{get_plant_df-state}
use power_sim_data.ChangeTable.Plants.{disjoint, drop_buses, remove_bus}
use power_sim_data.ChangeTable.Looks.{
  and_then, and_check, bus-state, storage-state, branch-state, plants_after, units_after,
  branches_after, dclines_after, dclines-ct,
}

disjoint-cons :
    (info l : List ℕ) (x : ℕ) → disjoint info (x ∷ l) ≡ (not (contains info x) && disjoint info l)
unfolding disjoint
disjoint-cons [] l x = refl
disjoint-cons (i ∷ info) l x = ground (arith, disjoint-cons info l x, ==_iff x i, ==_iff i x)

disjoint-All :
    {A : Type 0} (f : A → ℕ) (info : List ℕ) (rows : List A)
    → disjoint info (map f rows) ≡ true
    → All (λ r. contains info (f r) ≡ false) rows
disjoint-All f info [] h = tt
disjoint-All f info (r ∷ rows) h =
    let both : (not (contains info (f r)) && disjoint info (map f rows)) ≡ true =
      sym (disjoint-cons info (map f rows) (f r)) ∙ h in
    (ground (arith, both), disjoint-All f info rows (ground (arith, both)))

module _ {V : Type 0} ⦃num : Number V⦄ (reactance : Grid V → Bus V → Bus V → Result V) where
  open num use {lt}

  -- What `remove_bus` has found out about the buses: they are there, no plant that can run and no
  -- storage unit is at one of them, and no line ends at one.
  pub record Unused (info : List ℕ) (s : ChangeTable V) : Type 0 where
    pub buses : List (Bus V)
    pub plants : List (Plant V)
    pub units : List (StorageGen V)
    pub branches : List (Branch V)
    pub dclines : List (Dcline V)
    pub bus_table : (get_transformed_df reactance bus_frame s).0 ≡ ok buses
    pub plant_table : (get_plant_df reactance s).0 ≡ ok plants
    pub storage_table : (get_transformed_df reactance storage_frame s).0 ≡ ok units
    pub branch_table : (get_transformed_df reactance branch_frame s).0 ≡ ok branches
    pub dcline_table : (get_transformed_df reactance dcline_frame s).0 ≡ ok dclines
    pub there : subset info (ids (λ r. r.bus_id) buses) ≡ true
    pub no_plant :
        All (λ r. contains info r.bus_id ≡ false) (select (λ r. lt (of_ℕ 0) r.pmax) plants)
    pub no_unit : All (λ r. contains info r.bus_id ≡ false) units
    pub no_branch :
        All (λ r. contains info r.from_bus_id ≡ false) branches
        × All (λ r. contains info r.to_bus_id ≡ false) branches
    pub no_dcline :
        All (λ r. contains info r.from_bus_id ≡ false) dclines
        × All (λ r. contains info r.to_bus_id ≡ false) dclines

  abbrev with_plants : List (CachedPlants V) → ChangeTable V → ChangeTable V
  with_plants p t = record t { plant_cache = p }

  abbrev with_units : List (Cached (NewStorage V) (StorageGen V)) → ChangeTable V → ChangeTable V
  with_units u t = record t { storage_cache = u }

  abbrev with_branches : List (Cached (NewLine V) (Branch V)) → ChangeTable V → ChangeTable V
  with_branches q t = record t { branch_cache = q }

  -- If `remove_bus` succeeds, its checks have passed on the tables that `_get_transformed_df` and `_get_plant_df`
  -- return at that moment, which for plants may be out of date; and the change table differs by the
  -- buses in "remove_bus" alone.
  pub remove_bus-Unused :
      (info : List ℕ) (s s' : ChangeTable V)
      → remove_bus reactance info s ≡ (ok tt, s')
      → Unused info s × (s'.ct ≡ drop_buses info s.ct)
  unfolding remove_bus
  remove_bus-Unused info s s' h =
      and_then (get_transformed_df reactance bus_frame) _ s h λ buses t₁ e₁ h₁.
        and_check _ _ t₁ h₁ λ there h₂. and_then (get_plant_df reactance) _ t₁ h₂ λ plants t₂ e₂ h₃.
          and_check _ _ t₂ h₃ λ no_plant h₄.
            and_then (get_transformed_df reactance storage_frame) _ t₂ h₄ λ units t₃ e₃ h₅.
              and_check _ _ t₃ h₅ λ no_unit h₆.
                and_then (get_transformed_df reactance branch_frame) _ t₃ h₆ λ branches t₄ e₄ h₇.
                  and_check _ _ t₄ h₇ λ no_from h₈. and_check _ _ t₄ h₈ λ no_to h₉.
                    and_then (get_transformed_df reactance dcline_frame) _ t₄ h₉ λ dclines t₅ e₅ k.
                      and_check _ _ t₅ k λ no_dc_from l. and_check _ _ t₅ l λ no_dc_to last.
                        let (b, same_b) = bus-state reactance s in
                        let (p, same_p) = get_plant_df-state reactance t₁ in
                        let (u, same_u) = storage-state reactance t₂ in
                        let (q, same_q) = branch-state reactance t₃ in
                        let s₁ : t₁ ≡ record s { bus_cache = b } =
                          sym (ap (λ r. r.1) e₁) ∙ same_b in
                        let s₂ : t₂ ≡ record s { bus_cache = b; plant_cache = p } =
                          sym (ap (λ r. r.1) e₂) ∙ same_p ∙ ap (with_plants p) s₁ in
                        let s₃ : t₃
                            ≡ record s { bus_cache = b; plant_cache = p; storage_cache = u } =
                          sym (ap (λ r. r.1) e₃) ∙ same_u ∙ ap (with_units u) s₂ in
                        let s₄ : t₄ ≡ record s {
                          bus_cache = b;
                          plant_cache = p;
                          storage_cache = u;
                          branch_cache = q;
                        } =
                          sym (ap (λ r. r.1) e₄) ∙ same_q ∙ ap (with_branches q) s₃ in
                        let ct₅ : t₅.ct ≡ s.ct =
                          sym (ap (λ r. r.1.ct) e₅) ∙ dclines-ct reactance t₄ ∙ ap (λ t. t.ct) s₄ in
                        (
                          record {
                            buses = buses;
                            plants = plants;
                            units = units;
                            branches = branches;
                            dclines = dclines;
                            bus_table = ap (λ r. r.0) e₁;
                            plant_table = plants_after reactance s t₁ b s₁ ∙ ap (λ r. r.0) e₂;
                            storage_table = units_after reactance s t₂ b p s₂ ∙ ap (λ r. r.0) e₃;
                            branch_table =
                                branches_after reactance s t₃ b p u s₃ ∙ ap (λ r. r.0) e₄;
                            dcline_table =
                                dclines_after reactance s t₄ b p u q s₄ ∙ ap (λ r. r.0) e₅;
                            there = there;
                            no_plant = disjoint-All _ info _ no_plant;
                            no_unit = disjoint-All _ info units no_unit;
                            no_branch = (
                              disjoint-All _ info branches no_from,
                              disjoint-All _ info branches no_to,
                            );
                            no_dcline = (
                              disjoint-All _ info dclines no_dc_from,
                              disjoint-All _ info dclines no_dc_to,
                            );
                          },
                          sym (ap (λ r. r.1.ct) last) ∙ ap (drop_buses info) ct₅,
                        )
