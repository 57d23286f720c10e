-- ===== src/TransformGrid/Removal.antt =====
-- What `get_grid` removes, and what it never removes.
use power_sim_data.Prelude.{
  ℕ, ◌≡◌, refl, sym, ◌∙◌, ◌&&◌, true, false, Option, List, [], ◌∷◌, nat_eq, contains, arith,
  Bool-cases, inl, inr,
}
use power_sim_data.Prelude.Result.{Result, ok, each}
use power_sim_data.Number.{Number}
use power_sim_data.Grid.{Bus, Grid}
use power_sim_data.Grid.Rows.{ids, contains-without}
use power_sim_data.Ct.{Ct, empty_ct}
use power_sim_data.TransformGrid.Add.{entries}
use power_sim_data.TransformGrid.Scale.{remove_branch, remove_bus}
use power_sim_data.TransformGrid.Apply.{
  is_empty, scale_resource_by_zone, scale_resource_by_id, apply_change_table, get_grid,
}
use power_sim_data.TransformGrid.Stages.{apply-Stages}
use power_sim_data.TransformGrid.Scale
use power_sim_data.TransformGrid.Add
use power_sim_data.TransformGrid.Apply

each-same {ℓ κ} :
    {A : Type ℓ} {S : Type κ} (step : A → S → Result S) (l : List A) (s : S)
    → ((a : A) → step a s ≡ ok s)
    → each step l s ≡ ok s
unfolding each
each-same step [] s h = refl
each-same step (a ∷ l) s h = rw (h a) (each-same step l s h)

is_empty-eq : {V : Type 0} (ct : Ct V) → is_empty ct ≡ true → ct ≡ empty_ct
unfolding is_empty
is_empty-eq ct h = ground arith

-- The steps that `apply_change_table` composes.
steps : Unit {0}
unfolding apply_change_table Scale.scale_gen_by_zone Scale.scale_gencost_by_zone
    Scale.scale_gen_pmin_by_zone Scale.scale_gen_by_id Scale.scale_gencost_by_id
    Scale.scale_gen_pmin_by_id Scale.scale_branch_by_zone Scale.scale_branch_by_id
    Scale.scale_dcline Scale.remove_branch Scale.remove_bus Add.add_bus Add.add_branch
    Add.add_dcline Add.add_gen Apply.add_storage
steps = tt

module _ {V : Type 0} ⦃num : Number V⦄ (reactance : Grid V → Bus V → Bus V → Result V) where
  apply-empty : (g : Grid V) → apply_change_table reactance empty_ct g ≡ ok g
  unfolding steps
  apply-empty g =
      let zones =
        each-same (scale_resource_by_zone empty_ct) g.immutables.all_resources g (λ t. refl) in
      let by_ids =
        each-same (scale_resource_by_id empty_ct) g.immutables.all_resources g (λ t. refl) in
      rw (zones, by_ids)

  apply-remove_plant :
      (ct : Ct V) (plants dclines : Option (List ℕ)) (g : Grid V)
      → apply_change_table reactance
          (record ct { remove_plant = plants; remove_dcline = dclines })
          g
        ≡ apply_change_table reactance ct g
  unfolding steps
  apply-remove_plant ct plants dclines g = refl

  apply-is_empty :
      (ct : Ct V) (g : Grid V) → is_empty ct ≡ true → apply_change_table reactance ct g ≡ ok g
  apply-is_empty ct g h = rw (is_empty-eq ct h) (apply-empty g)

  pub get_grid-eq-apply :
      (ct : Ct V) (g : Grid V) → get_grid reactance ct g ≡ apply_change_table reactance ct g
  unfolding get_grid
  get_grid-eq-apply ct g = elim (Bool-cases (is_empty ct)) [
    | inl e ↦ rw e (sym (apply-is_empty ct g e))
    | inr e ↦ rw e
  ]

  -- Plants and DC lines to remove change nothing in the transformed grid, not even if nothing else is
  -- to be changed: `remove_plant` and `remove_dcline` may hold anything.
  pub get_grid-remove_plant :
      (ct : Ct V) (plants dclines : Option (List ℕ)) (g : Grid V)
      → get_grid reactance (record ct { remove_plant = plants; remove_dcline = dclines }) g
        ≡ get_grid reactance ct g
  get_grid-remove_plant ct plants dclines g =
      get_grid-eq-apply _ g ∙ apply-remove_plant ct plants dclines g ∙ sym (get_grid-eq-apply ct g)

  -- In the transformed grid no branch and no bus is left that was to be removed, whichever of "remove_branch"
  -- and "remove_bus" the change table has.
  pub get_grid-removed :
      (ct : Ct V) (i j : ℕ) (g g' : Grid V)
      → get_grid reactance ct g ≡ ok g'
      → ((contains (entries ct.remove_branch) i && contains (ids (λ r. r.branch_id) g'.branch) i)
          ≡ false)
        × ((contains (entries ct.remove_bus) j && contains (ids (λ r. r.bus_id) g'.bus) j) ≡ false)
  unfolding remove_branch remove_bus
  get_grid-removed ct i j g g' h =
      let s = apply-Stages reactance ct g g' (sym (get_grid-eq-apply ct g) ∙ h) in
      let (u, last) : (u : Grid V) × (remove_bus ct (remove_branch ct u) ≡ g') =
        (s.dcline_ids, s.removed) in
      let branches = contains-without (λ r. r.branch_id) (entries ct.remove_branch) u.branch i in
      let buses = contains-without (λ r. r.bus_id) (entries ct.remove_bus) u.bus j in
      (ground (arith, branches, last), ground (arith, buses, last))
