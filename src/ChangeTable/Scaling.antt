-- ===== src/ChangeTable/Scaling.antt =====
-- `_check_zone`, `scale_branch_capacity`, `scale_dcline_capacity` and `scale_demand` of
-- powersimdata/input/change_table.py.
use power_sim_data.Prelude.{
  ℕ, String, Bool, true, false, ◌||◌, Option, none, some, List, [], ◌∷◌, map, nat_eq, string_eq,
  subset, if◌then◌else◌,
}
use power_sim_data.Prelude.Dict.{Dict, keys, lookup, insert}
use power_sim_data.Prelude.Result.{Result, ok}
use power_sim_data.Number.{Number}
use power_sim_data.Grid.{Bus, Grid}
use power_sim_data.Grid.Rows.{ids}
use power_sim_data.Ct.{Scaling, no_scaling, Ct}
use power_sim_data.TransformGrid.Add.{or_key_error}
use power_sim_data.ChangeTable.Frames.{
  Method, ◌>>=◌, return, lift, modify, branch_frame, dcline_frame, get_transformed_df,
}

-- `bool(d)`, of a dictionary or None.
abbrev pub truthy : {A : Type 0} → Option (List A) → Bool
truthy (some (x ∷ l)) = true
truthy _ = false

abbrev or_new : {A : Type 0} → A → Option A → A
or_new a none = a
or_new a (some b) = b

-- `_check_zone`: whether all zones are in the column "zone_name" of the plant table.
unfoldable pub check_zone : {V : Type 0} → Grid V → List String → Bool
check_zone g zones = subset zones (map (λ r. r.zone_name) g.plant)

module _ {V : Type 0} where
  -- `for i in d.keys(): … [i] = d[i]`
  unfoldable pub set_ids : (ℕ → V → Ct V → Ct V) → Dict ℕ V → Ct V → Ct V
  set_ids put [] ct = ct
  set_ids put ((i, v) ∷ d) ct = set_ids put d (put i v ct)

  -- `for z in zone_name.keys(): … [self.grid.zone2id[z]] = zone_name[z]`
  unfoldable pub set_zones : (ℕ → V → Ct V → Ct V) → Dict String V → Method V Unit
  unfolding lookup
  set_zones put [] = return tt
  set_zones put ((z, v) ∷ d) = do
    i ← lift (λ s. or_key_error (lookup z s.grid.zone2id))
    _ ← modify (put i v)
    set_zones put d

  -- What `self.ct["branch"]` is, the key set if it is missing; and the dictionaries under it.
  abbrev branch_scaling : Ct V → Scaling V
  branch_scaling ct = or_new no_scaling ct.branch

  abbrev with_branch : Ct V → Ct V
  with_branch ct = record ct { branch = some (branch_scaling ct) }

  unfoldable pub put_branch_zone : ℕ → V → Ct V → Ct V
  unfolding insert
  put_branch_zone i v ct =
      let s = branch_scaling ct in
      record ct { branch = some (record s { zone_id = some (insert i v (or_new [] s.zone_id)) }) }

  unfoldable pub put_branch_id : ℕ → V → Ct V → Ct V
  unfolding insert
  put_branch_id i v ct =
      let s = branch_scaling ct in
      record ct { branch = some (record s { by_id = some (insert i v (or_new [] s.by_id)) }) }

  unfoldable pub with_branch_zones : Ct V → Ct V
  with_branch_zones ct =
      let s = branch_scaling ct in
      record ct { branch = some (record s { zone_id = some (or_new [] s.zone_id) }) }

  unfoldable pub with_branch_ids : Ct V → Ct V
  with_branch_ids ct =
      let s = branch_scaling ct in
      record ct { branch = some (record s { by_id = some (or_new [] s.by_id) }) }

  -- `self.ct.pop("branch")`
  abbrev pop_branch : Ct V → Ct V
  pop_branch ct = record ct { branch = none }

  unfoldable pub put_dcline : ℕ → V → Ct V → Ct V
  unfolding insert
  put_dcline i v ct = record ct {
    dcline = some (some (insert i v (or_new [] (or_new none ct.dcline))));
  }

  abbrev with_dcline_ids : Ct V → Ct V
  with_dcline_ids ct = record ct { dcline = some (some (or_new [] (or_new none ct.dcline))) }

  unfoldable pub put_demand : ℕ → V → Ct V → Ct V
  unfolding insert
  put_demand i v ct = record ct { demand = some (insert i v (or_new [] ct.demand)) }

  -- The part of `scale_demand` for `zone_id`.
  unfoldable pub scale_demand_by_id : Option (Dict ℕ V) → Method V Unit
  unfolding set_ids put_demand
  scale_demand_by_id none s = return tt s
  scale_demand_by_id (some d) s =
      if subset (keys d) (keys s.grid.id2zone)
      then modify (set_ids put_demand d) s
      else modify (λ ct. record ct { demand = none }) s

  unfoldable pub scale_demand : Option (Dict String V) → Option (Dict ℕ V) → Method V Unit
  unfolding check_zone set_zones put_demand scale_demand_by_id
  scale_demand zone_name zone_id s =
      let s₁ = record s { ct = record s.ct { demand = some (or_new [] s.ct.demand) } } in
      if truthy zone_name || truthy zone_id
      then (elim zone_name [
        | none ↦ scale_demand_by_id zone_id s₁
        | some d ↦
            if check_zone s.grid (keys d)
            then (set_zones put_demand d >>= λ _. scale_demand_by_id zone_id) s₁
            else modify (λ ct. record ct { demand = none }) s₁
      ])
      else (ok tt, s)

  -- The part of `scale_branch_capacity` for `branch_id`.
  unfoldable pub scale_branches_by_id : List ℕ → Option (Dict ℕ V) → Method V Unit
  unfolding set_ids put_branch_id with_branch_ids
  scale_branches_by_id present none s = return tt s
  scale_branches_by_id present (some d) s =
      if subset (keys d) present
      then modify (λ ct. set_ids put_branch_id d (with_branch_ids ct)) s
      else modify pop_branch s

  unfoldable pub scale_branches :
      List ℕ → Option (Dict String V) → Option (Dict ℕ V) → Method V Unit
  unfolding check_zone set_zones put_branch_zone with_branch_zones scale_branches_by_id
  scale_branches present zone_name branch_id s =
      let s₁ = record s { ct = with_branch s.ct } in
      if truthy zone_name || truthy branch_id
      then (elim zone_name [
        | none ↦ scale_branches_by_id present branch_id s₁
        | some d ↦
            if check_zone s.grid (keys d)
            then (modify with_branch_zones >>= λ _.
                  set_zones put_branch_zone d >>= λ _. scale_branches_by_id present branch_id)
                s₁
            else modify pop_branch s₁
      ])
      else (ok tt, s)

  unfoldable pub scale_dclines : List ℕ → Dict ℕ V → Method V Unit
  unfolding set_ids put_dcline
  scale_dclines present dcline_id =
      if subset (keys dcline_id) present
      then modify (λ ct. set_ids put_dcline dcline_id (with_dcline_ids ct))
      else modify (λ ct. record ct { dcline = none })

  module _ ⦃num : Number V⦄ (reactance : Grid V → Bus V → Bus V → Result V) where
    unfoldable pub scale_branch_capacity :
        Option (Dict String V) → Option (Dict ℕ V) → Method V Unit
    unfolding scale_branches get_transformed_df branch_frame
    scale_branch_capacity zone_name branch_id = do
      anticipated ← get_transformed_df reactance branch_frame
      scale_branches (ids (λ r. r.branch_id) anticipated) zone_name branch_id

    -- The key "dcline" is set before the table is computed, which may raise.
    unfoldable pub scale_dcline_capacity : Dict ℕ V → Method V Unit
    unfolding scale_dclines get_transformed_df dcline_frame
    scale_dcline_capacity dcline_id = do
      _ ← modify (λ ct. record ct { dcline = some (or_new none ct.dcline) })
      anticipated ← get_transformed_df reactance dcline_frame
      scale_dclines (ids (λ r. r.dcline_id) anticipated) dcline_id
