-- ===== src/ChangeTable/Factors.antt =====
-- What the scaling methods of a change table do to its factors.
use power_sim_data.Prelude.{
  ℕ, ◌≡◌, refl, sym, ◌∙◌, inl, inr, none, some, List, [], ◌∷◌, nat_eq, subset, if◌then◌else◌, arith,
  Bool-cases,
}
use power_sim_data.Prelude.Dict.{Dict, keys, insert, update}
use power_sim_data.Prelude.Result.{Result, Error, ok, raise, Result-cases}
use power_sim_data.Number.{Number}
use power_sim_data.Grid.{Bus, Grid}
use power_sim_data.Ct.{NewLine, Ct}
use power_sim_data.TransformGrid.Scale
use power_sim_data.TransformGrid.Add.{entries}
use power_sim_data.TransformGrid.Apply.{get_grid}
use power_sim_data.TransformGrid.Stages.{apply-Stages}
use power_sim_data.TransformGrid.Removal.{get_grid-eq-apply}
use power_sim_data.ChangeTable.Frames.{◌>>=◌, ChangeTable, dcline_frame, find_cached}
use power_sim_data.ChangeTable.Scaling.{set_ids, put_demand, scale_demand, scale_dcline_capacity}

module _ {V : Type 0} where
  set_ids-put_demand :
      (d old : Dict ℕ V) (ct : Ct V)
      → set_ids put_demand d (record ct { demand = some old })
        ≡ record ct { demand = some (update old d) }
  unfolding set_ids put_demand update
  set_ids-put_demand [] old ct = refl
  set_ids-put_demand ((i, v) ∷ d) old ct = set_ids-put_demand d (insert i v old) ct

  -- The factors for demand by zone id, as a dictionary.
  abbrev pub demand_of : Ct V → Dict ℕ V
  demand_of ct = entries ct.demand

  -- `scale_demand` with factors by zone id updates the dictionary of factors, as `dict.update` does, if
  -- all zones are in the grid; if one is not, all factors for demand are dropped, those of earlier calls
  -- too. Nothing else changes, and it never raises.
  pub scale_demand-by_id :
      (i : ℕ) (v : V) (d : Dict ℕ V) (s : ChangeTable V)
      → scale_demand none (some ((i, v) ∷ d)) s ≡ (
        ok tt,
        record s {
          ct = record s.ct {
            demand =
                if subset (keys ((i, v) ∷ d)) (keys s.grid.id2zone)
                then some (update (demand_of s.ct) ((i, v) ∷ d))
                else none;
          };
        },
      )
  unfolding scale_demand
  scale_demand-by_id i v d s =
      elim (Bool-cases (subset (keys ((i, v) ∷ d)) (keys s.grid.id2zone))) [
        | inl k ↦ ground (arith, k, set_ids-put_demand ((i, v) ∷ d) (demand_of s.ct) s.ct)
        | inr k ↦ ground (arith, k)
      ]

module _ {V : Type 0} ⦃num : Number V⦄ (reactance : Grid V → Bus V → Bus V → Result V) where
  -- With the key "dcline" but not "dcline_id" under it, no grid can be computed.
  get_grid-dcline :
      (ct : Ct V) (g : Grid V)
      → ct.dcline ≡ some none
      → (e : Error) × (get_grid reactance ct g ≡ raise e)
  unfolding Scale.scale_dcline
  get_grid-dcline ct g h = elim (Result-cases (get_grid reactance ct g)) [
    | inr k ↦ k
    | inl (g', k) ↦
        let s = apply-Stages reactance ct g g' (sym (get_grid-eq-apply reactance ct g) ∙ k) in
        ground (arith, h, s.to_dcline_ids)
  ]

  -- If DC lines were added or removed, none were scaled, and the table of DC lines is not in the cache
  -- yet, `scale_dcline_capacity` raises whatever factors it is given, and leaves the key "dcline" behind
  -- without "dcline_id" under it.
  pub scale_dcline_capacity-raise :
      (d : Dict ℕ V) (s : ChangeTable V) (lines : List (NewLine V))
      → s.ct.dcline ≡ none
      → s.ct.new_dcline ≡ some lines
      → find_cached dcline_frame.same lines (entries s.ct.remove_dcline) s.dcline_cache ≡ none
      → (e : Error) × (scale_dcline_capacity reactance d s
          ≡ (raise e, record s { ct = record s.ct { dcline = some none } }))
  unfolding scale_dcline_capacity ◌>>=◌
  scale_dcline_capacity-raise d s lines h new uncached =
      let (e, k) = get_grid-dcline (record s.ct { dcline = some none }) s.grid refl in
      (e, ground (arith, h, new, uncached, k))
