-- ===== src/Electrification.antt =====
-- powersimdata/input/changes/electrification.py: the keys "building" and "transportation" of a change
-- table. Tests of the types of keys and values are left out, since the entries are typed here.
pub mod Valid
mod Tests
use power_sim_data.Prelude.{
  String, Bool, true, false, not, ◌&&◌, Option, none, some, List, [], ◌∷◌, string_eq, ◌==◌,
  contains, any, if◌then◌else◌,
}
use power_sim_data.Prelude.Dict.{Dict, keys, values, update}
use power_sim_data.Prelude.Result.{Result, ok, raise, require, value_error, ◌>>=◌}
use power_sim_data.Number.{Number, of_ℕ}
use power_sim_data.Grid.{Grid}
use power_sim_data.ChangeTable.Scaling.{check_zone}

-- From technologies to adoption rates, and from end uses to these.
abbrev pub Factors : Type 0 → Type 0
Factors V = Dict String V

abbrev pub Area : Type 0 → Type 0
Area V = Dict String (Factors V)

-- "grid" and "zone", either as given, an empty dictionary for a missing key, or as stored.
pub record Electrified (V : Type 0) : Type 0 where
  pub grid : Area V
  pub zone : Dict String (Area V)

pub record Demands (V : Type 0) : Type 0 where
  pub building : Option (Electrified V)
  pub transportation : Option (Electrified V)

abbrev or_empty : {V : Type 0} → Option (Electrified V) → Electrified V
or_empty none = record { grid = []; zone = [] }
or_empty (some d) = d

module _ {V : Type 0} ⦃num : Number V⦄ where
  open num use {add, lt}

  -- `sum(vals)`
  unfoldable pub sum_from : V → List V → V
  sum_from s [] = s
  sum_from s (v ∷ l) = sum_from (add s v) l

  -- `_check_scale_factors`
  unfoldable pub check_scale_factors : Factors V → Result (Unit {0})
  unfolding sum_from
  check_scale_factors d = do
    _ ← require (not (any (λ v. lt v (of_ℕ 0)) (values d))) value_error
    require (not (lt (of_ℕ 1) (sum_from (of_ℕ 0) (values d)))) value_error

  -- `AreaScaling`
  unfoldable pub check_area : Area V → Result (Unit {0})
  unfolding check_scale_factors
  check_area [] = ok tt
  check_area ((end_use, d) ∷ area) = do _ ← check_scale_factors d; check_area area

  unfoldable pub check_zones : Dict String (Area V) → Result (Unit {0})
  unfolding check_area
  check_zones [] = ok tt
  check_zones ((z, area) ∷ zones) = do _ ← check_area area; check_zones zones

  -- `ElectrifiedDemand`
  unfoldable pub check_electrified : Grid V → Electrified V → Result (Unit {0})
  unfolding check_area check_zones check_zone
  check_electrified g info = do
    _ ← check_area info.grid
    _ ← require (check_zone g (keys info.zone)) value_error
    check_zones info.zone

  unfoldable pub merge : Electrified V → Option (Electrified V) → Electrified V
  unfolding update
  merge info stored =
      let d = or_empty stored in
      record { grid = update d.grid info.grid; zone = update d.zone info.zone }

  unfoldable pub check_request : Grid V → String → Electrified V → Result (Unit {0})
  unfolding check_electrified
  check_request g kind info = do
    _ ← require (contains ("building" ∷ "transportation" ∷ []) kind) value_error
    check_electrified g info

  unfoldable pub store : String → Electrified V → Demands V → Demands V
  unfolding merge
  store kind info s =
      if kind == "building"
      then record s { building = some (merge info s.building) }
      else record s { transportation = some (merge info s.transportation) }

  unfoldable pub add_electrification :
      Grid V → String → Electrified V → Demands V → Result (Unit {0}) × Demands V
  unfolding check_request store
  add_electrification g kind info s = elim (check_request g kind info) [
    | raise e ↦ (raise e, s)
    | ok _ ↦ (ok tt, store kind info s)
  ]
