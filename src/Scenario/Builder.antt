-- ===== src/Scenario/Builder.antt =====
-- `_Builder`, `FromCSV` and `FromPyPSA` of powersimdata/scenario/create.py: what a client sets before a scenario is
-- created. Parsing of dates is the package pandas; the profiles that are there and the number before
-- the letter H of an interval come as arguments.
use Prim.Native.Nat.{◌%◌}
use power_sim_data.Prelude.{
  ℕ, ◌+◌, ◌-◌, ◌*◌, String, Bool, false, ◌||◌, not, Option, none, some, List, [], ◌∷◌, any, select,
  contains, ltb, eqb, nat_eq, string_eq, ◌==◌, if◌then◌else◌,
}
use power_sim_data.Prelude.Dict.{lookup}
use power_sim_data.Prelude.Result.{
  Result, ok, raise, require, value_error, zero_division_error, ◌>>=◌, ◌>>◌,
}
use power_sim_data.Grid.{Grid}
use power_sim_data.ChangeTable.Frames.{ChangeTable}
use power_sim_data.CsvStore.{Table}
use power_sim_data.ScenarioList.{Row}

-- `from_csv` tells the class; `version` is that of `base_grid`, and `existing` the rows of the scenario
-- list with the builder's interconnect when the builder was made.
pub record Builder (V : Type 0) : Type 0 where
  pub from_csv : Bool
  pub grid_model : String
  pub interconnect : String
  pub existing : Table Row
  pub plan_name : String
  pub scenario_name : String
  pub start_date : String
  pub end_date : String
  pub interval : String
  pub demand : String
  pub hydro : String
  pub solar : String
  pub wind : String
  pub engine : String
  pub version : Option String
  pub base_grid : Grid V
  pub change_table : ChangeTable V

-- `table[column] == value` at a row.
unfoldable pub has : String → String → ℕ × Row → Bool
has column value (i, r) = elim (lookup column r) [ none ↦ false | some x ↦ x == value ]

module _ {V : Type 0} where
  unfoldable pub set_name : String → String → Builder V → Result (Unit {0}) × Builder V
  unfolding has
  set_name plan name b =
      let scenario = select (has "plan" plan) b.existing in
      if any (has "plan" plan) b.existing
      then (if any (has "name" name) scenario
          then (raise value_error, b)
          else (ok tt, record b { plan_name = plan; scenario_name = name }))
      else (ok tt, record b { plan_name = plan; scenario_name = name })

  unfoldable pub set_engine : String → Builder V → Builder V
  set_engine engine b =
      if contains ("REISE.jl" ∷ []) engine then record b { engine = engine } else b

  unfoldable pub put_profile : String → String → Builder V → Builder V
  put_profile kind version b =
      if kind == "demand"
      then record b { demand = version }
      else if kind == "hydro"
      then record b { hydro = version }
      else if kind == "solar"
      then record b { solar = version }
      else if kind == "wind"
      then record b { wind = version }
      else b

  -- `FromCSV.set_base_profile`; `possible` is what `get_base_profile(kind)` finds.
  unfoldable pub set_base_profile :
      List String → String → String → Builder V → Result (Unit {0}) × Builder V
  unfolding put_profile
  set_base_profile [] kind version b = (raise value_error, b)
  set_base_profile (p ∷ possible) kind version b =
      if contains (p ∷ possible) version
      then (ok tt, put_profile kind version b)
      else (raise value_error, b)

-- Dates in seconds since the first date that pandas can hold; `hours` is `int` of the text before the
-- letter H, without its sign, which plays no part in divisibility.
module _ (timestamp : String → Result ℕ) (hours : String → Result ℕ) where
  -- `hours % int(…) != 0`, where `hours` is the length of the range and one more.
  unfoldable pub check_interval : ℕ → ℕ → ℕ → Result (Unit {0})
  check_interval start end n =
      if eqb n 0
      then raise zero_division_error
      else require (eqb ((end - start + 3600) % (n * 3600)) 0) value_error

  unfoldable pub check_range : ℕ → ℕ → ℕ → ℕ → Result (Unit {0})
  check_range first last start end =
      require (not (ltb end start)) value_error
      >> require (not (ltb start first || ltb last start)) value_error
      >> require (not (ltb end first || ltb last end)) value_error

  -- `FromCSV._check_time_range`
  unfoldable pub check_time_range : String → String → String → Result (Unit {0})
  unfolding check_interval check_range
  check_time_range start_date end_date interval = do
    first ← timestamp "2016-01-01 00:00:00"
    last ← timestamp "2016-12-31 23:00:00"
    start ← timestamp start_date
    end ← timestamp end_date
    _ ← check_range first last start end
    n ← hours interval
    check_interval start end n

  -- The builder of a PyPSA network checks nothing.
  unfoldable pub set_time :
      {V : Type 0} → String → String → String → Builder V → Result (Unit {0}) × Builder V
  unfolding check_time_range
  set_time start_date end_date interval b =
      let checked = if b.from_csv then check_time_range start_date end_date interval else ok tt in
      elim checked [
        | raise x ↦ (raise x, b)
        | ok _ ↦
            (ok tt, record b { start_date = start_date; end_date = end_date; interval = interval })
      ]
