-- ===== src/Scenario/Creation.antt =====
-- `Create` of powersimdata/scenario/create.py on top of the two lists and the data store: `set_grid`,
-- `_update_scenario_info` and the steps of `create_scenario`, with `save_change_table` of
-- powersimdata/input/input_data.py.
use Prim.Native.Nat.{◌/◌, ◌%◌}
use Prim.Native.String.{◌++◌ as append}
use power_sim_data.Prelude.{
  ℕ, zero, suc, String, true, Option, none, some, List, [], ◌∷◌, Eq, ltb, nat_eq, string_eq, ◌==◌,
  if◌then◌else◌,
}
use power_sim_data.Prelude.Dict.{Dict, insert}
use power_sim_data.Prelude.Result.{Result, ok, raise, key_error}
use power_sim_data.Prelude.Step.{Step, ◌then◌}
use power_sim_data.Number.{Number}
use power_sim_data.Grid.{Bus, Grid}
use power_sim_data.Ct.{Ct}
use power_sim_data.TransformGrid.Apply.{get_grid, is_empty}
use power_sim_data.DataAccess.{FileSystem, World, write_new}
use power_sim_data.CsvStore.{Table, get_table}
use power_sim_data.ScenarioList.{Row, Info}
use power_sim_data.ScenarioList
use power_sim_data.ExecuteList
use power_sim_data.Scenario.{Classes, Scenario, finish_create}
use power_sim_data.Scenario.Builder.{Builder}
use power_sim_data.Scenario.GetBuilder.{get_builder}

-- `Scenario._default_info` of powersimdata/scenario/scenario.py
abbrev pub default_info : Info
default_info = record {
  id = none;
  fields =
      ("plan", "")
      ∷ ("name", "")
      ∷ ("state", "create")
      ∷ ("grid_model", "")
      ∷ ("interconnect", "")
      ∷ ("base_demand", "")
      ∷ ("base_hydro", "")
      ∷ ("base_solar", "")
      ∷ ("base_wind", "")
      ∷ ("change_table", "")
      ∷ ("start_date", "")
      ∷ ("end_date", "")
      ∷ ("interval", "")
      ∷ ("engine", "")
      ∷ [];
}

-- A scenario object in the state create, the class attributes, the change tables that the process has in
-- memory, and the data store.
pub record Session (V S : Type 0) : Type 0 where
  pub info : Info
  pub builder : Option (Builder V)
  pub grid : Option (Grid V)
  pub ct : Option (Ct V)
  pub scenario : Scenario
  pub classes : Classes
  pub memory : Dict String (Ct V)
  pub world : World S

-- The number in decimal; its own value is fuel enough.
abbrev digits : List String
digits = "0" ∷ "1" ∷ "2" ∷ "3" ∷ "4" ∷ "5" ∷ "6" ∷ "7" ∷ "8" ∷ "9" ∷ []

abbrev digit : ℕ → List String → String
digit n [] = ""
digit zero (d ∷ ds) = d
digit (suc n) (d ∷ ds) = digit n ds

decimal_within : ℕ → ℕ → String
decimal_within zero n = digit n digits
decimal_within (suc fuel) n =
    let high = decimal_within fuel (n / 10) in
    if ltb n 10 then digit n digits else append high (digit (n % 10) digits)

unfoldable pub decimal : ℕ → String
unfolding decimal_within
decimal i = decimal_within i i

-- `"/".join([*server_setup.INPUT_DIR, f"{scenario_id}_ct.pkl"])`
unfoldable pub ct_path : ℕ → String
unfolding decimal
ct_path i = append "data/input/" (append (decimal i) "_ct.pkl")

-- The fields without a value.
unfoldable pub missing : Row → List String
missing [] = []
missing ((key, val) ∷ row) = let rest = missing row in if val == "" then key ∷ rest else rest

module _ {V : Type 0} where
  -- `_update_scenario_info`
  unfoldable pub updated : Builder V → Row → Row
  updated b info = insert "change_table" (if is_empty b.change_table.ct then "No" else "Yes") (
      insert "engine" b.engine (
        insert "base_wind" b.wind (
          insert "base_solar" b.solar (
            insert "base_hydro" b.hydro (
              insert "base_demand" b.demand (
                insert "interval" b.interval (
                  insert "end_date" b.end_date (
                    insert "start_date" b.start_date
                      (insert "name" b.scenario_name (insert "plan" b.plan_name info))))))))))

  -- The fields that `create_scenario` adds.
  unfoldable pub completed : Builder V → Row → Row
  completed b info = insert "infeasibilities" "" (
      insert "runtime" "" (
        insert "state" "execute"
          (insert "grid_model_version" (elim b.version [ none ↦ "" | some v ↦ v ]) info)))

  module _ {S : Type 0} where
    with_fields : (Row → Row) → Session V S → Session V S
    with_fields f s = record s { info = record s.info { fields = f s.info.fields } }

    unfoldable pub update_scenario_info : Session V S → Session V S
    unfolding with_fields updated
    update_scenario_info s = elim s.builder [ none ↦ s | some b ↦ with_fields (updated b) s ]

    unfoldable pub add_details : Builder V → Step (Session V S)
    unfolding with_fields completed
    add_details b s = (ok tt, with_fields (completed b) s)

    -- The last steps: status, allowed states and the switch to execute.
    unfoldable pub finish : Step (Session V S)
    finish s =
        let (r, classes) = finish_create s.scenario s.classes in
        elim r [
          | raise x ↦ (raise x, record s { classes = classes })
          | ok scenario ↦
              (ok tt, record s { scenario = scenario; classes = classes; builder = none })
        ]

module _ {V : Type 0} ⦃num : Number V⦄ (reactance : Grid V → Bus V → Bus V → Result V) where
  -- `self.grid = self.builder.get_grid()` and `self.ct = self.builder.change_table.ct`
  unfoldable pub transform : {S : Type 0} → Builder V → Step (Session V S)
  transform b s = elim (get_grid reactance b.change_table.ct b.base_grid) [
    | raise x ↦ (raise x, s)
    | ok g ↦ (ok tt, record s { grid = some g; ct = some b.change_table.ct })
  ]

module _ {V C : Type 0} (fs : FileSystem C) (blob : String → Option C) where
  open fs use {State}

  -- `_upload_change_table`, if the change table is not empty.
  unfoldable pub upload_change_table : (pickle : Ct V → C) → Builder V → Step (Session V State)
  unfolding ct_path
  upload_change_table pickle b s =
      if is_empty b.change_table.ct then (ok tt, s) else elim s.info.id [
        | none ↦ (raise key_error, s)
        | some i ↦
            let (r, w) = write_new fs blob (ct_path i) (pickle b.change_table.ct) true s.world in
            (r, record s { world = w })
      ]

  module _ {H : Type 0} ⦃e : Eq H⦄ (hash : C → H) where
    unfoldable pub list_scenario :
        (parse : C → Option (Table Row)) (to_csv : Table Row → C) → Step (Session V State)
    list_scenario parse to_csv s =
        let (r, info, w) = ScenarioList.add_entry fs blob parse hash to_csv s.info s.world in
        let s' = record s { info = info; world = w } in
        elim r [ raise x ↦ (raise x, s') | ok t ↦ (ok tt, s') ]

    unfoldable pub list_execution :
        (parse : C → Option (Table String)) (to_csv : Table String → C) → Step (Session V State)
    list_execution parse to_csv s = elim s.info.id [
      | none ↦ (raise key_error, s)
      | some i ↦
          let (r, w) = ExecuteList.add_entry fs blob parse hash to_csv i s.world in
          let s' = record s { world = w } in elim r [ raise x ↦ (raise x, s') | ok t ↦ (ok tt, s') ]
    ]

module _ {V C H : Type 0} ⦃num : Number V⦄ (reactance : Grid V → Bus V → Bus V → Result V)
    (fs : FileSystem C) (blob : String → Option C) ⦃e : Eq H⦄ (hash : C → H)
    (parse_list : C → Option (Table Row)) (list_to_csv : Table Row → C)
    (parse_execute : C → Option (Table String)) (execute_to_csv : Table String → C)
    (pickle : Ct V → C) where
  open fs use {State}

  -- The steps of `create_scenario` with a builder and no field missing, up to the loading.
  unfoldable pub register : Builder V → Step (Session V State)
  unfolding add_details transform list_scenario upload_change_table list_execution finish
  register b =
      add_details b
      then transform reactance b
      then list_scenario fs blob hash parse_list list_to_csv
      then upload_change_table fs blob pickle b
      then list_execution fs blob hash parse_execute execute_to_csv
      then finish

module _ {V C : Type 0} (fs : FileSystem C) (blob : String → Option C)
    (parse : C → Option (Table Row))
    (load : String → String → Option String → Result (Grid V × Option String)) where
  open fs use {State}

  -- `set_grid`
  unfoldable pub set_grid : String → List String → Option String → Step (Session V State)
  unfolding with_fields
  set_grid grid_model interconnect reduction s =
      let (table, w) = get_table fs blob parse ScenarioList.file_name s.world in
      let s' = record s { world = w } in
      elim (get_builder load grid_model interconnect table reduction) [
        | raise x ↦ (raise x, s')
        | ok b ↦ (
          ok tt,
          with_fields
              (λ info. insert "interconnect" b.interconnect (insert "grid_model" b.grid_model info))
              (record s' { builder = some b }),
        )
      ]

-- `Scenario()`, in a process in which nothing has happened and with a data store.
abbrev pub new_session : {V S : Type 0} → Scenario → Classes → World S → Session V S
new_session scenario classes w = record {
  info = default_info;
  builder = none;
  grid = none;
  ct = none;
  scenario = scenario;
  classes = classes;
  memory = [];
  world = w;
}
