-- ===== src/Scenario/Loading.antt =====
-- What `refresh` of powersimdata/scenario/execute.py loads when a scenario enters the state execute, and with it
-- `create_scenario` of powersimdata/scenario/create.py, which ends in that state. `load` is `Grid(…)` of an
-- interconnect's name, and `unpickle` is pickle's. The launcher is only constructed, and left out.
use Prim.Native.String.{[] as empty_text, ◌∷◌ as char}
use power_sim_data.Prelude.{
  ℕ, String, Option, none, some, [], ◌∷◌, Eq, string_eq, ◌==◌, if◌then◌else◌,
}
use power_sim_data.Prelude.Dict.{lookup}
use power_sim_data.Prelude.Result.{Result, ok, raise, attribute_error, key_error, ◌>>=◌}
use power_sim_data.Prelude.Step.{Step, ◌then◌}
use power_sim_data.Number.{Number}
use power_sim_data.Grid.{Bus, Grid}
use power_sim_data.Ct.{Ct, empty_ct}
use power_sim_data.TransformGrid.Apply.{get_grid}
use power_sim_data.DataAccess.{FileSystem}
use power_sim_data.CsvStore.{Table}
use power_sim_data.ScenarioList.{Row}
use power_sim_data.InputData.{get_data}
use power_sim_data.Scenario.Creation.{Session, decimal, missing, update_scenario_info, register}

-- `info[key]`
unfoldable pub field : String → Row → Result String
field key info = elim (lookup key info) [ none ↦ raise key_error | some val ↦ ok val ]

until_bar : String → String
until_bar empty_text = empty_text
until_bar (char c s) =
    let rest = until_bar s in if char c empty_text == "_" then empty_text else char c rest

-- `s.split("_")[1]`, if there is a second part.
second_part : String → Option String
unfolding until_bar
second_part empty_text = none
second_part (char c s) =
    let rest = second_part s in if char c empty_text == "_" then some (until_bar s) else rest

-- `_get_kwargs`
unfoldable pub get_kwargs : Row → Result (Option String)
unfolding field second_part
get_kwargs info = field "grid_model" info >>= λ model.
    if model == "europe_tub"
    then (field "base_demand" info >>= λ profile. ok (second_part profile))
    else ok none

module _ {V C : Type 0} ⦃num : Number V⦄ (reactance : Grid V → Bus V → Bus V → Result V)
    (fs : FileSystem C) (blob : String → Option C)
    (load : String → String → Option String → Result (Grid V × Option String))
    (unpickle : C → Result (Ct V)) where
  open fs use {State}

  unfoldable pub load_base_grid : Row → Result (Grid V)
  unfolding get_kwargs
  load_base_grid info = do
    reduction ← get_kwargs info
    name ← field "interconnect" info
    model ← field "grid_model" info
    (grid, version) ← load name model reduction
    ok grid

  -- `self.grid = TransformGrid(base_grid, self.ct).get_grid()`
  unfoldable pub with_ct : Grid V → Ct V → Step (Session V State)
  with_ct base ct s = elim (get_grid reactance ct base) [
    | raise x ↦ (raise x, record s { ct = some ct })
    | ok g ↦ (ok tt, record s { ct = some ct; grid = some g })
  ]

  unfoldable pub load_ct : Grid V → ℕ → Step (Session V State)
  unfolding with_ct
  load_ct base i s =
      let (r, p) =
        get_data fs blob (λ path. unpickle) (decimal i) "ct"
          (record { cache = s.memory; world = s.world }) in
      let s' = record s { memory = p.cache; world = p.world } in
      elim r [ raise x ↦ (raise x, s') | ok ct ↦ with_ct base ct s' ]

  unfoldable pub ct_of_info : Grid V → Step (Session V State)
  unfolding load_ct field
  ct_of_info base s = elim (field "change_table" s.info.fields) [
    | raise x ↦ (raise x, s)
    | ok answer ↦
        if answer == "Yes"
        then elim s.info.id [ none ↦ (raise key_error, s) | some i ↦ load_ct base i s ]
        else (ok tt, record s { ct = some empty_ct; grid = some base })
  ]

  -- `_set_ct_and_grid`
  unfoldable pub set_ct_and_grid : Step (Session V State)
  unfolding load_base_grid ct_of_info
  set_ct_and_grid s = elim (load_base_grid s.info.fields) [
    | raise x ↦ (raise x, s)
    | ok base ↦ ct_of_info base s
  ]

  module _ {H : Type 0} ⦃e : Eq H⦄ (hash : C → H) (parse_list : C → Option (Table Row))
      (list_to_csv : Table Row → C) (parse_execute : C → Option (Table String))
      (execute_to_csv : Table String → C) (pickle : Ct V → C) where
    -- Without a builder only an info that has every field filled in gets as far as `self.builder.base_grid`.
    unfoldable pub create_scenario : Step (Session V State)
    unfolding update_scenario_info missing
    create_scenario s =
        let s' = update_scenario_info s in
        elim (missing s'.info.fields) [
          | _ ∷ _ ↦ (ok tt, s')
          | [] ↦ elim s'.builder [
            | none ↦ (raise attribute_error, s')
            | some b ↦
                (register reactance fs blob hash parse_list list_to_csv parse_execute execute_to_csv
                      pickle b
                    then set_ct_and_grid)
                  s'
          ]
        ]
