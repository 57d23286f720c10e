-- ===== src/Scenario/Failure.antt =====
-- What a `create_scenario` of powersimdata/scenario/create.py that raises leaves behind.
use power_sim_data.Prelude.Step.{Step, then-keeps, then-raise, ◌then◌}
use power_sim_data.Prelude.{
  String, ◌≡◌, ◌≢◌, refl, sym, subst, ap, ◌∙◌, inl, inr, false, Option, some, List, [], ◌∷◌, Eq,
  nat_eq, string_eq, ==_refl, ◌==◌, if◌then◌else◌, arith, Option-cases, Bool-cases,
}
use power_sim_data.Prelude.Dict.{lookup, insert, lookup-insert}
use power_sim_data.Prelude.Result.{Error, Result, ok, raise, Result-cases}
use power_sim_data.Number.{Number}
use power_sim_data.Grid.{Bus, Grid}
use power_sim_data.Ct.{Ct}
use power_sim_data.DataAccess.{FileSystem, World}
use power_sim_data.CsvStore.{Table, get_table}
use power_sim_data.ScenarioList.{Row, Info}
use power_sim_data.ScenarioList
use power_sim_data.Scenario.{create, state_eq, Classes}
use power_sim_data.Scenario.GetBuilder.{get_builder}
use power_sim_data.Scenario.Loading.{set_ct_and_grid, create_scenario}
use power_sim_data.Scenario.Loaded.{Loads, set_ct_and_grid-Loads}
use power_sim_data.Scenario.Builder.{Builder}
use power_sim_data.Scenario.Creation.{
  Session, transform, list_scenario, list_execution, upload_change_table, add_details, completed,
  finish, updated, missing, update_scenario_info, register, set_grid,
}

-- A field without a value is missing.
missing-lookup : (key : String) (row : Row) → lookup key row ≡ some "" → missing row ≢ []
unfolding missing lookup
missing-lookup key [] h = ground arith
missing-lookup key ((k, val) ∷ row) h = elim (Bool-cases (k == key)) [
  | inl here ↦
      let value : val ≡ "" = ground (arith, h, here) in
      ground (arith, ap (λ v. v == "") value, ==_refl {A = String} "")
  | inr later ↦
      let rest : lookup key row ≡ some "" = ground (arith, h, later) in
      ground (arith, missing-lookup key row rest)
]

-- Another field is written.
kept_field :
    (key other val : String) (row : Row)
    → (other == key) ≡ false
    → lookup key row ≡ some ""
    → lookup key (insert other val row) ≡ some ""
kept_field key other val row ne h = ground (arith, lookup-insert other key val row)

updated-HasNoRuntime :
    {V : Type 0} (b : Builder V) (row : Row)
    → lookup "runtime" row ≡ some ""
    → lookup "runtime" (updated b row) ≡ some ""
unfolding updated
updated-HasNoRuntime b row h = kept_field "runtime" "change_table" _ _ refl (
    kept_field "runtime" "engine" _ _ refl (
      kept_field "runtime" "base_wind" _ _ refl (
        kept_field "runtime" "base_solar" _ _ refl (
          kept_field "runtime" "base_hydro" _ _ refl (
            kept_field "runtime" "base_demand" _ _ refl (
              kept_field "runtime" "interval" _ _ refl (
                kept_field "runtime" "end_date" _ _ refl (
                  kept_field "runtime" "start_date" _ _ refl (
                    kept_field "runtime" "name" _ _ refl
                      (kept_field "runtime" "plan" _ _ refl h))))))))))

module _ {V S : Type 0} where
  -- `runtime` is empty.
  abbrev HasNoRuntime : Session V S → Type 0
  HasNoRuntime s = lookup "runtime" s.info.fields ≡ some ""

  add_details-HasNoRuntime : (b : Builder V) (s : Session V S) → HasNoRuntime (add_details b s).1
  unfolding add_details completed
  add_details-HasNoRuntime b s =
      kept_field "runtime" "infeasibilities" "" _ refl (lookup-insert "runtime" "runtime" "" _)

  update-HasNoRuntime : (s : Session V S) → HasNoRuntime s → HasNoRuntime (update_scenario_info s)
  unfolding update_scenario_info
  update-HasNoRuntime s h = elim (Option-cases s.builder) [
    | inl no_builder ↦ ground arith
    | inr (b, built) ↦ let kept = updated-HasNoRuntime b s.info.fields h in ground (arith, kept)
  ]

  finish-HasNoRuntime : (s : Session V S) → HasNoRuntime s → HasNoRuntime (finish s).1
  unfolding finish
  finish-HasNoRuntime s h = ground arith

module _ {V C H : Type 0} ⦃num : Number V⦄ (reactance : Grid V → Bus V → Bus V → Result V)
    (fs : FileSystem C) (blob : String → Option C) ⦃e : Eq H⦄ (hash : C → H)
    (parse_list : C → Option (Table Row)) (list_to_csv : Table Row → C)
    (parse_execute : C → Option (Table String)) (execute_to_csv : Table String → C)
    (pickle : Ct V → C) where
  open fs use {State, read}

  transform-HasNoRuntime :
      (b : Builder V) (s : Session V State)
      → HasNoRuntime s
      → HasNoRuntime (transform reactance b s).1
  unfolding transform
  transform-HasNoRuntime b s h = ground arith

  list_scenario-HasNoRuntime :
      (s : Session V State)
      → HasNoRuntime s
      → HasNoRuntime (list_scenario fs blob hash parse_list list_to_csv s).1
  unfolding list_scenario ScenarioList.add_entry
  list_scenario-HasNoRuntime s h = ground arith

  upload-HasNoRuntime :
      (b : Builder V) (s : Session V State)
      → HasNoRuntime s
      → HasNoRuntime (upload_change_table fs blob pickle b s).1
  unfolding upload_change_table
  upload-HasNoRuntime b s h = ground arith

  list_execution-HasNoRuntime :
      (s : Session V State)
      → HasNoRuntime s
      → HasNoRuntime (list_execution fs blob hash parse_execute execute_to_csv s).1
  unfolding list_execution
  list_execution-HasNoRuntime s h = ground arith

  -- The steps after the details.
  abbrev rest : Builder V → Step (Session V State)
  rest b =
      transform reactance b
      then list_scenario fs blob hash parse_list list_to_csv
      then upload_change_table fs blob pickle b
      then list_execution fs blob hash parse_execute execute_to_csv
      then finish

  rest-HasNoRuntime :
      (b : Builder V) (s : Session V State) → HasNoRuntime s → HasNoRuntime (rest b s).1
  rest-HasNoRuntime b =
      let list = list_scenario fs blob hash parse_list list_to_csv in
      let upload = upload_change_table fs blob pickle b in
      let status = list_execution fs blob hash parse_execute execute_to_csv in
      then-keeps HasNoRuntime (transform reactance b) (list then upload then status then finish)
        (transform-HasNoRuntime b)
        (then-keeps HasNoRuntime list (upload then status then finish) list_scenario-HasNoRuntime (
          then-keeps HasNoRuntime upload (status then finish) (upload-HasNoRuntime b) (
            then-keeps HasNoRuntime status finish list_execution-HasNoRuntime finish-HasNoRuntime)))

  register-HasNoRuntime :
      (b : Builder V) (s : Session V State)
      → HasNoRuntime
          (register reactance fs blob hash parse_list list_to_csv parse_execute execute_to_csv
            pickle b s).1
  unfolding register ◌then◌ add_details
  register-HasNoRuntime b s = rest-HasNoRuntime b (add_details b s).1 (add_details-HasNoRuntime b s)

  module _ (load : String → String → Option String → Result (Grid V × Option String))
      (unpickle : C → Result (Ct V)) where
    abbrev creates : Session V State → Result (Unit {0}) × Session V State
    creates =
        create_scenario reactance fs blob load unpickle hash parse_list list_to_csv parse_execute
          execute_to_csv pickle

    -- What can become of an object: the client sets its builder in some way, the data store and the other scenarios
    -- go on, or the client calls `set_grid` or `create_scenario`.
    pub data Later (s : Session V State) : Session V State → Type 0 where
      now : Later s s
      with_builder :
          {t : Session V State}
          → Later s t
          → (b : Option (Builder V)) → Later s (record t { builder = b })
      meanwhile :
          {t : Session V State}
          → Later s t
          → (w : World State) (c : Classes) → Later s (record t { world = w; classes = c })
      with_grid :
          {t : Session V State}
          → Later s t
          → (grid_model : String) (interconnect : List String) (reduction : Option String)
          → Later s (set_grid fs blob parse_list load grid_model interconnect reduction t).1
      called : {t : Session V State} → Later s t → Later s (creates t).1

    -- The call finds information missing.
    blocked : (t : Session V State) → HasNoRuntime t → creates t ≡ (ok tt, update_scenario_info t)
    unfolding create_scenario
    blocked t empty =
        let still = update-HasNoRuntime t empty in
        let lacks = missing-lookup "runtime" (update_scenario_info t).info.fields still in
        ground (arith, lacks)

    set_grid-HasNoRuntime :
        (grid_model : String) (interconnect : List String) (reduction : Option String)
        (t : Session V State)
        → HasNoRuntime t
        → HasNoRuntime (set_grid fs blob parse_list load grid_model interconnect reduction t).1
    unfolding set_grid
    set_grid-HasNoRuntime grid_model interconnect reduction t empty =
        let (table, w) = get_table fs blob parse_list ScenarioList.file_name t.world in
        elim (Result-cases (get_builder load grid_model interconnect table reduction)) [
          | inr (x, raised) ↦ ground (arith, raised)
          | inl (b, built) ↦
              let kept =
                kept_field "runtime" "interconnect" b.interconnect
                  (insert "grid_model" b.grid_model t.info.fields) refl
                  (kept_field "runtime" "grid_model" b.grid_model t.info.fields refl empty) in
              ground (arith, built, kept)
        ]

    Later-HasNoRuntime : {s t : Session V State} → Later s t → HasNoRuntime s → HasNoRuntime t
    Later-HasNoRuntime now empty = empty
    Later-HasNoRuntime (with_builder before b) empty = Later-HasNoRuntime before empty
    Later-HasNoRuntime (meanwhile before w c) empty = Later-HasNoRuntime before empty
    Later-HasNoRuntime (with_grid {t} before model names reduction) empty =
        set_grid-HasNoRuntime model names reduction t (Later-HasNoRuntime before empty)
    Later-HasNoRuntime (called {t} before) empty =
        let until = Later-HasNoRuntime before empty in
        subst (λ r. HasNoRuntime r.1) (sym (blocked t until)) (update-HasNoRuntime t until)

    raised-HasNoRuntime :
        (b : Builder V) (s s' : Session V State) (x : Error)
        → s.builder ≡ some b
        → missing (updated b s.info.fields) ≡ []
        → creates s ≡ (raise x, s')
        → HasNoRuntime s'
    unfolding create_scenario update_scenario_info
    raised-HasNoRuntime b s s' x built full raised =
        let begun = update_scenario_info s in
        let kept = register-HasNoRuntime b begun in
        then-raise
          (register reactance fs blob hash parse_list list_to_csv parse_execute execute_to_csv
            pickle b)
          (set_ct_and_grid reactance fs blob load unpickle) begun s' x (ground arith)
          (λ at_register. subst (λ r. HasNoRuntime r.1) at_register kept)
          λ t registered unloaded.
            let loads : Loads t s' =
              subst (λ r. Loads t r.1) unloaded
                (set_ct_and_grid-Loads reactance fs blob load unpickle t) in
            ap (λ i. lookup "runtime" i.fields) loads.info
            ∙ subst (λ r. HasNoRuntime r.1) registered kept

    -- If `create_scenario` raises with a builder and no field missing, and leaves the object in the state
    -- create, then every later call on this object finds information missing, whatever was done in
    -- between: a new grid set, the builder changed, other calls, other clients. It returns, changes
    -- nothing of the data store, and leaves the object in its state.
    pub create_scenario-stuck :
        (b : Builder V) (s s' later : Session V State) (x : Error)
        → s.builder ≡ some b
        → missing (updated b s.info.fields) ≡ []
        → creates s ≡ (raise x, s')
        → s'.scenario.state ≡ create
        → Later s' later
        → ((creates later).0 ≡ ok tt)
          × ((creates later).1.world ≡ later.world)
          × ((creates later).1.scenario ≡ later.scenario)
          × ((creates later).1.classes ≡ later.classes)
    unfolding update_scenario_info
    create_scenario-stuck b s s' later x built full raised in_create on =
        let result =
          blocked later (Later-HasNoRuntime on (raised-HasNoRuntime b s s' x built full raised)) in
        (
          ground (arith, result),
          ground (arith, result),
          ground (arith, result),
          ground (arith, result),
        )
