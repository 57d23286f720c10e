-- ===== src/Scenario/Returns.antt =====
-- When a `create_scenario` of powersimdata/scenario/create.py goes through.
use power_sim_data.Prelude.Step.{Step, then-returns, ◌then◌}
use power_sim_data.Prelude.{
  ℕ, String, ◌≡◌, refl, sym, ap, subst, ◌∙◌, inl, inr, true, Option, none, some, [], ◌∷◌, Eq,
  nat_eq, string_eq, contains-append, arith, Bool-cases,
}
use power_sim_data.Prelude.Dict.{lookup, insert}
use power_sim_data.Prelude.Result.{Result, ok}
use power_sim_data.Number.{Number}
use power_sim_data.Grid.{Bus, Grid}
use power_sim_data.Ct.{Ct}
use power_sim_data.TransformGrid.Apply.{is_empty, get_grid}
use power_sim_data.DataAccess.{FileSystem, World, temp, backup, beside, multi_read}
use power_sim_data.DataAccess.Copies.{write_new_lem}
use power_sim_data.CsvStore.{Table, get_table}
use power_sim_data.CsvStore.Laws.{server-get_table}
use power_sim_data.CsvStore.Total.{verify_hash-returns}
use power_sim_data.ScenarioList.{Row}
use power_sim_data.ScenarioList.Entries.{before, add_entry-returns}
use power_sim_data.ExecuteList
use power_sim_data.Scenario.{create, execute, state_eq, finish_create, change_class}
use power_sim_data.Scenario.Builder.{Builder}
use power_sim_data.Scenario.Creation.{
  Session, ct_path, transform, list_scenario, list_execution, upload_change_table, add_details,
  finish, updated, missing, update_scenario_info, register,
}
use power_sim_data.Scenario.Loading.{set_ct_and_grid, create_scenario}
use power_sim_data.Scenario.Stored.{Stored, Run-Stored}
use power_sim_data.Scenario.Loaded.{Loads-refl}
use power_sim_data.Scenario.Steps.{
  first_code, ne-ct_path, beside-ct_path, upload_change_table-elsewhere,
}
use power_sim_data.Scenario.Run.{register-Run, list_scenario-elsewhere}
use power_sim_data.Scenario.Created.{list_scenario-ok, upload_change_table-ok}
use power_sim_data.Scenario.Raised.{list_execution-scenario, upload-scenario}

module _ {V S : Type 0} where
  finish-returns-ok : (s : Session V S) → s.scenario.state ≡ create → (finish s).0 ≡ ok tt
  unfolding finish finish_create change_class
  finish-returns-ok s fresh =
      ground (arith, contains-append s.classes.create_allowed (execute ∷ []) execute)

module _ {C : Type 0} (fs : FileSystem C) (blob : String → Option C) where
  open fs use {State, read}

  -- A file is on the server, and no upload of it is in the way.
  pub record Ready (file : String) (w : World State) : Type 0 where
    pub content : C
    pub there : read w.server file ≡ some content
    pub free : multi_read fs blob w.server (temp file) ≡ none

  multi_read-kept :
      (s t : State) (p : String)
      → read s p ≡ read t p
      → multi_read fs blob t p ≡ none
      → multi_read fs blob s p ≡ none
  unfolding multi_read
  multi_read-kept s t p same free = ground (arith, same, free)

  Ready-kept :
      (file : String) (w w' : World State)
      → read w'.server file ≡ read w.server file
      → read w'.server (temp file) ≡ read w.server (temp file)
      → Ready file w
      → Ready file w'
  Ready-kept file w w' same same_temp r = record {
    content = r.content;
    there = same ∙ r.there;
    free = multi_read-kept w'.server w.server (temp file) same_temp r.free;
  }

  upload-returns :
      {V : Type 0} (pickle : Ct V → C) (b : Builder V) (s : Session V State) (i : ℕ)
      → s.info.id ≡ some i
      → multi_read fs blob s.world.server (ct_path i) ≡ none
      → (upload_change_table fs blob pickle b s).0 ≡ ok tt
  unfolding upload_change_table
  upload-returns pickle b s i named free =
      let written =
        write_new_lem fs blob (ct_path i) (pickle b.change_table.ct) true s.world (ct_path i) in
      elim (Bool-cases (is_empty b.change_table.ct)) [
        | inl nothing ↦ ground (arith, nothing)
        | inr e ↦ ground (arith, e, named, free, written.0)
      ]

  module _ {H V : Type 0} ⦃e : Eq H⦄ (hash : C → H) where
    list_scenario-returns :
        (parse : C → Option (Table Row)) (to_csv : Table Row → C) (s : Session V State)
        → Ready "ScenarioList.csv" s.world
        → (list_scenario fs blob hash parse to_csv s).0 ≡ ok tt
    unfolding list_scenario
    list_scenario-returns parse to_csv s ready =
        let returned =
          add_entry-returns fs blob parse hash to_csv s.info s.world ready.content ready.there
            ready.free in
        ground (arith, returned)

    list_execution-returns :
        (parse : C → Option (Table String)) (to_csv : Table String → C) (s : Session V State)
        (i : ℕ)
        → s.info.id ≡ some i
        → Ready "ExecuteList.csv" s.world
        → (list_execution fs blob hash parse to_csv s).0 ≡ ok tt
    unfolding list_execution ExecuteList.add_entry ExecuteList.set_status
    list_execution-returns parse to_csv s i named ready =
        let returned =
          verify_hash-returns fs blob parse hash to_csv "ExecuteList.csv"
            (λ v.
              let (u, v') = get_table fs blob parse "ExecuteList.csv" v in
              (ok (insert i "created" u), v'))
            s.world ready.content _ (server-get_table fs blob parse "ExecuteList.csv" s.world) refl
            ready.there ready.free in
        ground (arith, named, returned)

module _ {V C H : Type 0} ⦃num : Number V⦄ (reactance : Grid V → Bus V → Bus V → Result V)
    (fs : FileSystem C) (blob : String → Option C) ⦃e : Eq H⦄ (hash : C → H)
    (parse_list : C → Option (Table Row)) (list_to_csv : Table Row → C)
    (parse_execute : C → Option (Table String)) (execute_to_csv : Table String → C)
    (pickle : Ct V → C) where
  open fs use {State, read}

  abbrev registers : Builder V → Session V State → Result (Unit {0}) × Session V State
  registers b =
      register reactance fs blob hash parse_list list_to_csv parse_execute execute_to_csv pickle b

  -- No scenario has an id under which a change table is there already.
  abbrev pub NoChangeTable : World State → Type 0
  NoChangeTable w =
      (i : ℕ)
      → lookup i (before fs blob parse_list hash list_to_csv w) ≡ none
      → multi_read fs blob w.server (ct_path i) ≡ none

  after_listing-returns :
      (b : Builder V) (s : Session V State) (i : ℕ)
      → s.scenario.state ≡ create
      → s.info.id ≡ some i
      → multi_read fs blob s.world.server (ct_path i) ≡ none
      → Ready fs blob "ExecuteList.csv" s.world
      → ((upload_change_table fs blob pickle b
            then list_execution fs blob hash parse_execute execute_to_csv
            then finish)
          s).0
        ≡ ok tt
  unfolding first_code temp backup beside
  after_listing-returns b s i fresh named free ready =
      let status : Step (Session V State) =
        list_execution fs blob hash parse_execute execute_to_csv in
      let upload : Step (Session V State) = upload_change_table fs blob pickle b in
      let uploads = upload-returns fs blob pickle b s i named free in
      let info =
        (upload_change_table-ok fs blob pickle b s (upload s).1 i named (ground arith)).0 in
      let kept = upload_change_table-elsewhere fs blob pickle b s in
      let ready' =
        Ready-kept fs blob "ExecuteList.csv" s.world (upload s).1.world
          (kept "ExecuteList.csv" refl) (kept (temp "ExecuteList.csv") refl) ready in
      let stated =
        list_execution-scenario fs blob hash parse_execute execute_to_csv (upload s).1
        ∙ upload-scenario fs blob hash pickle b s in
      then-returns upload (status then finish) s uploads (
        then-returns status finish (upload s).1
          (list_execution-returns fs blob hash parse_execute execute_to_csv (upload s).1 i
            (ap (λ x. x.id) info ∙ named) ready')
          (finish-returns-ok (status (upload s).1).1 (ap (λ x. x.state) stated ∙ fresh)))

  from_listing-returns :
      (b : Builder V) (s : Session V State)
      → s.scenario.state ≡ create
      → Ready fs blob "ScenarioList.csv" s.world
      → Ready fs blob "ExecuteList.csv" s.world
      → NoChangeTable s.world
      → ((list_scenario fs blob hash parse_list list_to_csv
            then upload_change_table fs blob pickle b
            then list_execution fs blob hash parse_execute execute_to_csv
            then finish)
          s).0
        ≡ ok tt
  unfolding first_code temp backup beside
  from_listing-returns b s fresh ready_list ready_execute none_there =
      let list : Step (Session V State) = list_scenario fs blob hash parse_list list_to_csv in
      let next =
        upload_change_table fs blob pickle b
        then list_execution fs blob hash parse_execute execute_to_csv
        then finish in
      let lists = list_scenario-returns fs blob hash parse_list list_to_csv s ready_list in
      let (i, t, info, stated, unused, table, there) =
        list_scenario-ok fs blob hash parse_list list_to_csv s (list s).1 (ground arith) in
      let kept = list_scenario-elsewhere fs blob hash parse_list list_to_csv s in
      let free =
        multi_read-kept fs blob (list s).1.world.server s.world.server (ct_path i)
          (kept (ct_path i) (ne-ct_path i "ScenarioList.csv" refl)
            (beside-ct_path i "ScenarioList.csv" refl refl))
          (none_there i unused) in
      let ready' =
        Ready-kept fs blob "ExecuteList.csv" s.world (list s).1.world
          (kept "ExecuteList.csv" refl refl) (kept (temp "ExecuteList.csv") refl refl)
          ready_execute in
      then-returns list next s lists (
        after_listing-returns b (list s).1 i (ap (λ x. x.state) stated ∙ fresh)
          (ap (λ x. x.id) info) free ready')

  register-returns :
      (b : Builder V) (s : Session V State) (g : Grid V)
      → s.scenario.state ≡ create
      → get_grid reactance b.change_table.ct b.base_grid ≡ ok g
      → Ready fs blob "ScenarioList.csv" s.world
      → Ready fs blob "ExecuteList.csv" s.world
      → NoChangeTable s.world
      → (registers b s).0 ≡ ok tt
  unfolding register ◌then◌ add_details transform
  register-returns b s g fresh transformed ready_list ready_execute none_there =
      let s₁ = (add_details b s).1 in
      let s₂ = record s₁ { grid = some g; ct = some b.change_table.ct } in
      let world : s₂.world ≡ s.world = ground arith in
      let ran =
        from_listing-returns b s₂ (ground arith)
          (subst (Ready fs blob "ScenarioList.csv") (sym world) ready_list)
          (subst (Ready fs blob "ExecuteList.csv") (sym world) ready_execute)
          (subst NoChangeTable (sym world) none_there) in
      ground (arith, ran)

  module _ (load : String → String → Option String → Result (Grid V × Option String))
      (unpickle : C → Result (Ct V)) where
    -- A `create_scenario` that has done everything but the loading of the state execute, in `t`.
    pub record Reaches (b : Builder V) (s : Session V State) : Type 0 where
      pub t : Session V State
      pub stored :
          Stored reactance fs blob hash parse_list list_to_csv parse_execute execute_to_csv pickle b
            (update_scenario_info s)
            t
      pub then_loads :
          create_scenario reactance fs blob load unpickle hash parse_list list_to_csv parse_execute
            execute_to_csv pickle s
          ≡ set_ct_and_grid reactance fs blob load unpickle t

    -- If both lists are on the server with no upload of them in the way, and no change table is there for
    -- an id that no scenario has, then `create_scenario` with a builder, no field missing, and a
    -- change table that the grid takes writes both lists and the change table and puts the object in
    -- the state execute; its outcome is then that of loading the grid and the change table.
    pub create_scenario-Reaches :
        (b : Builder V) (s : Session V State) (g : Grid V)
        → s.scenario.state ≡ create
        → s.builder ≡ some b
        → missing (updated b s.info.fields) ≡ []
        → get_grid reactance b.change_table.ct b.base_grid ≡ ok g
        → Ready fs blob "ScenarioList.csv" s.world
        → Ready fs blob "ExecuteList.csv" s.world
        → NoChangeTable s.world
        → Reaches b s
    unfolding create_scenario update_scenario_info ◌then◌
    create_scenario-Reaches b s g fresh built full transformed ready_list ready_execute none_there =
        let begun = update_scenario_info s in
        let world : begun.world ≡ s.world = ground arith in
        let returns =
          register-returns b begun g (ground arith) transformed
            (subst (Ready fs blob "ScenarioList.csv") (sym world) ready_list)
            (subst (Ready fs blob "ExecuteList.csv") (sym world) ready_execute)
            (subst NoChangeTable (sym world) none_there) in
        let t = (registers b begun).1 in
        let run =
          register-Run reactance fs blob hash parse_list list_to_csv parse_execute execute_to_csv
            pickle b begun t (ground arith) (ground (arith, returns)) in
        record {
          t = t;
          stored =
              Run-Stored reactance fs blob hash parse_list list_to_csv parse_execute execute_to_csv
                pickle b begun t t run (Loads-refl t);
          then_loads = ground (arith, returns);
        }
