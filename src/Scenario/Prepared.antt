-- ===== src/Scenario/Prepared.antt =====
-- What `prepare_simulation_input` of powersimdata/scenario/execute.py leaves on the server.
use Prim.Native.String.append
use Prim.Native.String.{◌++◌ as append_text}
use power_sim_data.Prelude.{
  ℕ, String, ◌≡◌, refl, sym, ap, ◌∙◌, subst, inl, inr, false, Option, none, some, List, [], ◌∷◌, Eq,
  nat_eq, string_eq, ◌==◌, ==_iff, ==_refl, All, if◌then◌else◌, arith, Bool-cases,
}
use power_sim_data.Prelude.Dict.{Dict, insert}
use power_sim_data.Prelude.Result.{Result, ok, Result-cases}
use power_sim_data.Prelude.Step.{Step, ◌then◌, then-ok}
use power_sim_data.Ct.{FlexValue}
use power_sim_data.DataAccess.{FileSystem, World, temp, backup, lock_file, beside, write_new}
use power_sim_data.DataAccess.Copies.{write_new_lem}
use power_sim_data.CsvStore.{Table, get_table}
use power_sim_data.CsvStore.Laws.{server-get_table}
use power_sim_data.CsvStore.Elsewhere.{verify_hash-elsewhere}
use power_sim_data.ExecuteList.{get_status, set_status}
use power_sim_data.Scenario.Creation.{decimal}
use power_sim_data.Scenario.Steps.{first_code}
use power_sim_data.Scenario.Kept.{
  prepare_profiles-There, prepare_grid-There, prepare_flexibility-There,
}
use power_sim_data.Scenario.Gates.{check_if_ready, set_status-gates}
use power_sim_data.Scenario.Preparation.{
  base_kinds, tmp_folder, in_tmp_folder, profile_path, prepare_profile, prepare_profiles,
  prepare_grid, prepare_flexibility, prepare_files, set_prepared, prepare_simulation_input,
}

first_code-in_tmp_folder : (i : ℕ) (file : String) → first_code (in_tmp_folder i file) ≡ 116
unfolding in_tmp_folder tmp_folder first_code
first_code-in_tmp_folder i file =
    let below = append_text "/" file in
    let rest = append_text "mp/scenario_" (decimal i) in
    ap (λ t. first_code (append_text t below)) (append.cons _ "mp/scenario_" (decimal i))
    ∙ ap first_code (append.cons _ rest below)

-- A path in the folder of a scenario starts with a small t.
not_execute_list :
    (i : ℕ) (file p : String) → (first_code p == 116) ≡ false → (p == in_tmp_folder i file) ≡ false
unfolding in_tmp_folder tmp_folder first_code
not_execute_list i file p starts = elim (Bool-cases (p == in_tmp_folder i file)) [
  | inr other ↦ other
  | inl is_path ↦
      let same = ap first_code ((==_iff p (in_tmp_folder i file)).0 is_path) in
      ground (arith, first_code-in_tmp_folder i file, same, starts)
]

module _ {C : Type 0} (fs : FileSystem C) (blob : String → Option C)
    (profile : String → Result C) where
  open fs use {State, read}

  -- The profile of a kind is on the server, with what was computed for it.
  abbrev pub HasProfile : ℕ → State → String → Type 0
  HasProfile i server kind =
      (c : C) × (profile kind ≡ ok c) × (read server (profile_path i kind) ≡ some c)

  written :
      (path : String) (c : C) (w w' : World State)
      → write_new fs blob path c false w ≡ (ok tt, w')
      → read w'.server path ≡ some c
  written path c w w' h =
      let made = write_new_lem fs blob path c false w path in
      ground (arith, made.0, made.1, ==_refl path)

  prepare_profile-ok :
      (i : ℕ) (kind : String) (w w' : World State)
      → prepare_profile fs blob profile i none kind w ≡ (ok tt, w')
      → HasProfile i w'.server kind
  unfolding prepare_profile
  prepare_profile-ok i kind w w' h = elim (Result-cases (profile kind)) [
    | inr (x, e) ↦ ground (arith, e)
    | inl (c, e) ↦ (c, e, written (profile_path i kind) c w w' (ground (arith, e)))
  ]

  prepare_profiles-ok :
      (i : ℕ) (kinds : List String) (w w' : World State)
      → prepare_profiles fs blob profile i none kinds w ≡ (ok tt, w')
      → All (HasProfile i w'.server) kinds
  unfolding prepare_profiles
  prepare_profiles-ok i [] w w' h = tt
  prepare_profiles-ok i (kind ∷ kinds) w w' h =
      then-ok (prepare_profile fs blob profile i none kind)
        (prepare_profiles fs blob profile i none kinds) w w' h
        λ w₁ first rest.
          let (c, known, there) = prepare_profile-ok i kind w w₁ first in
          let kept =
            prepare_profiles-There fs blob (profile_path i kind) c profile i none kinds w₁ there in
          ((c, known, ground (arith, kept)), prepare_profiles-ok i kinds w₁ w' rest)

  module _ (grid_file : Result C) (flexibility_csv : Option FlexValue → C) where
    abbrev pub HasGrid : ℕ → State → Type 0
    HasGrid i server =
        (c : C) × (grid_file ≡ ok c) × (read server (in_tmp_folder i "grid.pkl") ≡ some c)

    prepare_grid-ok :
        (i : ℕ) (w w' : World State)
        → prepare_grid fs blob profile grid_file flexibility_csv i w ≡ (ok tt, w')
        → HasGrid i w'.server
    unfolding prepare_grid
    prepare_grid-ok i w w' h = elim (Result-cases grid_file) [
      | inr (x, e) ↦ ground (arith, e)
      | inl (c, e) ↦ (c, e, written (in_tmp_folder i "grid.pkl") c w w' (ground (arith, e)))
    ]

    -- A profile stays.
    HasProfile-kept :
        (i : ℕ) (w w' : World State) (step : Step (World State))
        → ((file : String) (c : C) (u : World State)
            → read u.server (in_tmp_folder i file) ≡ some c
            → read (step u).1.server (in_tmp_folder i file) ≡ some c)
        → step w ≡ (ok tt, w')
        → (kinds : List String) → All (HasProfile i w.server) kinds
        → All (HasProfile i w'.server) kinds
    unfolding profile_path
    HasProfile-kept i w w' step keeps h [] had = tt
    HasProfile-kept i w w' step keeps h (kind ∷ kinds) ((c, known, there), had) =
        let kept = keeps (append_text kind ".csv") c w there in
        ((c, known, ground (arith, kept)), HasProfile-kept i w w' step keeps h kinds had)

    prepare_files-ok :
        (i : ℕ) (flex : Option (Dict String FlexValue)) (w w' : World State)
        → prepare_files fs blob profile grid_file flexibility_csv i none flex w ≡ (ok tt, w')
        → All (HasProfile i w'.server) base_kinds × HasGrid i w'.server
    unfolding prepare_files
    prepare_files-ok i flex w w' h =
        let grid_step : Step (World State) =
          prepare_grid fs blob profile grid_file flexibility_csv i in
        let last : Step (World State) =
          prepare_flexibility fs blob profile grid_file flexibility_csv i none flex in
        then-ok (prepare_profiles fs blob profile i none base_kinds) (grid_step then last) w w' h
          λ w₁ profiles h₁. then-ok grid_step last w₁ w' h₁ λ w₂ made ended.
            let (c, known, there) = prepare_grid-ok i w₁ w₂ made in
            let kept =
              prepare_flexibility-There fs blob (in_tmp_folder i "grid.pkl") c profile grid_file
                flexibility_csv i none flex w₂ there in
            let had = prepare_profiles-ok i base_kinds w w₁ profiles in
            let had₂ =
              HasProfile-kept i w₁ w₂ grid_step
                (λ file d u t.
                  prepare_grid-There fs blob (in_tmp_folder i file) d profile grid_file
                    flexibility_csv i u t)
                made base_kinds had in
            (
              HasProfile-kept i w₂ w' last
                  (λ file d u t.
                    prepare_flexibility-There fs blob (in_tmp_folder i file) d profile grid_file
                      flexibility_csv i none flex u t)
                  ended base_kinds had₂,
              (c, known, ground (arith, kept)),
            )

    module _ {H : Type 0} ⦃e : Eq H⦄ (hash : C → H) (parse : C → Option (Table String))
        (to_csv : Table String → C) where
      abbrev pub prepares : ℕ → Option ℕ → Option (Dict String FlexValue) → Step (World State)
      prepares =
          prepare_simulation_input fs blob profile grid_file flexibility_csv hash parse to_csv

      abbrev pub sets : ℕ → Step (World State)
      sets = set_prepared fs blob profile grid_file flexibility_csv hash parse to_csv

      pub set_prepared-kept :
          (i : ℕ) (file : String) (u : World State)
          → read (sets i u).1.server (in_tmp_folder i file) ≡ read u.server (in_tmp_folder i file)
      unfolding set_prepared set_status temp backup beside first_code
      set_prepared-kept i file u =
          let kept =
            verify_hash-elsewhere fs blob parse hash to_csv "ExecuteList.csv" (in_tmp_folder i file)
              (not_execute_list i file "ExecuteList.csv" refl)
              (ground (
                arith,
                not_execute_list i file (temp "ExecuteList.csv") refl,
                not_execute_list i file (backup "ExecuteList.csv") refl,
                not_execute_list i file lock_file refl,
              ))
              (λ w.
                let (t, w') = get_table fs blob parse "ExecuteList.csv" w in
                (ok (insert i "prepared" t), w'))
              u (server-get_table fs blob parse "ExecuteList.csv" u) in
          ground (arith, kept)

      set_prepared-ok :
          (i : ℕ) (u w' : World State)
          → sets i u ≡ (ok tt, w')
          → (t : Table String) × (set_status fs blob parse hash to_csv i "prepared" u ≡ (ok t, w'))
      unfolding set_prepared
      set_prepared-ok i u w' h =
          elim (Result-cases (set_status fs blob parse hash to_csv i "prepared" u).0) [
            | inl (t, set) ↦ (t, ground arith)
            | inr (x, failed) ↦ ground arith
          ]

      -- If csv is read back as it was printed, then a preparation without another scenario's profiles of a
      -- scenario whose status is "created", once it has gone through, has put the four profiles and the grid
      -- on the server, and whichever client asks may launch the scenario.
      pub prepare_simulation_input-ok :
          (i : ℕ) (flex : Option (Dict String FlexValue)) (w w' v : World State)
          → ((u : Table String) → parse (to_csv u) ≡ some u)
          → (get_status fs blob parse hash to_csv i w).0 ≡ ok "created"
          → prepares i none flex w ≡ (ok tt, w')
          → v.server ≡ w'.server
          → ((check_if_ready fs blob parse hash to_csv i v).0 ≡ ok tt)
            × All (HasProfile i v.server) base_kinds
            × HasGrid i v.server
      unfolding prepare_simulation_input
      prepare_simulation_input-ok i flex w w' v reads created h same =
          let start = (get_status fs blob parse hash to_csv i w).1 in
          let files : Step (World State) =
            prepare_files fs blob profile grid_file flexibility_csv i none flex in
          then-ok files (sets i) start w' (ground arith) λ u made set.
            let (t, status_set) = set_prepared-ok i u w' set in
            let (had, (c, known, there)) = prepare_files-ok i flex start u made in
            let kept = set_prepared-kept i "grid.pkl" u in
            let gates =
              set_status-gates fs blob parse hash to_csv i "prepared" u w' v t reads status_set
                same in
            let all =
              HasProfile-kept i u w' (sets i) (λ file d x t. set_prepared-kept i file x ∙ t) set
                base_kinds had in
            (
              gates.0,
              subst (λ server. All (HasProfile i server) base_kinds) (sym same) all,
              (c, known, ground (arith, kept)),
            )
