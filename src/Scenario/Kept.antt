-- ===== src/Scenario/Kept.antt =====
-- The steps of `prepare_simulation_input` in powersimdata/scenario/execute.py leave files that are there
-- alone.

use power_sim_data.Prelude.{
  ℕ, String, ◌≡◌, ap, ◌∙◌, inl, inr, Bool, false, not, Option, none, some, List, [], ◌∷◌, nat_eq,
  string_eq, ◌==◌, ==_iff, select, if◌then◌else◌, arith, Option-cases, Bool-cases,
}
use power_sim_data.Prelude.Dict.{Dict, keys}
use power_sim_data.Prelude.Result.{Result, Result-cases}
use power_sim_data.Prelude.Step.{◌then◌, then-keeps}
use power_sim_data.Ct.{FlexValue}
use power_sim_data.DataAccess.{FileSystem, World, multi_read, write_new}
use power_sim_data.DataAccess.Copies.{write_new_lem}
use power_sim_data.Scenario.Preparation.{
  base_kinds, in_tmp_folder, profile_path, copy_file, prepare_profile, prepare_profiles,
  prepare_grid, prepare_demand_flexibility_parameters, prepare_flexibility, prepare_files,
}

module _ {C : Type 0} (fs : FileSystem C) (blob : String → Option C) (p : String) (c : C) where
  open fs use {State, read, read-write}

  -- The file is on the server.
  abbrev pub There : World State → Type 0
  There w = read w.server p ≡ some c

  write_new-There :
      (path : String) (d : C) (save_local : Bool) (w : World State)
      → There w
      → There (write_new fs blob path d save_local w).1
  unfolding multi_read
  write_new-There path d save_local w h =
      let made = (write_new_lem fs blob path d save_local w p).1 in
      elim (Bool-cases (path == p)) [
        | inr other ↦ ground (arith, made, other)
        | inl same ↦
            let at_path = (==_iff path p).0 same in
            let taken = ap (λ q. read w.server q) at_path ∙ h in ground (arith, made, taken)
      ]

  copy_file-There :
      (src dest : String) (w : World State) → There w → There (copy_file fs blob src dest w).1
  unfolding copy_file multi_read
  copy_file-There src dest w h = elim (Option-cases (multi_read fs blob w.server src)) [
    | inl missing ↦ ground arith
    | inr (d, source) ↦ elim (Bool-cases (dest == p)) [
      | inr other ↦ ground (arith, read-write w.server dest p d)
      | inl same ↦
          let at_path = (==_iff dest p).0 same in
          let taken = ap (λ q. read w.server q) at_path ∙ h in ground (arith, taken)
    ]
  ]

  module _ (profile : String → Result C) where
    prepare_profile-There :
        (i : ℕ) (profiles_as : Option ℕ) (kind : String) (w : World State)
        → There w
        → There (prepare_profile fs blob profile i profiles_as kind w).1
    unfolding prepare_profile
    prepare_profile-There i (some j) kind w h =
        copy_file-There (profile_path j kind) (profile_path i kind) w h
    prepare_profile-There i none kind w h = elim (Result-cases (profile kind)) [
      | inr (x, e) ↦ ground (arith, e)
      | inl (d, e) ↦
          let kept = write_new-There (profile_path i kind) d false w h in ground (arith, e, kept)
    ]

    pub prepare_profiles-There :
        (i : ℕ) (profiles_as : Option ℕ) (kinds : List String) (w : World State)
        → There w
        → There (prepare_profiles fs blob profile i profiles_as kinds w).1
    unfolding prepare_profiles
    prepare_profiles-There i profiles_as [] w h = h
    prepare_profiles-There i profiles_as (kind ∷ kinds) w h =
        then-keeps There (prepare_profile fs blob profile i profiles_as kind)
          (prepare_profiles fs blob profile i profiles_as kinds)
          (prepare_profile-There i profiles_as kind) (prepare_profiles-There i profiles_as kinds) w
          h

    module _ (grid_file : Result C) (flexibility_csv : Option FlexValue → C) where
      pub prepare_grid-There :
          (i : ℕ) (w : World State)
          → There w
          → There (prepare_grid fs blob profile grid_file flexibility_csv i w).1
      unfolding prepare_grid
      prepare_grid-There i w h = elim (Result-cases grid_file) [
        | inr (x, e) ↦ ground (arith, e)
        | inl (d, e) ↦
            let kept = write_new-There (in_tmp_folder i "grid.pkl") d false w h in
            ground (arith, e, kept)
      ]

      pub prepare_flexibility-There :
          (i : ℕ) (profiles_as : Option ℕ) (flex : Option (Dict String FlexValue)) (w : World State)
          → There w
          → There
              (prepare_flexibility fs blob profile grid_file flexibility_csv i profiles_as flex w).1
      unfolding prepare_flexibility prepare_demand_flexibility_parameters
      prepare_flexibility-There i profiles_as none w h = h
      prepare_flexibility-There i profiles_as (some flex) w h =
          then-keeps There
            (prepare_profiles fs blob profile i profiles_as
              (select (λ p. not (p == "demand_flexibility_duration")) (keys flex)))
            (prepare_demand_flexibility_parameters fs blob profile grid_file flexibility_csv i flex)
            (prepare_profiles-There i profiles_as _)
            (write_new-There (in_tmp_folder i "demand_flexibility_parameters.csv") _ false) w h

      pub prepare_files-There :
          (i : ℕ) (profiles_as : Option ℕ) (flex : Option (Dict String FlexValue)) (w : World State)
          → There w
          → There (prepare_files fs blob profile grid_file flexibility_csv i profiles_as flex w).1
      unfolding prepare_files
      prepare_files-There i profiles_as flex w h =
          then-keeps There (prepare_profiles fs blob profile i profiles_as base_kinds)
            (prepare_grid fs blob profile grid_file flexibility_csv i
              then prepare_flexibility fs blob profile grid_file flexibility_csv i profiles_as flex)
            (prepare_profiles-There i profiles_as base_kinds)
            (then-keeps There (prepare_grid fs blob profile grid_file flexibility_csv i)
              (prepare_flexibility fs blob profile grid_file flexibility_csv i profiles_as flex)
              (prepare_grid-There i) (prepare_flexibility-There i profiles_as flex))
            w h
