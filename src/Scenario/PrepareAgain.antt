-- ===== src/Scenario/PrepareAgain.antt =====
-- A `prepare_simulation_input` of powersimdata/scenario/execute.py after one that raised.

use power_sim_data.Prelude.{
  ℕ, String, ◌≡◌, ◌⊎◌, sym, ◌∙◌, subst, inl, inr, false, Option, none, some, [], ◌∷◌, Eq, nat_eq,
  string_eq, ==_refl, if◌then◌else◌, arith, Option-cases,
}
use power_sim_data.Prelude.Dict.{Dict}
use power_sim_data.Prelude.Result.{Error, Result, ok, raise, os_error}
use power_sim_data.Prelude.Step.{Step, ◌then◌, then-keeps, then-after, then-stops}
use power_sim_data.Ct.{FlexValue}
use power_sim_data.DataAccess.{FileSystem, World, multi_read, write_new}
use power_sim_data.DataAccess.Copies.{write_new_lem}
use power_sim_data.CsvStore.{Table}
use power_sim_data.CsvStore.Laws.{server-get_table}
use power_sim_data.ExecuteList.{get_status}
use power_sim_data.Scenario.Prepared.{set_prepared-kept}
use power_sim_data.Scenario.Kept.{
  There, prepare_profiles-There, prepare_grid-There, prepare_flexibility-There,
}
use power_sim_data.Scenario.Preparation.{
  base_kinds, profile_path, prepare_profile, prepare_profiles, prepare_grid, prepare_flexibility,
  prepare_files, set_prepared, prepare_simulation_input,
}

module _ {C H : Type 0} (fs : FileSystem C) (blob : String → Option C) (profile : String → Result C)
    (grid_file : Result C) (flexibility_csv : Option FlexValue → C) ⦃e : Eq H⦄ (hash : C → H)
    (parse : C → Option (Table String)) (to_csv : Table String → C) (i : ℕ) where
  open fs use {State, read}

  abbrev demand : String
  demand = profile_path i "demand"

  -- The demand profile is there, on the server or in a blob container.
  Taken : World State → Type 0
  Taken w = ((b : C) × (blob demand ≡ some b)) ⊎ ((c : C) × (read w.server demand ≡ some c))

  -- Whatever keeps a file on the server keeps the profile taken.
  Taken-kept :
      (step : Step (World State))
      → ((c : C) (w : World State) → There fs blob demand c w → There fs blob demand c (step w).1)
      → (w : World State) → Taken w
      → Taken (step w).1
  unfolding Taken
  Taken-kept step keeps w (inl in_blob) = inl in_blob
  Taken-kept step keeps w (inr (c, there)) = inr (c, keeps c w there)

  write_new-Taken : (c : C) (w : World State) → Taken (write_new fs blob demand c false w).1
  unfolding Taken multi_read
  write_new-Taken c w =
      let made = (write_new_lem fs blob demand c false w demand).1 in
      elim (Option-cases (read w.server demand)) [
        | inr (d, there) ↦ inr (d, ground (arith, made, there))
        | inl missing ↦ elim (Option-cases (blob demand)) [
          | inr (b, in_blob) ↦ inl (b, in_blob)
          | inl nowhere ↦ inr (c, ground (arith, made, missing, nowhere, ==_refl demand))
        ]
      ]

  write_new-refused :
      (c : C) (w : World State) → Taken w → (write_new fs blob demand c false w).0 ≡ raise os_error
  unfolding Taken multi_read
  write_new-refused c w (inl (b, in_blob)) =
      let made = (write_new_lem fs blob demand c false w demand).0 in
      elim (Option-cases (read w.server demand)) [
        | inr (d, there) ↦ ground (arith, made, there)
        | inl missing ↦ ground (arith, made, missing, in_blob)
      ]
  write_new-refused c w (inr (d, there)) =
      let made = (write_new_lem fs blob demand c false w demand).0 in ground (arith, made, there)

  abbrev first : Step (World State)
  first = prepare_profile fs blob profile i none "demand"

  abbrev others : Step (World State)
  others = prepare_profiles fs blob profile i none ("hydro" ∷ "solar" ∷ "wind" ∷ [])

  abbrev finish : Option (Dict String FlexValue) → Step (World State)
  finish flex =
      prepare_grid fs blob profile grid_file flexibility_csv i
      then prepare_flexibility fs blob profile grid_file flexibility_csv i none flex

  abbrev sets : Step (World State)
  sets = set_prepared fs blob profile grid_file flexibility_csv hash parse to_csv i

  abbrev prepares : Option (Dict String FlexValue) → Step (World State)
  prepares =
      prepare_simulation_input fs blob profile grid_file flexibility_csv hash parse to_csv i none

  finish-Taken :
      (flex : Option (Dict String FlexValue)) (w : World State) → Taken w → Taken (finish flex w).1
  finish-Taken flex = Taken-kept (finish flex) (λ d.
      then-keeps (There fs blob demand d) (prepare_grid fs blob profile grid_file flexibility_csv i)
        (prepare_flexibility fs blob profile grid_file flexibility_csv i none flex)
        (prepare_grid-There fs blob demand d profile grid_file flexibility_csv i)
        (prepare_flexibility-There fs blob demand d profile grid_file flexibility_csv i none flex))

  sets-Taken : (w : World State) → Taken w → Taken (sets w).1
  unfolding profile_path
  sets-Taken = Taken-kept sets (λ c w there.
      set_prepared-kept fs blob profile grid_file flexibility_csv hash parse to_csv i "demand.csv" w
      ∙ there)

  first-Taken : (c : C) (w : World State) → profile "demand" ≡ ok c → Taken (first w).1
  unfolding prepare_profile
  first-Taken c w known =
      let same : (first w).1 ≡ (write_new fs blob demand c false w).1 = ground (arith, known) in
      subst Taken (sym same) (write_new-Taken c w)

  abbrev files : Option (Dict String FlexValue) → Step (World State)
  files = prepare_files fs blob profile grid_file flexibility_csv i none

  profiles-Taken :
      (c : C) (w : World State)
      → profile "demand" ≡ ok c
      → Taken (prepare_profiles fs blob profile i none base_kinds w).1
  unfolding prepare_profiles
  profiles-Taken c w known = then-after Taken first others w (first-Taken c w known) (
      Taken-kept others (λ d.
        prepare_profiles-There fs blob demand d profile i none ("hydro" ∷ "solar" ∷ "wind" ∷ [])))

  -- After a preparation that was begun, whether it has gone through or not.
  begun-Taken :
      (c : C) (flex : Option (Dict String FlexValue)) (w : World State)
      → profile "demand" ≡ ok c
      → Taken ((files flex then sets) w).1
  unfolding prepare_files
  begun-Taken c flex w known =
      then-after Taken (files flex) sets w
        (then-after Taken (prepare_profiles fs blob profile i none base_kinds) (finish flex) w
          (profiles-Taken c w known) (finish-Taken flex))
        sets-Taken

  first-refused :
      (c : C) (w : World State) → profile "demand" ≡ ok c → Taken w → (first w).0 ≡ raise os_error
  unfolding prepare_profile
  first-refused c w known taken = ground (arith, known, write_new-refused c w taken)

  files-refused :
      (c : C) (flex : Option (Dict String FlexValue)) (w : World State)
      → profile "demand" ≡ ok c
      → Taken w
      → ((files flex then sets) w).0 ≡ raise os_error
  unfolding prepare_files prepare_profiles
  files-refused c flex w known taken = then-stops (files flex) sets w os_error (
      then-stops (prepare_profiles fs blob profile i none base_kinds) (finish flex) w os_error
        (then-stops first others w os_error (first-refused c w known taken)))

  Taken-same : (w w' : World State) → w'.server ≡ w.server → Taken w → Taken w'
  unfolding Taken
  Taken-same w w' same (inl in_blob) = inl in_blob
  Taken-same w w' same (inr (c, there)) = inr (c, ground (arith, same, there))

  server-get_status :
      (j : ℕ) (w : World State) → (get_status fs blob parse hash to_csv j w).1.server ≡ w.server
  unfolding get_status
  server-get_status j w = server-get_table fs blob parse "ExecuteList.csv" w

  -- If a preparation without another scenario's profiles of a scenario whose status is "created" raises, and
  -- the demand profile could be computed, then every later one, from whichever client, raises an
  -- OSError as long as the status is still "created".
  pub prepare_simulation_input-again :
      (c : C) (flex later : Option (Dict String FlexValue)) (w w' v : World State) (x : Error)
      → profile "demand" ≡ ok c
      → (get_status fs blob parse hash to_csv i w).0 ≡ ok "created"
      → prepares flex w ≡ (raise x, w')
      → v.server ≡ w'.server
      → (get_status fs blob parse hash to_csv i v).0 ≡ ok "created"
      → (prepares later v).0 ≡ raise os_error
  unfolding prepare_simulation_input Taken
  prepare_simulation_input-again c flex later w w' v x known created h same still =
      let begin = (get_status fs blob parse hash to_csv i w).1 in
      let begin' = (get_status fs blob parse hash to_csv i v).1 in
      let ended : ((files flex then sets) begin).1 ≡ w' = ground (arith, created) in
      let quiet = server-get_status i v in
      let at_end : Taken w' = subst Taken ended (begun-Taken c flex begin known) in
      let now : Taken begin' = Taken-same w' begin' (quiet ∙ same) at_end in
      ground (arith, still, files-refused c later begin' known now)
