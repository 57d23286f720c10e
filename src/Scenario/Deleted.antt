-- ===== src/Scenario/Deleted.antt =====
-- What `delete_scenario` of powersimdata/scenario/delete.py leaves in the two lists.
use Prim.Native.String.{◌++◌ as append}
use power_sim_data.Prelude.{
  ℕ, String, ◌≡◌, refl, inl, inr, Bool, true, false, Option, none, some, Eq, nat_eq, string_eq,
  ◌==◌, List, [], ◌∷◌, contains, if◌then◌else◌, arith, Bool-cases,
}
use power_sim_data.Prelude.Dict.{lookup}
use power_sim_data.Prelude.Result.{Result, ok}
use power_sim_data.DataAccess.{FileSystem, World}
use power_sim_data.CsvStore.{Table}
use power_sim_data.ScenarioList.{Row}
use power_sim_data.ScenarioList
use power_sim_data.ScenarioList.Entries
use power_sim_data.ExecuteList
use power_sim_data.ExecuteList.Laws
use power_sim_data.Scenario.Creation.{decimal}
use power_sim_data.Scenario.Deletion.{go_on, remove, remove_files, delete_entries, delete_scenario}

module _ {C : Type 0} (fs : FileSystem C) (answer : String → String → Bool)
    (purge : fs.State → String → String → fs.State) {H : Type 0} (blob : String → Option C)
    ⦃e : Eq H⦄ (hash : C → H) (parse_list : C → Option (Table Row)) (list_to_csv : Table Row → C)
    (parse_execute : C → Option (Table String)) (execute_to_csv : Table String → C) where
  open fs use {State, read}

  abbrev deletes : ℕ → Bool → World State → Result Bool × World State
  deletes =
      delete_scenario fs answer purge blob hash parse_list list_to_csv parse_execute execute_to_csv

  -- The lists without a scenario; `w` is the state in which its entries were deleted.
  pub record Deleted (i : ℕ) (w w' : World State) : Type 0 where
    pub scenarios : Table Row
    pub statuses : Table String
    pub scenario_list : read w'.server "ScenarioList.csv" ≡ some (list_to_csv scenarios)
    pub execute_list : read w'.server "ExecuteList.csv" ≡ some (execute_to_csv statuses)
    pub only_scenario :
        (j : ℕ)
        → lookup j scenarios ≡ (
            if i == j
            then none
            else lookup j (ScenarioList.Entries.before fs blob parse_list hash list_to_csv w))
    pub no_status : lookup i statuses ≡ none

  -- The directories that `delete_scenario` removes files from.
  abbrev pub directories : List String
  directories = "data/input" ∷ "data/output" ∷ "tmp" ∷ []

  remove-kept :
      (p : String)
      → ((s : State) (base_dir pattern : String)
          → contains directories base_dir ≡ true
          → read (purge s base_dir pattern) p ≡ read s p)
      → (base_dir pattern : String) (confirm : Bool) (w : World State)
      → contains directories base_dir ≡ true
      → read (remove fs answer purge base_dir pattern confirm w).1.server p ≡ read w.server p
  unfolding remove
  remove-kept p apart base_dir pattern confirm w inside =
      ground (arith, apart w.server base_dir pattern inside)

  go_on-kept :
      (p : String) (s : State) (r : Bool × World State) (next : World State → Bool × World State)
      → read r.1.server p ≡ read s p
      → ((w : World State) → read (next w).1.server p ≡ read w.server p)
      → read (go_on r next).1.server p ≡ read s p
  unfolding go_on
  go_on-kept p s r next before_it kept = ground (arith, before_it, kept r.1)

  remove_files-kept :
      (p : String)
      → ((s : State) (base_dir pattern : String)
          → contains directories base_dir ≡ true
          → read (purge s base_dir pattern) p ≡ read s p)
      → (i : ℕ) (confirm : Bool) (w : World State)
      → read (remove_files fs answer purge i confirm w).1.server p ≡ read w.server p
  unfolding remove_files
  remove_files-kept p apart i confirm w =
      let own = append (decimal i) "_*" in
      go_on-kept p w.server
        (go_on (remove fs answer purge "data/input" own confirm w)
          (remove fs answer purge "data/output" own confirm))
        (remove fs answer purge "tmp" (append "scenario_" (append (decimal i) "/*")) confirm)
        (go_on-kept p w.server (remove fs answer purge "data/input" own confirm w)
          (remove fs answer purge "data/output" own confirm)
          (remove-kept p apart "data/input" own confirm w refl)
          (λ v. remove-kept p apart "data/output" own confirm v refl))
        (λ v.
          remove-kept p apart "tmp" (append "scenario_" (append (decimal i) "/*")) confirm v refl)

  remove_files-asks :
      (i : ℕ) (confirm : Bool) (w : World State)
      → (remove_files fs answer purge i confirm w).0 ≡ false
      → confirm ≡ true
  unfolding remove_files remove go_on
  remove_files-asks i true w h = refl
  remove_files-asks i false w h = ground arith

  -- If the removal of files from data/input, data/output and tmp touches neither list, which lie at the root, a
  -- deletion that was cancelled had asked, and has left both lists as they were.
  pub delete_scenario-cancelled :
      (i : ℕ) (confirm : Bool) (w w' : World State)
      → ((s : State) (base_dir pattern : String)
          → contains directories base_dir ≡ true
          → (read (purge s base_dir pattern) "ScenarioList.csv" ≡ read s "ScenarioList.csv")
            × (read (purge s base_dir pattern) "ExecuteList.csv" ≡ read s "ExecuteList.csv"))
      → deletes i confirm w ≡ (ok false, w')
      → (confirm ≡ true)
        × (read w'.server "ScenarioList.csv" ≡ read w.server "ScenarioList.csv")
        × (read w'.server "ExecuteList.csv" ≡ read w.server "ExecuteList.csv")
  unfolding delete_scenario delete_entries
  delete_scenario-cancelled i confirm w w' apart h =
      let ran = remove_files fs answer purge i confirm w in
      elim (Bool-cases ran.0) [
        | inl proceeds ↦ ground arith
        | inr refused ↦
            let list =
              remove_files-kept "ScenarioList.csv" (λ s b p d. (apart s b p d).0) i confirm w in
            let statuses =
              remove_files-kept "ExecuteList.csv" (λ s b p d. (apart s b p d).1) i confirm w in
            (remove_files-asks i confirm w refused, ground (arith, list), ground (arith, statuses))
      ]
