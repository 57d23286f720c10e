-- ===== src/Scenario/Deletion.antt =====
-- `delete_scenario` of powersimdata/scenario/delete.py, with `DataAccess.remove` of
-- powersimdata/data_access/data_access.py. The answers at the console are an argument, and so is the
-- removal of the files that match a pattern, which the package fs does on both disks.
use Prim.Native.String.{◌++◌ as append}
use power_sim_data.Prelude.{
  ℕ, String, Bool, true, false, not, ◌&&◌, Option, Eq, nat_eq, string_eq, if◌then◌else◌,
}
use power_sim_data.Prelude.Result.{Result, ok, raise}
use power_sim_data.DataAccess.{FileSystem, World}
use power_sim_data.CsvStore.{Table}
use power_sim_data.ScenarioList.{Row, drop_row}
use power_sim_data.ScenarioList
use power_sim_data.ExecuteList
use power_sim_data.Scenario.Creation.{decimal}

-- `if proceed: proceed = …`
unfoldable pub go_on : {W : Type 0} → Bool × W → (W → Bool × W) → Bool × W
go_on (proceed, w) next = if proceed then next w else (proceed, w)

module _ {C : Type 0} (fs : FileSystem C) (answer : String → String → Bool)
    (purge : fs.State → String → String → fs.State) where
  open fs use {State}

  -- Whether the files were removed.
  unfoldable pub remove : String → String → Bool → World State → Bool × World State
  remove base_dir pattern confirm w =
      if confirm && not (answer base_dir pattern) then (false, w) else (
        true,
        record { server = purge w.server base_dir pattern; local = purge w.local base_dir pattern },
      )

  -- The three calls of `remove`, as long as each goes ahead.
  unfoldable pub remove_files : ℕ → Bool → World State → Bool × World State
  unfolding remove go_on
  remove_files i confirm w =
      let own = append (decimal i) "_*" in
      go_on (go_on (remove "data/input" own confirm w) (remove "data/output" own confirm))
        (remove "tmp" (append "scenario_" (append (decimal i) "/*")) confirm)

  module _ {H : Type 0} (blob : String → Option C) ⦃e : Eq H⦄ (hash : C → H)
      (parse_list : C → Option (Table Row)) (list_to_csv : Table Row → C)
      (parse_execute : C → Option (Table String)) (execute_to_csv : Table String → C) where
    unfoldable pub delete_entries : ℕ → World State → Result Bool × World State
    delete_entries i w =
        let (r₁, w₁) = ScenarioList.delete_entry fs blob parse_list hash list_to_csv i w in
        let (r₂, w₂) = ExecuteList.delete_entry fs blob parse_execute hash execute_to_csv i w₁ in
        elim r₁ [
          | raise x ↦ (raise x, w₁)
          | ok t ↦ elim r₂ [ raise x ↦ (raise x, w₂) | ok u ↦ (ok true, w₂) ]
        ]

    -- The result tells whether the scenario was deleted.
    unfoldable pub delete_scenario : ℕ → Bool → World State → Result Bool × World State
    unfolding remove_files delete_entries
    delete_scenario i confirm w =
        let (proceed, w') = remove_files i confirm w in
        if proceed then delete_entries i w' else (ok false, w')
