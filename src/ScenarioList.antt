-- ===== src/ScenarioList.antt =====
-- powersimdata/data_access/scenario_list.py: the list of scenarios and their ids.
pub mod Laws
pub mod Entries
mod Tests
use Prim.Native.Nat.{max}
use power_sim_data.Prelude.{
  ℕ, ◌+◌, String, Bool, true, false, Option, none, some, List, [], ◌∷◌, ◌++◌, Eq, nat_eq, string_eq,
  ◌==◌, select, if◌then◌else◌,
}
use power_sim_data.Prelude.Dict.{Dict, lookup, remove}
use power_sim_data.Prelude.Result.{Result, ok, raise, key_error}
use power_sim_data.DataAccess.{FileSystem, World, checksum}
use power_sim_data.CsvStore.{Table, get_table, verify_hash}

-- The columns of a row, but for its id.
abbrev pub Row : Type 0
Row = Dict String String

-- `scenario_info`, whose key "id" is a number in decimal.
pub record Info : Type 0 where
  pub id : Option ℕ
  pub fields : Row

abbrev pub file_name : String
file_name = "ScenarioList.csv"

-- `table.index.max()`, which is NaN for an empty table.
unfoldable pub max_index : Table Row → Option ℕ
max_index [] = none
max_index ((i, r) ∷ t) = elim (max_index t) [ none ↦ some i | some m ↦ some (max i m) ]

unfoldable pub generate_scenario_id : Table Row → ℕ
unfolding max_index
generate_scenario_id t = elim (max_index t) [ none ↦ 1 | some m ↦ m + 1 ]

-- What `int(descriptor)` makes of it: a number, or a ValueError.
pub data Descriptor : Type 0 where
  by_id : ℕ → Descriptor
  by_name : String → Descriptor

unfoldable pub matches : Descriptor → ℕ × Row → Bool
matches (by_id n) (i, r) = i == n
matches (by_name s) (i, r) = elim (lookup "name" r) [ none ↦ false | some name ↦ name == s ]

-- Exactly one row, or nothing.
only_match : Table Row → Option Info
only_match [] = none
only_match ((i, r) ∷ []) = some (record { id = some i; fields = r })
only_match (_ ∷ _ ∷ _) = none

unfoldable pub find_scenario : Table Row → Descriptor → Option Info
unfolding matches only_match
find_scenario t d = only_match (select (matches d) t)

-- The row that `add_entry` appends. What the cells of columns that one side lacks become is left to the
-- printing and the parsing.
unfoldable pub with_entry : Table Row → ℕ → Row → Table Row
with_entry t i r = t ++ (i, r) ∷ []

-- `table.drop(int(scenario_id))`
unfoldable pub drop_row : {R : Type 0} → ℕ → Table R → Result (Table R)
drop_row i t = elim (lookup i t) [ none ↦ raise key_error | some r ↦ ok (remove i t) ]

module _ {C H : Type 0} (fs : FileSystem C) (blob : String → Option C)
    (parse : C → Option (Table Row)) ⦃e : Eq H⦄ (hash : C → H) (to_csv : Table Row → C) where
  open fs use {State}

  unfoldable pub get_scenario : Descriptor → World State → Option Info × World State
  unfolding find_scenario
  get_scenario d w = let (t, w') = get_table fs blob parse file_name w in (find_scenario t d, w')

  -- The body of `add_entry`, under `verify_hash`.
  unfoldable pub appended : Row → World State → Result (Table Row) × World State
  unfolding generate_scenario_id with_entry
  appended r w =
      let (t, w') = get_table fs blob parse file_name w in
      (ok (with_entry t (generate_scenario_id t) r), w')

  -- `scenario_info["id"]` is set once the checksum and the table are read: it stays set if the
  -- commit fails.
  unfoldable pub add_entry : Info → World State → Result (Table Row) × Info × World State
  unfolding appended
  add_entry info w =
      let (r, w') = verify_hash fs blob parse hash to_csv file_name (appended info.fields) w in
      let t = (get_table fs blob parse file_name w).0 in
      elim (checksum fs blob hash file_name w) [
        | raise x ↦ (r, info, w')
        | ok prev ↦ (r, record info { id = some (generate_scenario_id t) }, w')
      ]

  unfoldable pub delete_entry : ℕ → World State → Result (Table Row) × World State
  unfolding drop_row
  delete_entry i =
      verify_hash fs blob parse hash to_csv file_name
        (λ w. let (t, w') = get_table fs blob parse file_name w in (drop_row i t, w'))
