-- ===== src/CsvStore.antt =====
-- powersimdata/data_access/csv_store.py: the tables that are kept as csv files in the data store.
-- Reading and printing csv is the package pandas: `parse` is `_parse_csv` (`none` where it raises)
-- and `to_csv` the method of that name. A table is a list of rows, each under its integer id.
pub mod Laws
pub mod Total
pub mod Elsewhere
use Prim.Native.String.{◌++◌ as append}
use mathlib.Core.Bool.{◌||◌}
use power_sim_data.Prelude.{
  ℕ, String, Option, none, some, List, [], ◌∷◌, ◌++◌, Eq, nat_eq, string_eq, contains,
  if◌then◌else◌,
}
use power_sim_data.Prelude.Dict.{Dict}
use power_sim_data.Prelude.Result.{Result, ok, raise}
use power_sim_data.DataAccess.{FileSystem, World, checksum, copy_from, get, push}

abbrev pub Table : Type 0 → Type 0
Table R = Dict ℕ R

-- `df[~df.index.duplicated()]`: the first row of each id, but for the ids in `seen`.
unfoldable pub first_rows : {R : Type 0} → List ℕ → Table R → Table R
first_rows seen [] = []
first_rows seen ((i, r) ∷ t) =
    let skip = first_rows seen t in
    let keep = first_rows (i ∷ seen) t in if contains seen i then skip else (i, r) ∷ keep

module _ {C R : Type 0} (fs : FileSystem C) (blob : String → Option C)
    (parse : C → Option (Table R)) where
  open fs use {State}

  -- `with self.data_access.get(filename) as (f, _): return _parse_csv(f)`, or else an empty table.
  parsed : Result C → Table R
  parsed (raise e) = []
  parsed (ok c) = elim (parse c) [ none ↦ [] | some t ↦ t ]

  -- `_get_table`: a download that fails is passed over.
  unfoldable pub read_table : String → World State → Table R × World State
  unfolding parsed
  read_table filename w =
      let (_, w₁) = copy_from fs blob filename w in
      let (r, w₂) = get fs blob filename w₁ in (parsed r, w₂)

  unfoldable pub get_table : String → World State → Table R × World State
  get_table filename w =
      let (orig, w₁) = read_table filename w in
      let (more, w₂) = read_table (append filename ".2") w₁ in (first_rows [] (orig ++ more), w₂)

  module _ {H : Type 0} ⦃e : Eq H⦄ (hash : C → H) (to_csv : Table R → C) where
    unfoldable pub commit : String → Table R → H → World State → Result (Unit {0}) × World State
    commit filename t prev w = push fs blob hash filename prev (to_csv t) w

    -- `verify_hash`: checksum, the method itself, then the commit of the table that it returns.
    unfoldable pub verify_hash :
        String
        → (World State → Result (Table R) × World State)
        → World State
        → Result (Table R) × World State
    unfolding commit
    verify_hash filename func w = elim (checksum fs blob hash filename w) [
      | raise x ↦ (raise x, w)
      | ok prev ↦
          let (r, w₁) = func w in
          elim r [
            | raise x ↦ (raise x, w₁)
            | ok t ↦
                let (done, w₂) = commit filename t prev w₁ in
                elim done [ raise x ↦ (raise x, w₂) | ok _ ↦ (ok t, w₂) ]
          ]
    ]
