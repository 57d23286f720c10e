-- ===== src/InputData.antt =====
-- powersimdata/input/input_base.py, with the class InputData of powersimdata/input/input_data.py: data
-- that are read from files of the data store, and a cache of them in memory (`MemoryCache` of
-- powersimdata/utility/helpers.py) that all instances share. Unpickling a file, as `_read` does, is a
-- parameter; a deep copy of a value is that value, and a key is the path that `cache_key` wraps.
pub mod Uncached
mod Tests
use Prim.Native.String.{◌++◌ as append}
use power_sim_data.Prelude.{
  String, Option, none, some, List, [], ◌∷◌, string_eq, contains, if◌then◌else◌,
}
use power_sim_data.Prelude.Dict.{Dict, keys, lookup, insert}
use power_sim_data.Prelude.Result.{Result, ok, raise, value_error, key_error, require, ◌>>=◌, ◌>>◌}
use power_sim_data.DataAccess.{FileSystem, World, get}

-- `_file_extension`
abbrev pub file_extension : Dict String String
file_extension = ("ct", "pkl") ∷ ("grid", "pkl") ∷ []

unfoldable pub check_field : String → Result (Unit {0})
check_field field_name = require (contains (keys file_extension) field_name) value_error

-- `_get_file_path`, for the id of a scenario.
unfoldable pub get_file_path : String → String → Result String
get_file_path scenario_id field_name = elim (lookup field_name file_extension) [
  | none ↦ raise key_error
  | some ext ↦
      ok (
        append "data/input/" (append scenario_id (append "_" (append field_name (append "." ext)))))
]

-- The path of the file that `get_data` reads.
unfoldable pub data_path : String → String → Result String
unfolding check_field get_file_path
data_path scenario_id field_name = check_field field_name >> get_file_path scenario_id field_name

-- What one process has in memory, and the data store.
pub record Process (S D : Type 0) : Type 0 where
  pub cache : Dict String D
  pub world : World S

module _ {C D : Type 0} (fs : FileSystem C) (blob : String → Option C)
    (read_data : String → C → Result D) where
  open fs use {State}

  -- `with self.data_access.get(filepath) as (f, path): data = self._read(f, path)`
  unfoldable pub read_file : String → World State → Result D × World State
  read_file path w = let (r, w') = get fs blob path w in (r >>= read_data path, w')

  -- `_get_data_internal`
  unfoldable pub get_data_internal : String → Process State D → Result D × Process State D
  unfolding read_file
  get_data_internal path p = elim (lookup path p.cache) [
    | some d ↦ (ok d, p)
    | none ↦
        let (r, w) = read_file path p.world in
        elim r [
          | raise x ↦ (raise x, record p { world = w })
          | ok d ↦ (ok d, record { cache = insert path d p.cache; world = w })
        ]
  ]

  unfoldable pub get_data : String → String → Process State D → Result D × Process State D
  unfolding data_path get_data_internal
  get_data scenario_id field_name p = elim (data_path scenario_id field_name) [
    | raise x ↦ (raise x, p)
    | ok path ↦ get_data_internal path p
  ]
