-- ===== src/ChangeTable/Entries.antt =====
-- The entries that are given to `add_branch`, `add_dcline` and `add_bus`, with their checks:
-- `_check_entry_keys` and the loop bodies of `_add_line` (powersimdata/input/change_table.py) and of
-- `add_bus` (powersimdata/input/changes/bus.py).
use power_sim_data.Prelude.{
  ℕ, String, Bool, true, false, not, ◌&&◌, ◌||◌, Option, none, some, List, [], ◌∷◌, ◌++◌, nat_eq,
  string_eq, ◌==◌, contains, subset, all, select, length, if◌then◌else◌,
}
use power_sim_data.Prelude.Dict.{Dict, keys, lookup}
use power_sim_data.Prelude.Result.{
  Result, ok, raise, require, value_error, type_error, key_error, ◌>>=◌, ◌>>◌,
}
use power_sim_data.Number.{Number, of_ℕ}
use power_sim_data.Grid.{Bus, Grid}
use power_sim_data.Grid.Rows.{row_at}
use power_sim_data.Ct.{NewBus, NewLine}

-- What an entry holds under a key: an integer that may be an id, any other number, or a string.
pub data Value (V : Type 0) : Type 0 where
  index : ℕ → Value V
  number : V → Value V
  text : String → Value V

abbrev pub Entry : Type 0 → Type 0
Entry V = Dict String (Value V)

abbrev pub has : {A : Type 0} → String → Dict String A → Bool
has k d = contains (keys d) k

-- `len(xor_set & entry.keys()) == 1`
unfoldable pub exactly_one : List String → List String → Bool
exactly_one entry xor_set = length (select (contains entry) xor_set) == 1

abbrev union : List (List String) → List String
union [] = []
union (s ∷ sets) = s ++ union sets

-- `_check_entry_keys`
unfoldable pub check_entry_keys :
    List String → List String → List (List String) → List String → Result (Unit {0})
unfolding exactly_one
check_entry_keys entry required xor_sets optional =
    require (subset required entry) value_error
    >> require (subset entry (required ++ optional ++ union xor_sets)) value_error
    >> require (all (exactly_one entry) xor_sets) value_error

-- The list of what a check makes of each entry, unless it raises for one.
unfoldable pub check_all : {A B : Type 0} → (A → Result B) → List A → Result (List B)
check_all check [] = ok []
check_all check (a ∷ items) = do b ← check a; rest ← check_all check items; ok (b ∷ rest)

-- The keys "new_branch" and "new_dcline".
pub data LineKind : Type 0 where
  new_branch new_dcline : LineKind

abbrev pub is_branch : LineKind → Bool
is_branch new_branch = true
is_branch new_dcline = false

module _ {V : Type 0} ⦃num : Number V⦄ where
  open num use {neg, lt, equal, le}

  -- `isinstance(v, (int, float))`, and the number; a ValueError otherwise.
  unfoldable pub as_number : Option (Value V) → Result V
  as_number none = raise key_error
  as_number (some (index n)) = ok (of_ℕ n)
  as_number (some (number x)) = ok x
  as_number (some (text s)) = raise value_error

  -- A bus id that is in the table. Otherwise a ValueError, which a string turns into a TypeError as
  -- its message formats the id with %d.
  unfoldable pub bus_of : List (Bus V) → Option (Value V) → Result (Bus V)
  bus_of buses none = raise key_error
  bus_of buses (some (index n)) = elim (row_at (λ b. b.bus_id) n buses) [
    | ok b ↦ ok b
    | raise e ↦ raise value_error
  ]
  bus_of buses (some (number x)) = raise value_error
  bus_of buses (some (text s)) = raise type_error

  -- "capacity", a limit in both directions.
  unfoldable pub limits_of_capacity : Entry V → Result (V × V)
  unfolding as_number lookup
  limits_of_capacity entry = do
    capacity ← as_number (lookup "capacity" entry)
    _ ← require (not (lt capacity (of_ℕ 0))) value_error
    ok (neg capacity, capacity)

  -- "Pmin" and "Pmax", of a DC line only.
  unfoldable pub limits_of_range : LineKind → Entry V → Result (V × V)
  unfolding as_number lookup
  limits_of_range kind entry = do
    _ ← require (not (is_branch kind)) value_error
    pmin ← as_number (lookup "Pmin" entry)
    pmax ← as_number (lookup "Pmax" entry)
    _ ← require (not (lt pmax pmin)) value_error
    ok (pmin, pmax)

  -- The limits (Pmin, Pmax).
  unfoldable pub line_limits : LineKind → Entry V → Result (V × V)
  unfolding limits_of_capacity limits_of_range
  line_limits kind entry =
      if has "capacity" entry
      then limits_of_capacity entry
      else (if has "Pmin" entry && has "Pmax" entry
          then limits_of_range kind entry
          else raise value_error)

  -- One round of the loop of `_add_line`.
  unfoldable pub check_line : LineKind → List (Bus V) → Entry V → Result (NewLine V)
  unfolding check_entry_keys bus_of line_limits
  check_line kind buses entry = do
    _ ←
        check_entry_keys (keys entry) ("from_bus_id" ∷ "to_bus_id" ∷ [])
          (("capacity" ∷ "Pmax" ∷ []) ∷ ("capacity" ∷ "Pmin" ∷ []) ∷ []) ("Pmin" ∷ [])
    from ← bus_of buses (lookup "from_bus_id" entry)
    to ← bus_of buses (lookup "to_bus_id" entry)
    _ ← require (not (from.bus_id == to.bus_id)) value_error
    limits ← line_limits kind entry
    _ ← require (not (is_branch kind) || from.interconnect == to.interconnect) value_error
    _ ← require (not (equal from.lat to.lat && equal from.lon to.lon)) value_error
    ok (record {
      from_bus_id = from.bus_id;
      to_bus_id = to.bus_id;
      pmin = limits.0;
      pmax = limits.1;
    })

  -- `abs(x) > bound`
  abbrev pub beyond : ℕ → V → Bool
  beyond bound x = lt (of_ℕ bound) x || lt x (neg (of_ℕ bound))

  -- "zone_id", or the id of "zone_name".
  unfoldable pub zone_of : Grid V → Entry V → Result ℕ
  zone_of g entry = elim (lookup "zone_name" entry) [
    | some (text name) ↦ elim (lookup name g.zone2id) [ some z ↦ ok z | none ↦ raise value_error ]
    | some _ ↦ raise value_error
    | none ↦ elim (lookup "zone_id" entry) [
      | some (index z) ↦ require (contains (keys g.id2zone) z) value_error >> ok z
      | some _ ↦ raise value_error
      | none ↦ raise key_error
    ]
  ]

  -- The number under a key, or a default if the key is missing.
  unfoldable pub number_or : V → Option (Value V) → Result V
  number_or default none = ok default
  number_or default (some v) = as_number (some v)

  -- One round of the loop of `add_bus`.
  unfoldable pub check_bus : Grid V → Entry V → Result (NewBus V)
  unfolding check_entry_keys as_number zone_of number_or lookup
  check_bus g entry = do
    _ ←
        check_entry_keys (keys entry) ("lat" ∷ "lon" ∷ []) (("zone_id" ∷ "zone_name" ∷ []) ∷ [])
          ("Pd" ∷ "baseKV" ∷ [])
    lat ← as_number (lookup "lat" entry)
    lon ← as_number (lookup "lon" entry)
    _ ← require (not (beyond 90 lat)) value_error
    _ ← require (not (beyond 180 lon)) value_error
    zone_id ← zone_of g entry
    pd ← number_or (of_ℕ 0) (lookup "Pd" entry)
    base_kv ← number_or (of_ℕ 230) (lookup "baseKV" entry)
    _ ← require (not (le base_kv (of_ℕ 0))) value_error
    ok (record { lat = lat; lon = lon; zone_id = zone_id; pd = pd; base_kv = base_kv })
