-- ===== src/ChangeTable/Checks.antt =====
-- The entries that are given to `add_plant` and `add_storage_capacity`, with their checks: the loop
-- bodies in powersimdata/input/changes/plant.py and storage.py, and `find_closest_neighbor` of
-- powersimdata/utility/distance.py.
use power_sim_data.Prelude.{
  ℕ, String, Bool, true, false, not, ◌||◌, Option, none, some, List, [], ◌∷◌, nat_eq, string_eq,
  ◌==◌, select, contains, if◌then◌else◌,
}
use power_sim_data.Prelude.Dict.{keys, lookup}
use power_sim_data.Prelude.Result.{
  Result, ok, raise, require, value_error, key_error, type_error, ◌>>=◌,
}
use power_sim_data.Number.{Number, of_ℕ}
use power_sim_data.Grid.{Plant, Bus, Grid}
use power_sim_data.Ct.{NewPlant, NewStorage}
use power_sim_data.ChangeTable.Entries.{
  Value, index, number, text, Entry, check_entry_keys, as_number,
}
use power_sim_data.Grid.Rows.{row_at}

module _ {V : Type 0} ⦃num : Number V⦄ where
  open num use {mul, lt}

  -- The loop of `find_closest_neighbor` over the neighbors that are left, the closest so far with its
  -- angle; `none` stands for infinity.
  unfoldable pub closest_from :
      (V × V → V) → Option (Plant V × V) → List (Plant V) → Option (Plant V × V)
  closest_from angle best [] = best
  closest_from angle best (r ∷ rows) =
      let a = angle (r.lon, r.lat) in
      let better : Bool = elim best [ none ↦ true | some (q, b) ↦ lt a b ] in
      closest_from angle (if better then some (r, a) else best) rows

  -- `plant_same_type.iloc[neighbor_id].name`, a KeyError if the grid has no plant of the type.
  unfoldable pub neighbor_of : (V × V → V) → String → Grid V → Result ℕ
  unfolding closest_from
  neighbor_of angle t g = elim (closest_from angle none (select (λ r. r.type == t) g.plant)) [
    | none ↦ raise key_error
    | some (r, a) ↦ ok r.plant_id
  ]

  -- A bus id of the table, as `plant["bus_id"] not in anticipated_bus.index` asks.
  unfoldable pub bus_in : List (Bus V) → Option (Value V) → Result (Bus V)
  unfolding row_at
  bus_in buses (some (index n)) = elim (row_at (λ b. b.bus_id) n buses) [
    | ok b ↦ ok b
    | raise e ↦ raise value_error
  ]
  bus_in buses (some (number x)) = raise value_error
  bus_in buses (some (text s)) = raise value_error
  bus_in buses none = raise key_error

  unfoldable pub resource_of : Grid V → Option (Value V) → Result String
  resource_of g (some (text t)) = do
    _ ← require (contains g.immutables.all_resources t) value_error
    ok t
  resource_of g _ = raise value_error

  -- The number under a key that the code compares: a string is a TypeError.
  unfoldable pub compared : Option (Value V) → Result V
  compared none = raise key_error
  compared (some (index n)) = ok (of_ℕ n)
  compared (some (number x)) = ok x
  compared (some (text s)) = raise type_error

  -- A coefficient that must be there and must not be negative.
  unfoldable pub needed : Option (Value V) → Result (Option V)
  unfolding compared
  needed none = raise value_error
  needed (some v) = do
    c ← compared (some v)
    _ ← require (not (lt c (of_ℕ 0))) value_error
    ok (some c)

  -- A coefficient that is passed on unchecked; only numbers can be kept here.
  unfoldable pub given : Option (Value V) → Result (Option V)
  unfolding compared
  given none = ok none
  given (some v) = do c ← compared (some v); ok (some c)

  unfoldable pub coefficient_of : Bool → Option (Value V) → Result (Option V)
  unfolding needed given
  coefficient_of true v = given v
  coefficient_of false v = needed v

  -- "Pmin", or the share of "Pmax" that is set for the resource, or 0.
  unfoldable pub pmin_of : Option V → V → Option (Value V) → Result V
  unfolding compared
  pmin_of share pmax (some v) = compared (some v)
  pmin_of none pmax none = ok (of_ℕ 0)
  pmin_of (some x) pmax none = ok (mul x pmax)

  module _ (angle : V × V → V × V → V) (g : Grid V) where
    unfoldable pub neighbor_for : Bool → Bus V → String → Result (Option ℕ)
    unfolding neighbor_of
    neighbor_for false bus t = ok none
    neighbor_for true bus t = do i ← neighbor_of (angle (bus.lon, bus.lat)) t g; ok (some i)

    -- One round of the loop of `add_plant`.
    unfoldable pub check_plant : List (Bus V) → Entry V → Result (NewPlant V)
    unfolding check_entry_keys resource_of bus_in compared pmin_of neighbor_for coefficient_of
        lookup
    check_plant buses entry = do
      _ ←
          check_entry_keys (keys entry) ("bus_id" ∷ "Pmax" ∷ "type" ∷ []) []
            ("c0" ∷ "c1" ∷ "c2" ∷ "Pmin" ∷ [])
      t ← resource_of g (lookup "type" entry)
      bus ← bus_in buses (lookup "bus_id" entry)
      pmax ← compared (lookup "Pmax" entry)
      _ ← require (not (lt pmax (of_ℕ 0))) value_error
      pmin ← pmin_of (g.immutables.pmin_share t) pmax (lookup "Pmin" entry)
      _ ← require (not (lt pmin (of_ℕ 0) || lt pmax pmin)) value_error
      let profile = contains g.immutables.profile_resources t
      neighbor ← neighbor_for profile bus t
      c0 ← coefficient_of profile (lookup "c0" entry)
      c1 ← coefficient_of profile (lookup "c1" entry)
      c2 ← coefficient_of profile (lookup "c2" entry)
      ok (record {
        bus_id = bus.bus_id;
        type = t;
        pmin = pmin;
        pmax = pmax;
        c0 = c0;
        c1 = c1;
        c2 = c2;
        plant_id_neighbor = neighbor;
      })

  -- A quantity of a storage unit, or the default of the grid, which must not be negative.
  unfoldable pub quantity : V → Option (Value V) → Result V
  unfolding as_number
  quantity default none = do _ ← require (not (lt default (of_ℕ 0))) value_error; ok default
  quantity default (some v) = do
    x ← as_number (some v)
    _ ← require (not (lt x (of_ℕ 0))) value_error
    ok x

  -- A quantity that must not be above 1 either.
  unfoldable pub share_of : V → Option (Value V) → Result V
  unfolding quantity
  share_of default v = do
    x ← quantity default v
    _ ← require (not (lt (of_ℕ 1) x)) value_error
    ok x

  -- One round of the loop of `add_storage_capacity`. All its failed checks but the first two are a
  -- ValueError, so that their order does not matter.
  unfoldable pub check_storage : Grid V → List (Bus V) → Entry V → Result (NewStorage V)
  unfolding check_entry_keys bus_in quantity share_of lookup
  check_storage g buses entry = do
    _ ← check_entry_keys (keys entry) ("bus_id" ∷ "capacity" ∷ []) [] (
        "duration" ∷ "min_stor" ∷ "max_stor" ∷ "energy_value" ∷ "InEff" ∷ "OutEff" ∷ "LossFactor"
        ∷ "terminal_min" ∷ "terminal_max" ∷ [])
    let d = g.storage.defaults
    bus ← bus_in buses (lookup "bus_id" entry)
    capacity ← quantity (of_ℕ 0) (lookup "capacity" entry)
    duration ← quantity d.duration (lookup "duration" entry)
    min_stor ← share_of d.min_stor (lookup "min_stor" entry)
    max_stor ← share_of d.max_stor (lookup "max_stor" entry)
    energy_value ← quantity d.energy_value (lookup "energy_value" entry)
    in_eff ← share_of d.in_eff (lookup "InEff" entry)
    out_eff ← share_of d.out_eff (lookup "OutEff" entry)
    loss_factor ← share_of d.loss_factor (lookup "LossFactor" entry)
    terminal_min ← quantity d.terminal_min (lookup "terminal_min" entry)
    terminal_max ← quantity d.terminal_max (lookup "terminal_max" entry)
    ok (record {
      bus_id = bus.bus_id;
      capacity = capacity;
      duration = duration;
      min_stor = min_stor;
      max_stor = max_stor;
      energy_value = energy_value;
      in_eff = in_eff;
      out_eff = out_eff;
      loss_factor = loss_factor;
      terminal_min = terminal_min;
      terminal_max = terminal_max;
    })
