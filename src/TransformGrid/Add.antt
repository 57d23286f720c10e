-- ===== src/TransformGrid/Add.antt =====
-- The methods `_add_*` of `TransformGrid`, but for storage.
use power_sim_data.Prelude.{
  ℕ, ◌+◌, String, Bool, true, false, ◌&&◌, Option, none, some, List, [], ◌∷◌, ◌++◌, nat_eq,
  string_eq, ◌==◌, contains, select, if◌then◌else◌,
}
use power_sim_data.Prelude.Dict.{lookup}
use power_sim_data.Prelude.Result.{Result, ok, raise, each, key_error, ◌>>=◌}
use power_sim_data.Number.{Number, of_ℕ}
use power_sim_data.Grid.{Plant, Gencost, Branch, Dcline, Bus, Sub, new, Grid}
use power_sim_data.Grid.Rows.{row_at, last_id, max_id}
use power_sim_data.Ct.{NewBus, NewLine, NewPlant, Ct}

abbrev pub entries : {A : Type 0} → Option (List A) → List A
entries none = []
entries (some l) = l

abbrev pub or_key_error : {A : Type 0} → Option A → Result A
or_key_error none = raise key_error
or_key_error (some a) = ok a

module _ {V : Type 0} ⦃num : Number V⦄ where
  open num use {decimal, neg, mul, div, equal}

  -- `self.grid.bus.loc[bus_id]`
  abbrev pub bus_at : ℕ → Grid V → Result (Bus V)
  bus_at i g = row_at (λ b. b.bus_id) i g.bus

  -- `zone2interconnect`: the interconnect of the first bus of each zone.
  unfoldable pub zone_interconnect : List (Bus V) → ℕ → Result String
  zone_interconnect [] z = raise key_error
  zone_interconnect (b ∷ bs) z =
      if b.zone_id == z then ok b.interconnect else zone_interconnect bs z

  -- `latlon2sub`: the first substation at the place.
  unfoldable pub sub_at : V → V → List (Sub V) → Option ℕ
  sub_at lat lon [] = none
  sub_at lat lon (s ∷ ss) =
      if equal s.lat lat && equal s.lon lon then some s.sub_id else sub_at lat lon ss

  unfoldable pub add_bus2sub : ℕ → String → NewBus V → Grid V → Grid V
  unfolding sub_at
  add_bus2sub i interconnect entry g = elim (sub_at entry.lat entry.lon g.sub) [
    | some s ↦ record g {
      bus2sub = g.bus2sub ++ record { bus_id = i; sub_id = s; interconnect = interconnect } ∷ [];
    }
    | none ↦
        let s = max_id (λ q. q.sub_id) g.sub + 1 in
        let same = select (λ q. q.interconnect == interconnect) g.sub in
        record g {
          bus2sub =
              g.bus2sub ++ record { bus_id = i; sub_id = s; interconnect = interconnect } ∷ [];
          sub =
              g.sub
              ++ record {
                sub_id = s;
                name = new s;
                interconnect_sub_id = max_id (λ q. q.interconnect_sub_id) same + 1;
                lat = entry.lat;
                lon = entry.lon;
                interconnect = interconnect;
              }
                ∷ [];
        }
  ]

  unfoldable pub new_bus : ℕ → String → NewBus V → Bus V
  new_bus i interconnect entry = record {
    bus_id = i;
    type = 1;
    pd = entry.pd;
    zone_id = entry.zone_id;
    vm = of_ℕ 1;
    base_kv = entry.base_kv;
    loss_zone = 1;
    vmax = decimal 11 1;
    vmin = decimal 9 1;
    interconnect = interconnect;
    lat = entry.lat;
    lon = entry.lon;
  }

  -- `zone2interconnect` is that of the buses before the loop.
  unfoldable pub add_one_bus : List (Bus V) → NewBus V → Grid V → Result (Grid V)
  unfolding zone_interconnect add_bus2sub new_bus
  add_one_bus old entry g = do
    interconnect ← zone_interconnect old entry.zone_id
    let i = max_id (λ b. b.bus_id) g.bus + 1
    ok (
        add_bus2sub i interconnect entry
          (record g { bus = g.bus ++ new_bus i interconnect entry ∷ [] }))

  unfoldable pub add_bus : Ct V → Grid V → Result (Grid V)
  unfolding add_one_bus each
  add_bus ct g = each (add_one_bus g.bus) (entries ct.new_bus) g

  -- `reactance` is the product of the haversine distance of two buses and the mean of the entries of
  -- `voltage_to_x_per_distance` for their voltages, a KeyError if one has none.
  module _ (reactance : Grid V → Bus V → Bus V → Result V) where
    unfoldable pub add_one_branch : Grid V → NewLine V → Grid V → Result (Grid V)
    add_one_branch old entry g = do
      from ← bus_at entry.from_bus_id g
      to ← bus_at entry.to_bus_id g
      from_zone_name ← or_key_error (lookup from.zone_id g.id2zone)
      to_zone_name ← or_key_error (lookup to.zone_id g.id2zone)
      x ← reactance old from to
      last ← last_id (λ r. r.branch_id) g.branch
      let row : Branch V = record {
        branch_id = last + 1;
        from_bus_id = entry.from_bus_id;
        to_bus_id = entry.to_bus_id;
        x = x;
        rate_a = entry.pmax;
        ratio = of_ℕ 0;
        status = 1;
        branch_device_type = "Line";
        interconnect = from.interconnect;
        from_zone_id = from.zone_id;
        to_zone_id = to.zone_id;
        from_zone_name = from_zone_name;
        to_zone_name = to_zone_name;
        from_lat = from.lat;
        from_lon = from.lon;
        to_lat = to.lat;
        to_lon = to.lon;
      }
      ok (record g { branch = g.branch ++ row ∷ [] })

    unfoldable pub add_branch : Ct V → Grid V → Result (Grid V)
    unfolding add_one_branch each lookup
    add_branch ct g = each (add_one_branch g) (entries ct.new_branch) g

  unfoldable pub add_one_dcline : NewLine V → Grid V → Result (Grid V)
  add_one_dcline entry g = do
    from ← bus_at entry.from_bus_id g
    to ← bus_at entry.to_bus_id g
    last ← last_id (λ r. r.dcline_id) g.dcline
    let row : Dcline V = record {
      dcline_id = last + 1;
      from_bus_id = entry.from_bus_id;
      to_bus_id = entry.to_bus_id;
      status = 1;
      pf = entry.pmax;
      pt = mul (decimal 98 2) entry.pmax;
      pmin = entry.pmin;
      pmax = entry.pmax;
      from_interconnect = from.interconnect;
      to_interconnect = to.interconnect;
    }
    ok (record g { dcline = g.dcline ++ row ∷ [] })

  unfoldable pub add_dcline : Ct V → Grid V → Result (Grid V)
  unfolding add_one_dcline each
  add_dcline ct = each add_one_dcline (entries ct.new_dcline)

  unfoldable pub add_one_plant : NewPlant V → Grid V → Result (Grid V)
  add_one_plant entry g = do
    bus ← bus_at entry.bus_id g
    zone_name ← or_key_error (lookup bus.zone_id g.id2zone)
    last ← last_id (λ r. r.plant_id) g.plant
    let row : Plant V = record {
      plant_id = last + 1;
      bus_id = entry.bus_id;
      type = entry.type;
      pmin = entry.pmin;
      pmax = entry.pmax;
      status = 1;
      interconnect = bus.interconnect;
      zone_id = bus.zone_id;
      zone_name = zone_name;
      lon = bus.lon;
      lat = bus.lat;
    }
    ok (record g { plant = g.plant ++ row ∷ [] })

  -- `entry["c0"]`, for a thermal plant.
  unfoldable pub coefficient : Bool → Option V → Result V
  coefficient false c = ok (of_ℕ 0)
  coefficient true c = or_key_error c

  unfoldable pub add_one_gencost : NewPlant V → Grid V → Result (Grid V)
  unfolding coefficient
  add_one_gencost entry g = do
    bus ← bus_at entry.bus_id g
    let thermal = contains g.immutables.thermal_resources entry.type
    c0 ← coefficient thermal entry.c0
    c1 ← coefficient thermal entry.c1
    c2 ← coefficient thermal entry.c2
    last ← last_id (λ r. r.plant_id) g.gencost_before
    let row : Gencost V = record {
      plant_id = last + 1;
      type = 2;
      n = 3;
      interconnect = bus.interconnect;
      c0 = c0;
      c1 = c1;
      c2 = c2;
    }
    ok (record g { gencost_before = g.gencost_before ++ row ∷ []; gencost_after = none })

  -- `_add_gen`: `_add_plant`, then `_add_gencost`.
  unfoldable pub add_gen : Ct V → Grid V → Result (Grid V)
  unfolding add_one_plant add_one_gencost each lookup
  add_gen ct g = do
    g' ← each add_one_plant (entries ct.new_plant) g
    each add_one_gencost (entries ct.new_plant) g'
