-- ===== src/Grid/Sample.antt =====
-- A grid for the tests, with whole numbers for its quantities.
use power_sim_data.Prelude.{ℕ, ◌+◌, ◌*◌, String, none, [], ◌∷◌, ltb, leb, eqb}
use power_sim_data.Number.{Number}
use power_sim_data.Grid.{Plant, Gencost, Branch, Bus, Storage, Immutables, Grid}

-- No negative numbers and no fractions: the tests need none.
instance abbrev pub whole : Number ℕ
whole = record {
  decimal = λ n k. n;
  neg = λ x. 0;
  mul = λ x y. x * y;
  div = λ x y. x;
  add = λ x y. x + y;
  le = leb;
  lt = ltb;
  equal = eqb;
}

abbrev bus : ℕ → ℕ → ℕ → Bus ℕ
bus i zone lat = record {
  bus_id = i;
  type = 1;
  pd = 5;
  zone_id = zone;
  vm = 1;
  base_kv = 230;
  loss_zone = 1;
  vmax = 1;
  vmin = 1;
  interconnect = "Western";
  lat = lat;
  lon = 7;
}

abbrev plant : ℕ → ℕ → ℕ → String → String → Plant ℕ
plant i at zone name type = record {
  plant_id = i;
  bus_id = at;
  type = type;
  pmin = 10;
  pmax = 100;
  status = 1;
  interconnect = "Western";
  zone_id = zone;
  zone_name = name;
  lon = 7;
  lat = 40;
}

abbrev gencost : ℕ → Gencost ℕ
gencost i = record {
  plant_id = i;
  type = 2;
  n = 3;
  interconnect = "Western";
  c0 = 1;
  c1 = 2;
  c2 = 3;
}

abbrev branch : ℕ → Branch ℕ
branch i = record {
  branch_id = i;
  from_bus_id = 1;
  to_bus_id = 2;
  x = 3;
  rate_a = 50;
  ratio = 0;
  status = 1;
  branch_device_type = "Line";
  interconnect = "Western";
  from_zone_id = 1;
  to_zone_id = 1;
  from_zone_name = "north";
  to_zone_name = "north";
  from_lat = 40;
  from_lon = 7;
  to_lat = 41;
  to_lon = 7;
}

abbrev no_storage : Storage ℕ
no_storage = record {
  gen = [];
  gencost = [];
  genfuel = [];
  storage_data = [];
  defaults = record {
    duration = 4;
    min_stor = 0;
    max_stor = 1;
    energy_value = 20;
    in_eff = 1;
    out_eff = 1;
    loss_factor = 0;
    terminal_min = 0;
    terminal_max = 1;
  };
}

abbrev resources : Immutables ℕ
resources = record {
  all_resources = "wind" ∷ "coal" ∷ [];
  thermal_resources = "coal" ∷ [];
  profile_resources = "wind" ∷ [];
  pmin_share = λ r. none;
  name2interconnect =
      ("USA", "Eastern" ∷ "Western" ∷ "Texas" ∷ []) ∷ ("Western", "Western" ∷ []) ∷ [];
}

-- Three buses in two zones, two plants, two branches and a DC line.
abbrev pub sample : Grid ℕ
sample = record {
  plant = plant 1 1 1 "north" "wind" ∷ plant 2 2 1 "north" "coal" ∷ [];
  gencost_before = gencost 1 ∷ gencost 2 ∷ [];
  gencost_after = none;
  branch = branch 1 ∷ branch 2 ∷ [];
  dcline =
      record {
        dcline_id = 1;
        from_bus_id = 1;
        to_bus_id = 3;
        status = 1;
        pf = 10;
        pt = 10;
        pmin = 0;
        pmax = 10;
        from_interconnect = "Western";
        to_interconnect = "Western";
      }
      ∷ [];
  bus = bus 1 1 40 ∷ bus 2 1 41 ∷ bus 3 2 42 ∷ [];
  sub = [];
  bus2sub = [];
  storage = no_storage;
  zone2id = ("north", 1) ∷ ("south", 2) ∷ [];
  id2zone = (1, "north") ∷ (2, "south") ∷ [];
  interconnect = "Western" ∷ [];
  immutables = resources;
}
