-- ===== src/Ct.antt =====
-- The dictionary `ChangeTable.ct` of powersimdata/input/change_table.py. A key that is missing is
-- `none`. The keys "wind", "wind_cost" and "wind_pmin", and so on for each resource, are pairs.
use power_sim_data.Prelude.{
  ℕ, String, Bool, true, false, ◌&&◌, ◌≡◌, ◌↔◌, Option, none, List, [], Eq, string_eq, ◌==◌, ==_iff,
  arith,
}
use power_sim_data.Prelude.Dict.{Dict}

pub data Kind : Type 0 where
  capacity cost pmin : Kind

pub record PlantKey : Type 0 where
  pub resource : String
  pub kind : Kind

abbrev kind_beq : Kind → Kind → Bool
kind_beq capacity capacity = true
kind_beq cost cost = true
kind_beq pmin pmin = true
kind_beq _ _ = false

abbrev key_beq : PlantKey → PlantKey → Bool
key_beq a b = a.resource == b.resource && kind_beq a.kind b.kind

kind_beq_iff : (a b : Kind) → (kind_beq a b ≡ true) ↔ (a ≡ b)
kind_beq_iff a b = ground arith

pub key_beq_iff : (a b : PlantKey) → (key_beq a b ≡ true) ↔ (a ≡ b)
key_beq_iff a b = ground (arith, ==_iff a.resource b.resource, kind_beq_iff a.kind b.kind)

instance abbrev pub key_eq : Eq PlantKey
key_eq = record { beq = key_beq; beq_iff = key_beq_iff }

-- `{"zone_id": {...}, "plant_id": {...}}`, or "branch_id" for branches.
-- `ids_first` tells the order of two keys that are both there, which only the plant table's cache reads.
pub record Scaling (V : Type 0) : Type 0 where
  pub zone_id : Option (Dict ℕ V)
  pub by_id : Option (Dict ℕ V)
  pub ids_first : Bool

abbrev pub no_scaling : {V : Type 0} → Scaling V
no_scaling = record { zone_id = none; by_id = none; ids_first = false }

pub record NewBus (V : Type 0) : Type 0 where
  pub lat : V
  pub lon : V
  pub zone_id : ℕ
  pub pd : V
  pub base_kv : V

pub record NewLine (V : Type 0) : Type 0 where
  pub from_bus_id : ℕ
  pub to_bus_id : ℕ
  pub pmin : V
  pub pmax : V

pub record NewPlant (V : Type 0) : Type 0 where
  pub bus_id : ℕ
  pub type : String
  pub pmin : V
  pub pmax : V
  pub c0 : Option V
  pub c1 : Option V
  pub c2 : Option V
  pub plant_id_neighbor : Option ℕ

pub record NewStorage (V : Type 0) : Type 0 where
  pub bus_id : ℕ
  pub capacity : V
  pub duration : V
  pub min_stor : V
  pub max_stor : V
  pub energy_value : V
  pub in_eff : V
  pub out_eff : V
  pub loss_factor : V
  pub terminal_min : V
  pub terminal_max : V

-- What "demand_flexibility" holds under a key: a duration, or the version of a profile.
pub data FlexValue : Type 0 where
  hours : ℕ → FlexValue
  version : String → FlexValue

-- `dcline` is "dcline_id" under the key "dcline", `demand` is "zone_id" under the key "demand".
pub record Ct (V : Type 0) : Type 0 where
  pub plant : Dict PlantKey (Scaling V)
  pub branch : Option (Scaling V)
  pub dcline : Option (Option (Dict ℕ V))
  pub demand : Option (Dict ℕ V)
  pub new_bus : Option (List (NewBus V))
  pub new_branch : Option (List (NewLine V))
  pub new_dcline : Option (List (NewLine V))
  pub new_plant : Option (List (NewPlant V))
  pub storage : Option (List (NewStorage V))
  pub remove_branch : Option (List ℕ)
  pub remove_bus : Option (List ℕ)
  pub remove_dcline : Option (List ℕ)
  pub remove_plant : Option (List ℕ)
  pub demand_flexibility : Option (Dict String FlexValue)

abbrev pub empty_ct : {V : Type 0} → Ct V
empty_ct = record {
  plant = [];
  branch = none;
  dcline = none;
  demand = none;
  new_bus = none;
  new_branch = none;
  new_dcline = none;
  new_plant = none;
  storage = none;
  remove_branch = none;
  remove_bus = none;
  remove_dcline = none;
  remove_plant = none;
  demand_flexibility = none;
}
