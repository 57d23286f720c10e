-- ===== src/Grid.antt =====
-- powersimdata/input/abstract_grid.py and the tables of a `Grid`: a data frame is the list of its
-- rows, each with its index. Of the columns those are kept that the modelled code reads or sets.
pub mod Rows
pub mod Sample
pub mod Select
use power_sim_data.Prelude.{
  ℕ, String, Bool, Option, none, some, List, [], ◌∷◌, map, Eq, nat_eq, string_eq, subset, contains,
  if◌then◌else◌,
}
use power_sim_data.Prelude.Dict.{Dict}

pub record Plant (V : Type 0) : Type 0 where
  pub plant_id : ℕ
  pub bus_id : ℕ
  pub type : String
  pub pmin : V
  pub pmax : V
  pub status : ℕ
  pub interconnect : String
  pub zone_id : ℕ
  pub zone_name : String
  pub lon : V
  pub lat : V

pub record Gencost (V : Type 0) : Type 0 where
  pub plant_id : ℕ
  pub type : ℕ
  pub n : ℕ
  pub interconnect : String
  pub c0 : V
  pub c1 : V
  pub c2 : V

pub record Branch (V : Type 0) : Type 0 where
  pub branch_id : ℕ
  pub from_bus_id : ℕ
  pub to_bus_id : ℕ
  pub x : V
  pub rate_a : V
  pub ratio : V
  pub status : ℕ
  pub branch_device_type : String
  pub interconnect : String
  pub from_zone_id : ℕ
  pub to_zone_id : ℕ
  pub from_zone_name : String
  pub to_zone_name : String
  pub from_lat : V
  pub from_lon : V
  pub to_lat : V
  pub to_lon : V

pub record Dcline (V : Type 0) : Type 0 where
  pub dcline_id : ℕ
  pub from_bus_id : ℕ
  pub to_bus_id : ℕ
  pub status : ℕ
  pub pf : V
  pub pt : V
  pub pmin : V
  pub pmax : V
  pub from_interconnect : String
  pub to_interconnect : String

pub record Bus (V : Type 0) : Type 0 where
  pub bus_id : ℕ
  pub type : ℕ
  pub pd : V
  pub zone_id : ℕ
  pub vm : V
  pub base_kv : V
  pub loss_zone : ℕ
  pub vmax : V
  pub vmin : V
  pub interconnect : String
  pub lat : V
  pub lon : V

-- `new n` is the name f"NEW {n}".
pub data SubName : Type 0 where
  given : String → SubName
  new : ℕ → SubName

pub record Sub (V : Type 0) : Type 0 where
  pub sub_id : ℕ
  pub name : SubName
  pub interconnect_sub_id : ℕ
  pub lat : V
  pub lon : V
  pub interconnect : String

pub record Bus2sub : Type 0 where
  pub bus_id : ℕ
  pub sub_id : ℕ
  pub interconnect : String

pub record StorageGen (V : Type 0) : Type 0 where
  pub bus_id : ℕ
  pub vg : V
  pub m_base : V
  pub status : ℕ
  pub pmax : V
  pub pmin : V
  pub ramp_10 : V
  pub ramp_30 : V

pub record StorageCost : Type 0 where
  pub type : ℕ
  pub n : ℕ

pub record StorageData (V : Type 0) : Type 0 where
  pub unit_idx : ℕ
  pub expected_terminal_storage_max : V
  pub expected_terminal_storage_min : V
  pub initial_storage : V
  pub initial_storage_lower_bound : V
  pub initial_storage_upper_bound : V
  pub initial_storage_cost : V
  pub terminal_storage_price : V
  pub min_storage_level : V
  pub max_storage_level : V
  pub out_eff : V
  pub in_eff : V
  pub loss_factor : V
  pub rho : V

-- The defaults for an entry of a new storage unit, under its keys in `grid.storage`.
pub record StorageDefaults (V : Type 0) : Type 0 where
  pub duration : V
  pub min_stor : V
  pub max_stor : V
  pub energy_value : V
  pub in_eff : V
  pub out_eff : V
  pub loss_factor : V
  pub terminal_min : V
  pub terminal_max : V

-- `grid.storage`
pub record Storage (V : Type 0) : Type 0 where
  pub gen : List (StorageGen V)
  pub gencost : List StorageCost
  pub genfuel : List String
  pub storage_data : List (StorageData V)
  pub defaults : StorageDefaults V

-- `grid.model_immutables`: of `plants`, where `pmin_share` is "pmin_as_share_of_pmax", and "name2interconnect"
-- of `zones`.
pub record Immutables (V : Type 0) : Type 0 where
  pub all_resources : List String
  pub thermal_resources : List String
  pub profile_resources : List String
  pub pmin_share : String → Option V
  pub name2interconnect : Dict String (List String)

-- `gencost_after` is `none` where gencost["after"] is the very data frame gencost["before"].
pub record Grid (V : Type 0) : Type 0 where
  pub plant : List (Plant V)
  pub gencost_before : List (Gencost V)
  pub gencost_after : Option (List (Gencost V))
  pub branch : List (Branch V)
  pub dcline : List (Dcline V)
  pub bus : List (Bus V)
  pub sub : List (Sub V)
  pub bus2sub : List Bus2sub
  pub storage : Storage V
  pub zone2id : Dict String ℕ
  pub id2zone : Dict ℕ String
  pub interconnect : List String
  pub immutables : Immutables V
