-- ===== src/Electrification/Tests.antt =====
-- Rates for buildings in a small grid.
use power_sim_data.Prelude.{ℕ, none, [], ◌∷◌, string_eq, nat_eq}
use power_sim_data.Grid.Sample.{whole, sample}
use power_sim_data.Electrification.{Electrified, Demands, add_electrification}
use power_sim_data.Electrification.Valid.{IsValid, add_electrification-IsValid}

abbrev nothing : Demands ℕ
nothing = record { building = none; transportation = none }

abbrev heat_pumps : Electrified ℕ
heat_pumps = record {
  grid = ("res_heating", ("standard", 0) ∷ ("advanced", 1) ∷ []) ∷ [];
  zone = ("north", ("res_heating", ("standard", 1) ∷ []) ∷ []) ∷ [];
}

add_electrification-IsValid_example :
    IsValid (add_electrification sample "building" heat_pumps nothing).1
add_electrification-IsValid_example =
    add_electrification-IsValid sample "building" heat_pumps nothing (tt, tt)
