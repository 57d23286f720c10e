-- ===== src/GridCheck/Tests.antt =====
-- A grid that passes all the checks.
use power_sim_data.Prelude.{
  ℕ, ◌≡◌, String, Bool-cases, inl, inr, subst, false, some, contains, string_eq, ◌==◌, arith, refl,
  List, [], ◌∷◌,
}
use power_sim_data.Grid.{Bus2sub, Grid}
use power_sim_data.Grid.Sample.{whole, sample}
use power_sim_data.GridCheck.{checks, error_messages, check_grid}
use power_sim_data.Prelude.Dict.{lookup}
use power_sim_data.Grid.Rows.{row_at}
use power_sim_data.GridCheck.Cost.{unique, range, check_gencost}
use power_sim_data.GridCheck.Tables.{
  line_ends, same_at, islanded, undescribed, bus2sub_messages, ac_interconnects,
  transformer_substations, line_voltages, plant_gencost, num_interconnects, connected_components,
  loop_branches, gencost_messages,
}
use power_sim_data.GridCheck.Areas.{Zones}
use power_sim_data.GridCheck.Formed.{WellFormed}
use power_sim_data.GridCheck.Sound.{check_grid-WellFormed}

abbrev at_sub : ℕ → ℕ → Bus2sub
at_sub i s = record { bus_id = i; sub_id = s; interconnect = "Western" }

abbrev connected : Grid ℕ
connected = record sample { bus2sub = at_sub 1 1 ∷ at_sub 2 1 ∷ at_sub 3 2 ∷ [] }

abbrev one_component : List (ℕ × ℕ) → ℕ
one_component edges = 1

run : Unit {0}
unfolding check_grid error_messages checks islanded undescribed line_ends bus2sub_messages
    ac_interconnects same_at row_at transformer_substations line_voltages plant_gencost
    connected_components num_interconnects loop_branches gencost_messages check_gencost unique range
    lookup
run = tt

check_grid-WellFormed_example : WellFormed one_component connected
unfolding run
check_grid-WellFormed_example = (check_grid-WellFormed one_component connected).0 refl

-- A model with two states, one of them with an abbreviation.
abbrev states : Zones
states = record {
  mappings = ("north" ∷ "south" ∷ []) ∷ ("Washington" ∷ "Oregon" ∷ []) ∷ ("WA" ∷ []) ∷ [];
  abv = "WA" ∷ [];
  abv2division = ("WA", "Washington") ∷ [];
  division = "state";
  loadzone = "north" ∷ "south" ∷ [];
  interconnect2loadzone = [];
  division2loadzone = ("Washington", "north" ∷ []) ∷ ("Oregon", "south" ∷ []) ∷ [];
}

states-expanded :
    (a b : String) → lookup a states.abv2division ≡ some b → contains states.abv b ≡ false
unfolding lookup
states-expanded a b h = elim (Bool-cases ("WA" == a)) [
  | inl k ↦
      let same : "Washington" ≡ b = ground (arith, h, k) in
      subst (λ b. contains states.abv b ≡ false) same refl
  | inr k ↦ ground (arith, h, k)
]
