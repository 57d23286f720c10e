-- ===== src/Configure/Tests.antt =====
-- Costs that are linearized, and a grid whose minima are adjusted twice.
use power_sim_data.Prelude.{ℕ, ◌≡◌, ◌⊎◌, refl, [], ◌∷◌, All, List, nat_eq, string_eq}
use power_sim_data.Grid.Sample.{whole, sample}
use power_sim_data.Configure.{
  Curve, Linear, adjust_pmin, price, segment_points, after_row, linear_row, fixed_row,
  linearize_gencost,
}
use power_sim_data.Configure.Laws.{Rising, Level, Each, adjust_pmin_idem, linearize_gencost-ok}

adjust_pmin_idem_example : adjust_pmin (adjust_pmin sample) ≡ adjust_pmin sample
adjust_pmin_idem_example = adjust_pmin_idem sample

-- One generator that can be dispatched and one that cannot.
abbrev curves : List (Curve ℕ)
curves =
    record { type = 2; n = 3; c0 = 5; c1 = 2; c2 = 1; pmin = 0; pmax = 10 }
    ∷ record { type = 2; n = 3; c0 = 7; c1 = 1; c2 = 0; pmin = 4; pmax = 4 }
    ∷ []

abbrev rows : List (Linear ℕ)
rows =
    record { type = 1; n = 2; c0 = 5; c1 = 2; c2 = 1; points = (0, 5) ∷ (10, 125) ∷ [] }
    ∷ record { type = 2; n = 3; c0 = 11; c1 = 0; c2 = 0; points = (0, 0) ∷ (0, 0) ∷ [] }
    ∷ []

linearize_gencost-ok_example :
    All (λ c. c.type ≡ 2) curves
    × All (λ c. c.n ≡ 3) curves
    × Each (λ c r. Rising 1 c r ⊎ Level c r) curves rows
unfolding linearize_gencost after_row linear_row fixed_row segment_points price
linearize_gencost-ok_example = linearize_gencost-ok 1 curves rows refl
