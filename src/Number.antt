-- ===== src/Number.antt =====
-- The numbers of the program are Python's ints and floats. Their type is a parameter `V`, and this
-- interface lists the operations on them that the modelled code uses. A law that a theorem needs is
-- one of its hypotheses.
use power_sim_data.Prelude.{ℕ, Bool}

pub record Number (V : Type 0) : Type 0 where
  -- `decimal n k` is n / 10 ^ k
  pub decimal : ℕ → ℕ → V
  pub neg : V → V
  pub mul : V → V → V
  pub div : V → V → V
  pub add : V → V → V
  pub le : V → V → Bool
  pub lt : V → V → Bool
  pub equal : V → V → Bool

abbrev pub of_ℕ : {V : Type 0} ⦃num : Number V⦄ → ℕ → V
of_ℕ ⦃num⦄ n = num.decimal n 0
