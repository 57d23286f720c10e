-- ===== src/GridCheck.antt =====
-- `check_grid` of powersimdata/input/check.py and the checks that it runs. A grid of this development
-- has every attribute that `_check_attributes` asks for.
pub mod Cost
pub mod Tables
pub mod Formed
pub mod Sound
pub mod Areas
pub mod Formats
mod Tests
use power_sim_data.Prelude.{ℕ, Bool, List, [], ◌∷◌, ◌++◌, Option, none, some, if◌then◌else◌}
use power_sim_data.Prelude.Result.{Result, ok, raise, value_error}
use power_sim_data.Number.{Number}
use power_sim_data.Grid.{Grid}
use power_sim_data.GridCheck.Cost
use power_sim_data.GridCheck.Tables

abbrev pub concat : List (List Tables.Message) → List Tables.Message
concat [] = []
concat (l ∷ checks) = l ++ concat checks

module _ {V : Type 0} ⦃num : Number V⦄ (components : List (ℕ × ℕ) → ℕ) where
  -- What each check appends to the list of error messages, in their order.
  unfoldable pub checks : Grid V → List (List Tables.Message)
  unfolding Tables.islanded Tables.undescribed Tables.bus2sub_messages Tables.ac_interconnects
      Tables.transformer_substations Tables.line_voltages Tables.plant_gencost
      Tables.connected_components Tables.loop_branches
  checks g =
      Tables.islanded g
      ∷ Tables.undescribed g
      ∷ Tables.bus2sub_messages g
      ∷ Tables.ac_interconnects g
      ∷ Tables.transformer_substations g
      ∷ Tables.line_voltages g
      ∷ Tables.plant_gencost g
      ∷ Tables.connected_components components g
      ∷ Tables.loop_branches g
      ∷ Tables.gencost_messages g.gencost_before
      ∷ Tables.gencost_messages (Tables.gencost_after g)
      ∷ []

  unfoldable pub error_messages : Grid V → List Tables.Message
  unfolding checks
  error_messages g = concat (checks g)

  unfoldable pub check_grid : Grid V → Result (Unit {0})
  unfolding error_messages
  check_grid g = elim (error_messages g) [ [] ↦ ok tt | m ∷ messages ↦ raise value_error ]
