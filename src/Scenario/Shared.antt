-- ===== src/Scenario/Shared.antt =====
-- What one scenario changes for the others, through the lists of the classes.
use power_sim_data.Prelude.{◌≡◌, [], ◌∷◌, contains-append, string_eq, arith}
use power_sim_data.Prelude.Result.{Result, ok}
use power_sim_data.Scenario.{
  create, execute, analyze, move, state_eq, Classes, Scenario, change_class, switch, open_scenario,
  finish_create, new_scenario,
}

-- After one scenario was created, a new one that was given nothing is not kept from a switch to execute: it is
-- in the state execute afterwards, however the loading of its grid goes, whose outcome is that of the
-- switch.
pub finish_create-new_scenario :
    (loads : Result (Unit {0})) (s : Scenario) (c : Classes)
    → s.state ≡ create
    → ((switch loads execute new_scenario ((finish_create s c).1)).0 ≡ loads)
      × ((switch loads execute new_scenario ((finish_create s c).1)).1
          ≡ record new_scenario { state = execute })
unfolding finish_create switch change_class
finish_create-new_scenario loads s c h =
    let allowed_now = contains-append c.create_allowed (execute ∷ []) execute in
    (ground (arith, allowed_now), ground (arith, allowed_now))

-- After a scenario whose outputs are extracted was opened, every scenario in the state analyze may switch to
-- move, whatever its status is.
pub open_scenario-move :
    (s : Scenario) (c : Classes)
    → s.state ≡ analyze
    → (change_class move s ((open_scenario "analyze" "extracted" c).1)).0
      ≡ ok (record s { state = move })
unfolding open_scenario change_class
open_scenario-move s c h = ground (arith, contains-append c.analyze_allowed (move ∷ []) move)
