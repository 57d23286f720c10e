-- ===== src/Scenario/Reach.antt =====
-- Which states can follow which, whatever is done with however many scenarios.
use power_sim_data.Prelude.{String, Bool, true, false, ◌≡◌, all, string_eq}
use power_sim_data.Prelude.Result.{Result}
use power_sim_data.Scenario.{
  StateName, create, execute, analyze, delete, move, Classes, loaded, Scenario, change_class,
  open_scenario, finish_create,
}

-- One call on one of the scenarios of the process, and what it does to the shared lists. `finish_create`
-- runs on a scenario in the state create only.
pub data Step (c : Classes) : Classes → Type 0 where
  switched : (target : StateName) (s : Scenario) → Step c ((change_class target s c).1)
  opened : (state status : String) → Step c ((open_scenario state status c).1)
  created : (s : Scenario) → s.state ≡ create → Step c ((finish_create s c).1)

-- The lists after some calls.
pub data Reached : Classes → Type 0 where
  start : Reached loaded
  then_ : {c d : Classes} → Reached c → Step c d → Reached d

-- The edges of the state diagram.
abbrev pub edge : StateName → StateName → Bool
edge create execute = true
edge execute delete = true
edge analyze delete = true
edge analyze move = true
edge _ _ = false

-- Every list holds edges only.
pub record OnlyEdges (c : Classes) : Type 0 where
  pub from_create : all (edge create) c.create_allowed ≡ true
  pub from_execute : all (edge execute) c.execute_allowed ≡ true
  pub from_analyze : all (edge analyze) c.analyze_allowed ≡ true
  pub from_delete : all (edge delete) c.delete_allowed ≡ true
  pub from_move : all (edge move) c.move_allowed ≡ true
