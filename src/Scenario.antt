-- ===== src/Scenario.antt =====
-- The states of a scenario: powersimdata/scenario/state.py, and of create.py, execute.py, analyze.py,
-- delete.py and move.py the class attributes `allowed` and what changes them. How the loading of a state that
-- is entered goes is an argument of `switch`; Loading has it for the state execute.
mod Tests
mod CreateTests
mod LifeTests
pub mod Reach
pub mod Shared
pub mod Gates
pub mod Settings
pub mod Interconnect
pub mod Builder
pub mod GetBuilder
pub mod Creation
pub mod Loading
pub mod Loaded
pub mod Steps
pub mod Created
pub mod Run
pub mod Registration
pub mod Failure
pub mod Stored
pub mod Raised
pub mod Partial
pub mod Returns
pub mod Deletion
pub mod Deleted
pub mod Preparation
pub mod Kept
pub mod Prepared
pub mod PrepareAgain
use power_sim_data.Prelude.{
  String, Bool, true, false, ◌&&◌, ◌||◌, ◌≡◌, ◌↔◌, Option, none, some, List, [], ◌∷◌, ◌++◌, Eq,
  string_eq, ◌==◌, contains, if◌then◌else◌, arith,
}
use power_sim_data.Prelude.Result.{Result, ok, raise, exception, type_error, value_error}

pub data StateName : Type 0 where
  create execute analyze delete move : StateName

abbrev state_beq : StateName → StateName → Bool
state_beq create create = true
state_beq execute execute = true
state_beq analyze analyze = true
state_beq delete delete = true
state_beq move move = true
state_beq _ _ = false

pub state_beq_iff : (a b : StateName) → (state_beq a b ≡ true) ↔ (a ≡ b)
state_beq_iff a b = ground arith

instance abbrev pub state_eq : Eq StateName
state_eq = record { beq = state_beq; beq_iff = state_beq_iff }

-- The lists `allowed` belong to the classes: every scenario of the process shares them.
pub record Classes : Type 0 where
  pub create_allowed : List StateName
  pub execute_allowed : List StateName
  pub analyze_allowed : List StateName
  pub delete_allowed : List StateName
  pub move_allowed : List StateName

abbrev pub loaded : Classes
loaded = record {
  create_allowed = [];
  execute_allowed = delete ∷ [];
  analyze_allowed = delete ∷ [];
  delete_allowed = [];
  move_allowed = [];
}

abbrev pub allowed : Classes → StateName → List StateName
allowed c create = c.create_allowed
allowed c execute = c.execute_allowed
allowed c analyze = c.analyze_allowed
allowed c delete = c.delete_allowed
allowed c move = c.move_allowed

-- A scenario object. The status is that of the execute list, or none in the state create.
pub record Scenario : Type 0 where
  pub state : StateName
  pub status : Option String

-- `Analyze._set_allowed_state`, called by `refresh`
unfoldable pub set_allowed_state : Option String → Classes → Classes
set_allowed_state none c = c
set_allowed_state (some status) c =
    if status == "extracted"
    then record c { analyze_allowed = c.analyze_allowed ++ move ∷ [] }
    else c

-- `refresh` of the class of a state.
unfoldable pub refresh : StateName → Option String → Classes → Classes
unfolding set_allowed_state
refresh analyze status c = set_allowed_state status c
refresh create status c = c
refresh execute status c = c
refresh delete status c = c
refresh move status c = c

-- `State.switch` but for what `refresh` loads at its end.
unfoldable pub change_class : StateName → Scenario → Classes → Result Scenario × Classes
unfolding refresh
change_class target s c =
    if contains (allowed c s.state) target
    then (ok (record s { state = target }), refresh target s.status c)
    else (raise exception, c)

-- `State.switch`: `loads` is how the loading of the grid and the change table goes, which `refresh` of Execute
-- and of Analyze ends with. The object has its new class by then.
unfoldable pub switch :
    Result (Unit {0}) → StateName → Scenario → Classes → Result (Unit {0}) × Scenario × Classes
unfolding change_class
switch loads target s c =
    let (r, classes) = change_class target s c in
    elim r [
      | raise x ↦ (raise x, s, classes)
      | ok s' ↦ (if target == execute || target == analyze then loads else ok tt, s', classes)
    ]

-- `Scenario(descriptor)`: the state and the status are those in the two lists. Another state than
-- these two leaves the object without one, and nothing can be done with it.
unfoldable pub open_scenario : String → String → Classes → Option Scenario × Classes
unfolding refresh
open_scenario state status c =
    if state == "execute"
    then (some (record { state = execute; status = some status }), refresh execute (some status) c)
    else (if state == "analyze"
        then (
          some (record { state = analyze; status = some status }),
          refresh analyze (some status) c,
        )
        else (none, c))

-- `Scenario()`
abbrev pub new_scenario : Scenario
new_scenario = record { state = create; status = none }

-- The end of `Create.create_scenario`, once the lists are written, up to the loading.
unfoldable pub finish_create : Scenario → Classes → Result Scenario × Classes
unfolding change_class
finish_create s c =
    let t = record s { status = some "created" } in
    change_class execute t (record c { create_allowed = c.create_allowed ++ execute ∷ [] })
