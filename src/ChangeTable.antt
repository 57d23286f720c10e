-- ===== src/ChangeTable.antt =====
-- The class `ChangeTable` of powersimdata/input/change_table.py: its state, and methods as functions
-- from the state to a result and the next state, which a method that raises leaves behind.
pub mod Entries
pub mod Frames
pub mod Scaling
pub mod Lines
pub mod PlantTable
pub mod Resources
pub mod Checks
pub mod Plants
pub mod Storages
pub mod Clear
pub mod Flexibility
pub mod Keeps
pub mod Found
pub mod Calls
pub mod Steps
pub mod Cache
pub mod AllOrNothing
pub mod Checked
pub mod Valid
mod Looks
pub mod Detached
pub mod Units
pub mod ValidUnits
pub mod Factors
mod Tests
mod Runs
