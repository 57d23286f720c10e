-- ===== src/TransformGrid.antt =====
-- powersimdata/input/transform_grid.py: the grid after the changes of a change table.
pub mod Scale
pub mod Add
pub mod Apply
pub mod Stages
pub mod Removal
pub mod Kept
pub mod Zones
mod SameBuses
pub mod BusTable
mod Tests
pub mod Plants
