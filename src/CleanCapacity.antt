-- ===== src/CleanCapacity.antt =====
-- powersimdata/design/generation/clean_capacity_scaling.py: targets for clean energy, the capacity that is
-- missing, and the change table that adds it.
pub mod Zones
pub mod Factors
pub mod Shortfall
pub mod Partition
pub mod Untouched
mod Tests
