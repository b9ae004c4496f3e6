-- ===== src/Store.antt =====
-- The package store: apps and schedules.
pub mod App
pub mod Schedule
pub mod Callbacks
pub mod Registry
pub mod Registered
pub mod Columns
pub mod Validation
pub mod Partition
mod Accepted
pub mod Examples
