-- ===== src/Schedules.antt =====
-- dao/schedule_dao_impl.go.
pub mod Session
pub mod Rows
pub mod Runs
pub mod Recurring
pub mod Steps
pub mod Changes
pub mod Enrich
pub mod Batching
pub mod Batched
pub mod BulkActing
pub mod Windows
pub mod Minutes
mod Hours
pub mod Listing
pub mod RunsPages
mod FutureRuns
pub mod Cleared
pub mod Resuming
pub mod Stored
pub mod Columns
pub mod Sync
pub mod Statuses
pub mod Examples
mod ListingExamples
