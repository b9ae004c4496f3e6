-- ===== src/Service.antt =====
-- The package service: the handlers of the HTTP interface, behind the decoding of requests.
pub mod Errors
pub mod AppRegistration
mod Registration
pub mod Lifecycle
pub mod Queries
pub mod Listings
pub mod BulkActions
pub mod Tasks
pub mod BulkBounds
pub mod OffMinute
pub mod Rawless
mod Calm
mod Finding
mod Transitions
pub mod Histories
mod Examples
mod HistoryExamples
mod QueryExamples
