-- ===== src/Connectors.antt =====
-- The package connectors: what the workers do with the tasks of their queues.
pub mod Http
mod Headers
pub mod Aggregate
pub mod Cron
mod Retries
mod Batches
mod Due
mod Examples
