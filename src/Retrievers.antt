-- ===== src/Retrievers.antt =====
-- The package retrievers: what the pollers fetch.
pub mod Fetching
pub mod Acting
mod Fetched
mod Examples
