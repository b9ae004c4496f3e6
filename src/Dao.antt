-- ===== src/Dao.antt =====
-- dao/cluster_dao_impl.go: apps, configurations and entities in the cluster's database.
pub mod Session
pub mod Apps
pub mod Configurations
pub mod Entities
pub mod Freshness
pub mod Staleness
mod DataCentre
mod Limits
pub mod Statuses
mod Examples
