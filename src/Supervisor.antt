-- ===== src/Supervisor.antt =====
-- The package cluster: supervisors that keep each entity running on the node that owns it.
pub mod Cluster
pub mod Entities
pub mod Apps
pub mod Boot
mod Broadcast
mod Starting
mod Stopping
mod Activation
mod Deactivation
mod Shutdown
mod Examples
