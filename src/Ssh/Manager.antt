-- ===== src/Ssh/Manager.antt =====
-- ssh/ssh_tunnel_manager.go: SSHTunnelManager.
pub mod State
pub mod Leases
pub mod Requests
pub mod Operations
pub mod Channels
pub mod Invariant
pub mod Results
pub mod Hosts
pub mod Dials
pub mod Recovery
mod Tests
