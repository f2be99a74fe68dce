-- ===== src/Controllers/Gateway.antt =====
-- controllers/gateway_controller.go: GatewayReconciler, over SSHSessionPoolInterface.
pub mod State
pub mod Attaching
pub mod Specs
pub mod Routes
pub mod Removal
pub mod Accepted
pub mod Updates
pub mod Agreement
pub mod Sessions
pub mod Status
pub mod Tunnels
mod Tests
