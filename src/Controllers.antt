-- ===== src/Controllers.antt =====
-- The package controllers.
pub mod Annotations
pub mod Listeners
pub mod Parents
pub mod Names
pub mod Gateway
pub mod Objects
pub mod RouteStatus
pub mod RouteKinds
pub mod Addresses
pub mod GatewayStatus
pub mod Patterns
pub mod Reconcile
mod Tests
