-- ===== src/Controllers/Reconcile.antt =====
-- What the reconcile loops of package controllers answer to controller-runtime.
pub mod Gateways
pub mod Routes
pub mod Kept
pub mod KeptByRoutes
pub mod Runs
pub mod RouteEffects
pub mod RouteCalls
pub mod RouteSteps
pub mod GatewayEffects
pub mod GatewaySteps
pub mod Outcomes
pub mod NoPanic
pub mod Converges
pub mod SmallCluster
mod StatusTests
mod Tests
use k8s_ssh_gateway_controll.Controllers.Parents.{DetailsError}
use k8s_ssh_gateway_controll.Controllers.Gateway.State.{GatewayError}
use k8s_ssh_gateway_controll.Controllers.Objects.{ApiError, not_found}

-- When the object is to be reconciled again: RequeueAfter, in the periods that the code names.
pub data Requeue : Type 0 where
  no_requeue after_10_seconds : Requeue
  after_gateway_period after_route_period after_retry_period : Requeue

pub data ReconcileError : Type 0 where
  api_failed : ApiError → ReconcileError
  details_failed : DetailsError → ReconcileError
  route_failed : GatewayError → ReconcileError

pub data Answer : Type 0 where
  finished : Requeue → Answer
  fails : ReconcileError → Answer
  -- an index out of range
  panics : Answer

-- client.IgnoreNotFound
abbrev pub ignore_not_found : ApiError → Answer
ignore_not_found not_found = finished no_requeue
ignore_not_found e = fails (api_failed e)
