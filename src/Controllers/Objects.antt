-- ===== src/Controllers/Objects.antt =====
-- The Kubernetes objects that the reconcile loops of package controllers read and write, and the API
-- through which they do, as a record of functions on the state `W` of the cluster. The API server,
-- controller-runtime's client, apimachinery and client-go are no part of the repository.
use k8s_ssh_gateway_controll.Prelude.{ℕ, ◌⊎◌, Bool, Option, List}
use k8s_ssh_gateway_controll.Prelude.Int.{ℤ}
use k8s_ssh_gateway_controll.Prelude.Eq.{int_eq, nat_eq}
use k8s_ssh_gateway_controll.Go.Text.{Text, text_eq}
use k8s_ssh_gateway_controll.Go.Map.{Map}
use k8s_ssh_gateway_controll.Ssh.Flags.{kind_eq}
use k8s_ssh_gateway_controll.Controllers.Parents.{ParentRef, BackendRef}
use k8s_ssh_gateway_controll.Controllers.Gateway.Specs.{K8sGateway}
use k8s_ssh_gateway_controll.Controllers.Gateway.Status.{ListenerStatus}

-- An error of the API: the two that the code tests for, and any other.
pub data ApiError : Type 0 where
  not_found conflict : ApiError
  failed_with : Text → ApiError

-- metav1.Condition
pub record MetaCondition : Type 0 where
  pub type_name : Text
  pub status : Text
  pub observed_generation : ℤ
  pub last_transition_time : ℕ
  pub reason : Text
  pub message : Text

-- gatewayv1.RouteParentStatus
pub record RouteParentStatus : Type 0 where
  pub parent_ref : ParentRef
  pub controller_name : Text
  pub conditions : List MetaCondition

pub data RouteKind : Type 0 where
  http_route tcp_route tls_route : RouteKind

-- What the code reads of an HTTPRoute, a TCPRoute and a TLSRoute.
pub record RouteObject : Type 0 where
  pub namespace : Text
  pub name : Text
  pub generation : ℤ
  pub finalizers : List Text
  -- the deletion timestamp is not zero
  pub is_deleted : Bool
  pub parent_refs : List ParentRef
  -- the backends of each rule
  pub rules : List (List BackendRef)
  -- status.parents
  pub parents : List RouteParentStatus

-- gatewayv1.GatewayStatusAddress
pub record Address : Type 0 where
  pub address_type : Option Text
  pub value : Text

-- A Gateway; `spec` is what the registry reads of it.
pub record GatewayObject : Type 0 where
  pub spec : K8sGateway
  pub class_name : Text
  pub finalizers : List Text
  pub is_deleted : Bool
  pub conditions : List MetaCondition
  pub addresses : List Address
  pub listener_statuses : List ListenerStatus

-- A GatewayClass
pub record GatewayClass : Type 0 where
  pub name : Text
  pub annotations : Map Text Text
  pub controller_name : Text
  pub conditions : List MetaCondition

-- What a Get leaves: the cluster, and the object or an error.
abbrev pub Fetched : Type 0 → Type 0 → Type 0
Fetched W A = W × (A ⊎ ApiError)

-- What an Update leaves: the cluster, the object that the client has decoded the answer into, and
-- the error.
abbrev pub Updated : Type 0 → Type 0 → Type 0
Updated W A = W × (A × Option ApiError)

pub record Cluster (W : Type 0) : Type 0 where
  pub get_route : W → RouteKind → Text → Text → Fetched W RouteObject
  pub update_route : W → RouteKind → RouteObject → Updated W RouteObject
  pub update_route_status : W → RouteKind → RouteObject → Updated W RouteObject
  pub get_gateway : W → Text → Text → Fetched W GatewayObject
  pub update_gateway : W → GatewayObject → Updated W GatewayObject
  pub update_gateway_status : W → GatewayObject → Updated W GatewayObject
  pub get_class : W → Text → Fetched W GatewayClass
  pub update_class_status : W → GatewayClass → Updated W GatewayClass
  -- metav1.Now
  pub now : W → ℕ
  -- apiMeta.SetStatusCondition at a time, and whether it changed the conditions
  pub set_status_condition : ℕ → List MetaCondition → MetaCondition → List MetaCondition × Bool
  -- retry.RetryOnConflict with its default backoff, of a function on the cluster and a route
  pub retry_on_conflict :
      (W × RouteObject → (W × RouteObject) × Option ApiError)
      → W × RouteObject
      → (W × RouteObject) × Option ApiError
  -- gatewayv1alpha2.TLSRoute names the type gatewayv1.TLSRoute
  pub tls_route_is_alias : Bool
