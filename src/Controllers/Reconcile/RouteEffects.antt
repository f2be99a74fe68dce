-- ===== src/Controllers/Reconcile/RouteEffects.antt =====
-- What a reconcile loop of routes may do to the cluster and to the registry of Gateways, and what it
-- answers then.
use k8s_ssh_gateway_controll.Prelude.Eq.{◌==◌}
use k8s_ssh_gateway_controll.Controllers.Gateway.State.{
  gateway_not_ready, gateway_not_found, route_not_found, listener_not_found,
  listener_not_programmed, failed_to_start, failed_to_stop,
}
use k8s_ssh_gateway_controll.Controllers.Objects.{
  not_found, conflict, failed_with, GatewayObject, GatewayClass,
}
use k8s_ssh_gateway_controll.Controllers.Gateway.Attaching.{set_route, remove_route}
use k8s_ssh_gateway_controll.Controllers.Names.{remove_string, get_gateway_controller_name}
use k8s_ssh_gateway_controll.Controllers.RouteStatus.{write_route_parent_status}
use k8s_ssh_gateway_controll.Controllers.Parents.{extract_parent_gateway_ref}
use k8s_ssh_gateway_controll.Prelude.{
  ◌≡◌, ◌⊎◌, inl, inr, Bool, true, false, Option, none, some, [], ◌∷◌, ◌++◌,
}
use k8s_ssh_gateway_controll.Prelude.Eq.{int_eq, nat_eq}
use k8s_ssh_gateway_controll.Go.Text.{Text, text, text_eq}
use k8s_ssh_gateway_controll.Ssh.Flags.{kind_eq}
use k8s_ssh_gateway_controll.Controllers.Parents.{
  ParentRef, RouteDetails, extract_parent_gateway_ref, DetailsError, first,
}
use k8s_ssh_gateway_controll.Controllers.Gateway.State.{SessionPool, GatewayError, Reconciler}
use k8s_ssh_gateway_controll.Controllers.Names.{contains_string, remove_string, Environment}
use k8s_ssh_gateway_controll.Controllers.Objects.{ApiError, RouteObject, RouteKind, Cluster}
use k8s_ssh_gateway_controll.Controllers.RouteStatus.{
  condition_eq, accepted_route_conditions, pending_route_conditions,
}
use k8s_ssh_gateway_controll.Controllers.Addresses.{Url}
use k8s_ssh_gateway_controll.Controllers.Reconcile.{
  no_requeue, after_route_period, after_retry_period, api_failed, details_failed, route_failed,
  Answer, finished, fails, panics, ignore_not_found,
}
use k8s_ssh_gateway_controll.Controllers.Reconcile.Routes.{
  route_of, set_route_with_status, remove_route_with_status,
}

-- The answers of a route that was let go: its finalizer is removed, or the API refused that.
abbrev pub let_go : Option ApiError → Answer
let_go none = finished after_route_period
let_go (some e) = fails (api_failed e)

-- The Gateway is not ready or not found.
abbrev pub is_pending : GatewayError → Bool
is_pending (gateway_not_ready key) = true
is_pending (gateway_not_found key) = true
is_pending (route_not_found key) = false
is_pending (listener_not_found key) = false
is_pending (listener_not_programmed key reason) = false
is_pending (failed_to_start e) = false
is_pending (failed_to_stop e) = false

-- The Gateway or the route is not found.
abbrev pub is_absent : GatewayError → Bool
is_absent (gateway_not_ready key) = false
is_absent (gateway_not_found key) = true
is_absent (route_not_found key) = true
is_absent (listener_not_found key) = false
is_absent (listener_not_programmed key reason) = false
is_absent (failed_to_start e) = false
is_absent (failed_to_stop e) = false

-- RemoveRoute succeeded, or found nothing to remove.
abbrev pub is_removed : Option GatewayError → Bool
is_removed none = true
is_removed (some e) = is_absent e

-- SetRoute succeeded, or failed with an error that is retried.
abbrev pub is_reported : Option GatewayError → Bool
is_reported none = true
is_reported (some e) = is_pending e

-- The API could not be read, which does not say that the object is absent.
abbrev pub is_unread : ApiError → Bool
is_unread not_found = false
is_unread conflict = true
is_unread (failed_with e) = true

module _ {P W : Type 0} (api : SessionPool P) (cluster : Cluster W) (env : Environment)
    (parse_url : Text → Option Url) (kind : RouteKind) (finalizer : Text)
    (extract : RouteObject → RouteDetails ⊎ DetailsError) (w : W) (r : Reconciler P)
    (namespace name : Text) where
  abbrev pub set_by : RouteDetails → Reconciler P × Option GatewayError
  set_by d = set_route api r d.gw_namespace d.gw_name d.listener_name (route_of d)

  abbrev pub removed_by : RouteDetails → Reconciler P × Option GatewayError
  removed_by d =
      remove_route api r d.gw_namespace d.gw_name d.listener_name d.route_name d.route_namespace

  -- The cluster after a call on the registry, with the update of the Gateway's status.
  abbrev pub cluster_set : W → RouteDetails → W
  cluster_set w' d = (set_route_with_status api cluster parse_url w' r d).0.0

  abbrev pub cluster_removed : W → RouteDetails → W
  cluster_removed w' d = (remove_route_with_status api cluster parse_url w' r d).0.0

  -- The API has shown the route of the request.
  abbrev pub Shown : RouteObject → Type 0
  Shown route = (cluster.get_route w kind namespace name).1 ≡ inl route

  abbrev pub has_ours : RouteObject → Bool
  has_ours route = contains_string route.finalizers finalizer

  abbrev pub with_ours : RouteObject → RouteObject
  with_ours route = record route { finalizers = route.finalizers ++ finalizer ∷ [] }

  abbrev pub without_ours : RouteObject → RouteObject
  without_ours route = record route { finalizers = remove_string route.finalizers finalizer }

  -- Whether a Gateway is one that this controller manages, by the API: the class that it names, as the
  -- API shows it, names this controller; a Gateway or a class that is absent is none.
  pub data Managed (w' : W) (gw_namespace gw_name : Text) : W → Bool ⊎ ApiError → Type 0 where
    gateway_absent :
        (cluster.get_gateway w' gw_namespace gw_name).1 ≡ inr not_found
        → Managed w' gw_namespace gw_name
            (cluster.get_gateway w' gw_namespace gw_name).0
            (inl false)
    gateway_unread :
        (e : ApiError)
        → (cluster.get_gateway w' gw_namespace gw_name).1 ≡ inr e
        → is_unread e ≡ true
        → Managed w' gw_namespace gw_name (cluster.get_gateway w' gw_namespace gw_name).0 (inr e)
    class_absent :
        (gw : GatewayObject)
        → (cluster.get_gateway w' gw_namespace gw_name).1 ≡ inl gw
        → (cluster.get_class (cluster.get_gateway w' gw_namespace gw_name).0 gw.class_name).1
          ≡ inr not_found
        → Managed w' gw_namespace gw_name
            (cluster.get_class (cluster.get_gateway w' gw_namespace gw_name).0 gw.class_name).0
            (inl false)
    class_unread :
        (gw : GatewayObject) (e : ApiError)
        → (cluster.get_gateway w' gw_namespace gw_name).1 ≡ inl gw
        → (cluster.get_class (cluster.get_gateway w' gw_namespace gw_name).0 gw.class_name).1
          ≡ inr e
        → is_unread e ≡ true
        → Managed w' gw_namespace gw_name
            (cluster.get_class (cluster.get_gateway w' gw_namespace gw_name).0 gw.class_name).0
            (inr e)
    compared :
        (gw : GatewayObject) (gc : GatewayClass)
        → (cluster.get_gateway w' gw_namespace gw_name).1 ≡ inl gw
        → (cluster.get_class (cluster.get_gateway w' gw_namespace gw_name).0 gw.class_name).1
          ≡ inl gc
        → Managed w' gw_namespace gw_name
            (cluster.get_class (cluster.get_gateway w' gw_namespace gw_name).0 gw.class_name).0
            (inl (gc.controller_name == get_gateway_controller_name env))

  -- The route of the request is taken care of: it has our finalizer, or the Gateway of its first
  -- parent is one that this controller manages. Then with the cluster after the reads.
  pub data Ours : RouteObject → W → Type 0 where
    finalized :
        (route : RouteObject)
        → Shown route
        → has_ours route ≡ true
        → Ours route (cluster.get_route w kind namespace name).0
    targets_ours :
        (route : RouteObject) (gw_namespace gw_name : Text) (w' : W)
        → Shown route
        → has_ours route ≡ false
        → extract_parent_gateway_ref route.parent_refs route.namespace ≡ inl (gw_namespace, gw_name)
        → Managed (cluster.get_route w kind namespace name).0 gw_namespace gw_name w' (inl true)
        → Ours route w'

  -- A route of ours with the finalizer, as shown or, by an update that the API took, as the
  -- API answered.
  pub data Marked : RouteObject → RouteObject → W → Type 0 where
    had_finalizer :
        (route : RouteObject) (w' : W)
        → Ours route w'
        → has_ours route ≡ true
        → Marked route route w'
    gets_finalizer :
        (route : RouteObject) (w' : W)
        → Ours route w'
        → has_ours route ≡ false
        → (cluster.update_route w' kind (with_ours route)).1.1 ≡ none
        → Marked route
            (cluster.update_route w' kind (with_ours route)).1.0
            (cluster.update_route w' kind (with_ours route)).0

  -- What a loop does that leaves the registry alone.
  pub data Idle : W → Answer → Type 0 where
    unread :
        (e : ApiError)
        → (cluster.get_route w kind namespace name).1 ≡ inr e
        → Idle (cluster.get_route w kind namespace name).0 (ignore_not_found e)
    no_gateway :
        (route : RouteObject) (e : DetailsError)
        → Shown route
        → has_ours route ≡ false
        → extract_parent_gateway_ref route.parent_refs route.namespace ≡ inr e
        → Idle (cluster.get_route w kind namespace name).0 (finished no_requeue)
    not_ours :
        (route : RouteObject) (gw_namespace gw_name : Text) (w' : W)
        → Shown route
        → has_ours route ≡ false
        → extract_parent_gateway_ref route.parent_refs route.namespace ≡ inl (gw_namespace, gw_name)
        → Managed (cluster.get_route w kind namespace name).0 gw_namespace gw_name w' (inl false)
        → Idle w' (finished no_requeue)
    unchecked :
        (route : RouteObject) (gw_namespace gw_name : Text) (w' : W) (e : ApiError)
        → Shown route
        → has_ours route ≡ false
        → extract_parent_gateway_ref route.parent_refs route.namespace ≡ inl (gw_namespace, gw_name)
        → Managed (cluster.get_route w kind namespace name).0 gw_namespace gw_name w' (inr e)
        → Idle w' (fails (api_failed e))
    undetailed :
        (route : RouteObject) (w' : W) (e : DetailsError)
        → Ours route w'
        → extract route ≡ inr e
        → Idle w' (fails (details_failed e))
    leaving :
        (route : RouteObject) (w' : W)
        → Ours route w'
        → route.is_deleted ≡ true
        → has_ours route ≡ false
        → Idle w' (finished no_requeue)
    refused :
        (route : RouteObject) (w' : W) (e : ApiError)
        → Ours route w'
        → route.is_deleted ≡ false
        → has_ours route ≡ false
        → (cluster.update_route w' kind (with_ours route)).1.1 ≡ some e
        → Idle (cluster.update_route w' kind (with_ours route)).0 (fails (api_failed e))

  -- What a loop may do to the cluster and the registry, and its answer then. The details of a call
  -- are those of the route that the API has shown.
  pub data RouteStep : W → Reconciler P → Answer → Type 0 where
    idles : (w' : W) (answer : Answer) → Idle w' answer → RouteStep w' r answer
    attaches :
        (route marked : RouteObject) (w' : W) (d : RouteDetails) (parent_ref : ParentRef)
        → Marked route marked w'
        → route.is_deleted ≡ false
        → extract route ≡ inl d
        → (set_by d).1 ≡ none
        → first marked.parent_refs ≡ some parent_ref
        → RouteStep
            (write_route_parent_status cluster
              (get_gateway_controller_name env)
              kind
              parent_ref
              accepted_route_conditions
              (cluster_set w' d)
              marked).0
            (set_by d).0
            (finished after_route_period)
    waits :
        (route marked : RouteObject) (w' : W) (d : RouteDetails) (e : GatewayError)
        (parent_ref : ParentRef)
        → Marked route marked w'
        → route.is_deleted ≡ false
        → extract route ≡ inl d
        → (set_by d).1 ≡ some e
        → is_pending e ≡ true
        → first marked.parent_refs ≡ some parent_ref
        → RouteStep
            (write_route_parent_status cluster
              (get_gateway_controller_name env)
              kind
              parent_ref
              (pending_route_conditions (text "Parent Gateway is not ready"))
              (cluster_set w' d)
              marked).0
            (set_by d).0
            (finished after_retry_period)
    gives_up :
        (route marked : RouteObject) (w' : W) (d : RouteDetails) (e : GatewayError)
        → Marked route marked w'
        → route.is_deleted ≡ false
        → extract route ≡ inl d
        → (set_by d).1 ≡ some e
        → is_pending e ≡ false
        → RouteStep (cluster_set w' d) (set_by d).0 (fails (route_failed e))
    overruns :
        (route marked : RouteObject) (w' : W) (d : RouteDetails)
        → Marked route marked w'
        → route.is_deleted ≡ false
        → extract route ≡ inl d
        → is_reported (set_by d).1 ≡ true
        → first marked.parent_refs ≡ none
        → RouteStep (cluster_set w' d) (set_by d).0 panics
    detaches :
        (route : RouteObject) (w' : W) (d : RouteDetails)
        → Ours route w'
        → route.is_deleted ≡ true
        → has_ours route ≡ true
        → extract route ≡ inl d
        → is_removed (removed_by d).1 ≡ true
        → RouteStep
            (cluster.update_route (cluster_removed w' d) kind (without_ours route)).0
            (removed_by d).0
            (let_go (cluster.update_route (cluster_removed w' d) kind (without_ours route)).1.1)
    stays :
        (route : RouteObject) (w' : W) (d : RouteDetails) (e : GatewayError)
        → Ours route w'
        → route.is_deleted ≡ true
        → has_ours route ≡ true
        → extract route ≡ inl d
        → (removed_by d).1 ≡ some e
        → is_absent e ≡ false
        → RouteStep (cluster_removed w' d) (removed_by d).0 (fails (route_failed e))
