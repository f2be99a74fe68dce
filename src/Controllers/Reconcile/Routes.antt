-- ===== src/Controllers/Reconcile/Routes.antt =====
-- controllers/httproute_controller.go, controllers/tcproute_controller.go and
-- controllers/tlsroute_controller.go: the reconcile loops of routes, which differ in the finalizer
-- and in the extraction of the details; and the calls of SetRoute and RemoveRoute with the update
-- of the Gateway's status.
use k8s_ssh_gateway_controll.Prelude.{
  ◌⊎◌, inl, inr, Bool, true, false, not, ◌&&◌, Option, none, some, List, [], ◌∷◌, ◌++◌,
  if◌then◌else◌,
}
use k8s_ssh_gateway_controll.Prelude.Eq.{int_eq, nat_eq}
use k8s_ssh_gateway_controll.Go.Text.{Text, text, text_eq}
use k8s_ssh_gateway_controll.Ssh.Flags.{kind_eq}
use k8s_ssh_gateway_controll.Controllers.Listeners.{Route, Listener}
use k8s_ssh_gateway_controll.Controllers.Parents.{
  ParentRef, RouteDetails, extract_parent_gateway_ref, DetailsError, first,
}
use k8s_ssh_gateway_controll.Controllers.Gateway.State.{
  SessionPool, GatewayError, gateway_not_ready, gateway_not_found, route_not_found, Reconciler,
  get_gw_key, is_route_already_attached,
}
use k8s_ssh_gateway_controll.Controllers.Gateway.Attaching.{
  is_forwarding_valid, set_route, remove_route,
}
use k8s_ssh_gateway_controll.Controllers.Gateway.Routes.{listener_at}
use k8s_ssh_gateway_controll.Controllers.Names.{
  contains_string, remove_string, Environment, get_gateway_controller_name,
  get_http_route_finalizer, get_tcp_route_finalizer, get_tls_route_finalizer,
}
use k8s_ssh_gateway_controll.Controllers.Objects.{
  ApiError, MetaCondition, RouteObject, RouteKind, http_route, tcp_route, tls_route, Cluster,
  Fetched, Updated,
}
use k8s_ssh_gateway_controll.Controllers.RouteStatus.{
  condition_eq, accepted_route_conditions, pending_route_conditions, write_route_parent_status,
}
use k8s_ssh_gateway_controll.Controllers.RouteKinds.{
  extract_http_route_details, extract_tcp_route_details, extract_tls_route_details,
}
use k8s_ssh_gateway_controll.Controllers.Addresses.{Url}
use k8s_ssh_gateway_controll.Controllers.GatewayStatus.{update_gateway_status}
use k8s_ssh_gateway_controll.Controllers.Reconcile.{
  Requeue, no_requeue, after_route_period, after_retry_period, api_failed, details_failed,
  route_failed, Answer, finished, fails, panics, ignore_not_found,
}
use k8s_ssh_gateway_controll.Controllers.Reconcile.Gateways.{is_gateway_managed}

abbrev pub route_of : RouteDetails → Route
route_of d = record {
  name = d.route_name;
  namespace = d.route_namespace;
  host = d.backend_host;
  port = d.backend_port;
}

module _ {P W : Type 0} (api : SessionPool P) (cluster : Cluster W)
    (parse_url : Text → Option Url) where
  -- After a success the status of the Gateway is updated; the error of that is only logged.
  abbrev pub then_status :
      W
      → Text
      → Text
      → Reconciler P × Option GatewayError
      → (W × Reconciler P) × Option GatewayError
  then_status w gw_namespace gw_name (r, some e) = ((w, r), some e)
  then_status w gw_namespace gw_name (r, none) =
      (((update_gateway_status api cluster parse_url w r gw_namespace gw_name).0, r), none)

  -- The route is attached already and its forwarding is valid, so SetRoute has nothing to do.
  abbrev pub has_nothing_to_do : P → Option Listener → Route → Bool
  has_nothing_to_do p none route = false
  has_nothing_to_do p (some l) route =
      not l.rejected && is_route_already_attached l.route route && is_forwarding_valid api p l

  -- SetRoute, with the status
  unfoldable pub set_route_with_status :
      W → Reconciler P → RouteDetails → (W × Reconciler P) × Option GatewayError
  unfolding set_route update_gateway_status is_route_already_attached is_forwarding_valid
  set_route_with_status w r d =
      let (r', e) = set_route api r d.gw_namespace d.gw_name d.listener_name (route_of d) in
      let l = listener_at r.gateways (get_gw_key d.gw_namespace d.gw_name) d.listener_name in
      if has_nothing_to_do r.pool l (route_of d)
      then ((w, r'), e)
      else then_status w d.gw_namespace d.gw_name (r', e)

  -- RemoveRoute, with the status
  unfoldable pub remove_route_with_status :
      W → Reconciler P → RouteDetails → (W × Reconciler P) × Option GatewayError
  unfolding remove_route update_gateway_status
  remove_route_with_status w r d =
      then_status w d.gw_namespace d.gw_name
        (remove_route api r d.gw_namespace d.gw_name d.listener_name d.route_name d.route_namespace)

-- The errors of SetRoute that are retried later: errors.As finds the gateway not ready or not found.
abbrev pub is_retried : GatewayError → Bool
is_retried (gateway_not_ready _) = true
is_retried (gateway_not_found _) = true
is_retried _ = false

-- The errors of RemoveRoute that do not keep the finalizer.
abbrev pub is_gone : GatewayError → Bool
is_gone (gateway_not_found _) = true
is_gone (route_not_found _) = true
is_gone _ = false

module _ {P W : Type 0} (api : SessionPool P) (cluster : Cluster W) (env : Environment)
    (parse_url : Text → Option Url) where
  module _ (kind : RouteKind) (finalizer : Text)
      (extract : RouteObject → RouteDetails ⊎ DetailsError) where
    -- The status is written under Spec.ParentRefs[0].
    abbrev pub with_status :
        W
        → Reconciler P
        → RouteObject
        → List MetaCondition
        → Requeue
        → Option ParentRef
        → (W × Reconciler P) × Answer
    with_status w r route conditions period none = ((w, r), panics)
    with_status w r route conditions period (some parent_ref) = (
      (
        (write_route_parent_status cluster (get_gateway_controller_name env) kind parent_ref
            conditions w route).0,
        r,
      ),
      finished period,
    )

    abbrev pub after_set :
        RouteObject → (W × Reconciler P) × Option GatewayError → (W × Reconciler P) × Answer
    after_set route ((w, r), none) =
        with_status w r route accepted_route_conditions after_route_period (first route.parent_refs)
    after_set route ((w, r), some e) =
        if is_retried e
        then with_status w r route (pending_route_conditions (text "Parent Gateway is not ready"))
            after_retry_period (first route.parent_refs)
        else ((w, r), fails (route_failed e))

    -- SetRoute, once the finalizer is there.
    abbrev pub after_add_finalizer :
        Reconciler P → RouteDetails → Updated W RouteObject → (W × Reconciler P) × Answer
    after_add_finalizer r d (w, (route, some e)) = ((w, r), fails (api_failed e))
    after_add_finalizer r d (w, (route, none)) =
        after_set route (set_route_with_status api cluster parse_url w r d)

    -- The route with our finalizer, added if it lacks it.
    abbrev pub ensure_route_finalizer : W → RouteObject → Updated W RouteObject
    ensure_route_finalizer w route =
        if contains_string route.finalizers finalizer
        then (w, (route, none))
        else cluster.update_route w kind
            (record route { finalizers = route.finalizers ++ finalizer ∷ [] })

    -- handleAddOrUpdate
    unfoldable pub handle_add_or_update :
        W → Reconciler P → RouteObject → RouteDetails → (W × Reconciler P) × Answer
    unfolding contains_string set_route_with_status write_route_parent_status
        get_gateway_controller_name
    handle_add_or_update w r route d = after_add_finalizer r d (ensure_route_finalizer w route)

    abbrev pub finalizer_removed :
        Reconciler P → Updated W RouteObject → (W × Reconciler P) × Answer
    finalizer_removed r (w, (route, none)) = ((w, r), finished after_route_period)
    finalizer_removed r (w, (route, some e)) = ((w, r), fails (api_failed e))

    abbrev pub release : W → Reconciler P → RouteObject → (W × Reconciler P) × Answer
    release w r route = finalizer_removed r (
        cluster.update_route w kind
          (record route { finalizers = remove_string route.finalizers finalizer }))

    abbrev pub after_remove :
        RouteObject → (W × Reconciler P) × Option GatewayError → (W × Reconciler P) × Answer
    after_remove route ((w, r), none) = release w r route
    after_remove route ((w, r), some e) =
        if is_gone e then release w r route else ((w, r), fails (route_failed e))

    -- handleDeletion
    unfoldable pub handle_deletion :
        W → Reconciler P → RouteObject → RouteDetails → (W × Reconciler P) × Answer
    unfolding contains_string remove_string remove_route_with_status
    handle_deletion w r route d =
        if contains_string route.finalizers finalizer
        then after_remove route (remove_route_with_status api cluster parse_url w r d)
        else ((w, r), finished after_route_period)

    -- The part of Reconcile for a route that is ours, or that targets a Gateway that is.
    abbrev pub reconcile_owned :
        W → Reconciler P → RouteObject → RouteDetails ⊎ DetailsError → (W × Reconciler P) × Answer
    reconcile_owned w r route (inr e) = ((w, r), fails (details_failed e))
    reconcile_owned w r route (inl d) =
        if route.is_deleted
        then (if contains_string route.finalizers finalizer
            then handle_deletion w r route d
            else ((w, r), finished no_requeue))
        else handle_add_or_update w r route d

    abbrev pub if_managed :
        Reconciler P → RouteObject → W × (Bool ⊎ ApiError) → (W × Reconciler P) × Answer
    if_managed r route (w, inr e) = ((w, r), fails (api_failed e))
    if_managed r route (w, inl managed) =
        if managed then reconcile_owned w r route (extract route) else ((w, r), finished no_requeue)

    abbrev pub by_parent :
        W → Reconciler P → RouteObject → (Text × Text) ⊎ DetailsError → (W × Reconciler P) × Answer
    by_parent w r route (inr e) = ((w, r), finished no_requeue)
    by_parent w r route (inl (gw_namespace, gw_name)) =
        if_managed r route (is_gateway_managed cluster env w gw_namespace gw_name)

    abbrev pub route_found : Reconciler P → Fetched W RouteObject → (W × Reconciler P) × Answer
    route_found r (w, inr e) = ((w, r), ignore_not_found e)
    route_found r (w, inl route) =
        if contains_string route.finalizers finalizer
        then reconcile_owned w r route (extract route)
        else by_parent w r route (extract_parent_gateway_ref route.parent_refs route.namespace)

    -- Reconcile, of each of the three route controllers
    unfoldable pub reconcile_route : W → Reconciler P → Text → Text → (W × Reconciler P) × Answer
    unfolding contains_string is_gateway_managed handle_deletion handle_add_or_update
        extract_parent_gateway_ref
    reconcile_route w r namespace name = route_found r (cluster.get_route w kind namespace name)

  -- HTTPRouteReconciler.Reconcile
  unfoldable pub reconcile_http_route : W → Reconciler P → Text → Text → (W × Reconciler P) × Answer
  unfolding reconcile_route extract_http_route_details get_http_route_finalizer
  reconcile_http_route =
      reconcile_route http_route (get_http_route_finalizer env) extract_http_route_details

  -- TCPRouteReconciler.Reconcile
  unfoldable pub reconcile_tcp_route : W → Reconciler P → Text → Text → (W × Reconciler P) × Answer
  unfolding reconcile_route extract_tcp_route_details get_tcp_route_finalizer
  reconcile_tcp_route =
      reconcile_route tcp_route (get_tcp_route_finalizer env) extract_tcp_route_details

  -- TLSRouteReconciler.Reconcile
  unfoldable pub reconcile_tls_route : W → Reconciler P → Text → Text → (W × Reconciler P) × Answer
  unfolding reconcile_route extract_tls_route_details get_tls_route_finalizer
  reconcile_tls_route =
      reconcile_route tls_route (get_tls_route_finalizer env) extract_tls_route_details
