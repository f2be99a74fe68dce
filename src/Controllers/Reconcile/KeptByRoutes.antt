-- ===== src/Controllers/Reconcile/KeptByRoutes.antt =====
-- What the reconcile loops of routes keep of the registry and its pool: every property that the
-- calls which they make keep.
use k8s_ssh_gateway_controll.Prelude.{◌⊎◌, inl, inr, Bool, Option, none, some, List, if_both}
use k8s_ssh_gateway_controll.Prelude.Eq.{int_eq, nat_eq}
use k8s_ssh_gateway_controll.Go.Text.{Text, text, text_eq}
use k8s_ssh_gateway_controll.Ssh.Flags.{kind_eq}
use k8s_ssh_gateway_controll.Controllers.Parents.{
  ParentRef, RouteDetails, extract_parent_gateway_ref, DetailsError, first,
}
use k8s_ssh_gateway_controll.Controllers.Gateway.State.{
  SessionPool, GatewayError, Reconciler, get_gw_key,
}
use k8s_ssh_gateway_controll.Controllers.Gateway.Routes.{listener_at}
use k8s_ssh_gateway_controll.Controllers.Gateway.Updates.{sets_route, removes_route, gateway_step}
use k8s_ssh_gateway_controll.Controllers.Names.{contains_string, remove_string, Environment}
use k8s_ssh_gateway_controll.Controllers.Objects.{
  ApiError, MetaCondition, RouteObject, RouteKind, Cluster, Fetched, Updated,
}
use k8s_ssh_gateway_controll.Controllers.RouteStatus.{
  condition_eq, accepted_route_conditions, pending_route_conditions,
}
use k8s_ssh_gateway_controll.Controllers.Addresses.{Url}
use k8s_ssh_gateway_controll.Controllers.Reconcile.{
  Requeue, after_route_period, after_retry_period, Answer,
}
use k8s_ssh_gateway_controll.Controllers.Reconcile.Gateways.{is_gateway_managed}
use k8s_ssh_gateway_controll.Controllers.Reconcile.Routes.{
  route_of, then_status, has_nothing_to_do, with_status, set_route_with_status,
  remove_route_with_status, is_retried, is_gone, after_set, after_add_finalizer,
  ensure_route_finalizer, handle_add_or_update, finalizer_removed, release, after_remove,
  handle_deletion, reconcile_owned, if_managed, by_parent, route_found, reconcile_route,
}
use k8s_ssh_gateway_controll.Controllers.Reconcile.Kept.{RegistryKept}

module _ {P W : Type 0} (api : SessionPool P) (cluster : Cluster W) (env : Environment)
    (parse_url : Text → Option Url) (I : Reconciler P → Type 0) (kept_by : RegistryKept api I) where
  -- The registry that a loop leaves has the property.
  abbrev Keeping : (W × Reconciler P) × Answer → Type 0
  Keeping o = I o.0.1

  module _ (kind : RouteKind) (finalizer : Text)
      (extract : RouteObject → RouteDetails ⊎ DetailsError) where
    with_status-Keeping :
        (w : W) (r : Reconciler P) (route : RouteObject) (conditions : List MetaCondition)
        (period : Requeue) (o : Option ParentRef)
        → I r
        → Keeping (
            with_status api cluster env parse_url kind finalizer extract w r route conditions period
              o)
    with_status-Keeping w r route conditions period none i = i
    with_status-Keeping w r route conditions period (some parent_ref) i = i

    then_status-Keeping :
        (w : W) (gw_namespace gw_name : Text) (o : Reconciler P × Option GatewayError)
        → I o.0
        → I (then_status api cluster parse_url w gw_namespace gw_name o).0.1
    then_status-Keeping w gw_namespace gw_name (r, none) i = i
    then_status-Keeping w gw_namespace gw_name (r, some e) i = i

    set_route_with_status-Keeping :
        (w : W) (r : Reconciler P) (d : RouteDetails)
        → I r
        → I (set_route_with_status api cluster parse_url w r d).0.1
    unfolding set_route_with_status gateway_step
    set_route_with_status-Keeping w r d i =
        let i' =
          kept_by.by_call r (sets_route d.gw_namespace d.gw_name d.listener_name (route_of d)) i in
        if_both (λ (x : (W × Reconciler P) × Option GatewayError). I x.0.1)
          (has_nothing_to_do api cluster parse_url r.pool
            (listener_at r.gateways (get_gw_key d.gw_namespace d.gw_name) d.listener_name)
            (route_of d))
          _ _ (λ idle. i') (λ busy. then_status-Keeping w d.gw_namespace d.gw_name _ i')

    remove_route_with_status-Keeping :
        (w : W) (r : Reconciler P) (d : RouteDetails)
        → I r
        → I (remove_route_with_status api cluster parse_url w r d).0.1
    unfolding remove_route_with_status gateway_step
    remove_route_with_status-Keeping w r d i = then_status-Keeping w d.gw_namespace d.gw_name _ (
        kept_by.by_call r
          (removes_route d.gw_namespace d.gw_name d.listener_name d.route_name d.route_namespace) i)

    after_set-Keeping :
        (route : RouteObject) (o : (W × Reconciler P) × Option GatewayError)
        → I o.0.1
        → Keeping (after_set api cluster env parse_url kind finalizer extract route o)
    after_set-Keeping route ((w, r), none) i =
        with_status-Keeping w r route accepted_route_conditions after_route_period
          (first route.parent_refs) i
    after_set-Keeping route ((w, r), some e) i =
        if_both Keeping (is_retried e) _ _
          (λ later.
            with_status-Keeping w r route
              (pending_route_conditions (text "Parent Gateway is not ready")) after_retry_period
              (first route.parent_refs) i)
          (λ failed_set. i)

    after_add_finalizer-Keeping :
        (r : Reconciler P) (d : RouteDetails) (o : Updated W RouteObject)
        → I r
        → Keeping (after_add_finalizer api cluster env parse_url kind finalizer extract r d o)
    after_add_finalizer-Keeping r d (w, (route, some e)) i = i
    after_add_finalizer-Keeping r d (w, (route, none)) i =
        after_set-Keeping route (set_route_with_status api cluster parse_url w r d)
          (set_route_with_status-Keeping w r d i)

    finalizer_removed-Keeping :
        (r : Reconciler P) (o : Updated W RouteObject)
        → I r
        → Keeping (finalizer_removed api cluster env parse_url kind finalizer extract r o)
    finalizer_removed-Keeping r (w, (route, none)) i = i
    finalizer_removed-Keeping r (w, (route, some e)) i = i

    release-Keeping :
        (w : W) (r : Reconciler P) (route : RouteObject)
        → I r
        → Keeping (release api cluster env parse_url kind finalizer extract w r route)
    release-Keeping w r route i =
        finalizer_removed-Keeping r
          (cluster.update_route w kind
            (record route { finalizers = remove_string route.finalizers finalizer }))
          i

    after_remove-Keeping :
        (route : RouteObject) (o : (W × Reconciler P) × Option GatewayError)
        → I o.0.1
        → Keeping (after_remove api cluster env parse_url kind finalizer extract route o)
    after_remove-Keeping route ((w, r), none) i = release-Keeping w r route i
    after_remove-Keeping route ((w, r), some e) i =
        if_both Keeping (is_gone e) _ _ (λ gone. release-Keeping w r route i) (λ there. i)

    reconcile_owned-Keeping :
        (w : W) (r : Reconciler P) (route : RouteObject) (o : RouteDetails ⊎ DetailsError)
        → I r
        → Keeping (reconcile_owned api cluster env parse_url kind finalizer extract w r route o)
    unfolding handle_deletion handle_add_or_update
    reconcile_owned-Keeping w r route (inr e) i = i
    reconcile_owned-Keeping w r route (inl d) i =
        if_both Keeping route.is_deleted _ _
          (λ deleted.
            if_both Keeping (contains_string route.finalizers finalizer) _ _
              (λ mine.
                if_both Keeping (contains_string route.finalizers finalizer) _ _
                  (λ still.
                    after_remove-Keeping route
                      (remove_route_with_status api cluster parse_url w r d)
                      (remove_route_with_status-Keeping w r d i))
                  (λ lost. i))
              (λ foreign_route. i))
          (λ living.
            after_add_finalizer-Keeping r d
              (ensure_route_finalizer api cluster env parse_url kind finalizer extract w route) i)

    if_managed-Keeping :
        (r : Reconciler P) (route : RouteObject) (o : W × (Bool ⊎ ApiError))
        → I r
        → Keeping (if_managed api cluster env parse_url kind finalizer extract r route o)
    if_managed-Keeping r route (w, inr e) i = i
    if_managed-Keeping r route (w, inl managed) i =
        if_both Keeping managed _ _ (λ yes. reconcile_owned-Keeping w r route (extract route) i)
          (λ no. i)

    by_parent-Keeping :
        (w : W) (r : Reconciler P) (route : RouteObject) (o : (Text × Text) ⊎ DetailsError)
        → I r
        → Keeping (by_parent api cluster env parse_url kind finalizer extract w r route o)
    by_parent-Keeping w r route (inr e) i = i
    by_parent-Keeping w r route (inl (gw_namespace, gw_name)) i =
        if_managed-Keeping r route (is_gateway_managed cluster env w gw_namespace gw_name) i

    route_found-Keeping :
        (r : Reconciler P) (o : Fetched W RouteObject)
        → I r
        → Keeping (route_found api cluster env parse_url kind finalizer extract r o)
    route_found-Keeping r (w, inr e) i = i
    route_found-Keeping r (w, inl route) i =
        if_both Keeping (contains_string route.finalizers finalizer) _ _
          (λ mine. reconcile_owned-Keeping w r route (extract route) i)
          (λ unmarked.
            by_parent-Keeping w r route
              (extract_parent_gateway_ref route.parent_refs route.namespace) i)

    pub reconcile_route-Keeping :
        (w : W) (r : Reconciler P) (namespace name : Text)
        → I r
        → Keeping
            (reconcile_route api cluster env parse_url kind finalizer extract w r namespace name)
    unfolding reconcile_route
    reconcile_route-Keeping w r namespace name i =
        route_found-Keeping r (cluster.get_route w kind namespace name) i
