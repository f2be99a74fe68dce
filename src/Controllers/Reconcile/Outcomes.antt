-- ===== src/Controllers/Reconcile/Outcomes.antt =====
-- What an answer of the route controllers tells of the registry.
use k8s_ssh_gateway_controll.Prelude.{
  ◌≡◌, refl, sym, ◌∙◌, subst, ◌⊎◌, Option, none, some, List, if_both,
}
use k8s_ssh_gateway_controll.Prelude.Eq.{int_eq, nat_eq}
use k8s_ssh_gateway_controll.Go.Text.{Text, text, text_eq}
use k8s_ssh_gateway_controll.Ssh.Flags.{kind_eq}
use k8s_ssh_gateway_controll.Controllers.Parents.{ParentRef, RouteDetails, DetailsError, first}
use k8s_ssh_gateway_controll.Controllers.Gateway.State.{
  SessionPool, GatewayError, Reconciler, get_gw_key,
}
use k8s_ssh_gateway_controll.Controllers.Gateway.Routes.{IsAttached, set_route-RouteSet}
use k8s_ssh_gateway_controll.Controllers.Names.{Environment}
use k8s_ssh_gateway_controll.Controllers.Objects.{
  MetaCondition, RouteObject, RouteKind, Cluster, Updated,
}
use k8s_ssh_gateway_controll.Controllers.RouteStatus.{
  condition_eq, accepted_route_conditions, pending_route_conditions,
}
use k8s_ssh_gateway_controll.Controllers.Addresses.{Url}
use k8s_ssh_gateway_controll.Controllers.Reconcile.{
  Requeue, after_route_period, after_retry_period, Answer, finished,
}
use k8s_ssh_gateway_controll.Controllers.Reconcile.Routes.{
  route_of, with_status, set_route_with_status, is_retried, after_set, after_add_finalizer,
  ensure_route_finalizer, handle_add_or_update,
}
use k8s_ssh_gateway_controll.Controllers.Reconcile.RouteCalls.{set_route_with_status-same}

module _ {P W : Type 0} (api : SessionPool P) (cluster : Cluster W) (env : Environment)
    (parse_url : Text → Option Url) (kind : RouteKind) (finalizer : Text)
    (extract : RouteObject → RouteDetails ⊎ DetailsError) (r : Reconciler P) where
  module _ (d : RouteDetails) where
    -- The listener of the details has their route.
    abbrev pub IsRouted : Reconciler P → Type 0
    IsRouted r' =
        IsAttached r'.gateways (get_gw_key d.gw_namespace d.gw_name) d.listener_name (route_of d)

    -- An answer that tells of success is one after which the route is attached.
    abbrev Truthful : (W × Reconciler P) × Answer → Type 0
    Truthful o = o.1 ≡ finished after_route_period → IsRouted o.0.1

    with_status-Truthful :
        (w : W) (r' : Reconciler P) (route : RouteObject) (conditions : List MetaCondition)
        (period : Requeue) (o : Option ParentRef)
        → (finished period ≡ finished after_route_period → IsRouted r')
        → Truthful (
            with_status api cluster env parse_url kind finalizer extract w r' route conditions
              period o)
    with_status-Truthful w r' route conditions period none routed = λ h. cc
    with_status-Truthful w r' route conditions period (some parent_ref) routed = routed

    after_set-Truthful :
        (route : RouteObject) (o : (W × Reconciler P) × Option GatewayError)
        → (o.1 ≡ none → IsRouted o.0.1)
        → Truthful (after_set api cluster env parse_url kind finalizer extract route o)
    after_set-Truthful route ((w, r'), none) routed =
        with_status-Truthful w r' route accepted_route_conditions after_route_period
          (first route.parent_refs) (λ h. routed refl)
    after_set-Truthful route ((w, r'), some e) routed =
        if_both Truthful (is_retried e) _ _
          (λ later.
            with_status-Truthful w r' route
              (pending_route_conditions (text "Parent Gateway is not ready")) after_retry_period
              (first route.parent_refs) (λ h. cc))
          (λ never. λ h. cc)

    set_route_with_status-IsRouted :
        (w : W)
        → (set_route_with_status api cluster parse_url w r d).1 ≡ none
        → IsRouted (set_route_with_status api cluster parse_url w r d).0.1
    set_route_with_status-IsRouted w done =
        let (same, e) = set_route_with_status-same api cluster parse_url r w d in
        subst IsRouted (sym same) (
          (set_route-RouteSet api r d.gw_namespace d.gw_name d.listener_name (route_of d)).attached
            (sym e ∙ done))

    after_add_finalizer-Truthful :
        (o : Updated W RouteObject)
        → Truthful (after_add_finalizer api cluster env parse_url kind finalizer extract r d o)
    after_add_finalizer-Truthful (w, (route, some e)) = λ h. cc
    after_add_finalizer-Truthful (w, (route, none)) =
        after_set-Truthful route (set_route_with_status api cluster parse_url w r d)
          (set_route_with_status-IsRouted w)

    -- Where handleAddOrUpdate answers with the period of a route that is set, the listener that the
    -- route names is registered, is not rejected, and has the route with its service and port.
    pub handle_add_or_update-attaches :
        (w : W) (route : RouteObject)
        → (handle_add_or_update api cluster env parse_url kind finalizer extract w r route d).1
          ≡ finished after_route_period
        → IsRouted
            (handle_add_or_update api cluster env parse_url kind finalizer extract w r route d).0.1
    unfolding handle_add_or_update
    handle_add_or_update-attaches w route =
        after_add_finalizer-Truthful
          (ensure_route_finalizer api cluster env parse_url kind finalizer extract w route)
