-- ===== src/Controllers/Reconcile/RouteCalls.antt =====
-- What the calls of SetRoute and RemoveRoute with the status of the Gateway do to the registry, and
-- the classes of their errors.
use k8s_ssh_gateway_controll.Controllers.Gateway.State.{
  gateway_not_ready, gateway_not_found, route_not_found, listener_not_found,
  listener_not_programmed, failed_to_start, failed_to_stop,
}
use k8s_ssh_gateway_controll.Prelude.{◌≡◌, refl, sym, ap, ◌∙◌, Option, none, some, if_both}
use k8s_ssh_gateway_controll.Prelude.Eq.{int_eq, nat_eq}
use k8s_ssh_gateway_controll.Go.Text.{Text, text_eq}
use k8s_ssh_gateway_controll.Ssh.Flags.{kind_eq}
use k8s_ssh_gateway_controll.Controllers.Parents.{RouteDetails}
use k8s_ssh_gateway_controll.Controllers.Gateway.State.{
  SessionPool, GatewayError, Reconciler, get_gw_key,
}
use k8s_ssh_gateway_controll.Controllers.Gateway.Routes.{listener_at}
use k8s_ssh_gateway_controll.Controllers.Gateway.Attaching.{set_route, remove_route}
use k8s_ssh_gateway_controll.Controllers.Objects.{Cluster}
use k8s_ssh_gateway_controll.Controllers.RouteStatus.{condition_eq}
use k8s_ssh_gateway_controll.Controllers.Addresses.{Url}
use k8s_ssh_gateway_controll.Controllers.Reconcile.Routes.{
  route_of, then_status, has_nothing_to_do, set_route_with_status, remove_route_with_status,
  is_retried, is_gone,
}
use k8s_ssh_gateway_controll.Controllers.Reconcile.RouteEffects.{is_pending, is_absent}

pub is_retried-pending : (e : GatewayError) → is_retried e ≡ is_pending e
is_retried-pending (gateway_not_ready key) = refl
is_retried-pending (gateway_not_found key) = refl
is_retried-pending (route_not_found key) = refl
is_retried-pending (listener_not_found key) = refl
is_retried-pending (listener_not_programmed key reason) = refl
is_retried-pending (failed_to_start e) = refl
is_retried-pending (failed_to_stop e) = refl

pub is_gone-absent : (e : GatewayError) → is_gone e ≡ is_absent e
is_gone-absent (gateway_not_ready key) = refl
is_gone-absent (gateway_not_found key) = refl
is_gone-absent (route_not_found key) = refl
is_gone-absent (listener_not_found key) = refl
is_gone-absent (listener_not_programmed key reason) = refl
is_gone-absent (failed_to_start e) = refl
is_gone-absent (failed_to_stop e) = refl

module _ {P W : Type 0} (api : SessionPool P) (cluster : Cluster W) (parse_url : Text → Option Url)
    (r : Reconciler P) (w : W) (d : RouteDetails) where
  abbrev setting : Reconciler P × Option GatewayError
  setting = set_route api r d.gw_namespace d.gw_name d.listener_name (route_of d)

  abbrev removal : Reconciler P × Option GatewayError
  removal =
      remove_route api r d.gw_namespace d.gw_name d.listener_name d.route_name d.route_namespace

  then_status-same :
      (gw_namespace gw_name : Text) (o : Reconciler P × Option GatewayError)
      → ((then_status api cluster parse_url w gw_namespace gw_name o).0.1 ≡ o.0)
        × ((then_status api cluster parse_url w gw_namespace gw_name o).1 ≡ o.1)
  then_status-same gw_namespace gw_name (r', none) = (refl, refl)
  then_status-same gw_namespace gw_name (r', some e) = (refl, refl)

  pub set_route_with_status-same :
      ((set_route_with_status api cluster parse_url w r d).0.1 ≡ setting.0)
      × ((set_route_with_status api cluster parse_url w r d).1 ≡ setting.1)
  unfolding set_route_with_status
  set_route_with_status-same =
      if_both
        (λ (x : (W × Reconciler P) × Option GatewayError). (x.0.1 ≡ setting.0) × (x.1 ≡ setting.1))
        (has_nothing_to_do api cluster parse_url r.pool
          (listener_at r.gateways (get_gw_key d.gw_namespace d.gw_name) d.listener_name)
          (route_of d))
        _ _ (λ idle. (refl, refl)) (λ busy. then_status-same d.gw_namespace d.gw_name setting)

  pub remove_route_with_status-same :
      ((remove_route_with_status api cluster parse_url w r d).0.1 ≡ removal.0)
      × ((remove_route_with_status api cluster parse_url w r d).1 ≡ removal.1)
  unfolding remove_route_with_status
  remove_route_with_status-same = then_status-same d.gw_namespace d.gw_name removal

  -- An outcome is its cluster with the registry and the error that are known.
  pub outcome-parts :
      (o : (W × Reconciler P) × Option GatewayError) (known : Reconciler P × Option GatewayError)
      → (o.0.1 ≡ known.0) × (o.1 ≡ known.1)
      → ((o.0.0, known.0), known.1) ≡ o
  outcome-parts o known (same, done) = sym (
      ap (λ (x : Reconciler P). ((o.0.0, x), o.1)) same
      ∙ ap (λ (e : Option GatewayError). ((o.0.0, known.0), e)) done)
