-- ===== src/Controllers/Gateway/Removal.antt =====
-- RemoveRoute of controllers/gateway_controller.go.
use k8s_ssh_gateway_controll.Prelude.{
  ◌≡◌, refl, sym, ap, ◌∙◌, inl, inr, false, ◌&&◌, Option, none, some, arith, Bool-cases,
  Option-cases,
}
use k8s_ssh_gateway_controll.Prelude.Eq.{◌==◌, eq_iff, eq_refl, int_eq, nat_eq}
use k8s_ssh_gateway_controll.Go.Text.{Text, text_eq}
use k8s_ssh_gateway_controll.Go.Map.{
  Map, has, get-map_values, map_laws, get-empty, get-set, get-delete,
}
use k8s_ssh_gateway_controll.Ssh.Errors.{SshError}
use k8s_ssh_gateway_controll.Ssh.Flags.{kind_eq}
use k8s_ssh_gateway_controll.Controllers.Listeners.{Route, Listener}
use k8s_ssh_gateway_controll.Controllers.Gateway.State.{
  SessionPool, GatewayError, gateway_not_found, route_not_found, failed_to_stop, Reconciler,
  get_gw_key, old_forwarding, removable,
}
use k8s_ssh_gateway_controll.Controllers.Gateway.Attaching.{
  put, detached, remove_in, remove_at, remove_route,
}
use k8s_ssh_gateway_controll.Controllers.Gateway.Routes.{listener_at, listener_at-set}
use k8s_ssh_gateway_controll.Go.Map

module _ {P : Type 0} (api : SessionPool P) where
  -- What a call of RemoveRoute leaves of the registry.
  pub record RouteRemoved (r : Reconciler P) (key name : Text)
      (o : Reconciler P × Option GatewayError) : Type 0 where
    -- success: the listener has no route
    pub freed :
        o.1 ≡ none
        → (l : Listener) × (listener_at o.0.gateways key name ≡ some l) × (l.route ≡ none)
    -- an error: no listener has changed
    pub kept :
        (e : GatewayError)
        → o.1 ≡ some e
        → (key' name' : Text)
        → listener_at o.0.gateways key' name' ≡ listener_at r.gateways key' name'
    pub others :
        (key' name' : Text)
        → (key == key' && name == name') ≡ false
        → listener_at o.0.gateways key' name' ≡ listener_at r.gateways key' name'

  refused-RouteRemoved :
      (r : Reconciler P) (key name : Text) (e : GatewayError) → RouteRemoved r key name (r, some e)
  refused-RouteRemoved r key name e = record {
    freed = λ h. cc;
    kept = λ x h key' name'. refl;
    others = λ key' name' ne. refl;
  }

  removable-found :
      (o : Option Listener) (name namespace : Text) (l : Listener) (route : Route)
      → removable o name namespace ≡ some (l, route)
      → o ≡ some l
  removable-found none name namespace l route h = cc
  removable-found (some m) name namespace l route h = elim (Option-cases m.route) [
    | inl e ↦ absurd (ground (arith, e))
    | inr (x, e) ↦ ground (arith, e)
  ]

  module _ (r : Reconciler P) (key name : Text) (listeners : Map Text Listener) (l : Listener)
      (there : Map.get r.gateways key ≡ some listeners) (at : Map.get listeners name ≡ some l) where
    found_at : listener_at r.gateways key name ≡ some l
    found_at = rw (there, listener_at) at

    put-same :
        (p : P) (e : Option GatewayError) (key' name' : Text)
        → listener_at (put api r key listeners name (p, (l, e))).0.gateways key' name'
          ≡ listener_at r.gateways key' name'
    put-same p e key' name' =
        let stored = listener_at-set r.gateways listeners key name key' name' l there in
        elim (Bool-cases (key == key' && name == name')) [
          | inr ne ↦ stored ∙ ground arith
          | inl same ↦
              let keys : key ≡ key' = (eq_iff key key').0 (ground arith) in
              let names : name ≡ name' = (eq_iff name name').0 (ground arith) in
              let moved : listener_at r.gateways key name ≡ listener_at r.gateways key' name' =
                ap (λ k. listener_at r.gateways k name) keys
                ∙ ap (λ n. listener_at r.gateways key' n) names in
              stored ∙ ground (arith, same) ∙ sym found_at ∙ moved
        ]

    freed_at :
        (p : P) (e : Option GatewayError)
        → listener_at
            (put api r key listeners name (p, (record l { route = none }, e))).0.gateways
            key
            name
          ≡ some (record l { route = none })
    freed_at p e =
        listener_at-set r.gateways listeners key name key name _ there
        ∙ ground (arith, eq_refl key, eq_refl name)

    detached-RouteRemoved :
        (o : P × Option SshError)
        → RouteRemoved r key name (put api r key listeners name (detached api o l))
    detached-RouteRemoved (p, some e) = record {
      freed = λ h. cc;
      kept = λ x h key' name'. put-same p (some (failed_to_stop e)) key' name';
      others = λ key' name' ne. put-same p (some (failed_to_stop e)) key' name';
    }
    detached-RouteRemoved (p, none) = record {
      freed = λ h. (record l { route = none }, freed_at p none, refl);
      kept = λ x h. cc;
      others = λ key' name' ne.
          listener_at-set r.gateways listeners key name key' name' _ there ∙ ground arith;
    }

  remove_in-RouteRemoved :
      (r : Reconciler P) (key name route_key : Text) (listeners : Map Text Listener)
      (o : Option (Listener × Route))
      → Map.get r.gateways key ≡ some listeners
      → ((l : Listener) (route : Route) → o ≡ some (l, route) → Map.get listeners name ≡ some l)
      → RouteRemoved r key name (remove_in api r key name route_key listeners o)
  remove_in-RouteRemoved r key name route_key listeners none there found =
      refused-RouteRemoved r key name (route_not_found route_key)
  remove_in-RouteRemoved r key name route_key listeners (some (l, route)) there found =
      detached-RouteRemoved r key name listeners l there (found l route refl)
        (api.stop_in r.pool l.session_kind (old_forwarding l route))

  remove_at-RouteRemoved :
      (r : Reconciler P) (key name route_name route_namespace : Text)
      (o : Option (Map Text Listener))
      → Map.get r.gateways key ≡ o
      → RouteRemoved r key name (remove_at api r key name route_name route_namespace o)
  remove_at-RouteRemoved r key name route_name route_namespace none there =
      refused-RouteRemoved r key name (gateway_not_found key)
  remove_at-RouteRemoved r key name route_name route_namespace (some listeners) there =
      remove_in-RouteRemoved r key name (get_gw_key route_namespace route_name) listeners
        (removable (Map.get listeners name) route_name route_namespace) there
        (removable-found (Map.get listeners name) route_name route_namespace)

  -- Where RemoveRoute succeeds, the listener is registered without a route; where it fails, also
  -- where the pool refuses to stop the forwarding, every listener is as it was; in both cases all
  -- other listeners are.
  pub remove_route-RouteRemoved :
      (r : Reconciler P) (gw_namespace gw_name listener_name route_name route_namespace : Text)
      → RouteRemoved r
          (get_gw_key gw_namespace gw_name)
          listener_name
          (remove_route api r gw_namespace gw_name listener_name route_name route_namespace)
  unfolding remove_route
  remove_route-RouteRemoved r gw_namespace gw_name listener_name route_name route_namespace =
      remove_at-RouteRemoved r (get_gw_key gw_namespace gw_name) listener_name route_name
        route_namespace _ refl
