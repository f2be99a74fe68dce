-- ===== src/Controllers/Gateway/Attaching.antt =====
-- controllers/gateway_controller.go: SetRoute and RemoveRoute, with what they call, and
-- reconnectRequiredSessions.
use k8s_ssh_gateway_controll.Prelude.{Bool, true, not, Option, none, some, List, if◌then◌else◌, any}
use k8s_ssh_gateway_controll.Prelude.Eq.{int_eq, nat_eq}
use k8s_ssh_gateway_controll.Go.Text.{Text, text, text_eq}
use k8s_ssh_gateway_controll.Go.Map.{
  Map, has, get-map_values, map_laws, get-empty, get-set, get-delete,
}
use k8s_ssh_gateway_controll.Ssh.Errors.{SshError}
use k8s_ssh_gateway_controll.Ssh.Flags.{SessionKind, kind_eq}
use k8s_ssh_gateway_controll.Controllers.Listeners.{Route, Listener}
use k8s_ssh_gateway_controll.Controllers.Gateway.State.{
  SessionPool, GatewayError, gateway_not_ready, gateway_not_found, route_not_found,
  listener_not_found, listener_not_programmed, failed_to_stop, Reconciler, get_gw_key,
  is_route_already_attached, valid_by, old_forwarding, new_forwarding, Attempt, after_start,
  removable,
}
use k8s_ssh_gateway_controll.Go.Map

module _ {P : Type 0} (api : SessionPool P) where
  -- isForwardingValid
  unfoldable pub is_forwarding_valid : P → Listener → Bool
  is_forwarding_valid p l = valid_by l (api.addresses_in p l.session_kind l.hostname l.port)

  abbrev pub start_route : P → Listener → Route → Attempt P
  start_route p l route =
      after_start (api.start_in p l.session_kind (new_forwarding l route)) l route

  abbrev pub start_if_live : P → Listener → Route → Attempt P
  start_if_live p l route =
      if api.live_in p l.session_kind
      then start_route p l route
      else (p, (l, some (gateway_not_ready (text "SSH client not connected"))))

  abbrev pub connect_and_start : P → Listener → Route → Attempt P
  connect_and_start p l route =
      if api.live_in p l.session_kind
      then start_route p l route
      else start_if_live (api.reconnect p) l route

  abbrev pub after_stop : P × Option SshError → Listener → Route → Attempt P
  after_stop (p, some e) l route = (p, (l, some (failed_to_stop e)))
  after_stop (p, none) l route = connect_and_start p l route

  abbrev pub stop_existing : P → Listener → Option Route → P × Option SshError
  stop_existing p l none = (p, none)
  stop_existing p l (some old) = api.stop_in p l.session_kind (old_forwarding l old)

  -- setupRouteForwarding
  unfoldable pub setup_route_forwarding : P → Listener → Route → Attempt P
  setup_route_forwarding p l route = after_stop (stop_existing p l l.route) l route

  -- The part of SetRoute that works on a listener that is not rejected.
  unfoldable pub set_accepted : P → Listener → Route → Attempt P
  unfolding is_forwarding_valid setup_route_forwarding is_route_already_attached
  set_accepted p l route =
      if is_route_already_attached l.route route
      then (if is_forwarding_valid p l
          then (p, (l, none))
          else setup_route_forwarding p (record l { route = none }) route)
      else setup_route_forwarding p l route

  -- The part of SetRoute that works on the listener that it found.
  unfoldable pub set_listener : P → Text → Listener → Route → Attempt P
  unfolding set_accepted
  set_listener p listener_name l route =
      if l.rejected
      then (p, (l, some (listener_not_programmed listener_name l.reason)))
      else set_accepted p l route

  -- The listeners are shared through pointers: what an operation does to one is stored.
  abbrev pub put :
      Reconciler P
      → Text
      → Map Text Listener
      → Text
      → Attempt P
      → Reconciler P × Option GatewayError
  put r key listeners name (p, (l, e)) =
      (record { pool = p; gateways = Map.set r.gateways key (Map.set listeners name l) }, e)

  abbrev pub set_in :
      Reconciler P
      → Text
      → Text
      → Route
      → Map Text Listener
      → Option Listener
      → Reconciler P × Option GatewayError
  set_in r key name route listeners none = (r, some (listener_not_found name))
  set_in r key name route listeners (some l) =
      put r key listeners name (set_listener r.pool name l route)

  abbrev pub set_at :
      Reconciler P
      → Text
      → Text
      → Route
      → Option (Map Text Listener)
      → Reconciler P × Option GatewayError
  set_at r key name route none = (r, some (gateway_not_found key))
  set_at r key name route (some listeners) =
      set_in r key name route listeners (Map.get listeners name)

  -- SetRoute
  unfoldable pub set_route :
      Reconciler P → Text → Text → Text → Route → Reconciler P × Option GatewayError
  unfolding get_gw_key
  set_route r gw_namespace gw_name listener_name route =
      set_at r (get_gw_key gw_namespace gw_name) listener_name route
        (Map.get r.gateways (get_gw_key gw_namespace gw_name))

  abbrev pub detached : P × Option SshError → Listener → Attempt P
  detached (p, some e) l = (p, (l, some (failed_to_stop e)))
  detached (p, none) l = (p, (record l { route = none }, none))

  abbrev pub remove_in :
      Reconciler P
      → Text
      → Text
      → Text
      → Map Text Listener
      → Option (Listener × Route)
      → Reconciler P × Option GatewayError
  remove_in r key name route_key listeners none = (r, some (route_not_found route_key))
  remove_in r key name route_key listeners (some (l, route)) =
      put r key listeners name
        (detached (api.stop_in r.pool l.session_kind (old_forwarding l route)) l)

  abbrev pub remove_at :
      Reconciler P
      → Text
      → Text
      → Text
      → Text
      → Option (Map Text Listener)
      → Reconciler P × Option GatewayError
  remove_at r key name route_name route_namespace none = (r, some (gateway_not_found key))
  remove_at r key name route_name route_namespace (some listeners) =
      remove_in r key name (get_gw_key route_namespace route_name) listeners
        (removable (Map.get listeners name) route_name route_namespace)

  -- RemoveRoute
  unfoldable pub remove_route :
      Reconciler P → Text → Text → Text → Text → Text → Reconciler P × Option GatewayError
  unfolding get_gw_key
  remove_route r gw_namespace gw_name listener_name route_name route_namespace =
      remove_at r (get_gw_key gw_namespace gw_name) listener_name route_name route_namespace
        (Map.get r.gateways (get_gw_key gw_namespace gw_name))

  -- reconnectRequiredSessions, for the kinds that are required
  unfoldable pub reconnect_required_sessions : P → List SessionKind → P × Bool
  reconnect_required_sessions p required =
      if any (λ (kind : SessionKind). not (api.live_in p kind)) required
      then (
        api.reconnect p,
        not (any (λ (kind : SessionKind). not (api.live_in (api.reconnect p) kind)) required),
      )
      else (p, true)
