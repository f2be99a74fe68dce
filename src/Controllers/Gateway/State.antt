-- ===== src/Controllers/Gateway/State.antt =====
-- controllers/gateway_controller.go: the registry, the pool's interface and the errors, with those of
-- controllers/errors.go.
use k8s_ssh_gateway_controll.Prelude.{
  Bool, true, false, not, ◌&&◌, ◌||◌, Option, none, some, List, [], ◌∷◌, ◌++◌, if◌then◌else◌,
}
use k8s_ssh_gateway_controll.Prelude.Int.{ℤ, int_eqb, is_positive}
use k8s_ssh_gateway_controll.Prelude.Eq.{◌==◌, int_eq, nat_eq}
use k8s_ssh_gateway_controll.Go.Text.{Text, text, text_eq}
use k8s_ssh_gateway_controll.Go.Map.{Map}
use k8s_ssh_gateway_controll.Ssh.Errors.{
  SshError, message, client_not_ready, forwarding_exists, build_failed,
}
use k8s_ssh_gateway_controll.Ssh.Flags.{SessionKind, kind_eq}
use k8s_ssh_gateway_controll.Ssh.Manager.State.{ForwardingConfig}
use k8s_ssh_gateway_controll.Controllers.Listeners.{Route, Listener}
use k8s_ssh_gateway_controll.Ssh.Uri.{matches_requested_host}

-- SSHSessionPoolInterface; a method returns the pool's next state.
pub record SessionPool (P : Type 0) : Type 0 where
  pub configure : P → ℤ → Bool → P × Option SshError
  pub start_in : P → SessionKind → ForwardingConfig → P × Option SshError
  pub stop_in : P → SessionKind → ForwardingConfig → P × Option SshError
  pub addresses_in : P → SessionKind → Text → ℤ → List Text
  pub live_in : P → SessionKind → Bool
  pub reconnect : P → P
  pub shut : P → P

pub data GatewayError : Type 0 where
  gateway_not_ready gateway_not_found route_not_found listener_not_found : Text → GatewayError
  -- the listener's name and its reason
  listener_not_programmed : Text → Text → GatewayError
  failed_to_start failed_to_stop : SshError → GatewayError

-- GatewayReconciler: the pool, and the listeners of each gateway.
pub record Reconciler (P : Type 0) : Type 0 where
  pub pool : P
  pub gateways : Map Text (Map Text Listener)

-- getGwKey
unfoldable pub get_gw_key : Text → Text → Text
get_gw_key gw_namespace gw_name = gw_namespace ++ b'/' ∷ gw_name

-- isRouteAlreadyAttached
unfoldable pub is_route_already_attached : Option Route → Route → Bool
is_route_already_attached none route = false
is_route_already_attached (some attached) route =
    attached.name == route.name
    && attached.namespace == route.namespace
    && attached.host == route.host
    && int_eqb attached.port route.port

-- l.Protocol == "TCP" && l.Port > 0
abbrev pub pins_port : Listener → Bool
pins_port l = l.protocol == text "TCP" && is_positive l.port

abbrev pub valid_by : Listener → List Text → Bool
valid_by l [] = false
valid_by l (addr ∷ addrs) =
    if (l.hostname == text "0.0.0.0" || l.hostname == text "localhost") && not (pins_port l)
    then true
    else matches_requested_host (addr ∷ addrs) l.hostname l.port (pins_port l)

-- The forwarding that StopForwarding is called with.
abbrev pub old_forwarding : Listener → Route → ForwardingConfig
old_forwarding l route = record {
  remote_host = l.hostname;
  internal_host = route.host;
  remote_port = l.port;
  internal_port = route.port;
  enforce_port = false;
}

-- The forwarding that StartForwarding is called with.
abbrev pub new_forwarding : Listener → Route → ForwardingConfig
new_forwarding l route = record {
  remote_host = l.hostname;
  internal_host = route.host;
  remote_port = l.port;
  internal_port = route.port;
  enforce_port = pins_port l;
}

-- What errors.As finds in an error that wraps another.
unfoldable pub unwrapped : SshError → SshError
unwrapped (build_failed kind e) = unwrapped e
unwrapped e = e

abbrev pub attach : Listener → Route → Listener
attach l route = record l { route = some route }

abbrev pub by_error : SshError → SshError → Listener → Route → Listener × Option GatewayError
by_error client_not_ready e l route = (l, some (gateway_not_ready (message e)))
by_error (forwarding_exists key) e l route = (attach l route, none)
by_error cause e l route = (l, some (failed_to_start e))

-- handleForwardingError
unfoldable pub handle_forwarding_error :
    SshError → Listener → Route → Listener × Option GatewayError
unfolding unwrapped
handle_forwarding_error e l route = by_error (unwrapped e) e l route

-- What an operation on one listener leaves: the pool, the listener and its error.
abbrev pub Attempt : Type 0 → Type 0
Attempt P = P × (Listener × Option GatewayError)

abbrev pub after_start : {P : Type 0} → P × Option SshError → Listener → Route → Attempt P
after_start (p, none) l route = (p, (attach l route, none))
after_start (p, some e) l route = (p, handle_forwarding_error e l route)

-- The route of a listener, if it has the given name and namespace.
abbrev pub removable : Option Listener → Text → Text → Option (Listener × Route)
removable none name namespace = none
removable (some l) name namespace = elim l.route [
  | none ↦ none
  | some route ↦
      if route.name == name && route.namespace == namespace then some (l, route) else none
]
