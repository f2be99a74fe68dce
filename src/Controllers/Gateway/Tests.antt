-- ===== src/Controllers/Gateway/Tests.antt =====
-- Runs of the gateway registry.
use k8s_ssh_gateway_controll.Prelude.{◌≡◌, refl, ◌↔◌, true, false, none, some, List, [], ◌∷◌}
use k8s_ssh_gateway_controll.Prelude.Int.{pos}
use k8s_ssh_gateway_controll.Prelude.Eq.{int_eq, nat_eq, list_beq}
use k8s_ssh_gateway_controll.Go.Text.{text, text_eq}
use k8s_ssh_gateway_controll.Go.Map.{
  Map, has, get-map_values, map_laws, get-empty, get-set, get-delete,
}
use k8s_ssh_gateway_controll.Ssh.Flags.{kind_eq}
use k8s_ssh_gateway_controll.Controllers.Annotations.{ClassSessionConfig, version_2}
use k8s_ssh_gateway_controll.Controllers.Listeners.{Route, K8sListener, create_listener}
use k8s_ssh_gateway_controll.Controllers.Gateway.State.{SessionPool, Reconciler, get_gw_key}
use k8s_ssh_gateway_controll.Controllers.Gateway.Attaching.{set_route, remove_route}
use k8s_ssh_gateway_controll.Controllers.Gateway.Specs.{
  K8sGateway, new_listeners, handle_add_or_update_gateway,
}
use k8s_ssh_gateway_controll.Controllers.Gateway.Routes.{RouteSet, set_route-RouteSet}
use k8s_ssh_gateway_controll.Controllers.Gateway.Accepted.{Registered}
use k8s_ssh_gateway_controll.Controllers.Gateway.Updates.{
  GatewayCall, sets_route, removes_route, adds_or_updates, gateway_run, gateway_run-Registered,
}
use k8s_ssh_gateway_controll.Controllers.Gateway.Status.{
  CanServe, listener_programmed_condition, listener_programmed_condition_iff,
}
use k8s_ssh_gateway_controll.Controllers.Gateway.Removal.{RouteRemoved, remove_route-RouteRemoved}
use k8s_ssh_gateway_controll.Controllers.Gateway.Agreement.{
  Agrees, handle_add_or_update_gateway-Agrees,
}
use k8s_ssh_gateway_controll.Go.Map

-- A pool that grants everything, and assigns one address.
abbrev easy_pool : SessionPool Unit
easy_pool = record {
  configure = λ p version sni. (p, none);
  start_in = λ p kind fwd. (p, none);
  stop_in = λ p kind fwd. (p, none);
  addresses_in = λ p kind host port. text "http://web.example" ∷ [];
  live_in = λ p kind. true;
  reconnect = λ p. p;
  shut = λ p. p;
}

abbrev web_listener : K8sListener
web_listener = record {
  name = text "web";
  hostname = some (text "web.example");
  protocol = text "http";
  port = pos 80;
  tls_mode = none;
}

abbrev bad_listener : K8sListener
bad_listener = record {
  name = text "udp";
  hostname = none;
  protocol = text "UDP";
  port = pos 53;
  tls_mode = none;
}

abbrev a_gateway : K8sGateway
a_gateway = record {
  namespace = text "default";
  name = text "gw";
  annotations = Map.empty;
  listeners = web_listener ∷ bad_listener ∷ [];
}

abbrev web_route : Route
web_route = record {
  name = text "r";
  namespace = text "default";
  host = text "svc";
  port = pos 8080;
}

abbrev registered : Reconciler Unit
registered =
    gateway_run easy_pool (record { pool = tt; gateways = Map.empty })
      (adds_or_updates a_gateway ∷ [])

set_route-RouteSet_example :
    RouteSet easy_pool registered
      (get_gw_key (text "default") (text "gw"))
      (text "web")
      web_route
      (set_route easy_pool registered (text "default") (text "gw") (text "web") web_route)
set_route-RouteSet_example =
    set_route-RouteSet easy_pool registered (text "default") (text "gw") (text "web") web_route

abbrev gateway_calls : List GatewayCall
gateway_calls =
    adds_or_updates a_gateway
    ∷ sets_route (text "default") (text "gw") (text "web") web_route
    ∷ sets_route (text "default") (text "gw") (text "udp") web_route
    ∷ removes_route (text "default") (text "gw") (text "web") (text "r") (text "default")
    ∷ []

gateway_run-Registered_example :
    Registered
      (gateway_run easy_pool (record { pool = tt; gateways = Map.empty }) gateway_calls).gateways
gateway_run-Registered_example = gateway_run-Registered easy_pool tt gateway_calls

abbrev empty_registry : Reconciler Unit
empty_registry = record { pool = tt; gateways = Map.empty }

handle_add_or_update_gateway-Agrees_example :
    Agrees Map.empty
      (web_listener ∷ bad_listener ∷ [])
      (text "web")
      (create_listener web_listener Map.empty)
unfolding handle_add_or_update_gateway new_listeners get_gw_key Map.get Map.set Map.delete Map.empty
    Map.lookup Map.without list_beq
handle_add_or_update_gateway-Agrees_example =
    handle_add_or_update_gateway-Agrees easy_pool empty_registry a_gateway (text "web")
      (create_listener web_listener Map.empty) refl

remove_route-RouteRemoved_example :
    RouteRemoved easy_pool registered (get_gw_key (text "default") (text "gw")) (text "web") (
      remove_route easy_pool registered
        (text "default")
        (text "gw")
        (text "web")
        (text "r")
        (text "default"))
remove_route-RouteRemoved_example =
    remove_route-RouteRemoved easy_pool registered (text "default") (text "gw") (text "web")
      (text "r") (text "default")

abbrev class_sessions : ClassSessionConfig
class_sessions = record { proxy_protocol_version = pos 2; sni_proxy_enabled = false }

listener_programmed_condition_iff_example :
    ((listener_programmed_condition easy_pool tt
        (create_listener web_listener Map.empty)
        class_sessions).status
      ≡ true)
    ↔ CanServe easy_pool tt (create_listener web_listener Map.empty) class_sessions
listener_programmed_condition_iff_example =
    listener_programmed_condition_iff easy_pool tt (create_listener web_listener Map.empty)
      class_sessions version_2
