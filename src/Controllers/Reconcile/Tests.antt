-- ===== src/Controllers/Reconcile/Tests.antt =====
-- Runs of the reconcile loops on a small cluster.
use k8s_ssh_gateway_controll.Prelude.{◌≡◌, refl, ◌≢◌, false, Option, none, some, List, [], ◌∷◌}
use k8s_ssh_gateway_controll.Prelude.Int.{pos}
use k8s_ssh_gateway_controll.Prelude.Eq.{int_eq, nat_eq, list_beq}
use k8s_ssh_gateway_controll.Go.Text.{Text, text, text_eq, to_upper, to_upper_byte}
use k8s_ssh_gateway_controll.Go.Map.{
  Map, has, get-map_values, map_laws, get-empty, get-set, get-delete,
}
use k8s_ssh_gateway_controll.Ssh.Flags.{SessionFlags, no_flags, SessionKind, session_plain, kind_eq}
use k8s_ssh_gateway_controll.Ssh.Manager.State.{granted, Server, Manager}
use k8s_ssh_gateway_controll.Ssh.Manager.Invariant.{WellFormed}
use k8s_ssh_gateway_controll.Ssh.Manager.Operations.{
  is_connected, new_ssh_tunnel_manager, fresh_manager, Config, connect, connect_client,
  keepalive_failed,
}
use k8s_ssh_gateway_controll.Ssh.Pool.{Pool, new_session_pool}
use k8s_ssh_gateway_controll.Ssh.Pool.Tunnel.{tunnels, new_ssh_session_pool}
use k8s_ssh_gateway_controll.Controllers.Annotations.{parse_listener_proxy_protocol}
use k8s_ssh_gateway_controll.Controllers.Listeners.{create_listener, derive_listener_session}
use k8s_ssh_gateway_controll.Controllers.Parents.{RouteDetails}
use k8s_ssh_gateway_controll.Controllers.Gateway.State.{
  Reconciler, get_gw_key, is_route_already_attached,
}
use k8s_ssh_gateway_controll.Controllers.Gateway.Attaching.{
  setup_route_forwarding, set_accepted, set_listener, set_route,
}
use k8s_ssh_gateway_controll.Controllers.Gateway.Specs.{
  update_listeners, new_listeners, handle_add_or_update_gateway,
}
use k8s_ssh_gateway_controll.Controllers.Gateway.Accepted.{Registered}
use k8s_ssh_gateway_controll.Controllers.Names.{contains_string, get_gateway_controller_name}
use k8s_ssh_gateway_controll.Controllers.Objects.{http_route}
use k8s_ssh_gateway_controll.Controllers.RouteStatus.{condition_eq}
use k8s_ssh_gateway_controll.Controllers.RouteKinds.{extract_http_route_details}
use k8s_ssh_gateway_controll.Controllers.GatewayStatus.{refreshed, update_gateway_status_if_changed}
use k8s_ssh_gateway_controll.Controllers.Reconcile.{panics}
use k8s_ssh_gateway_controll.Controllers.Reconcile.Gateways.{reconcile_gateway}
use k8s_ssh_gateway_controll.Controllers.Reconcile.Routes.{
  set_route_with_status, handle_add_or_update, reconcile_http_route, reconcile_tcp_route,
  reconcile_tls_route,
}
use k8s_ssh_gateway_controll.Controllers.Reconcile.Runs.{
  keeps_alive, ControllerEvent, gateway_event, http_event, task, elsewhere, controller_run,
  controller_run-Sound,
}
use k8s_ssh_gateway_controll.Controllers.Reconcile.Converges.{
  update_gateway_status_if_changed-twice,
}
use k8s_ssh_gateway_controll.Controllers.Reconcile.Outcomes.{
  IsRouted, handle_add_or_update-attaches,
}
use k8s_ssh_gateway_controll.Controllers.Reconcile.NoPanic.{reconcile_routes-no_panic}
use k8s_ssh_gateway_controll.Controllers.Reconcile.GatewayEffects.{GatewayStep}
use k8s_ssh_gateway_controll.Controllers.Reconcile.GatewaySteps.{reconcile_gateway-GatewayStep}
use k8s_ssh_gateway_controll.Go.Map
use k8s_ssh_gateway_controll.Controllers.Reconcile.SmallCluster.{
  Store, easy_pool, no_environment, small_class, small_cluster, small_cluster-KeepsParents,
  small_cluster-Setter, small_gateway, small_registry, small_route, small_store, url_as_is,
  web_listener,
}

reconcile_routes-no_panic_example :
    ((reconcile_http_route easy_pool small_cluster no_environment url_as_is small_store
        small_registry
        (text "default")
        (text "r")).1
      ≢ panics)
    × ((reconcile_tcp_route easy_pool small_cluster no_environment url_as_is small_store
          small_registry
          (text "default")
          (text "r")).1
        ≢ panics)
    × ((reconcile_tls_route easy_pool small_cluster no_environment url_as_is small_store
          small_registry
          (text "default")
          (text "r")).1
        ≢ panics)
reconcile_routes-no_panic_example =
    reconcile_routes-no_panic easy_pool small_cluster no_environment url_as_is
      small_cluster-KeepsParents small_store small_registry (text "default") (text "r")

reconcile_gateway-GatewayStep_example :
    GatewayStep easy_pool small_cluster no_environment url_as_is small_store small_registry
      (text "default")
      (text "gw")
      (reconcile_gateway easy_pool small_cluster no_environment url_as_is small_store small_registry
        (text "default")
        (text "gw")).0.0
      (reconcile_gateway easy_pool small_cluster no_environment url_as_is small_store small_registry
        (text "default")
        (text "gw")).0.1
      (reconcile_gateway easy_pool small_cluster no_environment url_as_is small_store small_registry
        (text "default")
        (text "gw")).1
reconcile_gateway-GatewayStep_example =
    reconcile_gateway-GatewayStep easy_pool small_cluster no_environment url_as_is small_store
      small_registry (text "default") (text "gw")

abbrev small_details : RouteDetails
small_details = record {
  route_name = text "r";
  route_namespace = text "default";
  gw_name = text "gw";
  gw_namespace = text "default";
  listener_name = text "web";
  backend_host = text "svc.default.svc.cluster.local";
  backend_port = pos 8080;
}

handle_add_or_update-attaches_example :
    IsRouted easy_pool small_cluster no_environment url_as_is http_route
      (text "f")
      extract_http_route_details
      small_registry
      small_details
      (handle_add_or_update easy_pool small_cluster no_environment url_as_is http_route
        (text "f")
        extract_http_route_details
        small_store
        small_registry
        small_route
        small_details).0.1
unfolding handle_add_or_update set_route_with_status contains_string get_gateway_controller_name
    set_route set_listener set_accepted is_route_already_attached setup_route_forwarding
    handle_add_or_update_gateway new_listeners update_listeners create_listener
    derive_listener_session to_upper to_upper_byte parse_listener_proxy_protocol get_gw_key Map.get
    Map.set Map.delete Map.empty Map.lookup Map.without list_beq
handle_add_or_update-attaches_example =
    handle_add_or_update-attaches easy_pool small_cluster no_environment url_as_is http_route
      (text "f") extract_http_route_details small_registry small_details small_store small_route
      refl

update_gateway_status_if_changed-twice_example :
    (update_gateway_status_if_changed easy_pool small_cluster url_as_is small_store small_registry
      (refreshed easy_pool small_cluster url_as_is 5 small_registry small_gateway small_class).0
      small_class).0
    ≡ small_store
unfolding handle_add_or_update set_route_with_status contains_string get_gateway_controller_name
    set_route set_listener set_accepted is_route_already_attached setup_route_forwarding
    handle_add_or_update_gateway new_listeners update_listeners create_listener
    derive_listener_session to_upper to_upper_byte parse_listener_proxy_protocol get_gw_key Map.get
    Map.set Map.delete Map.empty Map.lookup Map.without list_beq
update_gateway_status_if_changed-twice_example =
    update_gateway_status_if_changed-twice easy_pool small_cluster small_cluster-Setter url_as_is
      small_registry small_gateway small_class
      (Map.set Map.empty (text "web") (create_listener web_listener Map.empty)) refl small_store 5

abbrev granting : SessionFlags → Server
granting flags = record {
  dial = λ h accept. none;
  answer = λ h req host port. granted;
  sha256 = λ key. key;
  abandons = λ h. false;
  output = λ h. [];
}

abbrev tunnel_config : Config
tunnel_config = record {
  private_key = text "key";
  host_key = [];
  remote_addr_func = none;
  flags = no_flags;
}

abbrev parse_any : Text → Option Text
parse_any key = none

abbrev tunnel_pool : Pool Manager
tunnel_pool = record {
  managers =
      Map.set Map.empty session_plain (connect (granting no_flags) (fresh_manager tunnel_config)).0;
  flags = Map.set Map.empty session_plain no_flags;
  retired = [];
}

abbrev started : Store × Reconciler (Pool Manager)
started = (small_store, record { pool = tunnel_pool; gateways = Map.empty })

abbrev some_events : List (ControllerEvent Store)
some_events =
    gateway_event (text "default") (text "gw")
    ∷ http_event (text "default") (text "r")
    ∷ task session_plain (keeps_alive keepalive_failed)
    ∷ elsewhere (λ w. record w { clock = 9 })
    ∷ gateway_event (text "default") (text "gw")
    ∷ []

controller_run-Sound_example :
    Registered
      (controller_run small_cluster no_environment url_as_is parse_any granting tunnel_config
        started some_events).1.gateways
    × ((kind : SessionKind) (m : Manager)
        → Map.get
            (controller_run small_cluster no_environment url_as_is parse_any granting tunnel_config
              started some_events).1.pool.managers
            kind
          ≡ some m
        → WellFormed m)
unfolding new_ssh_session_pool new_session_pool tunnels new_ssh_tunnel_manager connect
    connect_client fresh_manager is_connected Map.get Map.set Map.delete Map.empty Map.lookup
    Map.without list_beq
controller_run-Sound_example =
    controller_run-Sound small_cluster no_environment url_as_is parse_any granting tunnel_config
      small_store tunnel_pool some_events refl
