-- ===== src/Controllers/Tests.antt =====
-- Runs of the annotations, the listeners and the details of a route.
use k8s_ssh_gateway_controll.Prelude.{◌≡◌, refl, ◌↔◌, true, false, none, some, [], ◌∷◌, any}
use k8s_ssh_gateway_controll.Prelude.Int.{pos}
use k8s_ssh_gateway_controll.Prelude.Eq.{◌==◌, int_eq, nat_eq, list_beq}
use k8s_ssh_gateway_controll.Go.Text.{Text, text, text_eq}
use k8s_ssh_gateway_controll.Go.Map.{
  Map, has, get-map_values, map_laws, get-empty, get-set, get-delete,
}
use k8s_ssh_gateway_controll.Ssh.Errors.{ok}
use k8s_ssh_gateway_controll.Ssh.Flags.{
  no_flags, SessionKind, session_plain, session_proxy_proto, session_sni_proxy, kind_eq,
}
use k8s_ssh_gateway_controll.Ssh.Pool.{SessionManager, Pool, configure_sessions}
use k8s_ssh_gateway_controll.Ssh.Pool.Configure.{Paired, BuildsAll, configure_sessions-succeeds}
use k8s_ssh_gateway_controll.Controllers.Annotations.{
  parse_proxy_protocol, parse_class_session_config, required_session_kinds, IsVersion,
  parse_proxy_protocol-IsVersion, required_session_kinds_iff, annotation_proxy_protocol,
}
use k8s_ssh_gateway_controll.Controllers.Listeners.{
  K8sListener, create_listener, Served, create_listener_iff,
}
use k8s_ssh_gateway_controll.Controllers.Parents.{
  ParentRef, BackendRef, RouteDetails, extract_route_details_from_parts, DetailsOf,
  extract_route_details-DetailsOf, get_svc_hostname,
}
use k8s_ssh_gateway_controll.Go.Map

abbrev web_listener : K8sListener
web_listener = record {
  name = text "web";
  hostname = some (text "web.example");
  protocol = text "http";
  port = pos 80;
  tls_mode = none;
}

abbrev class_annotations : Map Text Text
class_annotations = Map.set Map.empty annotation_proxy_protocol (text "2")

parse_proxy_protocol-IsVersion_example : IsVersion (parse_proxy_protocol class_annotations)
parse_proxy_protocol-IsVersion_example = parse_proxy_protocol-IsVersion class_annotations

create_listener_iff_example :
    (((create_listener web_listener Map.empty).rejected ≡ false)
      × ((create_listener web_listener Map.empty).session_kind ≡ session_plain))
    ↔ Served web_listener Map.empty session_plain
create_listener_iff_example = create_listener_iff web_listener Map.empty session_plain

abbrev a_parent : ParentRef
a_parent = record {
  group = none;
  kind = none;
  namespace = none;
  name = text "gw";
  section_name = some (text "web");
  port = none;
}

abbrev a_backend : BackendRef
a_backend = record { name = text "svc"; namespace = none; port = some (pos 8080) }

abbrev details : RouteDetails
details = record {
  route_name = text "r";
  route_namespace = text "default";
  gw_name = text "gw";
  gw_namespace = text "default";
  listener_name = text "web";
  backend_host = text "svc.default.svc.cluster.local";
  backend_port = pos 8080;
}

extract_route_details-DetailsOf_example :
    DetailsOf (text "default") (text "r") (a_parent ∷ []) 1 (a_backend ∷ []) details
unfolding extract_route_details_from_parts get_svc_hostname list_beq
extract_route_details-DetailsOf_example =
    extract_route_details-DetailsOf (text "default") (text "r") (a_parent ∷ []) (a_backend ∷ []) 1
      details refl

abbrev unit_manager : SessionManager Unit
unit_manager = record {
  build = λ flags label. ok tt;
  starting = λ m fwd. (m, none);
  stopping = λ m fwd. (m, none);
  addresses = λ m host port. [];
  live = λ m. true;
  halt = λ m. m;
  connecting = λ m. (m, none);
}

abbrev one_session : Pool Unit
one_session = record {
  managers = Map.set Map.empty session_plain tt;
  flags = Map.set Map.empty session_plain no_flags;
  retired = [];
}

one_session-Paired : Paired one_session
unfolding Map.get Map.set Map.delete Map.empty Map.lookup Map.without
one_session-Paired session_plain = refl
one_session-Paired session_proxy_proto = refl
one_session-Paired session_sni_proxy = refl

unit_manager-BuildsAll : BuildsAll unit_manager
unit_manager-BuildsAll flags = (tt, refl)

required_session_kinds_iff_example :
    has
      (configure_sessions unit_manager one_session
        (parse_class_session_config class_annotations).proxy_protocol_version
        (parse_class_session_config class_annotations).sni_proxy_enabled).0.managers
      session_proxy_proto
    ≡ any
        (λ (k : SessionKind). k == session_proxy_proto)
        (required_session_kinds (parse_class_session_config class_annotations))
unfolding Map.get Map.set Map.delete Map.empty Map.lookup Map.without
required_session_kinds_iff_example =
    required_session_kinds_iff unit_manager class_annotations one_session session_proxy_proto
      one_session-Paired refl
      (configure_sessions-succeeds unit_manager unit_manager-BuildsAll one_session
        (parse_class_session_config class_annotations).proxy_protocol_version
        (parse_class_session_config class_annotations).sni_proxy_enabled).0
