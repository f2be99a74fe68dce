-- ===== src/Controllers/RouteKinds.antt =====
-- extractHTTPRouteDetails of controllers/httproute_controller.go, extractTCPRouteDetails of
-- controllers/tcproute_controller.go and extractTLSRouteDetails of controllers/common.go.
use k8s_ssh_gateway_controll.Prelude.{
  ℕ, suc, ◌≡◌, refl, ◌⊎◌, inl, inr, Option, none, some, List, [], ◌∷◌, if◌then◌else◌, Bool-cases,
  Option-cases, length,
}
use k8s_ssh_gateway_controll.Prelude.Int.{ℤ}
use k8s_ssh_gateway_controll.Prelude.Eq.{◌==◌, int_eq, nat_eq}
use k8s_ssh_gateway_controll.Go.Text.{Text, text_eq}
use k8s_ssh_gateway_controll.Ssh.Flags.{kind_eq}
use k8s_ssh_gateway_controll.Controllers.Parents.{
  ParentRef, BackendRef, RouteDetails, extract_route_details_from_parts, get_svc_hostname,
  DetailsError, no_parent, parent_unnamed, no_section, no_rule, no_backend, backend_unnamed,
  no_port, no_namespace, default_to, parent_of, first, backend_of, section_of, details_of,
}
use k8s_ssh_gateway_controll.Controllers.Objects.{RouteObject}
use k8s_ssh_gateway_controll.Controllers.RouteStatus.{condition_eq}

module _ (route : RouteObject) (gw_namespace gw_name section : Text) where
  abbrev http_port : BackendRef → Option ℤ → RouteDetails ⊎ DetailsError
  http_port k8s_svc none = inr no_port
  http_port k8s_svc (some port) =
      if route.namespace == []
      then inr no_namespace
      else inl (record {
        route_name = route.name;
        route_namespace = route.namespace;
        gw_name = gw_name;
        gw_namespace = gw_namespace;
        listener_name = section;
        backend_host = get_svc_hostname k8s_svc.name (default_to route.namespace k8s_svc.namespace);
        backend_port = port;
      })

  abbrev http_backend : Option BackendRef → RouteDetails ⊎ DetailsError
  http_backend none = inr no_backend
  http_backend (some k8s_svc) =
      if k8s_svc.name == [] then inr backend_unnamed else http_port k8s_svc k8s_svc.port

  abbrev http_rule : Option (List BackendRef) → RouteDetails ⊎ DetailsError
  http_rule none = inr no_rule
  http_rule (some rule) = http_backend (first rule)

module _ (route : RouteObject) where
  abbrev http_section : Text → Text → Option Text → RouteDetails ⊎ DetailsError
  http_section gw_namespace gw_name none = inr no_section
  http_section gw_namespace gw_name (some section) =
      http_rule route gw_namespace gw_name section (first route.rules)

  abbrev http_parent : Option ParentRef → RouteDetails ⊎ DetailsError
  http_parent none = inr no_parent
  http_parent (some parent) =
      if parent.name == []
      then inr parent_unnamed
      else http_section (default_to route.namespace parent.namespace) parent.name
          parent.section_name

-- extractHTTPRouteDetails, with its checks in their order
unfoldable pub extract_http_route_details : RouteObject → RouteDetails ⊎ DetailsError
unfolding get_svc_hostname
extract_http_route_details route = http_parent route (first route.parent_refs)

-- The backends of the first rule, if there is one.
abbrev pub rule_backends : List (List BackendRef) → List BackendRef
rule_backends [] = []
rule_backends (rule ∷ rules) = rule

-- extractTCPRouteDetails
unfoldable pub extract_tcp_route_details : RouteObject → RouteDetails ⊎ DetailsError
unfolding extract_route_details_from_parts
extract_tcp_route_details route =
    extract_route_details_from_parts route.namespace route.name route.parent_refs
      (length route.rules) (rule_backends route.rules)

-- extractTLSRouteDetails
unfoldable pub extract_tls_route_details : RouteObject → RouteDetails ⊎ DetailsError
unfolding extract_route_details_from_parts
extract_tls_route_details route =
    extract_route_details_from_parts route.namespace route.name route.parent_refs
      (length route.rules) (rule_backends route.rules)

module _ (route : RouteObject) (gw_namespace gw_name section : Text) where
  http_backend-agrees :
      (n : ℕ) (o : Option BackendRef)
      → http_backend route gw_namespace gw_name section o
        ≡ backend_of route.namespace route.name (gw_namespace, gw_name) section (suc n) o
  http_backend-agrees n none = refl
  http_backend-agrees n (some b) = elim (Option-cases b.port) [
    | inl e ↦ rw (e, http_port, backend_of) refl
    | inr (port, e) ↦ rw (e, http_port, backend_of) refl
  ]

  http_rule-agrees :
      (rules : List (List BackendRef))
      → http_rule route gw_namespace gw_name section (first rules)
        ≡ backend_of route.namespace route.name
            (gw_namespace, gw_name)
            section
            (length rules)
            (first (rule_backends rules))
  http_rule-agrees [] = refl
  http_rule-agrees (rule ∷ rules) = http_backend-agrees (length rules) (first rule)

module _ (route : RouteObject) where
  http_section-agrees :
      (gw_namespace gw_name : Text) (o : Option Text)
      → http_section route gw_namespace gw_name o
        ≡ details_of route.namespace route.name
            (inl (gw_namespace, gw_name))
            o
            (length route.rules)
            (first (rule_backends route.rules))
  http_section-agrees gw_namespace gw_name none = refl
  http_section-agrees gw_namespace gw_name (some section) =
      http_rule-agrees route gw_namespace gw_name section route.rules

  http_parent-agrees :
      (o : Option ParentRef)
      → http_parent route o
        ≡ details_of route.namespace route.name
            (parent_of route.namespace o)
            (section_of o)
            (length route.rules)
            (first (rule_backends route.rules))
  http_parent-agrees none = refl
  http_parent-agrees (some parent) = elim (Bool-cases (parent.name == [])) [
    | inl empty ↦ rw (empty, parent_of, http_parent) refl
    | inr named ↦
        rw (named, parent_of, http_parent)
          (http_section-agrees (default_to route.namespace parent.namespace) parent.name
            parent.section_name)
  ]

-- The three extractions agree on every route: the HTTP one, which has checks of its own, gives the
-- details or the error that the one shared by TCP and TLS routes gives.
pub http_details-agree :
    (route : RouteObject)
    → (extract_http_route_details route ≡ extract_tcp_route_details route)
      × (extract_http_route_details route ≡ extract_tls_route_details route)
unfolding extract_http_route_details extract_tcp_route_details extract_tls_route_details
    extract_route_details_from_parts
http_details-agree route = (
  http_parent-agrees route (first route.parent_refs),
  http_parent-agrees route (first route.parent_refs),
)
