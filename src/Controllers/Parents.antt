-- ===== src/Controllers/Parents.antt =====
-- controllers/common.go: extractParentGatewayRef and extractRouteDetailsFromParts.
use k8s_ssh_gateway_controll.Prelude.{
  ℕ, zero, suc, ◌<◌, ◌≡◌, refl, subst, ◌⊎◌, inl, inr, false, Option, none, some, List, [], ◌∷◌,
  ◌++◌, arith, if◌then◌else◌, if_both,
}
use k8s_ssh_gateway_controll.Prelude.Int.{ℤ}
use k8s_ssh_gateway_controll.Prelude.Eq.{◌==◌, int_eq, nat_eq}
use k8s_ssh_gateway_controll.Go.Text.{Text, text, text_eq}
use k8s_ssh_gateway_controll.Ssh.Flags.{kind_eq}

-- gatewayv1.ParentReference
pub record ParentRef : Type 0 where
  pub group : Option Text
  pub kind : Option Text
  pub namespace : Option Text
  pub name : Text
  pub section_name : Option Text
  pub port : Option ℤ

-- gatewayv1.BackendRef
pub record BackendRef : Type 0 where
  pub name : Text
  pub namespace : Option Text
  pub port : Option ℤ

-- routeDetails
pub record RouteDetails : Type 0 where
  pub route_name : Text
  pub route_namespace : Text
  pub gw_name : Text
  pub gw_namespace : Text
  pub listener_name : Text
  pub backend_host : Text
  pub backend_port : ℤ

-- The errors of the two functions, without the route that they name.
pub data DetailsError : Type 0 where
  no_parent parent_unnamed no_section no_rule no_backend backend_unnamed no_port no_namespace :
      DetailsError

abbrev pub default_to : Text → Option Text → Text
default_to namespace none = namespace
default_to namespace (some other_namespace) = other_namespace

abbrev pub parent_of : Text → Option ParentRef → (Text × Text) ⊎ DetailsError
parent_of namespace none = inr no_parent
parent_of namespace (some parent) =
    if parent.name == []
    then inr parent_unnamed
    else inl (default_to namespace parent.namespace, parent.name)

-- The first item of a slice, if it has one.
abbrev pub first {ℓ} : {A : Type ℓ} → List A → Option A
first [] = none
first (x ∷ xs) = some x

-- extractParentGatewayRef: the namespace and the name, or the error
unfoldable pub extract_parent_gateway_ref : List ParentRef → Text → (Text × Text) ⊎ DetailsError
extract_parent_gateway_ref parent_refs route_namespace =
    parent_of route_namespace (first parent_refs)

-- getSvcHostname
unfoldable pub get_svc_hostname : Text → Text → Text
get_svc_hostname svc_name svc_namespace =
    svc_name ++ b'.' ∷ svc_namespace ++ text ".svc.cluster.local"

-- The checks from the rules on, once the parent and its section are known.
abbrev pub backend_of :
    Text → Text → Text × Text → Text → ℕ → Option BackendRef → RouteDetails ⊎ DetailsError
backend_of ns name parent section zero backend = inr no_rule
backend_of ns name parent section (suc rules) none = inr no_backend
backend_of ns name (gw_namespace, gw_name) section (suc rules) (some backend) =
    if backend.name == [] then inr backend_unnamed else elim backend.port [
      | none ↦ inr no_port
      | some port ↦
          if ns == []
          then inr no_namespace
          else inl (record {
            route_name = name;
            route_namespace = ns;
            gw_name = gw_name;
            gw_namespace = gw_namespace;
            listener_name = section;
            backend_host = get_svc_hostname backend.name (default_to ns backend.namespace);
            backend_port = port;
          })
    ]

abbrev pub section_of : Option ParentRef → Option Text
section_of none = none
section_of (some parent) = parent.section_name

abbrev pub details_of :
    Text
    → Text
    → (Text × Text) ⊎ DetailsError
    → Option Text
    → ℕ
    → Option BackendRef
    → RouteDetails ⊎ DetailsError
details_of ns name (inr e) section rules backend = inr e
details_of ns name (inl parent) none rules backend = inr no_section
details_of ns name (inl parent) (some section) rules backend =
    backend_of ns name parent section rules backend

-- extractRouteDetailsFromParts
unfoldable pub extract_route_details_from_parts :
    Text → Text → List ParentRef → ℕ → List BackendRef → RouteDetails ⊎ DetailsError
unfolding get_svc_hostname
extract_route_details_from_parts route_ns route_name parent_refs rule_count backend_refs =
    details_of route_ns route_name (parent_of route_ns (first parent_refs))
      (section_of (first parent_refs)) rule_count (first backend_refs)

-- A result that is no error.
abbrev result_of : RouteDetails → RouteDetails ⊎ DetailsError
result_of d = inl d

inl_inj : (x y : RouteDetails) → result_of x ≡ inl y → x ≡ y
inl_inj x y e = cc

-- What a route gives its details.
pub record DetailsOf (ns name : Text) (parents : List ParentRef) (rules : ℕ)
    (backends : List BackendRef) (d : RouteDetails) : Type 0 where
  -- the same parent as extractParentGatewayRef finds
  pub parent : extract_parent_gateway_ref parents ns ≡ inl (d.gw_namespace, d.gw_name)
  pub section : section_of (first parents) ≡ some d.listener_name
  pub ruled : 0 < rules
  pub backend :
      (b : BackendRef) × (first backends ≡ some b)
      × ((b.name == []) ≡ false)
      × (b.port ≡ some d.backend_port)
      × (d.backend_host ≡ get_svc_hostname b.name (default_to ns b.namespace))
  pub named : (d.route_name ≡ name) × (d.route_namespace ≡ ns) × ((ns == []) ≡ false)

module _ (ns name : Text) (parents : List ParentRef) (backends : List BackendRef) where
  -- What a successful extraction has found.
  abbrev Found : ℕ → RouteDetails ⊎ DetailsError → Type 0
  Found rules o = (d : RouteDetails) → o ≡ inl d → DetailsOf ns name parents rules backends d

  module _ (gw_namespace gw_name section : Text)
      (found : extract_parent_gateway_ref parents ns ≡ inl (gw_namespace, gw_name))
      (at : section_of (first parents) ≡ some section) where
    ported-Found :
        (n : ℕ) (b : BackendRef) (o : Option ℤ)
        → first backends ≡ some b
        → (b.name == []) ≡ false
        → b.port ≡ o
        → Found (suc n) (elim o [
          | none ↦ inr no_port
          | some port ↦
              if ns == []
              then inr no_namespace
              else inl (record {
                route_name = name;
                route_namespace = ns;
                gw_name = gw_name;
                gw_namespace = gw_namespace;
                listener_name = section;
                backend_host = get_svc_hostname b.name (default_to ns b.namespace);
                backend_port = port;
              })
        ])
    ported-Found n b none there named e = λ d h. cc
    ported-Found n b (some port) there named e =
        if_both (Found (suc n)) (ns == []) _ _ (λ empty. λ d h. cc)
          (λ within. λ d h.
            subst (DetailsOf ns name parents (suc n) backends) (inl_inj _ d h) (record {
              parent = found;
              section = at;
              ruled = omega arith;
              backend = (b, there, named, e, refl);
              named = (refl, refl, within);
            }))

    backend_of-Found :
        (rules : ℕ) (o : Option BackendRef)
        → first backends ≡ o
        → Found rules (backend_of ns name (gw_namespace, gw_name) section rules o)
    backend_of-Found zero o there = λ d h. cc
    backend_of-Found (suc n) none there = λ d h. cc
    backend_of-Found (suc n) (some b) there =
        if_both (Found (suc n)) (b.name == []) _ _ (λ empty. λ d h. cc)
          (λ named. ported-Found n b b.port there named refl)

  details_of-Found :
      (rules : ℕ) (p : (Text × Text) ⊎ DetailsError) (o : Option Text)
      → extract_parent_gateway_ref parents ns ≡ p
      → section_of (first parents) ≡ o
      → Found rules (details_of ns name p o rules (first backends))
  details_of-Found rules (inr e) o found at = λ d h. cc
  details_of-Found rules (inl parent) none found at = λ d h. cc
  details_of-Found rules (inl (gw_namespace, gw_name)) (some section) found at =
      backend_of-Found gw_namespace gw_name section found at rules (first backends) refl

  -- Where extractRouteDetailsFromParts gives details, they name the gateway that
  -- extractParentGatewayRef finds, the section of the first parent, and the service and port of
  -- the first backend, in the backend's namespace or else the route's; there is a rule, the
  -- backend has a name and a port, and the route's namespace is not empty.
  pub extract_route_details-DetailsOf :
      (rules : ℕ) (d : RouteDetails)
      → extract_route_details_from_parts ns name parents rules backends ≡ inl d
      → DetailsOf ns name parents rules backends d
  unfolding extract_route_details_from_parts extract_parent_gateway_ref
  extract_route_details-DetailsOf rules d h =
      details_of-Found rules (parent_of ns (first parents)) (section_of (first parents)) refl refl d
        h
