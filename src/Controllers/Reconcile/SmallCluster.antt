-- ===== src/Controllers/Reconcile/SmallCluster.antt =====
-- A small cluster and pool, whose API accepts everything, for the runs of the tests.
use k8s_ssh_gateway_controll.Prelude.{
  ℕ, ◌≡◌, refl, ap, ◌∙◌, subst, inl, inr, Bool, true, false, Option, none, some, List, [], ◌∷◌,
  arith, if◌then◌else◌, Bool-cases, if_both,
}
use k8s_ssh_gateway_controll.Prelude.Int.{pos}
use k8s_ssh_gateway_controll.Prelude.Eq.{◌==◌, eq_iff, eq_refl, int_eq, nat_eq}
use k8s_ssh_gateway_controll.Go.Text.{Text, text, text_eq}
use k8s_ssh_gateway_controll.Go.Map.{
  Map, has, get-map_values, map_laws, get-empty, get-set, get-delete,
}
use k8s_ssh_gateway_controll.Ssh.Flags.{kind_eq}
use k8s_ssh_gateway_controll.Controllers.Listeners.{K8sListener}
use k8s_ssh_gateway_controll.Controllers.Parents.{ParentRef, BackendRef}
use k8s_ssh_gateway_controll.Controllers.Gateway.State.{SessionPool, Reconciler}
use k8s_ssh_gateway_controll.Controllers.Gateway.Specs.{handle_add_or_update_gateway}
use k8s_ssh_gateway_controll.Controllers.Names.{Environment}
use k8s_ssh_gateway_controll.Controllers.Objects.{
  MetaCondition, RouteParentStatus, RouteObject, GatewayObject, GatewayClass, Cluster,
}
use k8s_ssh_gateway_controll.Controllers.RouteStatus.{condition_eq}
use k8s_ssh_gateway_controll.Controllers.RouteStatus.Upsert.{
  find_status_condition, says, says_if_any, settled, Setter,
}
use k8s_ssh_gateway_controll.Controllers.Addresses.{Url}
use k8s_ssh_gateway_controll.Controllers.Reconcile.NoPanic.{KeepsParents}
use k8s_ssh_gateway_controll.Go.Map

-- A cluster with one route, one Gateway and one class, whatever the names.
pub record Store : Type 0 where
  pub route : RouteObject
  pub gateway : GatewayObject
  pub class : GatewayClass
  pub clock : ℕ

-- The condition of a type is replaced unless it says the same.
unfoldable pub set_one : ℕ → List MetaCondition → MetaCondition → List MetaCondition × Bool
set_one time [] c = (record c { last_transition_time = time } ∷ [], true)
set_one time (d ∷ ds) c =
    let rest = set_one time ds c in
    if d.type_name == c.type_name
    then (if says c d
        then (d ∷ ds, false)
        else (record c { last_transition_time = time } ∷ ds, true))
    else (d ∷ rest.0, rest.1)

abbrev pub small_cluster : Cluster Store
small_cluster = record {
  get_route = λ w kind namespace name. (w, inl w.route);
  update_route = λ w kind route. (record w { route = route }, (route, none));
  update_route_status = λ w kind route. (record w { route = route }, (route, none));
  get_gateway = λ w namespace name. (w, inl w.gateway);
  update_gateway = λ w gw. (record w { gateway = gw }, (gw, none));
  update_gateway_status = λ w gw. (record w { gateway = gw }, (gw, none));
  get_class = λ w name. (w, inl w.class);
  update_class_status = λ w gc. (record w { class = gc }, (gc, none));
  now = λ w. w.clock;
  set_status_condition = set_one;
  retry_on_conflict = λ f s. f s;
  tls_route_is_alias = false;
}

set_one-settled :
    (time : ℕ) (ds : List MetaCondition) (c : MetaCondition)
    → settled (set_one time ds c).0 c ≡ true
unfolding set_one find_status_condition
set_one-settled time [] c = ground (
  arith,
  eq_refl c.type_name,
  eq_refl c.status,
  eq_refl c.observed_generation,
  eq_refl c.reason,
  eq_refl c.message,
)
set_one-settled time (d ∷ ds) c =
    if_both (λ (x : List MetaCondition × Bool). settled x.0 c ≡ true) (d.type_name == c.type_name) _
      _
      (λ same.
        if_both (λ (x : List MetaCondition × Bool). settled x.0 c ≡ true) (says c d) _ _
          (λ said. rw same said)
          (λ differs. ground (
            arith,
            eq_refl c.type_name,
            eq_refl c.status,
            eq_refl c.observed_generation,
            eq_refl c.reason,
            eq_refl c.message,
          )))
      (λ apart. rw apart (set_one-settled time ds c))

set_one-other :
    (time : ℕ) (ds : List MetaCondition) (c : MetaCondition) (type_name : Text)
    → (c.type_name == type_name) ≡ false
    → find_status_condition (set_one time ds c).0 type_name ≡ find_status_condition ds type_name
unfolding set_one find_status_condition
set_one-other time [] c type_name ne = ground arith
set_one-other time (d ∷ ds) c type_name ne =
    if_both
      (λ (x : List MetaCondition × Bool).
        find_status_condition x.0 type_name ≡ find_status_condition (d ∷ ds) type_name)
      (d.type_name == c.type_name) _ _
      (λ same.
        let e : (d.type_name == type_name) ≡ false =
          ap (λ (t : Text). t == type_name) ((eq_iff d.type_name c.type_name).0 same) ∙ ne in
        if_both
          (λ (x : List MetaCondition × Bool).
            find_status_condition x.0 type_name ≡ find_status_condition (d ∷ ds) type_name)
          (says c d) _ _ (λ said. refl) (λ differs. rw (ne, e) refl))
      (λ apart. rw (set_one-other time ds c type_name ne) refl)

set_one-said :
    (time : ℕ) (ds : List MetaCondition) (d c : MetaCondition)
    → (d.type_name == c.type_name) ≡ true
    → says c d ≡ true
    → set_one time (d ∷ ds) c ≡ (d ∷ ds, false)
unfolding set_one
set_one-said time ds d c e said = ground (arith, e, said)

set_one-idle :
    (time : ℕ) (ds : List MetaCondition) (c : MetaCondition)
    → settled ds c ≡ true
    → set_one time ds c ≡ (ds, false)
unfolding set_one find_status_condition
set_one-idle time [] c same = ground arith
set_one-idle time (d ∷ ds) c same = elim (Bool-cases (d.type_name == c.type_name)) [
  | inl e ↦
      let said : says c d ≡ true =
        subst
          (λ (b : Bool).
            says_if_any c (if b then some d else find_status_condition ds c.type_name) ≡ true)
          e same in
      set_one-said time ds d c e said
  | inr e ↦
      let rest : settled ds c ≡ true =
        subst
          (λ (b : Bool).
            says_if_any c (if b then some d else find_status_condition ds c.type_name) ≡ true)
          e same in
      rw (e, set_one-idle time ds c rest) refl
]

pub small_cluster-Setter : Setter small_cluster
small_cluster-Setter = record {
  sets = set_one-settled;
  keeps = set_one-other;
  idles = set_one-idle;
}

pub small_cluster-KeepsParents : KeepsParents small_cluster
small_cluster-KeepsParents = record { parents_kept = λ w kind route. refl }

abbrev pub no_environment : Environment
no_environment key = none

abbrev pub url_as_is : Text → Option Url
url_as_is uri = some (record { scheme = text "http"; host = uri; hostname = uri })

abbrev pub gw_parent : ParentRef
gw_parent = record {
  group = none;
  kind = none;
  namespace = none;
  name = text "gw";
  section_name = some (text "web");
  port = none;
}

abbrev pub svc_backend : BackendRef
svc_backend = record { name = text "svc"; namespace = none; port = some (pos 8080) }

-- A route that another controller has written a status of.
abbrev pub stranger : RouteParentStatus
stranger = record { parent_ref = gw_parent; controller_name = text "other"; conditions = [] }

abbrev pub small_route : RouteObject
small_route = record {
  namespace = text "default";
  name = text "r";
  generation = pos 3;
  finalizers = [];
  is_deleted = false;
  parent_refs = gw_parent ∷ [];
  rules = (svc_backend ∷ []) ∷ [];
  parents = stranger ∷ [];
}

abbrev pub web_listener : K8sListener
web_listener = record {
  name = text "web";
  hostname = some (text "web.example");
  protocol = text "http";
  port = pos 80;
  tls_mode = none;
}

abbrev pub small_gateway : GatewayObject
small_gateway = record {
  spec = record {
    namespace = text "default";
    name = text "gw";
    annotations = Map.empty;
    listeners = web_listener ∷ [];
  };
  class_name = text "ssh";
  finalizers = [];
  is_deleted = false;
  conditions = [];
  addresses = [];
  listener_statuses = [];
}

abbrev pub small_class : GatewayClass
small_class = record {
  name = text "ssh";
  annotations = Map.empty;
  controller_name = text "tunnels.ssh.gateway-api-controller";
  conditions = [];
}

abbrev pub small_store : Store
small_store = record {
  route = small_route;
  gateway = small_gateway;
  class = small_class;
  clock = 7;
}

-- A pool that grants everything, and assigns one address.
abbrev pub easy_pool : SessionPool Unit
easy_pool = record {
  configure = λ p version sni. (p, none);
  start_in = λ p kind fwd. (p, none);
  stop_in = λ p kind fwd. (p, none);
  addresses_in = λ p kind host port. text "http://web.example" ∷ [];
  live_in = λ p kind. true;
  reconnect = λ p. p;
  shut = λ p. p;
}

abbrev pub small_registry : Reconciler Unit
small_registry =
    handle_add_or_update_gateway easy_pool (record { pool = tt; gateways = Map.empty })
      small_gateway.spec
