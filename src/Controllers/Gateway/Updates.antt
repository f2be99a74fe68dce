-- ===== src/Controllers/Gateway/Updates.antt =====
-- The registry of controllers/gateway_controller.go over any calls.
use k8s_ssh_gateway_controll.Prelude.{
  ◌≡◌, refl, sym, ap, ◌∙◌, subst, inl, inr, ◌&&◌, Option, none, some, List, [], ◌∷◌, arith,
  Option-cases, if_both,
}
use k8s_ssh_gateway_controll.Prelude.Eq.{◌==◌, int_eq, nat_eq}
use k8s_ssh_gateway_controll.Go.Text.{Text, text_eq}
use k8s_ssh_gateway_controll.Go.Map.{
  Map, has, get-map_values, map_laws, get-empty, get-set, get-delete,
}
use k8s_ssh_gateway_controll.Ssh.Errors.{SshError}
use k8s_ssh_gateway_controll.Ssh.Flags.{kind_eq}
use k8s_ssh_gateway_controll.Controllers.Listeners.{Route, Listener, K8sListener, create_listener}
use k8s_ssh_gateway_controll.Controllers.Gateway.State.{
  SessionPool, Reconciler, get_gw_key, old_forwarding, Attempt, removable,
}
use k8s_ssh_gateway_controll.Controllers.Gateway.Attaching.{
  set_listener, put, set_in, set_at, set_route, detached, remove_in, remove_at, remove_route,
}
use k8s_ssh_gateway_controll.Controllers.Gateway.Specs.{
  K8sGateway, is_unchanged, next_listener, update_listeners, updated_at,
  handle_add_or_update_gateway, deleted_at, handle_delete_gateway,
}
use k8s_ssh_gateway_controll.Controllers.Gateway.Routes.{SetsListener, set_listener-SetsListener}
use k8s_ssh_gateway_controll.Controllers.Gateway.Accepted.{
  NoRejectedRoute, RoutesAccepted, Registered, set-RoutesAccepted, set-Registered,
  create_listener-no_route, new_listeners-RoutesAccepted,
}
use k8s_ssh_gateway_controll.Go.Map

-- The calls that change the registry.
pub data GatewayCall : Type 0 where
  sets_route : Text → Text → Text → Route → GatewayCall
  removes_route : Text → Text → Text → Text → Text → GatewayCall
  adds_or_updates deletes : K8sGateway → GatewayCall

module _ {P : Type 0} (api : SessionPool P) where
  next-NoRejectedRoute :
      (p : P) (o : Option Listener) (l : Listener)
      → NoRejectedRoute o
      → l.route ≡ none
      → NoRejectedRoute (some (next_listener api p o l).1)
  next-NoRejectedRoute p none l one free = λ bad. free
  next-NoRejectedRoute p (some old) l one free =
      if_both (λ (x : P × Listener). NoRejectedRoute (some x.1)) (is_unchanged old l) _ _
        (λ same. one) (λ changed. λ bad. free)

  update_listeners-RoutesAccepted :
      (p : P) (existing : Map Text Listener) (annotations : Map Text Text) (ks : List K8sListener)
      (acc : Map Text Listener)
      → RoutesAccepted existing
      → RoutesAccepted acc
      → RoutesAccepted (update_listeners api p existing annotations ks acc).1
  unfolding update_listeners
  update_listeners-RoutesAccepted p existing annotations [] acc old all = all
  update_listeners-RoutesAccepted p existing annotations (k ∷ ks) acc old all =
      update_listeners-RoutesAccepted
        (next_listener api p (Map.get existing k.name) (create_listener k annotations)).0 existing
        annotations ks _ old
        (set-RoutesAccepted acc k.name _ all (
          next-NoRejectedRoute p (Map.get existing k.name) (create_listener k annotations)
            (old k.name) (create_listener-no_route k annotations)))

  empty-RoutesAccepted : RoutesAccepted Map.empty
  empty-RoutesAccepted name = subst NoRejectedRoute (sym (get-empty name)) tt

  updated-RoutesAccepted :
      (r : Reconciler P) (gw : K8sGateway) (key : Text) (o : Option (Map Text Listener))
      → Registered r.gateways
      → Map.get r.gateways key ≡ o
      → RoutesAccepted (updated_at api r gw o).1
  updated-RoutesAccepted r gw key none reg at =
      new_listeners-RoutesAccepted gw.annotations gw.listeners Map.empty empty-RoutesAccepted
  updated-RoutesAccepted r gw key (some existing) reg at =
      update_listeners-RoutesAccepted r.pool existing gw.annotations gw.listeners Map.empty
        (reg.accepted key existing at) empty-RoutesAccepted

  pub handle_add_or_update_gateway-Registered :
      (r : Reconciler P) (gw : K8sGateway)
      → Registered r.gateways
      → Registered (handle_add_or_update_gateway api r gw).gateways
  unfolding handle_add_or_update_gateway
  handle_add_or_update_gateway-Registered r gw reg =
      set-Registered r.gateways (get_gw_key gw.namespace gw.name) _ reg
        (updated-RoutesAccepted r gw (get_gw_key gw.namespace gw.name) _ reg refl)

  deleted-Registered :
      (r : Reconciler P) (key : Text) (o : Option (Map Text Listener))
      → Registered r.gateways
      → Registered (deleted_at api r key o).gateways
  deleted-Registered r key none reg = reg
  deleted-Registered r key (some listeners) reg = record {
    accepted = λ key' ls at. reg.accepted key' ls (ground (arith, get-delete r.gateways key key'));
  }

  put-Registered :
      (r : Reconciler P) (key name : Text) (listeners : Map Text Listener) (a : Attempt P)
      → Registered r.gateways
      → Map.get r.gateways key ≡ some listeners
      → NoRejectedRoute (some a.1.0)
      → Registered (put api r key listeners name a).0.gateways
  put-Registered r key name listeners (p, (l, e)) reg at one =
      set-Registered r.gateways key _ reg
        (set-RoutesAccepted listeners name l (reg.accepted key listeners at) one)

  set_listener-NoRejectedRoute :
      (l : Listener) (route : Route) (a : Attempt P)
      → SetsListener api l route a
      → NoRejectedRoute (some l)
      → NoRejectedRoute (some a.1.0)
  set_listener-NoRejectedRoute l route (p, (l', e)) (same, done, bad) one =
      λ h. ap (λ (x : Listener). x.route) (bad (sym same ∙ h)) ∙ one (sym same ∙ h)

  set_in-Registered :
      (r : Reconciler P) (key name : Text) (route : Route) (listeners : Map Text Listener)
      (o : Option Listener)
      → Registered r.gateways
      → Map.get r.gateways key ≡ some listeners
      → NoRejectedRoute o
      → Registered (set_in api r key name route listeners o).0.gateways
  set_in-Registered r key name route listeners none reg at one = reg
  set_in-Registered r key name route listeners (some l) reg at one =
      put-Registered r key name listeners (set_listener api r.pool name l route) reg at (
        set_listener-NoRejectedRoute l route (set_listener api r.pool name l route)
          (set_listener-SetsListener api r.pool name l route) one)

  set_at-Registered :
      (r : Reconciler P) (key name : Text) (route : Route) (o : Option (Map Text Listener))
      → Registered r.gateways
      → Map.get r.gateways key ≡ o
      → Registered (set_at api r key name route o).0.gateways
  set_at-Registered r key name route none reg at = reg
  set_at-Registered r key name route (some listeners) reg at =
      set_in-Registered r key name route listeners (Map.get listeners name) reg at
        (reg.accepted key listeners at name)

  abbrev Removable : Option (Listener × Route) → Type 0
  Removable none = Unit
  Removable (some (l, route)) = NoRejectedRoute (some l)

  removable-Removable :
      (o : Option Listener) (name namespace : Text)
      → NoRejectedRoute o
      → Removable (removable o name namespace)
  removable-Removable none name namespace one = tt
  removable-Removable (some l) name namespace one = elim (Option-cases l.route) [
    | inl e ↦ rw (e, removable) tt
    | inr (route, e) ↦
        rw (e, removable)
          (if_both Removable (route.name == name && route.namespace == namespace) (some (l, route))
            none (λ h. one) (λ h. tt))
  ]

  detached-NoRejectedRoute :
      (o : P × Option SshError) (l : Listener)
      → NoRejectedRoute (some l)
      → NoRejectedRoute (some (detached api o l).1.0)
  detached-NoRejectedRoute (p, some e) l one = one
  detached-NoRejectedRoute (p, none) l one = λ bad. refl

  remove_in-Registered :
      (r : Reconciler P) (key name route_key : Text) (listeners : Map Text Listener)
      (o : Option (Listener × Route))
      → Registered r.gateways
      → Map.get r.gateways key ≡ some listeners
      → Removable o
      → Registered (remove_in api r key name route_key listeners o).0.gateways
  remove_in-Registered r key name route_key listeners none reg at one = reg
  remove_in-Registered r key name route_key listeners (some (l, route)) reg at one =
      put-Registered r key name listeners
        (detached api (api.stop_in r.pool l.session_kind (old_forwarding l route)) l) reg at
        (detached-NoRejectedRoute (api.stop_in r.pool l.session_kind (old_forwarding l route)) l
          one)

  remove_at-Registered :
      (r : Reconciler P) (key name route_name route_namespace : Text)
      (o : Option (Map Text Listener))
      → Registered r.gateways
      → Map.get r.gateways key ≡ o
      → Registered (remove_at api r key name route_name route_namespace o).0.gateways
  unfolding get_gw_key
  remove_at-Registered r key name route_name route_namespace none reg at = reg
  remove_at-Registered r key name route_name route_namespace (some listeners) reg at =
      remove_in-Registered r key name (get_gw_key route_namespace route_name) listeners
        (removable (Map.get listeners name) route_name route_namespace) reg at
        (removable-Removable (Map.get listeners name) route_name route_namespace
          (reg.accepted key listeners at name))

  unfoldable pub gateway_step : Reconciler P → GatewayCall → Reconciler P
  gateway_step r (sets_route gw_namespace gw_name name route) =
      (set_route api r gw_namespace gw_name name route).0
  gateway_step r (removes_route gw_namespace gw_name name route_name route_namespace) =
      (remove_route api r gw_namespace gw_name name route_name route_namespace).0
  gateway_step r (adds_or_updates gw) = handle_add_or_update_gateway api r gw
  gateway_step r (deletes gw) = handle_delete_gateway api r gw

  unfoldable pub gateway_run : Reconciler P → List GatewayCall → Reconciler P
  unfolding gateway_step
  gateway_run r [] = r
  gateway_run r (c ∷ cs) = gateway_run (gateway_step r c) cs

  pub gateway_step-Registered :
      (r : Reconciler P) (c : GatewayCall)
      → Registered r.gateways
      → Registered (gateway_step r c).gateways
  unfolding gateway_step set_route remove_route handle_delete_gateway
  gateway_step-Registered r (sets_route gw_namespace gw_name name route) reg =
      set_at-Registered r (get_gw_key gw_namespace gw_name) name route _ reg refl
  gateway_step-Registered r (removes_route gw_namespace gw_name name route_name route_namespace)
        reg =
      remove_at-Registered r (get_gw_key gw_namespace gw_name) name route_name route_namespace _ reg
        refl
  gateway_step-Registered r (adds_or_updates gw) reg =
      handle_add_or_update_gateway-Registered r gw reg
  gateway_step-Registered r (deletes gw) reg =
      deleted-Registered r (get_gw_key gw.namespace gw.name) _ reg

  run-Registered :
      (r : Reconciler P) (cs : List GatewayCall)
      → Registered r.gateways
      → Registered (gateway_run r cs).gateways
  unfolding gateway_run
  run-Registered r [] reg = reg
  run-Registered r (c ∷ cs) reg =
      run-Registered (gateway_step r c) cs (gateway_step-Registered r c reg)

  -- After any calls of SetRoute, RemoveRoute, handleAddOrUpdateGateway and handleDeleteGateway on a
  -- reconciler without gateways, whatever the pool does, no rejected listener of any gateway has a
  -- route.
  pub gateway_run-Registered :
      (pool : P) (cs : List GatewayCall)
      → Registered (gateway_run (record { pool = pool; gateways = Map.empty }) cs).gateways
  gateway_run-Registered pool cs =
      run-Registered (record { pool = pool; gateways = Map.empty }) cs
        (record { accepted = λ key ls at. absurd (ground (arith, sym at ∙ get-empty key)) })
