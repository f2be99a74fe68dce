-- ===== src/Controllers/Gateway/Routes.antt =====
-- SetRoute of controllers/gateway_controller.go.
use k8s_ssh_gateway_controll.Prelude.{
  ◌≡◌, refl, sym, ap, ◌∙◌, inl, inr, true, false, ◌&&◌, Option, none, some, arith, if◌then◌else◌,
  Bool-cases, if_both,
}
use k8s_ssh_gateway_controll.Prelude.Int.{int_eqb_iff}
use k8s_ssh_gateway_controll.Prelude.Eq.{◌==◌, eq_iff, eq_refl, int_eq, nat_eq}
use k8s_ssh_gateway_controll.Go.Text.{Text, text_eq}
use k8s_ssh_gateway_controll.Go.Map.{
  Map, has, get-map_values, map_laws, get-empty, get-set, get-delete,
}
use k8s_ssh_gateway_controll.Ssh.Errors.{SshError}
use k8s_ssh_gateway_controll.Ssh.Flags.{kind_eq}
use k8s_ssh_gateway_controll.Controllers.Listeners.{Route, Listener}
use k8s_ssh_gateway_controll.Controllers.Gateway.State.{
  SessionPool, GatewayError, Reconciler, get_gw_key, is_route_already_attached, unwrapped, by_error,
  handle_forwarding_error, Attempt, after_start,
}
use k8s_ssh_gateway_controll.Controllers.Gateway.Attaching.{
  is_forwarding_valid, start_if_live, after_stop, stop_existing, setup_route_forwarding,
  set_accepted, set_listener, put, set_in, set_at, set_route,
}
use k8s_ssh_gateway_controll.Go.Map

-- What a registry has under a gateway's key and a listener's name.
abbrev pub listener_at : Map Text (Map Text Listener) → Text → Text → Option Listener
listener_at gateways key name = elim (Map.get gateways key) [
  | none ↦ none
  | some listeners ↦ Map.get listeners name
]

-- The listener is there with the route, and is not rejected.
pub record IsAttached (gateways : Map Text (Map Text Listener)) (key name : Text) (route : Route)
    : Type 0 where
  pub attached :
      (l : Listener) × (listener_at gateways key name ≡ some l)
      × (l.route ≡ some route)
      × (l.rejected ≡ false)

pub listener_at-set :
    (gateways : Map Text (Map Text Listener)) (listeners : Map Text Listener)
    (key name key' name' : Text) (l : Listener)
    → Map.get gateways key ≡ some listeners
    → listener_at (Map.set gateways key (Map.set listeners name l)) key' name' ≡ (
        if key == key'
        then (if name == name' then some l else listener_at gateways key' name')
        else listener_at gateways key' name')
listener_at-set gateways listeners key name key' name' l there = elim (Bool-cases (key == key')) [
  | inr ne ↦ rw (get-set gateways key key' (Map.set listeners name l), ne, listener_at) refl
  | inl same ↦
      let e : key ≡ key' = (eq_iff key key').0 same in
      let there' : Map.get gateways key' ≡ some listeners = sym (ap (Map.get gateways) e) ∙ there in
      rw
        (
          get-set gateways key key' (Map.set listeners name l),
          same,
          there',
          get-set listeners name name' l,
          listener_at,
        )
        refl
]

is_route_already_attached_iff :
    (o : Option Route) (route : Route) → is_route_already_attached o route ≡ true → o ≡ some route
unfolding is_route_already_attached
is_route_already_attached_iff none route h = cc
is_route_already_attached_iff (some a) route h = ground (
  arith,
  eq_iff a.name route.name,
  eq_iff a.namespace route.namespace,
  eq_iff a.host route.host,
  int_eqb_iff a.port route.port,
)

module _ {P : Type 0} (api : SessionPool P) where
  -- What an attempt to set a route leaves of the listener.
  abbrev pub SetsRoute : Listener → Route → Attempt P → Type 0
  SetsRoute l route (p, (l', e)) = (l'.rejected ≡ l.rejected) × (e ≡ none → (l'.route ≡ some route))

  module _ (l : Listener) (route : Route) where
    by_error-SetsRoute :
        (cause e : SshError) (p : P) → SetsRoute l route (p, by_error cause e l route)
    by_error-SetsRoute cause e p = ground arith

    after_start-SetsRoute : (o : P × Option SshError) → SetsRoute l route (after_start o l route)
    unfolding handle_forwarding_error
    after_start-SetsRoute (p, none) = (refl, λ done. refl)
    after_start-SetsRoute (p, some e) = by_error-SetsRoute (unwrapped e) e p

    start_if_live-SetsRoute : (p : P) → SetsRoute l route (start_if_live api p l route)
    start_if_live-SetsRoute p =
        if_both (SetsRoute l route) (api.live_in p l.session_kind) _ _
          (λ on. after_start-SetsRoute _) (λ off. (refl, λ done. cc))

    after_stop-SetsRoute : (o : P × Option SshError) → SetsRoute l route (after_stop api o l route)
    after_stop-SetsRoute (p, some e) = (refl, λ done. cc)
    after_stop-SetsRoute (p, none) =
        if_both (SetsRoute l route) (api.live_in p l.session_kind) _ _
          (λ on. after_start-SetsRoute _) (λ off. start_if_live-SetsRoute (api.reconnect p))

  setup-SetsRoute :
      (p : P) (l : Listener) (route : Route)
      → SetsRoute l route (setup_route_forwarding api p l route)
  unfolding setup_route_forwarding
  setup-SetsRoute p l route = after_stop-SetsRoute l route (stop_existing api p l l.route)

  -- What SetRoute leaves of the listener that it finds.
  abbrev pub SetsListener : Listener → Route → Attempt P → Type 0
  SetsListener l route (p, (l', e)) =
      (l'.rejected ≡ l.rejected)
      × (e ≡ none → (l'.route ≡ some route) × (l.rejected ≡ false))
      × (l.rejected ≡ true → l' ≡ l)

  accepted-SetsListener :
      (l : Listener) (route : Route) (a : Attempt P)
      → l.rejected ≡ false
      → SetsRoute l route a
      → SetsListener l route a
  accepted-SetsListener l route (p, (l', e)) good (same, done) =
      (same, (λ h. (done h, good)), (λ bad. absurd (ground arith)))

  set_accepted-SetsRoute :
      (p : P) (l : Listener) (route : Route) → SetsRoute l route (set_accepted api p l route)
  unfolding set_accepted
  set_accepted-SetsRoute p l route =
      if_both (SetsRoute l route) (is_route_already_attached l.route route) _ _
        (λ there.
          if_both (SetsRoute l route) (is_forwarding_valid api p l) _ _
            (λ valid. (refl, λ h. is_route_already_attached_iff l.route route there))
            (λ stale. setup-SetsRoute p (record l { route = none }) route))
        (λ elsewhere. setup-SetsRoute p l route)

  pub set_listener-SetsListener :
      (p : P) (name : Text) (l : Listener) (route : Route)
      → SetsListener l route (set_listener api p name l route)
  unfolding set_listener
  set_listener-SetsListener p name l route =
      if_both (SetsListener l route) l.rejected _ _ (λ bad. (refl, (λ h. cc), (λ b. refl)))
        (λ good.
          accepted-SetsListener l route (set_accepted api p l route) good
            (set_accepted-SetsRoute p l route))

  -- What a call for one listener leaves of the registry, if it succeeds and in any case.
  pub record RouteSet (r : Reconciler P) (key name : Text) (route : Route)
      (o : Reconciler P × Option GatewayError) : Type 0 where
    pub attached : o.1 ≡ none → IsAttached o.0.gateways key name route
    pub others :
        (key' name' : Text)
        → (key == key' && name == name') ≡ false
        → listener_at o.0.gateways key' name' ≡ listener_at r.gateways key' name'

  module _ (r : Reconciler P) (key name : Text) (route : Route) (listeners : Map Text Listener)
      (there : Map.get r.gateways key ≡ some listeners) where
    put-others :
        (p : P) (l : Listener) (e : Option GatewayError) (key' name' : Text)
        → (key == key' && name == name') ≡ false
        → listener_at (put api r key listeners name (p, (l, e))).0.gateways key' name'
          ≡ listener_at r.gateways key' name'
    put-others p l e key' name' ne =
        listener_at-set r.gateways listeners key name key' name' l there ∙ ground arith

    put-found :
        (p : P) (l : Listener) (e : Option GatewayError)
        → listener_at (put api r key listeners name (p, (l, e))).0.gateways key name ≡ some l
    put-found p l e =
        listener_at-set r.gateways listeners key name key name l there
        ∙ ground (arith, eq_refl key, eq_refl name)

    put-RouteSet :
        (l : Listener) (a : Attempt P)
        → SetsListener l route a
        → RouteSet r key name route (put api r key listeners name a)
    put-RouteSet l (p, (l', e)) (same, done, bad) = record {
      attached = λ h.
          let (set_r, good) = done h in
          record { attached = (l', put-found p l' e, set_r, same ∙ good) };
      others = put-others p l' e;
    }

    set_in-RouteSet :
        (o : Option Listener) → RouteSet r key name route (set_in api r key name route listeners o)
    set_in-RouteSet none = record { attached = λ h. cc; others = λ key' name' ne. refl }
    set_in-RouteSet (some l) = put-RouteSet l _ (set_listener-SetsListener r.pool name l route)

  set_at-RouteSet :
      (r : Reconciler P) (key name : Text) (route : Route) (o : Option (Map Text Listener))
      → Map.get r.gateways key ≡ o
      → RouteSet r key name route (set_at api r key name route o)
  set_at-RouteSet r key name route none at = record {
    attached = λ h. cc;
    others = λ key' name' ne. refl;
  }
  set_at-RouteSet r key name route (some listeners) at =
      set_in-RouteSet r key name route listeners at (Map.get listeners name)

  -- Where SetRoute succeeds, the listener is registered, is not rejected and has exactly the route
  -- that was asked for; whether or not it succeeds, every other listener of every gateway is as
  -- it was.
  pub set_route-RouteSet :
      (r : Reconciler P) (gw_namespace gw_name listener_name : Text) (route : Route)
      → RouteSet r
          (get_gw_key gw_namespace gw_name)
          listener_name
          route
          (set_route api r gw_namespace gw_name listener_name route)
  unfolding set_route
  set_route-RouteSet r gw_namespace gw_name listener_name route =
      set_at-RouteSet r (get_gw_key gw_namespace gw_name) listener_name route _ refl
