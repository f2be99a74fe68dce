-- ===== src/Controllers/Gateway/Sessions.antt =====
-- The gateway registry over the SSH session pool: what a call of the registry does to the pool.
use k8s_ssh_gateway_controll.Prelude.{Option, none, some, List, [], ◌∷◌, if_both}
use k8s_ssh_gateway_controll.Prelude.Eq.{int_eq, nat_eq}
use k8s_ssh_gateway_controll.Go.Text.{Text, text_eq}
use k8s_ssh_gateway_controll.Go.Map.{
  Map, has, get-map_values, map_laws, get-empty, get-set, get-delete,
}
use k8s_ssh_gateway_controll.Ssh.Errors.{SshError}
use k8s_ssh_gateway_controll.Ssh.Flags.{SessionKind, kind_eq}
use k8s_ssh_gateway_controll.Ssh.Manager.State.{ForwardingConfig}
use k8s_ssh_gateway_controll.Ssh.Pool.{
  SessionManager, Pool, configure_sessions, pool_start_forwarding, pool_stop_forwarding,
  pool_get_assigned_addresses, pool_is_connected, pool_connect, pool_stop,
}
use k8s_ssh_gateway_controll.Controllers.Listeners.{Route, Listener, K8sListener, create_listener}
use k8s_ssh_gateway_controll.Controllers.Gateway.State.{
  SessionPool, Reconciler, get_gw_key, is_route_already_attached, old_forwarding, new_forwarding,
  Attempt, after_start, removable,
}
use k8s_ssh_gateway_controll.Controllers.Gateway.Attaching.{
  is_forwarding_valid, start_route, after_stop, stop_existing, setup_route_forwarding, set_accepted,
  set_listener, put, set_in, set_at, set_route, detached, remove_in, remove_at, remove_route,
}
use k8s_ssh_gateway_controll.Controllers.Gateway.Specs.{
  K8sGateway, is_unchanged, next_listener, update_listeners, updated_at,
  handle_add_or_update_gateway, stop_listener, deleted_at, handle_delete_gateway,
}
use k8s_ssh_gateway_controll.Controllers.Gateway.Updates.{
  GatewayCall, sets_route, removes_route, adds_or_updates, deletes, gateway_step, gateway_run,
}
use k8s_ssh_gateway_controll.Go.Map
use mathlib.Core.List.{foldl}

-- SSHSessionPool as the SSHSessionPoolInterface of the controllers.
unfoldable pub ssh_pool : {M : Type 0} → SessionManager M → SessionPool (Pool M)
ssh_pool api = record {
  configure = λ p version sni. configure_sessions api p version sni;
  start_in = λ p kind fwd. pool_start_forwarding api p kind fwd;
  stop_in = λ p kind fwd. pool_stop_forwarding api p kind fwd;
  addresses_in = λ p kind host port. pool_get_assigned_addresses api p kind host port;
  live_in = λ p kind. pool_is_connected api p kind;
  reconnect = λ p. pool_connect api p;
  shut = λ p. pool_stop api p;
}

-- A property of the pool that the methods which the registry calls keep.
pub record PoolKept {P : Type 0} (api : SessionPool P) (Q : P → Type 0) : Type 0 where
  pub by_start :
      (p : P) (kind : SessionKind) (fwd : ForwardingConfig) → Q p → Q (api.start_in p kind fwd).0
  pub by_stop :
      (p : P) (kind : SessionKind) (fwd : ForwardingConfig) → Q p → Q (api.stop_in p kind fwd).0
  pub by_reconnect : (p : P) → Q p → Q (api.reconnect p)

module _ {P : Type 0} (api : SessionPool P) (Q : P → Type 0) (kept : PoolKept api Q) where
  abbrev Keeps : Attempt P → Type 0
  Keeps a = Q a.0

  after_start-Keeps :
      (o : P × Option SshError) (l : Listener) (route : Route)
      → Q o.0
      → Keeps (after_start o l route)
  after_start-Keeps (p, none) l route q = q
  after_start-Keeps (p, some e) l route q = q

  start_route-Keeps :
      (p : P) (l : Listener) (route : Route) → Q p → Keeps (start_route api p l route)
  start_route-Keeps p l route q =
      after_start-Keeps (api.start_in p l.session_kind (new_forwarding l route)) l route
        (kept.by_start p l.session_kind (new_forwarding l route) q)

  after_stop-Keeps :
      (o : P × Option SshError) (l : Listener) (route : Route)
      → Q o.0
      → Keeps (after_stop api o l route)
  after_stop-Keeps (p, some e) l route q = q
  after_stop-Keeps (p, none) l route q =
      if_both Keeps (api.live_in p l.session_kind) _ _ (λ on. start_route-Keeps p l route q)
        (λ off.
          let again = kept.by_reconnect p q in
          if_both Keeps (api.live_in (api.reconnect p) l.session_kind) _ _
            (λ on. start_route-Keeps (api.reconnect p) l route again) (λ down. again))

  stop_existing-Keeps :
      (p : P) (l : Listener) (o : Option Route) → Q p → Q (stop_existing api p l o).0
  stop_existing-Keeps p l none q = q
  stop_existing-Keeps p l (some old) q = kept.by_stop p l.session_kind (old_forwarding l old) q

  setup-Keeps :
      (p : P) (l : Listener) (route : Route) → Q p → Keeps (setup_route_forwarding api p l route)
  unfolding setup_route_forwarding
  setup-Keeps p l route q =
      after_stop-Keeps (stop_existing api p l l.route) l route (stop_existing-Keeps p l l.route q)

  set_accepted-Keeps :
      (p : P) (l : Listener) (route : Route) → Q p → Keeps (set_accepted api p l route)
  unfolding set_accepted
  set_accepted-Keeps p l route q =
      if_both Keeps (is_route_already_attached l.route route) _ _
        (λ there.
          if_both Keeps (is_forwarding_valid api p l) _ _ (λ valid. q)
            (λ stale. setup-Keeps p (record l { route = none }) route q))
        (λ elsewhere. setup-Keeps p l route q)

  set_listener-Keeps :
      (p : P) (name : Text) (l : Listener) (route : Route)
      → Q p
      → Keeps (set_listener api p name l route)
  unfolding set_listener
  set_listener-Keeps p name l route q =
      if_both Keeps l.rejected _ _ (λ bad. q) (λ good. set_accepted-Keeps p l route q)

  put-Keeps :
      (r : Reconciler P) (key : Text) (listeners : Map Text Listener) (name : Text) (a : Attempt P)
      → Keeps a
      → Q (put api r key listeners name a).0.pool
  put-Keeps r key listeners name (p, (l, e)) q = q

  set_in-Keeps :
      (r : Reconciler P) (key name : Text) (route : Route) (listeners : Map Text Listener)
      (o : Option Listener)
      → Q r.pool
      → Q (set_in api r key name route listeners o).0.pool
  set_in-Keeps r key name route listeners none q = q
  set_in-Keeps r key name route listeners (some l) q =
      put-Keeps r key listeners name (set_listener api r.pool name l route)
        (set_listener-Keeps r.pool name l route q)

  set_at-Keeps :
      (r : Reconciler P) (key name : Text) (route : Route) (o : Option (Map Text Listener))
      → Q r.pool
      → Q (set_at api r key name route o).0.pool
  set_at-Keeps r key name route none q = q
  set_at-Keeps r key name route (some listeners) q =
      set_in-Keeps r key name route listeners (Map.get listeners name) q

  detached-Keeps : (o : P × Option SshError) (l : Listener) → Q o.0 → Keeps (detached api o l)
  detached-Keeps (p, none) l q = q
  detached-Keeps (p, some e) l q = q

  remove_in-Keeps :
      (r : Reconciler P) (key name route_key : Text) (listeners : Map Text Listener)
      (o : Option (Listener × Route))
      → Q r.pool
      → Q (remove_in api r key name route_key listeners o).0.pool
  remove_in-Keeps r key name route_key listeners none q = q
  remove_in-Keeps r key name route_key listeners (some (l, route)) q =
      let o = api.stop_in r.pool l.session_kind (old_forwarding l route) in
      put-Keeps r key listeners name (detached api o l)
        (detached-Keeps o l (kept.by_stop r.pool l.session_kind (old_forwarding l route) q))

  remove_at-Keeps :
      (r : Reconciler P) (key name route_name route_namespace : Text)
      (o : Option (Map Text Listener))
      → Q r.pool
      → Q (remove_at api r key name route_name route_namespace o).0.pool
  remove_at-Keeps r key name route_name route_namespace none q = q
  remove_at-Keeps r key name route_name route_namespace (some listeners) q =
      remove_in-Keeps r key name (get_gw_key route_namespace route_name) listeners
        (removable (Map.get listeners name) route_name route_namespace) q

  next_listener-Keeps :
      (p : P) (o : Option Listener) (l : Listener) → Q p → Q (next_listener api p o l).0
  next_listener-Keeps p none l q = q
  next_listener-Keeps p (some old) l q =
      if_both (λ (x : P × Listener). Q x.0) (is_unchanged old l) _ _ (λ same. q)
        (λ changed. stop_existing-Keeps p old old.route q)

  update_listeners-Keeps :
      (ks : List K8sListener) (p : P) (existing : Map Text Listener) (annotations : Map Text Text)
      (acc : Map Text Listener)
      → Q p
      → Q (update_listeners api p existing annotations ks acc).0
  unfolding update_listeners
  update_listeners-Keeps [] p existing annotations acc q = q
  update_listeners-Keeps (k ∷ ks) p existing annotations acc q =
      update_listeners-Keeps ks
        (next_listener api p (Map.get existing k.name) (create_listener k annotations)).0 existing
        annotations _
        (next_listener-Keeps p (Map.get existing k.name) (create_listener k annotations) q)

  updated-Keeps :
      (r : Reconciler P) (gw : K8sGateway) (o : Option (Map Text Listener))
      → Q r.pool
      → Q (updated_at api r gw o).0
  updated-Keeps r gw none q = q
  updated-Keeps r gw (some existing) q =
      update_listeners-Keeps gw.listeners r.pool existing gw.annotations Map.empty q

  stop_listeners-Keeps :
      (entries : List (Text × Listener)) (p : P) → Q p → Q (foldl (stop_listener api) p entries)
  stop_listeners-Keeps [] p q = q
  stop_listeners-Keeps ((name, l) ∷ entries) p q =
      stop_listeners-Keeps entries (stop_existing api p l l.route).0
        (stop_existing-Keeps p l l.route q)

  deleted-Keeps :
      (r : Reconciler P) (key : Text) (o : Option (Map Text Listener))
      → Q r.pool
      → Q (deleted_at api r key o).pool
  deleted-Keeps r key none q = q
  deleted-Keeps r key (some listeners) q = stop_listeners-Keeps listeners.entries r.pool q

  pub gateway_step-Keeps :
      (r : Reconciler P) (c : GatewayCall) → Q r.pool → Q (gateway_step api r c).pool
  unfolding gateway_step set_route remove_route handle_add_or_update_gateway handle_delete_gateway
  gateway_step-Keeps r (sets_route gw_namespace gw_name name route) q =
      set_at-Keeps r (get_gw_key gw_namespace gw_name) name route _ q
  gateway_step-Keeps r (removes_route gw_namespace gw_name name route_name route_namespace) q =
      remove_at-Keeps r (get_gw_key gw_namespace gw_name) name route_name route_namespace _ q
  gateway_step-Keeps r (adds_or_updates gw) q = updated-Keeps r gw _ q
  gateway_step-Keeps r (deletes gw) q =
      deleted-Keeps r (get_gw_key gw.namespace gw.name)
        (Map.get r.gateways (get_gw_key gw.namespace gw.name)) q

  pub gateway_run-Keeps :
      (r : Reconciler P) (cs : List GatewayCall) → Q r.pool → Q (gateway_run api r cs).pool
  unfolding gateway_run
  gateway_run-Keeps r [] q = q
  gateway_run-Keeps r (c ∷ cs) q =
      gateway_run-Keeps (gateway_step api r c) cs (gateway_step-Keeps r c q)
