-- ===== src/Controllers/Reconcile/Runs.antt =====
-- The controllers of package controllers with the pool of SSH tunnels: a sequence of reconcile loops,
-- of the background tasks of the SSH managers and of what others do to the cluster.
-- controller-runtime starts a loop for an object at any time, and the loops of different objects
-- take the registry's lock in turn, so a loop is one step. A release of an orphan forwarding is no
-- task here.
use k8s_ssh_gateway_controll.Prelude.{
  ℕ, ◌≡◌, refl, sym, ◌∙◌, true, Option, none, some, List, [], ◌∷◌, arith,
}
use k8s_ssh_gateway_controll.Prelude.Eq.{int_eq, nat_eq}
use k8s_ssh_gateway_controll.Go.Text.{Text, text_eq}
use k8s_ssh_gateway_controll.Go.Map.{
  Map, has, get-map_values, map_laws, get-empty, get-set, get-delete,
}
use k8s_ssh_gateway_controll.Ssh.Errors.{ok}
use k8s_ssh_gateway_controll.Ssh.Flags.{SessionFlags, SessionKind, kind_eq}
use k8s_ssh_gateway_controll.Ssh.Manager.State.{Server, Manager}
use k8s_ssh_gateway_controll.Ssh.Manager.Invariant.{WellFormed}
use k8s_ssh_gateway_controll.Ssh.Manager.Invariant.Calls.{
  Call, ticks, outputs, fails_dial, dials, timely, step, step-WellFormed,
}
use k8s_ssh_gateway_controll.Ssh.Manager.Operations.{Config, KeepAlive}
use k8s_ssh_gateway_controll.Ssh.Pool.{Pool, forwarded}
use k8s_ssh_gateway_controll.Ssh.Pool.Held.{
  IsKept, configures, pool_connects, pool_step, pool_run, Holds, forwarded-Holds, pool_run-Holds,
  new_session_pool-Holds,
}
use k8s_ssh_gateway_controll.Ssh.Pool.Tunnel.{tunnels, tunnels-IsKept, new_ssh_session_pool}
use k8s_ssh_gateway_controll.Controllers.Gateway.State.{SessionPool, Reconciler}
use k8s_ssh_gateway_controll.Controllers.Gateway.Accepted.{Registered}
use k8s_ssh_gateway_controll.Controllers.Gateway.Updates.{gateway_step-Registered}
use k8s_ssh_gateway_controll.Controllers.Gateway.Sessions.{ssh_pool, gateway_step-Keeps}
use k8s_ssh_gateway_controll.Controllers.Gateway.Tunnels.{ssh_pool-PoolKept}
use k8s_ssh_gateway_controll.Controllers.Names.{
  Environment, get_http_route_finalizer, get_tcp_route_finalizer, get_tls_route_finalizer,
}
use k8s_ssh_gateway_controll.Controllers.Objects.{http_route, tcp_route, tls_route, Cluster}
use k8s_ssh_gateway_controll.Controllers.RouteStatus.{condition_eq}
use k8s_ssh_gateway_controll.Controllers.RouteKinds.{
  extract_http_route_details, extract_tcp_route_details, extract_tls_route_details,
}
use k8s_ssh_gateway_controll.Controllers.Addresses.{Url}
use k8s_ssh_gateway_controll.Controllers.Reconcile.Gateways.{reconcile_class, reconcile_gateway}
use k8s_ssh_gateway_controll.Controllers.Reconcile.Routes.{
  reconcile_http_route, reconcile_tcp_route, reconcile_tls_route,
}
use k8s_ssh_gateway_controll.Controllers.Reconcile.Kept.{RegistryKept, reconcile_gateway-Keeping}
use k8s_ssh_gateway_controll.Controllers.Reconcile.KeptByRoutes.{reconcile_route-Keeping}
use k8s_ssh_gateway_controll.Go.Map

-- The background tasks of a manager: its keepalive, its output readers and its backend dials.
pub data Task : Type 0 where
  keeps_alive : KeepAlive → Task
  prints : Text → Task
  misses_backend : Text → ℕ → Task
  reaches_backend : Text → Task

abbrev call_of : Task → Call
call_of (keeps_alive r) = ticks r
call_of (prints chunk) = outputs chunk
call_of (misses_backend addr time) = fails_dial addr time
call_of (reaches_backend addr) = dials addr

call_of-timely : (m : Manager) (t : Task) → timely m (call_of t) ≡ true
call_of-timely m (keeps_alive r) = refl
call_of-timely m (prints chunk) = refl
call_of-timely m (misses_backend addr time) = refl
call_of-timely m (reaches_backend addr) = refl

pub data ControllerEvent (W : Type 0) : Type 0 where
  -- a reconcile loop for a namespace and a name
  gateway_event http_event tcp_event tls_event : Text → Text → ControllerEvent W
  class_event : Text → ControllerEvent W
  task : SessionKind → Task → ControllerEvent W
  -- what others do to the cluster
  elsewhere : (W → W) → ControllerEvent W

module _ {W : Type 0} (cluster : Cluster W) (env : Environment) (parse_url : Text → Option Url)
    (parse_private_key : Text → Option Text) (srv : SessionFlags → Server) (base : Config) where
  abbrev pub System : Type 0
  System = W × Reconciler (Pool Manager)

  abbrev pub the_pool : SessionPool (Pool Manager)
  the_pool = ssh_pool (tunnels parse_private_key srv base)

  -- A task of the manager of a kind, if there is one.
  unfoldable pub task_step : Pool Manager → SessionKind → Task → Pool Manager
  unfolding step
  task_step p kind t =
      (forwarded (tunnels parse_private_key srv base) p kind
        (λ (m : Manager). (step (srv m.flags) m (call_of t), none)) (Map.get p.managers kind)).0

  unfoldable pub controller_step : System → ControllerEvent W → System
  unfolding task_step reconcile_gateway reconcile_http_route reconcile_tcp_route reconcile_tls_route
      reconcile_class
  controller_step (w, r) (gateway_event namespace name) =
      (reconcile_gateway the_pool cluster env parse_url w r namespace name).0
  controller_step (w, r) (http_event namespace name) =
      (reconcile_http_route the_pool cluster env parse_url w r namespace name).0
  controller_step (w, r) (tcp_event namespace name) =
      (reconcile_tcp_route the_pool cluster env parse_url w r namespace name).0
  controller_step (w, r) (tls_event namespace name) =
      (reconcile_tls_route the_pool cluster env parse_url w r namespace name).0
  controller_step (w, r) (class_event name) = ((reconcile_class cluster env w name).0, r)
  controller_step (w, r) (task kind t) = (w, record r { pool = task_step r.pool kind t })
  controller_step (w, r) (elsewhere f) = (f w, r)

  unfoldable pub controller_run : System → List (ControllerEvent W) → System
  unfolding controller_step
  controller_run s [] = s
  controller_run s (e ∷ es) = controller_run (controller_step s e) es

  abbrev R : SessionFlags → Manager → Type 0
  R flags m = WellFormed m

  abbrev keeps : IsKept (tunnels parse_private_key srv base) R
  keeps = tunnels-IsKept parse_private_key srv base

  -- No rejected listener has a route, and each manager satisfies its invariant.
  pub record Sound (r : Reconciler (Pool Manager)) : Type 0 where
    pub registered : Registered r.gateways
    pub held : Holds (tunnels parse_private_key srv base) R keeps r.pool

  Sound-RegistryKept : RegistryKept the_pool Sound
  unfolding pool_run pool_step ssh_pool
  Sound-RegistryKept = record {
    by_call = λ r c s. record {
      registered = gateway_step-Registered the_pool r c s.registered;
      held =
          gateway_step-Keeps the_pool (Holds (tunnels parse_private_key srv base) R keeps)
            (ssh_pool-PoolKept (tunnels parse_private_key srv base) R keeps) r c s.held;
    };
    by_configure = λ r version sni s. record {
      registered = s.registered;
      held =
          pool_run-Holds (tunnels parse_private_key srv base) R keeps r.pool
            (configures version sni ∷ []) s.held;
    };
    by_reconnection = λ r s. record {
      registered = s.registered;
      held =
          pool_run-Holds (tunnels parse_private_key srv base) R keeps r.pool (pool_connects ∷ [])
            s.held;
    };
  }

  task_step-Holds :
      (p : Pool Manager) (kind : SessionKind) (t : Task)
      → Holds (tunnels parse_private_key srv base) R keeps p
      → Holds (tunnels parse_private_key srv base) R keeps (task_step p kind t)
  unfolding task_step
  task_step-Holds p kind t h =
      forwarded-Holds (tunnels parse_private_key srv base) R keeps p kind
        (λ (m : Manager). (step (srv m.flags) m (call_of t), none)) (Map.get p.managers kind)
        (λ flags m wf. step-WellFormed (srv m.flags) m (call_of t) (call_of-timely m t) wf) refl h

  controller_step-Sound :
      (s : System) (e : ControllerEvent W) → Sound s.1 → Sound (controller_step s e).1
  unfolding controller_step reconcile_http_route reconcile_tcp_route reconcile_tls_route
  controller_step-Sound (w, r) (gateway_event namespace name) s =
      reconcile_gateway-Keeping the_pool cluster env parse_url Sound Sound-RegistryKept w r
        namespace name s
  controller_step-Sound (w, r) (http_event namespace name) s =
      reconcile_route-Keeping the_pool cluster env parse_url Sound Sound-RegistryKept http_route
        (get_http_route_finalizer env) extract_http_route_details w r namespace name s
  controller_step-Sound (w, r) (tcp_event namespace name) s =
      reconcile_route-Keeping the_pool cluster env parse_url Sound Sound-RegistryKept tcp_route
        (get_tcp_route_finalizer env) extract_tcp_route_details w r namespace name s
  controller_step-Sound (w, r) (tls_event namespace name) s =
      reconcile_route-Keeping the_pool cluster env parse_url Sound Sound-RegistryKept tls_route
        (get_tls_route_finalizer env) extract_tls_route_details w r namespace name s
  controller_step-Sound (w, r) (class_event name) s = s
  controller_step-Sound (w, r) (task kind t) s = record {
    registered = s.registered;
    held = task_step-Holds r.pool kind t s.held;
  }
  controller_step-Sound (w, r) (elsewhere f) s = s

  run-Sound :
      (s : System) (es : List (ControllerEvent W)) → Sound s.1 → Sound (controller_run s es).1
  unfolding controller_run
  run-Sound s [] sound = sound
  run-Sound s (e ∷ es) sound = run-Sound (controller_step s e) es (controller_step-Sound s e sound)

  -- The whole controller, started with the pool that NewSSHSessionPool builds and an empty registry:
  -- after any sequence of reconcile loops of Gateways, GatewayClasses and routes, of background
  -- tasks of the managers other than the release of an orphan, and of changes that others make to
  -- the cluster, whatever the API and the SSH servers answer, no rejected listener has a route and
  -- every manager of the pool satisfies the invariant of the manager.
  pub controller_run-Sound :
      (w : W) (p : Pool Manager) (es : List (ControllerEvent W))
      → new_ssh_session_pool parse_private_key srv base ≡ ok p
      → Registered (controller_run (w, record { pool = p; gateways = Map.empty }) es).1.gateways
        × ((kind : SessionKind) (m : Manager)
            → Map.get
                (controller_run (w, record { pool = p; gateways = Map.empty }) es).1.pool.managers
                kind
              ≡ some m
            → WellFormed m)
  unfolding new_ssh_session_pool
  controller_run-Sound w p es built =
      let start_sound : Sound (record { pool = p; gateways = Map.empty }) = record {
        registered = record {
          accepted = λ key ls at. absurd (ground (arith, sym at ∙ get-empty key));
        };
        held = new_session_pool-Holds (tunnels parse_private_key srv base) R keeps p built;
      } in
      let sound = run-Sound (w, record { pool = p; gateways = Map.empty }) es start_sound in
      (sound.registered, λ kind m at. (let (flags, _, wf) = sound.held.held kind m at in wf))
