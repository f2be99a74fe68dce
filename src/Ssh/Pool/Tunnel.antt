-- ===== src/Ssh/Pool/Tunnel.antt =====
-- ssh/ssh_session_pool.go: NewSSHSessionPool, the pool of SSHTunnelManager.
use k8s_ssh_gateway_controll.Prelude.{
  ◌≡◌, refl, sym, ◌∙◌, subst, inl, inr, Option, some, List, ◌++◌, Option-cases,
}
use k8s_ssh_gateway_controll.Prelude.Eq.{int_eq, nat_eq}
use k8s_ssh_gateway_controll.Go.Text.{Text, text, text_eq}
use k8s_ssh_gateway_controll.Go.Map.{
  Map, has, get-map_values, map_laws, get-empty, get-set, get-delete,
}
use k8s_ssh_gateway_controll.Ssh.Errors.{Result, ok, err, ok_inj, external}
use k8s_ssh_gateway_controll.Ssh.Flags.{SessionFlags, SessionKind, kind_eq}
use k8s_ssh_gateway_controll.Ssh.Manager.State.{Server, Manager}
use k8s_ssh_gateway_controll.Ssh.Manager.Invariant.{WellFormed}
use k8s_ssh_gateway_controll.Ssh.Manager.Invariant.Stopping.{fresh-WellFormed, connect-WellFormed}
use k8s_ssh_gateway_controll.Ssh.Manager.Invariant.Starting.{start_forwarding-WellFormed}
use k8s_ssh_gateway_controll.Ssh.Manager.Invariant.Calls.{stop_forwarding-WellFormed}
use k8s_ssh_gateway_controll.Ssh.Manager.Operations.{
  start_forwarding, stop_forwarding, get_assigned_addresses, is_connected, new_ssh_tunnel_manager,
  fresh_manager, Config, connect, stop_manager,
}
use k8s_ssh_gateway_controll.Ssh.Pool.{SessionManager, Pool, new_session_pool}
use k8s_ssh_gateway_controll.Ssh.Pool.Held.{
  IsKept, PoolCall, pool_run, pool_run-Holds, new_session_pool-Holds,
}
use k8s_ssh_gateway_controll.Go.Map

-- The managers of NewSSHSessionPool: each session has a server side of its own, which its flags
-- select.
unfoldable pub tunnels :
    (Text → Option Text) → (SessionFlags → Server) → Config → SessionManager Manager
tunnels parse_private_key srv base = record {
  build = λ flags label. new_ssh_tunnel_manager parse_private_key (record base { flags = flags });
  starting = λ m fwd. start_forwarding (srv m.flags) m fwd;
  stopping = λ m fwd. stop_forwarding (srv m.flags) m fwd;
  addresses = get_assigned_addresses;
  live = is_connected;
  halt = λ m. stop_manager (srv m.flags) m;
  connecting = λ m. connect (srv m.flags) m;
}

-- NewSSHSessionPool
unfoldable pub new_ssh_session_pool :
    (Text → Option Text) → (SessionFlags → Server) → Config → Result (Pool Manager)
new_ssh_session_pool parse_private_key srv base =
    new_session_pool (tunnels parse_private_key srv base)

module _ (parse_private_key : Text → Option Text) (srv : SessionFlags → Server)
    (base : Config) where
  built-WellFormed :
      (cfg : Config) (m : Manager)
      → new_ssh_tunnel_manager parse_private_key cfg ≡ ok m
      → WellFormed m
  unfolding new_ssh_tunnel_manager
  built-WellFormed cfg m e = elim (Option-cases (parse_private_key cfg.private_key)) [
    | inl fine ↦
        let f : new_ssh_tunnel_manager parse_private_key cfg ≡ ok (fresh_manager cfg) =
          rw (fine, new_ssh_tunnel_manager) refl in
        subst WellFormed (ok_inj _ m (sym f ∙ e)) (fresh-WellFormed cfg)
    | inr (why, broken) ↦
        let f : new_ssh_tunnel_manager parse_private_key cfg
            ≡ err (external (text "unable to parse private key: " ++ why)) =
          rw (broken, new_ssh_tunnel_manager) refl in
        cc
  ]

  pub tunnels-IsKept : IsKept (tunnels parse_private_key srv base) (λ flags m. WellFormed m)
  unfolding tunnels
  tunnels-IsKept = record {
    built = λ flags label m e. built-WellFormed (record base { flags = flags }) m e;
    by_starting = λ flags m fwd wf. start_forwarding-WellFormed (srv m.flags) m fwd wf;
    by_stopping = λ flags m fwd wf. stop_forwarding-WellFormed (srv m.flags) m fwd wf;
    by_connecting = λ flags m wf. connect-WellFormed (srv m.flags) m wf;
  }

  -- In a pool that NewSSHSessionPool builds, after any calls of the pool's methods in any order and
  -- whatever the servers do, every manager has remembered flags and satisfies the invariant of
  -- the manager.
  pub pool-WellFormed :
      (p : Pool Manager) (cs : List PoolCall) (kind : SessionKind) (m : Manager)
      → new_ssh_session_pool parse_private_key srv base ≡ ok p
      → Map.get (pool_run (tunnels parse_private_key srv base) p cs).managers kind ≡ some m
      → (flags : SessionFlags) × (Map.get
            (pool_run (tunnels parse_private_key srv base) p cs).flags
            kind
          ≡ some flags)
        × WellFormed m
  unfolding new_ssh_session_pool
  pool-WellFormed p cs kind m built at =
      let api = tunnels parse_private_key srv base in
      let keeps = tunnels-IsKept in
      (pool_run-Holds api _ keeps p cs (new_session_pool-Holds api _ keeps p built)).held kind m at
