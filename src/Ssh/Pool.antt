-- ===== src/Ssh/Pool.antt =====
-- ssh/ssh_session_pool.go: SSHSessionPool, over the sessionManager interface.
pub mod Configure
pub mod Held
pub mod Reached
pub mod Tunnel
mod Tests
use k8s_ssh_gateway_controll.Prelude.{
  ◌+◌, Bool, true, false, Option, none, some, List, [], ◌∷◌, ◌++◌, map, arith, if◌then◌else◌,
}
use k8s_ssh_gateway_controll.Prelude.Int.{ℤ, pos, is_positive}
use k8s_ssh_gateway_controll.Prelude.Eq.{int_eq, nat_eq}
use k8s_ssh_gateway_controll.Go.Text.{Text, text, text_eq}
use k8s_ssh_gateway_controll.Go.Map.{Map, map_laws}
use k8s_ssh_gateway_controll.Ssh.Errors.{
  Result, ok, err, SshError, session_not_enabled, build_failed,
}
use k8s_ssh_gateway_controll.Ssh.Flags.{
  SessionFlags, no_flags, flags_beq, default_label, SessionKind, session_plain, session_proxy_proto,
  session_sni_proxy, kind_string, kind_eq,
}
use k8s_ssh_gateway_controll.Ssh.Manager.State.{ForwardingConfig}
use k8s_ssh_gateway_controll.Go.Map

-- sessionManager, with the managerFactory; a method returns the manager's next state.
pub record SessionManager (M : Type 0) : Type 0 where
  pub build : SessionFlags → Text → Result M
  pub starting : M → ForwardingConfig → M × Option SshError
  pub stopping : M → ForwardingConfig → M × Option SshError
  pub addresses : M → Text → ℤ → List Text
  pub live : M → Bool
  pub halt : M → M
  pub connecting : M → M × Option SshError

pub record Pool (M : Type 0) : Type 0 where
  pub managers : Map SessionKind M
  pub flags : Map SessionKind SessionFlags
  -- the managers that the pool has stopped and let go, the newest first
  pub retired : List M

-- p.flags[kind]
abbrev pub flags_of : Option SessionFlags → SessionFlags
flags_of none = no_flags
flags_of (some flags) = flags

abbrev pub pp_flags : ℤ → SessionFlags
pp_flags version = record { proxy_protocol_version = version; sni_proxy = false }

abbrev pub sni_flags : SessionFlags
sni_flags = record { proxy_protocol_version = pos 0; sni_proxy = true }

module _ {M : Type 0} (api : SessionManager M) where
  -- openLocked, after the factory
  abbrev pub opened : Pool M → SessionKind → SessionFlags → Result M → Pool M × Option SshError
  opened p kind flags (err e) = (p, some (build_failed (kind_string kind) e))
  opened p kind flags (ok m) = (
    record p {
      managers = Map.set p.managers kind (api.connecting m).0;
      flags = Map.set p.flags kind flags;
    },
    none,
  )

  -- openLocked
  unfoldable pub open_locked : Pool M → SessionKind → SessionFlags → Pool M × Option SshError
  open_locked p kind flags = opened p kind flags (api.build flags (default_label flags))

  -- The call of Stop on a manager, and its removal.
  unfoldable pub close_locked : Pool M → SessionKind → M → Pool M
  close_locked p kind existing = record {
    managers = Map.delete p.managers kind;
    flags = Map.delete p.flags kind;
    retired = api.halt existing ∷ p.retired;
  }

  -- The switch of reconcileKind.
  abbrev pub reconcile_present :
      Pool M → SessionKind → Bool → SessionFlags → Option M → Pool M × Option SshError
  reconcile_present p kind true desired none = open_locked p kind desired
  reconcile_present p kind false desired none = (p, none)
  reconcile_present p kind false desired (some existing) = (close_locked p kind existing, none)
  reconcile_present p kind true desired (some existing) =
      if flags_beq (flags_of (Map.get p.flags kind)) desired
      then (p, none)
      else open_locked (close_locked p kind existing) kind desired

  -- reconcileKind
  unfoldable pub reconcile_kind :
      Pool M → SessionKind → Bool → SessionFlags → Pool M × Option SshError
  reconcile_kind p kind want desired =
      reconcile_present p kind want desired (Map.get p.managers kind)

  -- What ConfigureSessions does after the PROXY-protocol kind.
  abbrev pub reconcile_sni : Bool → Pool M × Option SshError → Pool M × Option SshError
  reconcile_sni sni (p, some e) = (p, some e)
  reconcile_sni sni (p, none) = reconcile_kind p session_sni_proxy sni sni_flags

  -- ConfigureSessions
  unfoldable pub configure_sessions : Pool M → ℤ → Bool → Pool M × Option SshError
  configure_sessions p version sni =
      reconcile_sni sni
        (reconcile_kind p session_proxy_proto (is_positive version) (pp_flags version))

  abbrev pub pool_of : Result M → Result (Pool M)
  pool_of (err e) = err (build_failed (text "plain") e)
  pool_of (ok m) = ok (record {
    managers = Map.set Map.empty session_plain (api.connecting m).0;
    flags = Map.set Map.empty session_plain no_flags;
    retired = [];
  })

  -- newSessionPoolWithFactory
  unfoldable pub new_session_pool : Result (Pool M)
  new_session_pool = pool_of (api.build no_flags (text "plain"))

  abbrev pub stored : Pool M → SessionKind → M × Option SshError → Pool M × Option SshError
  stored p kind (m, e) = (record p { managers = Map.set p.managers kind m }, e)

  -- A call that the pool passes on to the manager of a kind.
  abbrev pub forwarded :
      Pool M → SessionKind → (M → M × Option SshError) → Option M → Pool M × Option SshError
  forwarded p kind call none = (p, some (session_not_enabled (kind_string kind)))
  forwarded p kind call (some m) = stored p kind (call m)

  -- StartForwarding of the pool
  unfoldable pub pool_start_forwarding :
      Pool M → SessionKind → ForwardingConfig → Pool M × Option SshError
  pool_start_forwarding p kind fwd =
      forwarded p kind (λ m. api.starting m fwd) (Map.get p.managers kind)

  -- StopForwarding of the pool
  unfoldable pub pool_stop_forwarding :
      Pool M → SessionKind → ForwardingConfig → Pool M × Option SshError
  pool_stop_forwarding p kind fwd =
      forwarded p kind (λ m. api.stopping m fwd) (Map.get p.managers kind)

  -- GetAssignedAddresses of the pool
  unfoldable pub pool_get_assigned_addresses : Pool M → SessionKind → Text → ℤ → List Text
  pool_get_assigned_addresses p kind host port = elim (Map.get p.managers kind) [
    | none ↦ []
    | some m ↦ api.addresses m host port
  ]

  -- IsConnected of the pool
  unfoldable pub pool_is_connected : Pool M → SessionKind → Bool
  pool_is_connected p kind = elim (Map.get p.managers kind) [ none ↦ false | some m ↦ api.live m ]

  abbrev pub reconnected : M → M
  reconnected m = if api.live m then m else (api.connecting m).0

  -- Connect of the pool
  unfoldable pub pool_connect : Pool M → Pool M
  pool_connect p = record p { managers = Map.map_values reconnected p.managers }

  -- Stop of the pool
  unfoldable pub pool_stop : Pool M → Pool M
  pool_stop p = record {
    managers = Map.empty;
    flags = Map.empty;
    retired = map (λ (entry : SessionKind × M). api.halt entry.1) p.managers.entries ++ p.retired;
  }
