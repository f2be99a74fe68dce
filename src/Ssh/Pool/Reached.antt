-- ===== src/Ssh/Pool/Reached.antt =====
-- The pools that NewSSHSessionPool and the pool's methods can reach: flags are remembered for exactly
-- the kinds that have a manager.
use k8s_ssh_gateway_controll.Prelude.{
  ◌≡◌, refl, ap, subst, inl, inr, Bool, Option, none, some, List, [], ◌∷◌, arith, Bool-cases,
  Option-cases,
}
use k8s_ssh_gateway_controll.Prelude.Int.{ℤ}
use k8s_ssh_gateway_controll.Prelude.Eq.{◌==◌, int_eq, nat_eq}
use k8s_ssh_gateway_controll.Go.Text.{text_eq}
use k8s_ssh_gateway_controll.Go.Map.{Map, has, get-map_values, get-empty, get-set, get-delete}
use k8s_ssh_gateway_controll.Ssh.Errors.{Result, ok, err, ok_inj, SshError}
use k8s_ssh_gateway_controll.Ssh.Flags.{
  SessionFlags, no_flags, SessionKind, session_plain, kind_beq_iff, kind_eq,
}
use k8s_ssh_gateway_controll.Ssh.Pool.{
  SessionManager, Pool, configure_sessions, pool_of, new_session_pool, forwarded,
  pool_start_forwarding, pool_stop_forwarding, reconnected, pool_connect, pool_stop,
}
use k8s_ssh_gateway_controll.Ssh.Pool.Configure.{
  Paired, configure_sessions-ConfiguredBy, configure_sessions-idempotent,
}
use k8s_ssh_gateway_controll.Ssh.Pool.Held.{
  PoolCall, configures, pool_starts, pool_stops, pool_connects, pool_halts, pool_step, pool_run,
}
use k8s_ssh_gateway_controll.Go.Map

module _ {M : Type 0} (api : SessionManager M) where
  forwarded-Paired :
      (p : Pool M) (kind : SessionKind) (call : M → M × Option SshError) (found : Option M)
      → Map.get p.managers kind ≡ found
      → Paired p
      → Paired (forwarded api p kind call found).0
  forwarded-Paired p kind call none at paired k = paired k
  forwarded-Paired p kind call (some m) at paired k = elim (Bool-cases (kind == k)) [
    | inl same ↦
        let e : kind ≡ k = (kind_beq_iff kind k).0 same in
        ground (arith, paired k, ap (Map.get p.managers) e, get-set p.managers kind k (call m).0)
    | inr ne ↦ ground (arith, paired k, get-set p.managers kind k (call m).0)
  ]

  pool_connect-Paired : (p : Pool M) → Paired p → Paired (pool_connect api p)
  unfolding pool_connect
  pool_connect-Paired p paired k =
      let g = get-map_values (reconnected api) p.managers k in
      elim (Option-cases (Map.get p.managers k)) [
        | inl gone ↦ ground (arith, paired k)
        | inr (m, there) ↦ ground (arith, paired k)
      ]

  pool_step-Paired : (p : Pool M) (c : PoolCall) → Paired p → Paired (pool_step api p c)
  unfolding pool_step pool_start_forwarding pool_stop_forwarding pool_stop
  pool_step-Paired p (configures version sni) paired =
      (configure_sessions-ConfiguredBy api version sni p paired).paired
  pool_step-Paired p (pool_starts kind fwd) paired =
      forwarded-Paired p kind _ (Map.get p.managers kind) refl paired
  pool_step-Paired p (pool_stops kind fwd) paired =
      forwarded-Paired p kind _ (Map.get p.managers kind) refl paired
  pool_step-Paired p pool_connects paired = pool_connect-Paired p paired
  pool_step-Paired p pool_halts paired =
      λ k. ground (arith, get-empty {V = M} k, get-empty {V = SessionFlags} k)

  pool_run-Paired : (p : Pool M) (cs : List PoolCall) → Paired p → Paired (pool_run api p cs)
  unfolding pool_run
  pool_run-Paired p [] paired = paired
  pool_run-Paired p (c ∷ cs) paired =
      pool_run-Paired (pool_step api p c) cs (pool_step-Paired p c paired)

  pool_of-Paired : (p : Pool M) (r : Result M) → pool_of api r ≡ ok p → Paired p
  pool_of-Paired p (err e) new_eq = cc
  pool_of-Paired p (ok m) new_eq = subst Paired (ok_inj _ p new_eq) (λ k. ground (
    arith,
    get-empty {V = M} k,
    get-empty {V = SessionFlags} k,
    get-set Map.empty session_plain k (api.connecting m).0,
    get-set Map.empty session_plain k no_flags,
  ))

  reached-Paired :
      (new p : Pool M) (cs : List PoolCall)
      → new_session_pool api ≡ ok new
      → pool_run api new cs ≡ p
      → Paired p
  unfolding new_session_pool
  reached-Paired new p cs built e =
      subst Paired e (pool_run-Paired new cs (pool_of-Paired new _ built))

  -- On a pool that newSessionPoolWithFactory has built and any calls of the pool's methods have led
  -- to, ConfigureSessions that has succeeded does nothing when it is called again with the same
  -- arguments: no manager is stopped, built or connected a second time.
  pub pool_run-idempotent :
      (new p : Pool M) (cs : List PoolCall) (version : ℤ) (sni : Bool)
      → new_session_pool api ≡ ok new
      → pool_run api new cs ≡ p
      → (configure_sessions api p version sni).1 ≡ none
      → configure_sessions api (configure_sessions api p version sni).0 version sni
        ≡ ((configure_sessions api p version sni).0, none)
  pool_run-idempotent new p cs version sni built e =
      configure_sessions-idempotent api p version sni (reached-Paired new p cs built e)
