-- ===== src/Ssh/Pool/Held.antt =====
-- What every manager of a pool satisfies, for any property that the sessionManager methods keep.
use k8s_ssh_gateway_controll.Prelude.{
  ◌≡◌, refl, sym, ap, ◌∙◌, subst, inl, inr, Bool, true, false, Option, none, some, List, [], ◌∷◌,
  arith, Bool-cases, Option-cases, if_both,
}
use k8s_ssh_gateway_controll.Prelude.Int.{ℤ, is_positive}
use k8s_ssh_gateway_controll.Prelude.Eq.{◌==◌, int_eq, nat_eq}
use k8s_ssh_gateway_controll.Go.Text.{Text, text, text_eq}
use k8s_ssh_gateway_controll.Go.Map.{
  Map, has, get-map_values, map_laws, get-empty, get-set, get-delete,
}
use k8s_ssh_gateway_controll.Ssh.Errors.{Result, ok, err, ok_inj, SshError}
use k8s_ssh_gateway_controll.Ssh.Flags.{
  SessionFlags, no_flags, default_label, SessionKind, session_plain, session_proxy_proto,
  session_sni_proxy, kind_beq_iff, kind_eq,
}
use k8s_ssh_gateway_controll.Ssh.Manager.State.{ForwardingConfig}
use k8s_ssh_gateway_controll.Ssh.Pool.{
  SessionManager, Pool, opened, open_locked, close_locked, reconcile_present, reconcile_kind,
  pp_flags, sni_flags, reconcile_sni, configure_sessions, pool_of, new_session_pool, forwarded,
  pool_start_forwarding, pool_stop_forwarding, reconnected, pool_connect, pool_stop,
}
use k8s_ssh_gateway_controll.Go.Map

-- A property of managers, by the flags that they were built with.
pub record IsKept {M : Type 0} (api : SessionManager M) (P : SessionFlags → M → Type 0)
    : Type 0 where
  pub built :
      (flags : SessionFlags) (label : Text) (m : M) → api.build flags label ≡ ok m → P flags m
  pub by_starting :
      (flags : SessionFlags) (m : M) (fwd : ForwardingConfig)
      → P flags m
      → P flags (api.starting m fwd).0
  pub by_stopping :
      (flags : SessionFlags) (m : M) (fwd : ForwardingConfig)
      → P flags m
      → P flags (api.stopping m fwd).0
  pub by_connecting : (flags : SessionFlags) (m : M) → P flags m → P flags (api.connecting m).0

pub data PoolCall : Type 0 where
  configures : ℤ → Bool → PoolCall
  pool_starts pool_stops : SessionKind → ForwardingConfig → PoolCall
  pool_connects pool_halts : PoolCall

module _ {M : Type 0} (api : SessionManager M) where
  unfoldable pub pool_step : Pool M → PoolCall → Pool M
  pool_step p (configures version sni) = (configure_sessions api p version sni).0
  pool_step p (pool_starts kind fwd) = (pool_start_forwarding api p kind fwd).0
  pool_step p (pool_stops kind fwd) = (pool_stop_forwarding api p kind fwd).0
  pool_step p pool_connects = pool_connect api p
  pool_step p pool_halts = pool_stop api p

  unfoldable pub pool_run : Pool M → List PoolCall → Pool M
  unfolding pool_step
  pool_run p [] = p
  pool_run p (c ∷ cs) = pool_run (pool_step p c) cs

  module _ (P : SessionFlags → M → Type 0) (keeps : IsKept api P) where
    -- Each manager has remembered flags, and the property for these.
    pub record Holds (p : Pool M) : Type 0 where
      pub held :
          (kind : SessionKind) (m : M)
          → Map.get p.managers kind ≡ some m
          → (flags : SessionFlags) × (Map.get p.flags kind ≡ some flags) × P flags m

    -- The maps after a manager and its flags are stored together.
    Holds-set :
        (p q : Pool M) (kind : SessionKind) (flags : SessionFlags) (m : M)
        → Holds p
        → P flags m
        → q.managers ≡ Map.set p.managers kind m
        → q.flags ≡ Map.set p.flags kind flags
        → Holds q
    Holds-set p q kind flags m h pm em ef = record { held = held }
      where
        held :
            (k : SessionKind) (n : M)
            → Map.get q.managers k ≡ some n
            → (f : SessionFlags) × (Map.get q.flags k ≡ some f) × P f n
        held k n at = elim (Bool-cases (kind == k)) [
          | inl same ↦
              let e : n ≡ m = ground (
                arith,
                get-set p.managers kind k m,
                ap (λ (x : Map SessionKind M). Map.get x k) em,
              ) in
              (
                flags,
                ground (
                  arith,
                  get-set p.flags kind k flags,
                  ap (λ (x : Map SessionKind SessionFlags). Map.get x k) ef,
                ),
                subst (P flags) (sym e) pm,
              )
          | inr ne ↦
              let (f, ff, pf) = h.held k n (
                ground (
                  arith,
                  get-set p.managers kind k m,
                  ap (λ (x : Map SessionKind M). Map.get x k) em,
                )) in
              (
                f,
                ground (
                  arith,
                  get-set p.flags kind k flags,
                  ap (λ (x : Map SessionKind SessionFlags). Map.get x k) ef,
                ),
                pf,
              )
        ]

    opened-Holds :
        (p : Pool M) (kind : SessionKind) (flags : SessionFlags) (r : Result M)
        → api.build flags (default_label flags) ≡ r
        → Holds p
        → Holds (opened api p kind flags r).0
    opened-Holds p kind flags (err e) b h = h
    opened-Holds p kind flags (ok m) b h =
        Holds-set p _ kind flags _ h
          (keeps.by_connecting flags m (keeps.built flags (default_label flags) m b)) refl refl

    open_locked-Holds :
        (p : Pool M) (kind : SessionKind) (flags : SessionFlags)
        → Holds p
        → Holds (open_locked api p kind flags).0
    unfolding open_locked
    open_locked-Holds p kind flags h = opened-Holds p kind flags _ refl h

    close_locked-Holds :
        (p : Pool M) (kind : SessionKind) (m : M) → Holds p → Holds (close_locked api p kind m)
    unfolding close_locked
    close_locked-Holds p kind m h = record { held = held }
      where
        held :
            (k : SessionKind) (n : M)
            → Map.get (Map.delete p.managers kind) k ≡ some n
            → (f : SessionFlags) × (Map.get (Map.delete p.flags kind) k ≡ some f) × P f n
        held k n at =
            let gm = get-delete p.managers kind k in
            let gf = get-delete p.flags kind k in
            let ne : (kind == k) ≡ false = ground arith in
            let (f, ff, pf) = h.held k n (ground arith) in (f, ground arith, pf)

    reconcile_kind-Holds :
        (p : Pool M) (kind : SessionKind) (want : Bool) (desired : SessionFlags) (found : Option M)
        → Holds p
        → Holds (reconcile_present api p kind want desired found).0
    reconcile_kind-Holds p kind true desired none h = open_locked-Holds p kind desired h
    reconcile_kind-Holds p kind false desired none h = h
    reconcile_kind-Holds p kind false desired (some m) h = close_locked-Holds p kind m h
    reconcile_kind-Holds p kind true desired (some m) h =
        if_both (λ (o : Pool M × Option SshError). Holds o.0) _ _ _ (λ same. h)
          (λ changed. open_locked-Holds _ kind desired (close_locked-Holds p kind m h))

    sni-Holds :
        (sni : Bool) (o : Pool M × Option SshError) → Holds o.0 → Holds (reconcile_sni api sni o).0
    unfolding reconcile_kind
    sni-Holds sni (q, none) h = reconcile_kind-Holds q session_sni_proxy sni sni_flags _ h
    sni-Holds sni (q, some e) h = h

    pub forwarded-Holds :
        (p : Pool M) (kind : SessionKind) (call : M → M × Option SshError) (found : Option M)
        → ((flags : SessionFlags) (m : M) → P flags m → P flags (call m).0)
        → Map.get p.managers kind ≡ found
        → Holds p
        → Holds (forwarded api p kind call found).0
    forwarded-Holds p kind call none k at h = h
    forwarded-Holds p kind call (some m) k at h = record { held = held }
      where
        held :
            (j : SessionKind) (n : M)
            → Map.get (Map.set p.managers kind (call m).0) j ≡ some n
            → (f : SessionFlags) × (Map.get p.flags j ≡ some f) × P f n
        held j n stored_at = elim (Bool-cases (kind == j)) [
          | inl same ↦
              let e : n ≡ (call m).0 = ground (arith, get-set p.managers kind j (call m).0) in
              let i : kind ≡ j = (kind_beq_iff kind j).0 same in
              let (f, ff, pf) = h.held kind m at in
              (f, ap (Map.get p.flags) (sym i) ∙ ff, subst (P f) (sym e) (k f m pf))
          | inr ne ↦ h.held j n (ground (arith, get-set p.managers kind j (call m).0))
        ]

    pool_connect-Holds : (p : Pool M) → Holds p → Holds (pool_connect api p)
    unfolding pool_connect
    pool_connect-Holds p h = record { held = held }
      where
        held :
            (j : SessionKind) (n : M)
            → Map.get (Map.map_values (reconnected api) p.managers) j ≡ some n
            → (f : SessionFlags) × (Map.get p.flags j ≡ some f) × P f n
        held j n at =
            let g = get-map_values (reconnected api) p.managers j in
            elim (Option-cases (Map.get p.managers j)) [
              | inl gone ↦ absurd (ground arith)
              | inr (m, there) ↦
                  let e : n ≡ reconnected api m = ground arith in
                  let (f, ff, pf) = h.held j m there in
                  (
                    f,
                    ff,
                    subst (P f) (sym e) (
                        if_both (P f) (api.live m) m _ (λ on. pf)
                          (λ off. keeps.by_connecting f m pf)),
                  )
            ]

    pool_step-Holds : (p : Pool M) (c : PoolCall) → Holds p → Holds (pool_step p c)
    unfolding pool_step configure_sessions reconcile_kind pool_start_forwarding pool_stop_forwarding
        pool_stop
    pool_step-Holds p (configures version sni) h =
        sni-Holds sni _
          (reconcile_kind-Holds p session_proxy_proto (is_positive version) (pp_flags version) _ h)
    pool_step-Holds p (pool_starts kind fwd) h =
        forwarded-Holds p kind _ _ (λ f m. keeps.by_starting f m fwd) refl h
    pool_step-Holds p (pool_stops kind fwd) h =
        forwarded-Holds p kind _ _ (λ f m. keeps.by_stopping f m fwd) refl h
    pool_step-Holds p pool_connects h = pool_connect-Holds p h
    pool_step-Holds p pool_halts h = record {
      held = λ k n at. absurd (ground (arith, sym at ∙ get-empty k));
    }

    pub pool_run-Holds : (p : Pool M) (cs : List PoolCall) → Holds p → Holds (pool_run p cs)
    unfolding pool_run
    pool_run-Holds p [] h = h
    pool_run-Holds p (c ∷ cs) h = pool_run-Holds (pool_step p c) cs (pool_step-Holds p c h)

    empty-Holds : Holds (record { managers = Map.empty; flags = Map.empty; retired = [] })
    empty-Holds = record { held = λ k n at. absurd (ground (arith, sym at ∙ get-empty k)) }

    pool_of-Holds :
        (p : Pool M) (r : Result M)
        → api.build no_flags (text "plain") ≡ r
        → pool_of api r ≡ ok p
        → Holds p
    pool_of-Holds p (err e) built new_eq = cc
    pool_of-Holds p (ok m) built new_eq = subst Holds (ok_inj _ p new_eq) (
        Holds-set (record { managers = Map.empty; flags = Map.empty; retired = [] }) _ session_plain
          no_flags (api.connecting m).0 empty-Holds
          (keeps.by_connecting no_flags m (keeps.built no_flags (text "plain") m built)) refl refl)

    pub new_session_pool-Holds : (p : Pool M) → new_session_pool api ≡ ok p → Holds p
    unfolding new_session_pool
    new_session_pool-Holds p new_eq =
        pool_of-Holds p (api.build no_flags (text "plain")) refl new_eq
