-- ===== src/Ssh/Pool/Configure.antt =====
-- ConfigureSessions of ssh/ssh_session_pool.go against the sessions that are asked for.
use k8s_ssh_gateway_controll.Prelude.{
  ◌≡◌, refl, ap, ◌∙◌, inl, inr, Bool, true, false, Option, none, some, arith, if◌then◌else◌,
  Option-cases, if_both,
}
use k8s_ssh_gateway_controll.Prelude.Int.{ℤ, is_positive}
use k8s_ssh_gateway_controll.Prelude.Eq.{◌==◌, eq_refl, int_eq, nat_eq}
use k8s_ssh_gateway_controll.Go.Text.{text_eq}
use k8s_ssh_gateway_controll.Go.Map.{
  Map, has, get-map_values, map_laws, get-empty, get-set, get-delete,
}
use k8s_ssh_gateway_controll.Ssh.Errors.{Result, ok, err, SshError}
use k8s_ssh_gateway_controll.Ssh.Flags.{
  SessionFlags, no_flags, flags_beq, flags_beq_iff, default_label, SessionKind, session_plain,
  session_proxy_proto, session_sni_proxy, kind_eq,
}
use k8s_ssh_gateway_controll.Ssh.Pool.{
  SessionManager, Pool, opened, open_locked, close_locked, flags_of, reconcile_present,
  reconcile_kind, pp_flags, sni_flags, reconcile_sni, configure_sessions,
}
use k8s_ssh_gateway_controll.Go.Map

-- The sessions that a configuration asks for, with their flags.
abbrev pub wanted : ℤ → Bool → SessionKind → Option SessionFlags
wanted version sni session_plain = some no_flags
wanted version sni session_proxy_proto =
    if is_positive version then some (pp_flags version) else none
wanted version sni session_sni_proxy = if sni then some sni_flags else none

-- A kind has a manager exactly when it has flags.
abbrev pub Paired : {M : Type 0} → Pool M → Type 0
Paired p = (kind : SessionKind) → has p.managers kind ≡ has p.flags kind

module _ {M : Type 0} (api : SessionManager M) where
  -- What reconcileKind leaves, by its error.
  pub record Reconciled (kind : SessionKind) (want : Bool) (desired : SessionFlags) (p p' : Pool M)
      (e : Option SshError) : Type 0 where
    pub others :
        (k : SessionKind)
        → (kind == k) ≡ false
        → (Map.get p'.managers k ≡ Map.get p.managers k) × (Map.get p'.flags k ≡ Map.get p.flags k)
    pub self : e ≡ none → Map.get p'.flags kind ≡ (if want then some desired else none)
    pub paired : Paired p'

  abbrev pub ReconciledBy :
      SessionKind → Bool → SessionFlags → Pool M → Pool M × Option SshError → Type 0
  ReconciledBy kind want desired p o = Reconciled kind want desired p o.0 o.1

  module _ (kind : SessionKind) (desired : SessionFlags) (p : Pool M) (paired : Paired p) where
    opened-Reconciled :
        (q : Pool M) (r : Result M)
        → Paired q
        → ((k : SessionKind)
            → (kind == k) ≡ false
            → (Map.get q.managers k ≡ Map.get p.managers k)
              × (Map.get q.flags k ≡ Map.get p.flags k))
        → ReconciledBy kind true desired p (opened api q kind desired r)
    opened-Reconciled q (err e) pq same = record { others = same; self = λ h. cc; paired = pq }
    opened-Reconciled q (ok m) pq same = record {
      others = λ k ne. ground (
        arith,
        same k ne,
        get-set q.managers kind k (api.connecting m).0,
        get-set q.flags kind k desired,
      );
      self = λ h. ground (arith, get-set q.flags kind kind desired, eq_refl kind);
      paired = λ k. ground (
        arith,
        pq k,
        get-set q.managers kind k (api.connecting m).0,
        get-set q.flags kind k desired,
      );
    }

    closed-Paired : (m : M) → Paired (close_locked api p kind m)
    unfolding close_locked
    closed-Paired m k =
        ground (arith, paired k, get-delete p.managers kind k, get-delete p.flags kind k)

    closed-others :
        (m : M) (k : SessionKind)
        → (kind == k) ≡ false
        → (Map.get (close_locked api p kind m).managers k ≡ Map.get p.managers k)
          × (Map.get (close_locked api p kind m).flags k ≡ Map.get p.flags k)
    unfolding close_locked
    closed-others m k ne = ground (arith, get-delete p.managers kind k, get-delete p.flags kind k)

    present-Reconciled :
        (want : Bool) (found : Option M)
        → Map.get p.managers kind ≡ found
        → ReconciledBy kind want desired p (reconcile_present api p kind want desired found)
    unfolding open_locked close_locked
    present-Reconciled true none at =
        opened-Reconciled p (api.build desired (default_label desired)) paired
          (λ k ne. (refl, refl))
    present-Reconciled false none at = record {
      others = λ k ne. (refl, refl);
      self = λ h. ground (arith, paired kind);
      paired = paired;
    }
    present-Reconciled false (some m) at = record {
      others = closed-others m;
      self = λ h. ground (arith, get-delete p.flags kind kind, eq_refl kind);
      paired = closed-Paired m;
    }
    present-Reconciled true (some m) at =
        if_both (ReconciledBy kind true desired p)
          (flags_beq (flags_of (Map.get p.flags kind)) desired) _ _
          (λ same. record {
            others = λ k ne. (refl, refl);
            self = λ h.
                ground
                  (arith, paired kind, flags_beq_iff (flags_of (Map.get p.flags kind)) desired);
            paired = paired;
          })
          (λ changed.
            opened-Reconciled (close_locked api p kind m)
              (api.build desired (default_label desired)) (closed-Paired m) (closed-others m))

  reconcile_kind-Reconciled :
      (kind : SessionKind) (want : Bool) (desired : SessionFlags) (p : Pool M)
      → Paired p
      → ReconciledBy kind want desired p (reconcile_kind api p kind want desired)
  unfolding reconcile_kind
  reconcile_kind-Reconciled kind want desired p paired =
      present-Reconciled kind desired p paired want (Map.get p.managers kind) refl

  -- What ConfigureSessions leaves.
  pub record ConfiguredBy (version : ℤ) (sni : Bool) (p p' : Pool M) (e : Option SshError)
      : Type 0 where
    pub plain :
        (Map.get p'.managers session_plain ≡ Map.get p.managers session_plain)
        × (Map.get p'.flags session_plain ≡ Map.get p.flags session_plain)
    pub pp :
        e ≡ none
        → Map.get p'.flags session_proxy_proto
          ≡ (if is_positive version then some (pp_flags version) else none)
    pub sni_proxy :
        e ≡ none → Map.get p'.flags session_sni_proxy ≡ (if sni then some sni_flags else none)
    pub paired : Paired p'

  module _ (version : ℤ) (sni : Bool) (p : Pool M) where
    sni-ConfiguredBy :
        (q : Pool M) (e : Option SshError)
        → Reconciled session_proxy_proto (is_positive version) (pp_flags version) p q e
        → ConfiguredBy version sni p
            (reconcile_sni api sni (q, e)).0
            (reconcile_sni api sni (q, e)).1
    sni-ConfiguredBy q (some e) r = record {
      plain = r.others session_plain refl;
      pp = λ h. cc;
      sni_proxy = λ h. cc;
      paired = r.paired;
    }
    sni-ConfiguredBy q none r =
        let s = reconcile_kind-Reconciled session_sni_proxy sni sni_flags q r.paired in
        let (m1, f1) = r.others session_plain refl in
        let (m2, f2) = s.others session_plain refl in
        let (m3, f3) = s.others session_proxy_proto refl in
        record {
          plain = (m2 ∙ m1, f2 ∙ f1);
          pp = λ h. f3 ∙ r.self refl;
          sni_proxy = s.self;
          paired = s.paired;
        }

    pub configure_sessions-ConfiguredBy :
        Paired p
        → ConfiguredBy version sni p
            (configure_sessions api p version sni).0
            (configure_sessions api p version sni).1
    unfolding configure_sessions
    configure_sessions-ConfiguredBy paired = sni-ConfiguredBy _ _ (
        reconcile_kind-Reconciled session_proxy_proto (is_positive version) (pp_flags version) p
          paired)

  -- A kind that is as asked for is left alone.
  reconcile_kind-settled :
      (kind : SessionKind) (want : Bool) (desired : SessionFlags) (p : Pool M)
      → Paired p
      → Map.get p.flags kind ≡ (if want then some desired else none)
      → reconcile_kind api p kind want desired ≡ (p, none)
  unfolding reconcile_kind
  reconcile_kind-settled kind true desired p paired settled =
      elim (Option-cases (Map.get p.managers kind)) [
        | inl gone ↦ absurd (ground (arith, paired kind))
        | inr (m, there) ↦
            rw (there, settled, reconcile_kind, (flags_beq_iff desired desired).1 refl) refl
      ]
  reconcile_kind-settled kind false desired p paired settled =
      elim (Option-cases (Map.get p.managers kind)) [
        | inl gone ↦ rw (gone, reconcile_kind) refl
        | inr (m, there) ↦ absurd (ground (arith, paired kind))
      ]

  pub configure_sessions-idempotent :
      (p : Pool M) (version : ℤ) (sni : Bool)
      → Paired p
      → (configure_sessions api p version sni).1 ≡ none
      → configure_sessions api (configure_sessions api p version sni).0 version sni
        ≡ ((configure_sessions api p version sni).0, none)
  unfolding configure_sessions
  configure_sessions-idempotent p version sni paired done =
      let c = configure_sessions-ConfiguredBy version sni p paired in
      let q = (configure_sessions api p version sni).0 in
      ap (reconcile_sni api sni) (
        reconcile_kind-settled session_proxy_proto (is_positive version) (pp_flags version) q
          c.paired (c.pp done))
      ∙ reconcile_kind-settled session_sni_proxy sni sni_flags q c.paired (c.sni_proxy done)

  -- Every build of a manager succeeds.
  abbrev pub BuildsAll : Type 0
  BuildsAll = (flags : SessionFlags) → (m : M) × (api.build flags (default_label flags) ≡ ok m)

  -- What ConfigureSessions does for one kind: it succeeds, the manager is there exactly if it is
  -- wanted, and the other kinds are as before.
  abbrev Served : SessionKind → Bool → Pool M → Pool M × Option SshError → Type 0
  Served kind want p o =
      (o.1 ≡ none)
      × (has o.0.managers kind ≡ want)
      × ((k : SessionKind) → (kind == k) ≡ false → has o.0.managers k ≡ has p.managers k)

  open_locked-Served :
      BuildsAll
      → (p q : Pool M) (kind : SessionKind) (flags : SessionFlags)
      → ((k : SessionKind) → (kind == k) ≡ false → has q.managers k ≡ has p.managers k)
      → Served kind true p (open_locked api q kind flags)
  unfolding open_locked
  open_locked-Served builds p q kind flags same =
      let (m, built) = builds flags in
      rw (built, open_locked)
        (
          refl,
          ground (arith, get-set q.managers kind kind (api.connecting m).0, eq_refl kind),
          λ k ne. ground (arith, same k ne, get-set q.managers kind k (api.connecting m).0),
        )

  reconcile_present-Served :
      BuildsAll
      → (p : Pool M) (kind : SessionKind) (want : Bool) (desired : SessionFlags) (found : Option M)
      → Map.get p.managers kind ≡ found
      → Served kind want p (reconcile_present api p kind want desired found)
  unfolding close_locked
  reconcile_present-Served builds p kind true desired none at =
      open_locked-Served builds p p kind desired (λ k ne. refl)
  reconcile_present-Served builds p kind false desired none at =
      (refl, ground (arith, at), λ k ne. refl)
  reconcile_present-Served builds p kind false desired (some m) at = (
    refl,
    ground (arith, get-delete p.managers kind kind, eq_refl kind),
    λ k ne. ground (arith, get-delete p.managers kind k),
  )
  reconcile_present-Served builds p kind true desired (some m) at =
      if_both (Served kind true p) (flags_beq (flags_of (Map.get p.flags kind)) desired) _ _
        (λ same. (refl, ground (arith, at), λ k ne. refl))
        (λ changed.
          open_locked-Served builds p (close_locked api p kind m) kind desired
            (λ k ne. ground (arith, get-delete p.managers kind k)))

  sni-Served :
      BuildsAll
      → (p : Pool M) (want sni : Bool) (o : Pool M × Option SshError)
      → Served session_proxy_proto want p o
      → ((reconcile_sni api sni o).1 ≡ none)
        × (has (reconcile_sni api sni o).0.managers session_proxy_proto ≡ want)
        × (has (reconcile_sni api sni o).0.managers session_sni_proxy ≡ sni)
  unfolding reconcile_kind
  sni-Served builds p want sni (q, none) (done, there, others) =
      let (finished, stands, rest) =
        reconcile_present-Served builds q session_sni_proxy sni sni_flags
          (Map.get q.managers session_sni_proxy) refl in
      (finished, rest session_proxy_proto refl ∙ there, stands)
  sni-Served builds p want sni (q, some e) (done, there, others) = absurd cc

  -- ConfigureSessions, whatever the sessions of the pool are and whatever the first connections
  -- answer, has no error when managers can be built, and leaves a manager for the PROXY protocol
  -- exactly for a positive version and one for SNI exactly where it is enabled: a manager whose
  -- first connection fails is kept.
  pub configure_sessions-succeeds :
      BuildsAll
      → (p : Pool M) (version : ℤ) (sni : Bool)
      → ((configure_sessions api p version sni).1 ≡ none)
        × (has (configure_sessions api p version sni).0.managers session_proxy_proto
            ≡ is_positive version)
        × (has (configure_sessions api p version sni).0.managers session_sni_proxy ≡ sni)
  unfolding configure_sessions reconcile_kind
  configure_sessions-succeeds builds p version sni =
      sni-Served builds p (is_positive version) sni
        (reconcile_present api p session_proxy_proto (is_positive version) (pp_flags version)
          (Map.get p.managers session_proxy_proto))
        (reconcile_present-Served builds p session_proxy_proto (is_positive version)
          (pp_flags version) (Map.get p.managers session_proxy_proto) refl)
