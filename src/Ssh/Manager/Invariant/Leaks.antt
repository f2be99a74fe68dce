-- ===== src/Ssh/Manager/Invariant/Leaks.antt =====
-- The invariant NoLeak under every call, for a cooperative server.
use k8s_ssh_gateway_controll.Prelude.{
  Bool, ℕ, ◌≡◌, refl, sym, ap, ◌∙◌, subst, inl, inr, true, false, ◌&&◌, Option, none, some, List,
  [], ◌∷◌, arith, Bool-cases, Option-cases, if_both,
}
use k8s_ssh_gateway_controll.Prelude.Int.{ℤ, pos, in_range}
use k8s_ssh_gateway_controll.Prelude.Eq.{◌==◌, eq_iff, int_eq, nat_eq}
use k8s_ssh_gateway_controll.Go.Text.{Text, text_eq}
use k8s_ssh_gateway_controll.Go.Map.{
  Map, has, get-map_values, map_laws, get-empty, get-set, get-delete,
}
use k8s_ssh_gateway_controll.Ssh.Errors.{SshError}
use k8s_ssh_gateway_controll.Ssh.Flags.{kind_eq}
use k8s_ssh_gateway_controll.Ssh.Manager.State.{
  History, ForwardingConfig, cancel, Server, Manager, Outcome, key_of, is_ready,
}
use k8s_ssh_gateway_controll.Ssh.Manager.Leases.{
  bound, IsCooperative, known_to_server, in_doubt, bound-settled,
}
use k8s_ssh_gateway_controll.Ssh.Manager.Requests.{
  send_forwarding_once, cancel_forwarding, process_server_data, send_forwarding, max_port,
}
use k8s_ssh_gateway_controll.Ssh.Manager.Requests.Once.{cancel-other, cancel_mono, cancel_releases}
use k8s_ssh_gateway_controll.Ssh.Manager.Requests.Output.{process-frame}
use k8s_ssh_gateway_controll.Ssh.Manager.Requests.Frame.{Frame-once}
use k8s_ssh_gateway_controll.Ssh.Manager.Requests.Started.{Started, accepted, refused}
use k8s_ssh_gateway_controll.Ssh.Manager.Requests.Start.{Started-send, Frame-send}
use k8s_ssh_gateway_controll.Ssh.Manager.Channels.{release_orphan}
use k8s_ssh_gateway_controll.Ssh.Manager.Invariant.{WellFormed, NoLeak}
use k8s_ssh_gateway_controll.Ssh.Manager.Invariant.Stopping.{cancel_entries-frame, fresh-WellFormed}
use k8s_ssh_gateway_controll.Ssh.Manager.Invariant.Calls.{
  Call, connects, stops, starts_forwarding, stops_forwarding, ticks, releases, outputs, fails_dial,
  dials, all_timely, step, run, step-WellFormed, run-fresh-WellFormed,
}
use k8s_ssh_gateway_controll.Ssh.Manager.Operations.{
  forget, host_key_callback, start_forwarding, stop_forwarding, fresh_manager, after_dial,
  cancelled_entries, Config, connect, close_client, stop_manager, keepalive, KeepAlive,
  keepalive_answered, keepalive_failed, keepalive_timed_out, finish_start,
  record_backend_dial_success, log_backend_dial_error,
}
use k8s_ssh_gateway_controll.Ssh.Uri.{forwarding_key}
use k8s_ssh_gateway_controll.Ssh.Uri.Keys.{forwarding_key_inj}
use k8s_ssh_gateway_controll.Go.Map

abbrev IsFree : Manager → Text → Type 0
IsFree m key = bound m.history key ≡ false

module _ (srv : Server) (coop : IsCooperative srv) where
  module _ (m : Manager) (wf : WellFormed m) (nl : NoLeak m) where
    module _ (fwd : ForwardingConfig) (absent : Map.get m.forwardings (key_of fwd) ≡ none) where
      refused-IsFree :
          (m' : Manager)
          → ((key : Text)
              → (key_of fwd == key) ≡ false
              → bound m'.history key ≡ bound m.history key)
          → IsFree m' (key_of fwd)
          → (key : Text) → Map.get m.forwardings key ≡ none
          → IsFree m' key
      refused-IsFree m' others free key gone = elim (Bool-cases (key_of fwd == key)) [
        | inr ne ↦ others key ne ∙ nl.known key gone
        | inl same ↦ subst (IsFree m') ((eq_iff (key_of fwd) key).0 same) free
      ]

      finish-NoLeak :
          (m' : Manager) (e : Option SshError)
          → m'.forwardings ≡ m.forwardings
          → Started srv fwd m m' e
          → NoLeak (finish_start fwd (m', e)).0
      finish-NoLeak m' (some e) same (refused _ _ others free) = record {
        known = λ key gone.
            refused-IsFree m' others (free coop (nl.known (key_of fwd) absent)) key
              (rw (← same) gone);
      }
      finish-NoLeak m' none same (accepted addrs verified inside assigned leased) = record {
        known = λ key gone. ground (
          arith,
          leased key,
          get-set m'.forwardings (key_of fwd) key fwd,
          nl.known key,
          ap (λ (x : Map Text ForwardingConfig). Map.get x key) same,
        );
      }

    start_forwarding-NoLeak : (fwd : ForwardingConfig) → NoLeak (start_forwarding srv m fwd).0
    unfolding start_forwarding
    start_forwarding-NoLeak fwd = elim (Bool-cases (is_ready m)) [
      | inr closed ↦ rw (closed, start_forwarding) nl
      | inl ready ↦ elim (Option-cases (Map.get m.forwardings (key_of fwd))) [
        | inr (f, present) ↦ rw (ready, present, start_forwarding) nl
        | inl absent ↦
            rw (ready, absent, start_forwarding)
              (finish-NoLeak fwd absent _ _ (Frame-send srv fwd m).forwardings
                (Started-send srv fwd m))
      ]
    ]

    -- The cancel request of a forwarding that is forgotten.
    forget-NoLeak :
        (k : Text) (session : ForwardingConfig)
        → key_of session ≡ k
        → in_range max_port session.remote_port ≡ true
        → NoLeak (send_forwarding_once srv (forget m k session) session cancel).0
    unfolding forget
    forget-NoLeak k session keyed inside = record { known = known }
      where
        known :
            (key : Text)
            → Map.get
                (send_forwarding_once srv (forget m k session) session cancel).0.forwardings
                key
              ≡ none
            → IsFree (send_forwarding_once srv (forget m k session) session cancel).0 key
        known key gone = elim (Bool-cases (key_of session == key)) [
          | inl same ↦
              subst (IsFree (send_forwarding_once srv (forget m k session) session cancel).0)
                ((eq_iff (key_of session) key).0 same)
                (cancel_releases srv (forget m k session) session coop inside)
          | inr ne ↦
              cancel-other srv (forget m k session) session key ne
              ∙ nl.known key (
                  ground (
                    arith,
                    get-delete m.forwardings k key,
                    ap (λ (x : Map Text ForwardingConfig). Map.get x key)
                        (Frame-once srv (forget m k session) session cancel).forwardings,
                  ))
        ]

    stop_forwarding-NoLeak : (fwd : ForwardingConfig) → NoLeak (stop_forwarding srv m fwd).0
    unfolding stop_forwarding send_forwarding
    stop_forwarding-NoLeak fwd = elim (Bool-cases (is_ready m)) [
      | inr closed ↦ rw (closed, stop_forwarding) nl
      | inl ready ↦ elim (Option-cases (Map.get m.forwardings (key_of fwd))) [
        | inl absent ↦ rw (ready, absent, stop_forwarding) nl
        | inr (session, stored) ↦
            let e = wf.entries (key_of fwd) session stored in
            rw (ready, stored, stop_forwarding)
              (forget-NoLeak (key_of fwd) session e.keyed e.in_port_range)
      ]
    ]

    -- A closed connection has no leases.
    close_client-NoLeak : NoLeak (close_client m)
    unfolding close_client bound
    close_client-NoLeak =
        if_both NoLeak m.connected _ m
          (λ on. record { known = λ key gone. ground (arith, wf.client) }) (λ off. nl)

    keepalive-NoLeak : (r : KeepAlive) → NoLeak (keepalive m r)
    unfolding keepalive
    keepalive-NoLeak keepalive_answered = nl
    keepalive-NoLeak keepalive_failed =
        if_both NoLeak (is_ready m) _ m (λ ready. close_client-NoLeak) (λ off. nl)
    keepalive-NoLeak keepalive_timed_out =
        if_both NoLeak (is_ready m) _ m (λ ready. close_client-NoLeak) (λ off. nl)

    -- What Stop needs of the state after its loop.
    abbrev Closing : Manager → Type 0
    Closing n = (n.has_client ≡ n.connected) × (n.connected ≡ false → (key : Text) → IsFree n key)

    cancelled-Closing : Closing (cancelled_entries srv m)
    unfolding cancelled_entries
    cancelled-Closing =
        if_both Closing (m.has_client && m.connected) _ m
          (λ on.
            subst Closing (sym (cancel_entries-frame srv m m.forwardings.entries))
              (wf.client, λ off key. absurd (ground arith)))
          (λ off. (wf.client, λ closed key. nl.known key (wf.offline closed key)))

    stop_manager-NoLeak : NoLeak (stop_manager srv m)
    unfolding stop_manager bound
    stop_manager-NoLeak =
        let (client, free) = cancelled-Closing in
        if_both NoLeak (cancelled_entries srv m).connected _ _
          (λ on. record { known = λ key gone. ground arith })
          (λ off. record { known = λ key gone. free off key })

    after_dial-NoLeak : (answer : Option Text) → NoLeak (after_dial m answer).0
    unfolding bound
    after_dial-NoLeak (some e) = record { known = nl.known }
    after_dial-NoLeak none = record { known = nl.known }

    connect-NoLeak : NoLeak (connect srv m).0
    unfolding connect
    connect-NoLeak =
        if_both (λ (o : Outcome). NoLeak o.0) m.connected _ _ (λ on. nl)
          (λ off. after_dial-NoLeak (srv.dial m.history (host_key_callback srv m.host_key)))

    release-NoLeak : (host : Text) (port : ℤ) → NoLeak (cancel_forwarding srv m host port)
    unfolding cancel_forwarding
    release-NoLeak host port = record {
      known = λ key gone. cancel_mono srv m _ key (
          nl.known key (
            ap (λ (x : Map Text ForwardingConfig). Map.get x key)
              (sym (Frame-once srv m _ cancel).forwardings)
            ∙ gone));
    }

    release_orphan-NoLeak : (orphan : Text × ℕ) → NoLeak (release_orphan srv m orphan)
    unfolding release_orphan
    release_orphan-NoLeak (addr, port) =
        if_both NoLeak (is_ready m) _ m (λ ready. release-NoLeak addr (pos port)) (λ off. nl)

    process-NoLeak : (chunk : Text) → NoLeak (process_server_data m chunk)
    process-NoLeak chunk = subst NoLeak (sym (process-frame m chunk)) (record { known = nl.known })

    step-NoLeak : (c : Call) → NoLeak (step srv m c)
    unfolding step log_backend_dial_error record_backend_dial_success
    step-NoLeak connects = connect-NoLeak
    step-NoLeak stops = stop_manager-NoLeak
    step-NoLeak (starts_forwarding fwd) = start_forwarding-NoLeak fwd
    step-NoLeak (stops_forwarding fwd) = stop_forwarding-NoLeak fwd
    step-NoLeak (ticks r) = keepalive-NoLeak r
    step-NoLeak (releases orphan) = release_orphan-NoLeak orphan
    step-NoLeak (outputs chunk) = process-NoLeak chunk
    step-NoLeak (fails_dial addr now) = record { known = nl.known }
    step-NoLeak (dials addr) = record { known = nl.known }

  run-NoLeak :
      (m : Manager) (cs : List Call)
      → all_timely srv m cs ≡ true
      → WellFormed m
      → NoLeak m
      → NoLeak (run srv m cs)
  unfolding run all_timely
  run-NoLeak m [] now wf nl = nl
  run-NoLeak m (c ∷ cs) now wf nl =
      run-NoLeak (step srv m c) cs (ground arith) (step-WellFormed srv m c (ground arith) wf)
        (step-NoLeak m wf nl c)

  fresh-NoLeak : (cfg : Config) → NoLeak (fresh_manager cfg)
  unfolding fresh_manager bound
  fresh-NoLeak cfg = record { known = λ key gone. refl }

  granted-eq-forwardings :
      (cfg : Config) (cs : List Call) (key : Text)
      → all_timely srv (fresh_manager cfg) cs ≡ true
      → bound (run srv (fresh_manager cfg) cs).history key
        ≡ has (run srv (fresh_manager cfg) cs).forwardings key
  granted-eq-forwardings cfg cs key now =
      let m = run srv (fresh_manager cfg) cs in
      elim (Option-cases (Map.get m.forwardings key)) [
        | inl gone ↦
            rw (gone, has)
              ((run-NoLeak _ cs now (fresh-WellFormed cfg) (fresh-NoLeak cfg)).known key gone)
        | inr (f, stored) ↦
            rw (stored, has) ((run-fresh-WellFormed srv cfg cs now).entries key f stored).leased
      ]

  -- Suppose that the server grants, in time, the cancellation of what it has granted, and take any
  -- calls on a new manager in which no orphan is released while a forwarding is stored for its host
  -- and port. For every host:port key that is not in doubt, whatever the server did with the start
  -- requests whose answers did not arrive, the server holds a forwarding exactly if one is stored: a
  -- denied or mismatched start, a stop, a lost connection and the release of an orphan leave no
  -- lease behind. A key is in doubt from a start request for it that timed out or failed, which the
  -- server may have granted late, until the connection ends or a request for the key is granted.
  pub leases-eq-forwardings :
      (cfg : Config) (cs : List Call) (key : Text) (late : History → Bool)
      → all_timely srv (fresh_manager cfg) cs ≡ true
      → in_doubt (run srv (fresh_manager cfg) cs).history key ≡ false
      → bound (known_to_server late (run srv (fresh_manager cfg) cs).history) key
        ≡ has (run srv (fresh_manager cfg) cs).forwardings key
  leases-eq-forwardings cfg cs key late now sure =
      bound-settled late (run srv (fresh_manager cfg) cs).history key sure
      ∙ granted-eq-forwardings cfg cs key now

  -- When the server grants the cancellation of what it holds, the release of an orphan for whose
  -- host and port a forwarding has been stored meanwhile, on a connected manager that keeps the
  -- invariant, leaves the forwarding stored while the server no longer holds it.
  pub release_orphan-loses :
      (m : Manager) (addr : Text) (port : ℕ) (fwd : ForwardingConfig)
      → WellFormed m
      → is_ready m ≡ true
      → Map.get m.forwardings (forwarding_key addr (pos port)) ≡ some fwd
      → (Map.get (release_orphan srv m (addr, port)).forwardings (forwarding_key addr (pos port))
          ≡ some fwd)
        × (bound (release_orphan srv m (addr, port)).history (forwarding_key addr (pos port))
            ≡ false)
  unfolding release_orphan cancel_forwarding
  release_orphan-loses m addr port fwd wf ready stored =
      let e = wf.entries (forwarding_key addr (pos port)) fwd stored in
      let (hosts, ports) =
        forwarding_key_inj fwd.remote_host addr fwd.remote_port (pos port) e.keyed in
      rw ready (
        ap (λ (x : Map Text ForwardingConfig). Map.get x (forwarding_key addr (pos port)))
              (Frame-once srv m _ cancel).forwardings
            ∙ stored,
        cancel_releases srv m _ coop (ap (in_range max_port) (sym ports) ∙ e.in_port_range),
      )
