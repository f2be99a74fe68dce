-- ===== src/Ssh/Manager/Invariant/Calls.antt =====
-- The invariant under StopForwarding and the background tasks, and under a history of calls.
-- A history is a list of the calls that the controller, the keepalive ticker, the channel handler
-- and the output readers make on one manager. Each call holds the manager's lock, so the calls of
-- concurrent tasks come one after another. The release of an orphan is a call of its own, made at
-- any time after its channel was rejected; the rejection itself changes no state.
use k8s_ssh_gateway_controll.Prelude.{
  ℕ, ◌≡◌, refl, sym, ap, ◌∙◌, subst, inl, inr, Bool, true, false, not, ◌&&◌, none, some, List, [],
  ◌∷◌, arith, Bool-cases, Option-cases, if_both,
}
use k8s_ssh_gateway_controll.Prelude.Int.{ℤ, pos}
use k8s_ssh_gateway_controll.Prelude.Eq.{◌==◌, eq_iff, int_eq, nat_eq}
use k8s_ssh_gateway_controll.Go.Text.{Text, text_eq}
use k8s_ssh_gateway_controll.Go.Map.{
  Map, has, get-map_values, map_laws, get-empty, get-set, get-delete,
}
use k8s_ssh_gateway_controll.Ssh.Flags.{kind_eq}
use k8s_ssh_gateway_controll.Ssh.Manager.State.{
  ForwardingConfig, cancel, Server, DialErrorStats, Manager, key_of, is_ready,
}
use k8s_ssh_gateway_controll.Ssh.Manager.Leases.{bound}
use k8s_ssh_gateway_controll.Ssh.Manager.Requests.{
  send_forwarding_once, cancel_forwarding, process_server_data, send_forwarding,
}
use k8s_ssh_gateway_controll.Ssh.Manager.Requests.Once.{cancel-other, send_forwarding_once-frame}
use k8s_ssh_gateway_controll.Ssh.Manager.Requests.Output.{process-frame, process-idle}
use k8s_ssh_gateway_controll.Ssh.Manager.Requests.Frame.{
  Frame, Frame-update, KeepsIdle, Frame-once, idle-once,
}
use k8s_ssh_gateway_controll.Ssh.Manager.Requests.Started.{has_extractor}
use k8s_ssh_gateway_controll.Ssh.Manager.Channels.{release_orphan}
use k8s_ssh_gateway_controll.Ssh.Manager.Invariant.{WellFormed, EntryOf}
use k8s_ssh_gateway_controll.Ssh.Manager.Invariant.Stopping.{
  fresh-WellFormed, keepalive-WellFormed, stop_manager-WellFormed, connect-WellFormed,
}
use k8s_ssh_gateway_controll.Ssh.Manager.Invariant.Starting.{
  Entry-same, start_forwarding-WellFormed,
}
use k8s_ssh_gateway_controll.Ssh.Manager.Operations.{
  forget, start_forwarding, stop_forwarding, fresh_manager, Config, connect, stop_manager,
  keepalive, KeepAlive, record_backend_dial_success, log_backend_dial_error,
}
use k8s_ssh_gateway_controll.Ssh.Uri.{forwarding_key}
use k8s_ssh_gateway_controll.Go.Map

pub data Call : Type 0 where
  connects stops : Call
  starts_forwarding stops_forwarding : ForwardingConfig → Call
  ticks : KeepAlive → Call
  releases : Text × ℕ → Call
  outputs : Text → Call
  fails_dial : Text → ℕ → Call
  dials : Text → Call

unfoldable pub step : Server → Manager → Call → Manager
step srv m connects = (connect srv m).0
step srv m stops = stop_manager srv m
step srv m (starts_forwarding fwd) = (start_forwarding srv m fwd).0
step srv m (stops_forwarding fwd) = (stop_forwarding srv m fwd).0
step srv m (ticks r) = keepalive m r
step srv m (releases orphan) = release_orphan srv m orphan
step srv m (outputs chunk) = process_server_data m chunk
step srv m (fails_dial addr now) = (log_backend_dial_error m addr now).0
step srv m (dials addr) = record_backend_dial_success m addr

unfoldable pub run : Server → Manager → List Call → Manager
run srv m [] = m
run srv m (c ∷ cs) = run srv (step srv m c) cs

-- No forwarding is stored for an orphan at the time of its release.
abbrev pub timely : Manager → Call → Bool
timely m (releases (addr, port)) = not (has m.forwardings (forwarding_key addr (pos port)))
timely m _ = true

-- Every release of the calls comes in time.
unfoldable pub all_timely : Server → Manager → List Call → Bool
all_timely srv m [] = true
all_timely srv m (c ∷ cs) = timely m c && all_timely srv (step srv m c) cs

-- The parts of a state that the invariant reads.
Frame-WellFormed :
    (m m' : Manager)
    → Frame m m'
    → m'.assigned_addrs ≡ m.assigned_addrs
    → ((key : Text) → KeepsIdle key m m')
    → ((key : Text) (f : ForwardingConfig)
        → Map.get m.forwardings key ≡ some f
        → bound m'.history key ≡ bound m.history key)
    → WellFormed m
    → WellFormed m'
Frame-WellFormed m m' frame assigned idle held wf = record {
  client = ground arith;
  idle = λ key. idle key (wf.idle key);
  offline = λ off key. ground (arith, wf.offline (sym frame.connected ∙ off) key);
  entries = λ key f stored.
      let was : Map.get m.forwardings key ≡ some f = rw (← frame.forwardings) stored in
      Entry-same key f (held key f was) (ap has_extractor frame.remote_addr_func)
        (ap (λ (x : Map Text (List Text)). Map.get x key) assigned) (wf.entries key f was);
  backed = λ key gone. rw assigned (wf.backed key (rw (← frame.forwardings) gone));
}

has-none :
    (forwardings : Map Text ForwardingConfig) (key : Text)
    → has forwardings key ≡ false
    → Map.get forwardings key ≡ none
has-none forwardings key h = elim (Option-cases (Map.get forwardings key)) [
  | inl gone ↦ gone
  | inr (f, stored) ↦ absurd (ground (arith, stored))
]

-- A stored key and a key that is not stored differ.
pub stored-ne :
    (m : Manager) (k key : Text) (f : ForwardingConfig)
    → Map.get m.forwardings k ≡ none
    → Map.get m.forwardings key ≡ some f
    → (k == key) ≡ false
stored-ne m k key f gone stored = elim (Bool-cases (k == key)) [
  | inr ne ↦ ne
  | inl same ↦ let e : k ≡ key = (eq_iff k key).0 same in cc (ap (Map.get m.forwardings) e)
]

module _ (srv : Server) where
  -- A cancel request for a key that is not stored.
  cancel-WellFormed :
      (m : Manager) (c : ForwardingConfig)
      → Map.get m.forwardings (key_of c) ≡ none
      → WellFormed m
      → WellFormed (send_forwarding_once srv m c cancel).0
  cancel-WellFormed m c gone wf =
      Frame-WellFormed m _ (Frame-once srv m c cancel)
        (ap (λ (x : Manager). x.assigned_addrs) (send_forwarding_once-frame srv m c cancel))
        (idle-once srv m c cancel)
        (λ key f stored. cancel-other srv m c key (stored-ne m (key_of c) key f gone stored)) wf

  forget-WellFormed :
      (m : Manager) (k : Text) (session : ForwardingConfig)
      → WellFormed m
      → WellFormed (forget m k session)
  unfolding forget
  forget-WellFormed m k session wf = record {
    client = wf.client;
    idle = wf.idle;
    offline = λ off key. ground (arith, wf.offline off key, get-delete m.forwardings k key);
    entries = λ key f stored. forgotten key f (k == key) refl stored;
    backed = λ key gone.
        ground
          (arith, wf.backed key, get-delete m.forwardings k key, get-delete m.assigned_addrs k key);
  }
    where
      forgotten :
          (key : Text) (f : ForwardingConfig) (same : Bool)
          → (k == key) ≡ same
          → Map.get (Map.delete m.forwardings k) key ≡ some f
          → EntryOf (forget m k session) key f
      forgotten key f same e stored =
          let p = get-delete m.forwardings k key in
          let q = get-delete m.assigned_addrs k key in
          Entry-same key f refl refl (ground arith) (wf.entries key f (ground arith))

  pub forgotten_key :
      (m : Manager) (fwd session : ForwardingConfig)
      → WellFormed m
      → Map.get m.forwardings (key_of fwd) ≡ some session
      → Map.get (forget m (key_of fwd) session).forwardings (key_of session) ≡ none
  unfolding forget
  forgotten_key m fwd session wf stored =
      let e = wf.entries (key_of fwd) session stored in
      let same = (eq_iff (key_of fwd) (key_of session)).1 (sym e.keyed) in
      ground (arith, get-delete m.forwardings (key_of fwd) (key_of session))

  pub stop_forwarding-WellFormed :
      (m : Manager) (fwd : ForwardingConfig)
      → WellFormed m
      → WellFormed (stop_forwarding srv m fwd).0
  unfolding stop_forwarding send_forwarding
  stop_forwarding-WellFormed m fwd wf = elim (Bool-cases (is_ready m)) [
    | inr closed ↦ rw (closed, stop_forwarding) wf
    | inl ready ↦ elim (Option-cases (Map.get m.forwardings (key_of fwd))) [
      | inl absent ↦ rw (ready, absent, stop_forwarding) wf
      | inr (session, stored) ↦
          rw (ready, stored, stop_forwarding)
            (cancel-WellFormed (forget m (key_of fwd) session) session
              (forgotten_key m fwd session wf stored) (forget-WellFormed m (key_of fwd) session wf))
    ]
  ]

  release-WellFormed :
      (m : Manager) (host : Text) (port : ℤ)
      → Map.get m.forwardings (forwarding_key host port) ≡ none
      → WellFormed m
      → WellFormed (cancel_forwarding srv m host port)
  unfolding cancel_forwarding
  release-WellFormed m host port gone wf = cancel-WellFormed m _ gone wf

  release_orphan-WellFormed :
      (m : Manager) (orphan : Text × ℕ)
      → timely m (releases orphan) ≡ true
      → WellFormed m
      → WellFormed (release_orphan srv m orphan)
  unfolding release_orphan
  release_orphan-WellFormed m (addr, port) now wf =
      if_both WellFormed (is_ready m) _ m
        (λ ready. release-WellFormed m addr (pos port) (has-none _ _ (ground arith)) wf) (λ off. wf)

  stats-WellFormed :
      (m : Manager) (stats : Map Text DialErrorStats)
      → WellFormed m
      → WellFormed (record m { dial_errors = stats })
  stats-WellFormed m stats wf = record {
    client = wf.client;
    idle = wf.idle;
    offline = wf.offline;
    entries = wf.entries;
    backed = wf.backed;
  }

  log-WellFormed :
      (m : Manager) (addr : Text) (now : ℕ)
      → WellFormed m
      → WellFormed (log_backend_dial_error m addr now).0
  unfolding log_backend_dial_error
  log-WellFormed m addr now wf =
      stats-WellFormed m (log_backend_dial_error m addr now).0.dial_errors wf

  process-WellFormed :
      (m : Manager) (chunk : Text) → WellFormed m → WellFormed (process_server_data m chunk)
  process-WellFormed m chunk wf =
      Frame-WellFormed m _ (subst (Frame m) (sym (process-frame m chunk)) (Frame-update m _ _ _))
        (ap (λ (x : Manager). x.assigned_addrs) (process-frame m chunk))
        (λ key. process-idle m chunk key)
        (λ key f stored. ap (λ (x : Manager). bound x.history key) (process-frame m chunk)) wf

  pub step-WellFormed :
      (m : Manager) (c : Call) → timely m c ≡ true → WellFormed m → WellFormed (step srv m c)
  unfolding step record_backend_dial_success
  step-WellFormed m connects now wf = connect-WellFormed srv m wf
  step-WellFormed m stops now wf = stop_manager-WellFormed srv m wf
  step-WellFormed m (starts_forwarding fwd) now wf = start_forwarding-WellFormed srv m fwd wf
  step-WellFormed m (stops_forwarding fwd) now wf = stop_forwarding-WellFormed m fwd wf
  step-WellFormed m (ticks r) now wf = keepalive-WellFormed m r wf
  step-WellFormed m (releases orphan) now wf = release_orphan-WellFormed m orphan now wf
  step-WellFormed m (outputs chunk) now wf = process-WellFormed m chunk wf
  step-WellFormed m (fails_dial addr time) now wf = log-WellFormed m addr time wf
  step-WellFormed m (dials addr) now wf = stats-WellFormed m _ wf

  run-WellFormed :
      (m : Manager) (cs : List Call)
      → all_timely srv m cs ≡ true
      → WellFormed m
      → WellFormed (run srv m cs)
  unfolding run all_timely
  run-WellFormed m [] now wf = wf
  run-WellFormed m (c ∷ cs) now wf =
      run-WellFormed (step srv m c) cs (ground arith) (step-WellFormed m c (ground arith) wf)

  -- After any calls on a new manager, in any order and whatever the server does, if no orphan is
  -- released while a forwarding is stored for its host and port: the client is set exactly while
  -- connected; no notification channel is left over; without a connection no forwarding is
  -- stored; each stored forwarding has its own key, a port up to 65535, a lease that the server
  -- granted and that was not released since, and, where addresses are extracted and the host is
  -- specific or the port pinned, assigned addresses that match the request; and no addresses are
  -- kept for a forwarding that is not stored.
  pub run-fresh-WellFormed :
      (cfg : Config) (cs : List Call)
      → all_timely srv (fresh_manager cfg) cs ≡ true
      → WellFormed (run srv (fresh_manager cfg) cs)
  run-fresh-WellFormed cfg cs now = run-WellFormed (fresh_manager cfg) cs now (fresh-WellFormed cfg)
