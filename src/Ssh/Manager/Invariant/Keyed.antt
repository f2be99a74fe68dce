-- ===== src/Ssh/Manager/Invariant/Keyed.antt =====
-- Every stored forwarding has its own key, after any calls: also after an orphan was released late.
use k8s_ssh_gateway_controll.Prelude.{
  ℕ, ◌≡◌, sym, ap, ◌∙◌, subst, inl, inr, Option, none, some, List, [], ◌∷◌, arith, Bool-cases,
  Option-cases, if_both,
}
use k8s_ssh_gateway_controll.Prelude.Eq.{◌==◌, eq_iff, int_eq, nat_eq}
use k8s_ssh_gateway_controll.Go.Text.{Text, text_eq}
use k8s_ssh_gateway_controll.Go.Map.{Map, get-empty, get-set, get-delete}
use k8s_ssh_gateway_controll.Ssh.Flags.{kind_eq}
use k8s_ssh_gateway_controll.Ssh.Manager.State.{
  ForwardingConfig, start, cancel, Server, Manager, Outcome, key_of, is_ready,
}
use k8s_ssh_gateway_controll.Ssh.Manager.Requests.{send_forwarding, cancel_forwarding}
use k8s_ssh_gateway_controll.Ssh.Manager.Requests.Output.{process-frame}
use k8s_ssh_gateway_controll.Ssh.Manager.Requests.Frame.{Frame-once}
use k8s_ssh_gateway_controll.Ssh.Manager.Requests.Start.{Frame-send}
use k8s_ssh_gateway_controll.Ssh.Manager.Channels.{release_orphan}
use k8s_ssh_gateway_controll.Ssh.Manager.Invariant.Calls.{
  Call, connects, stops, starts_forwarding, stops_forwarding, ticks, releases, outputs, fails_dial,
  dials, step, run,
}
use k8s_ssh_gateway_controll.Ssh.Manager.Operations.{
  forget, host_key_callback, start_forwarding, stop_forwarding, fresh_manager, after_dial,
  cancelled_entries, Config, connect, close_client, stop_manager, keepalive, KeepAlive,
  keepalive_answered, keepalive_failed, keepalive_timed_out, finish_start,
  record_backend_dial_success, log_backend_dial_error,
}
use k8s_ssh_gateway_controll.Go.Map

abbrev pub Keyed : Map Text ForwardingConfig → Type 0
Keyed forwardings =
    (key : Text) (fwd : ForwardingConfig) → Map.get forwardings key ≡ some fwd → key_of fwd ≡ key

empty-Keyed : Keyed Map.empty
empty-Keyed key fwd stored = absurd (ground (arith, sym stored ∙ get-empty key))

delete-Keyed :
    (forwardings : Map Text ForwardingConfig) (k : Text)
    → Keyed forwardings
    → Keyed (Map.delete forwardings k)
delete-Keyed forwardings k keyed key fwd stored =
    keyed key fwd (ground (arith, get-delete forwardings k key))

set-Keyed :
    (forwardings : Map Text ForwardingConfig) (fwd : ForwardingConfig)
    → Keyed forwardings
    → Keyed (Map.set forwardings (key_of fwd) fwd)
set-Keyed forwardings fwd keyed key f stored = elim (Bool-cases (key_of fwd == key)) [
  | inl same ↦
      let e : fwd ≡ f = ground (arith, get-set forwardings (key_of fwd) key fwd) in
      ap key_of (sym e) ∙ (eq_iff (key_of fwd) key).0 same
  | inr ne ↦ keyed key f (ground (arith, get-set forwardings (key_of fwd) key fwd))
]

close_client-Keyed : (m : Manager) → Keyed m.forwardings → Keyed (close_client m).forwardings
unfolding close_client
close_client-Keyed m keyed =
    if_both (λ (x : Manager). Keyed x.forwardings) m.connected _ m (λ on. empty-Keyed)
      (λ off. keyed)

keepalive-Keyed :
    (m : Manager) (r : KeepAlive) → Keyed m.forwardings → Keyed (keepalive m r).forwardings
unfolding keepalive
keepalive-Keyed m keepalive_answered keyed = keyed
keepalive-Keyed m keepalive_failed keyed =
    if_both (λ (x : Manager). Keyed x.forwardings) (is_ready m) _ m
      (λ ready. close_client-Keyed m keyed) (λ off. keyed)
keepalive-Keyed m keepalive_timed_out keyed =
    if_both (λ (x : Manager). Keyed x.forwardings) (is_ready m) _ m
      (λ ready. close_client-Keyed m keyed) (λ off. keyed)

module _ (srv : Server) (m : Manager) (keyed : Keyed m.forwardings) where
  finish_start-Keyed :
      (fwd : ForwardingConfig) (o : Outcome)
      → o.0.forwardings ≡ m.forwardings
      → Keyed (finish_start fwd o).0.forwardings
  finish_start-Keyed fwd (m', some e) same = subst Keyed (sym same) keyed
  finish_start-Keyed fwd (m', none) same =
      set-Keyed m'.forwardings fwd (subst Keyed (sym same) keyed)

  start_forwarding-Keyed :
      (fwd : ForwardingConfig) → Keyed (start_forwarding srv m fwd).0.forwardings
  unfolding start_forwarding
  start_forwarding-Keyed fwd = elim (Bool-cases (is_ready m)) [
    | inr closed ↦ rw (closed, start_forwarding) keyed
    | inl ready ↦ elim (Option-cases (Map.get m.forwardings (key_of fwd))) [
      | inr (f, present) ↦ rw (ready, present, start_forwarding) keyed
      | inl absent ↦
          rw (ready, absent, start_forwarding)
            (finish_start-Keyed fwd (send_forwarding srv m fwd start)
              (Frame-send srv fwd m).forwardings)
    ]
  ]

  stop_forwarding-Keyed : (fwd : ForwardingConfig) → Keyed (stop_forwarding srv m fwd).0.forwardings
  unfolding stop_forwarding send_forwarding forget
  stop_forwarding-Keyed fwd = elim (Bool-cases (is_ready m)) [
    | inr closed ↦ rw (closed, stop_forwarding) keyed
    | inl ready ↦ elim (Option-cases (Map.get m.forwardings (key_of fwd))) [
      | inl absent ↦ rw (ready, absent, stop_forwarding) keyed
      | inr (session, stored) ↦
          rw (ready, stored, stop_forwarding)
            (subst Keyed
              (sym (Frame-once srv (forget m (key_of fwd) session) session cancel).forwardings)
              (delete-Keyed m.forwardings (key_of fwd) keyed))
    ]
  ]

  stop_manager-Keyed : Keyed (stop_manager srv m).forwardings
  unfolding stop_manager
  stop_manager-Keyed =
      close_client-Keyed (record (cancelled_entries srv m) { forwardings = Map.empty }) empty-Keyed

  after_dial-Keyed : (answer : Option Text) → Keyed (after_dial m answer).0.forwardings
  after_dial-Keyed none = keyed
  after_dial-Keyed (some e) = keyed

  connect-Keyed : Keyed (connect srv m).0.forwardings
  unfolding connect
  connect-Keyed =
      if_both (λ (o : Outcome). Keyed o.0.forwardings) m.connected _ _ (λ on. keyed)
        (λ off. after_dial-Keyed (srv.dial m.history (host_key_callback srv m.host_key)))

  release_orphan-Keyed : (orphan : Text × ℕ) → Keyed (release_orphan srv m orphan).forwardings
  unfolding release_orphan cancel_forwarding
  release_orphan-Keyed (addr, port) =
      if_both (λ (x : Manager). Keyed x.forwardings) (is_ready m) _ m
        (λ ready. subst Keyed (sym (Frame-once srv m _ cancel).forwardings) keyed) (λ off. keyed)

  step-Keyed : (c : Call) → Keyed (step srv m c).forwardings
  unfolding step log_backend_dial_error record_backend_dial_success
  step-Keyed connects = connect-Keyed
  step-Keyed stops = stop_manager-Keyed
  step-Keyed (starts_forwarding fwd) = start_forwarding-Keyed fwd
  step-Keyed (stops_forwarding fwd) = stop_forwarding-Keyed fwd
  step-Keyed (ticks r) = keepalive-Keyed m r keyed
  step-Keyed (releases orphan) = release_orphan-Keyed orphan
  step-Keyed (outputs chunk) =
      subst (λ (x : Manager). Keyed x.forwardings) (sym (process-frame m chunk)) keyed
  step-Keyed (fails_dial addr now) = keyed
  step-Keyed (dials addr) = keyed

run-Keyed :
    (srv : Server) (m : Manager) (cs : List Call)
    → Keyed m.forwardings
    → Keyed (run srv m cs).forwardings
unfolding run
run-Keyed srv m [] keyed = keyed
run-Keyed srv m (c ∷ cs) keyed = run-Keyed srv (step srv m c) cs (step-Keyed srv m keyed c)

pub run-fresh-Keyed :
    (srv : Server) (cfg : Config) (cs : List Call)
    → Keyed (run srv (fresh_manager cfg) cs).forwardings
unfolding fresh_manager
run-fresh-Keyed srv cfg cs = run-Keyed srv (fresh_manager cfg) cs empty-Keyed
