-- ===== src/Ssh/Manager/Invariant/Starting.antt =====
-- The invariant under StartForwarding.
use k8s_ssh_gateway_controll.Prelude.{
  ◌≡◌, refl, ap, ◌∙◌, subst, inl, inr, Bool, true, false, Option, none, some, List, arith,
  if◌then◌else◌, Bool-cases, Option-cases,
}
use k8s_ssh_gateway_controll.Prelude.Int.{in_range}
use k8s_ssh_gateway_controll.Prelude.Eq.{◌==◌, eq_iff, int_eq, nat_eq}
use k8s_ssh_gateway_controll.Go.Text.{Text, text_eq}
use k8s_ssh_gateway_controll.Go.Map.{
  Map, has, get-map_values, map_laws, get-empty, get-set, get-delete,
}
use k8s_ssh_gateway_controll.Ssh.Errors.{SshError}
use k8s_ssh_gateway_controll.Ssh.Flags.{kind_eq}
use k8s_ssh_gateway_controll.Ssh.Manager.State.{
  ForwardingConfig, History, Server, Manager, key_of, needs_verification, is_ready,
}
use k8s_ssh_gateway_controll.Ssh.Manager.Leases.{bound}
use k8s_ssh_gateway_controll.Ssh.Manager.Requests.{max_port}
use k8s_ssh_gateway_controll.Ssh.Manager.Requests.Frame.{Frame, KeepsIdle}
use k8s_ssh_gateway_controll.Ssh.Manager.Requests.Awaited.{Verified, recorded}
use k8s_ssh_gateway_controll.Ssh.Manager.Requests.Started.{
  Started, accepted, refused, has_extractor,
}
use k8s_ssh_gateway_controll.Ssh.Manager.Requests.Start.{Started-send, Frame-send, idle-send}
use k8s_ssh_gateway_controll.Ssh.Manager.Invariant.{WellFormed, Entry, EntryOf}
use k8s_ssh_gateway_controll.Ssh.Manager.Operations.{start_forwarding, finish_start}
use k8s_ssh_gateway_controll.Go.Map

recorded-Verified :
    (fwd : ForwardingConfig) (addrs old : Option (List Text))
    → Verified fwd addrs
    → Verified fwd (recorded addrs true old)
recorded-Verified fwd none old v = absurd v
recorded-Verified fwd (some uris) old v = v

recorded-false : (addrs old : Option (List Text)) → recorded addrs false old ≡ old
recorded-false none old = refl
recorded-false (some uris) old = refl

-- An entry keeps its properties while its lease, its addresses and the extraction stay.
pub Entry-same :
    {h h' : History} {x x' : Bool} {a a' : Option (List Text)} (key : Text) (f : ForwardingConfig)
    → bound h' key ≡ bound h key
    → x' ≡ x
    → a' ≡ a
    → Entry h x a key f
    → Entry h' x' a' key f
Entry-same key f held extracts same e = record {
  keyed = e.keyed;
  in_port_range = e.in_port_range;
  leased = held ∙ e.leased;
  verified = λ y n. rw same (e.verified (rw (← extracts) y) n);
}

module _ (srv : Server) (m : Manager) (fwd : ForwardingConfig) (wf : WellFormed m) where
  module _ (absent : Map.get m.forwardings (key_of fwd) ≡ none) (ready : is_ready m ≡ true) where
    distinct :
        (key : Text) (f : ForwardingConfig)
        → Map.get m.forwardings key ≡ some f
        → (key_of fwd == key) ≡ false
    distinct key f stored = elim (Bool-cases (key_of fwd == key)) [
      | inr ne ↦ ne
      | inl same ↦
          let e : key_of fwd ≡ key = (eq_iff (key_of fwd) key).0 same in
          cc (ap (Map.get m.forwardings) e)
    ]

    module _ (m' : Manager) (frame : Frame m m') where
      extracts : has_extractor m'.remote_addr_func ≡ has_extractor m.remote_addr_func
      extracts = ap has_extractor frame.remote_addr_func

      refused-entries :
          m'.assigned_addrs ≡ m.assigned_addrs
          → ((key : Text)
              → (key_of fwd == key) ≡ false
              → bound m'.history key ≡ bound m.history key)
          → (key : Text) (f : ForwardingConfig) → Map.get m'.forwardings key ≡ some f
          → EntryOf m' key f
      refused-entries same others key f stored =
          let was : Map.get m.forwardings key ≡ some f = rw (← frame.forwardings) stored in
          Entry-same key f (others key (distinct key f was)) extracts
            (ap (λ (x : Map Text (List Text)). Map.get x key) same) (wf.entries key f was)

      accepted-entries :
          (addrs : Option (List Text))
          → (has_extractor m.remote_addr_func ≡ true
              → needs_verification fwd ≡ true
              → Verified fwd addrs)
          → in_range max_port fwd.remote_port ≡ true
          → (key : Text) (same : Bool) → (key_of fwd == key) ≡ same
          → Map.get m'.assigned_addrs key ≡ recorded addrs same (Map.get m.assigned_addrs key)
          → bound m'.history key ≡ (if same then true else bound m.history key)
          → (f : ForwardingConfig) → (if same then some fwd else Map.get m.forwardings key) ≡ some f
          → EntryOf m' key f
      accepted-entries addrs verified inside key true e assigned held f stored =
          let e' : fwd ≡ f = cc in
          subst (EntryOf m' key) e' (record {
            keyed = (eq_iff (key_of fwd) key).0 e;
            in_port_range = inside;
            leased = held;
            verified =
                λ x n. rw assigned (recorded-Verified fwd addrs _ (verified (rw (← extracts) x) n));
          })
      accepted-entries addrs verified inside key false e assigned held f stored =
          Entry-same key f held extracts (assigned ∙ recorded-false addrs _)
            (wf.entries key f stored)

    stored_before :
        (m' : Manager)
        → Frame m m'
        → (key : Text)
        → (if key_of fwd == key then some fwd else Map.get m.forwardings key)
          ≡ Map.get (Map.set m'.forwardings (key_of fwd) fwd) key
    stored_before m' frame key =
        rw (get-set m'.forwardings (key_of fwd) key fwd, frame.forwardings) refl

    accepted-backed :
        (addrs : Option (List Text)) (key : Text) (same : Bool) {a : Option (List Text)}
        → a ≡ recorded addrs same (Map.get m.assigned_addrs key)
        → (if same then some fwd else Map.get m.forwardings key) ≡ none
        → a ≡ none
    accepted-backed addrs key true e gone = cc
    accepted-backed addrs key false e gone = e ∙ recorded-false addrs _ ∙ wf.backed key gone

    finish-WellFormed :
        (m' : Manager) (e : Option SshError)
        → Frame m m'
        → ((key : Text) → KeepsIdle key m m')
        → Started srv fwd m m' e
        → WellFormed (finish_start fwd (m', e)).0
    finish-WellFormed m' (some e) frame idle (refused _ same others free) = record {
      client = ground arith;
      idle = λ key. idle key (wf.idle key);
      offline = λ off key. ground (arith, wf.offline);
      entries = refused-entries m' frame same others;
      backed = λ key gone. rw same (wf.backed key (rw (← frame.forwardings) gone));
    }
    finish-WellFormed m' none frame idle (accepted addrs verified inside assigned leased) = record {
      client = ground arith;
      idle = λ key. idle key (wf.idle key);
      offline = λ off key. ground (arith, wf.offline);
      entries = λ key f stored.
          accepted-entries m' frame addrs verified inside key (key_of fwd == key) refl
            (assigned key) (leased key) f (stored_before m' frame key ∙ stored);
      backed = λ key gone.
          accepted-backed addrs key (key_of fwd == key) (assigned key)
            (stored_before m' frame key ∙ gone);
    }

  -- StartForwarding keeps the invariant, whether it succeeds or fails.
  pub start_forwarding-WellFormed : WellFormed (start_forwarding srv m fwd).0
  unfolding start_forwarding
  start_forwarding-WellFormed = elim (Bool-cases (is_ready m)) [
    | inr closed ↦ rw (closed, start_forwarding) wf
    | inl ready ↦ elim (Option-cases (Map.get m.forwardings (key_of fwd))) [
      | inr (f, present) ↦ rw (ready, present, start_forwarding) wf
      | inl absent ↦
          rw (ready, absent, start_forwarding)
            (finish-WellFormed absent ready _ _ (Frame-send srv fwd m) (idle-send srv fwd m)
              (Started-send srv fwd m))
    ]
  ]
