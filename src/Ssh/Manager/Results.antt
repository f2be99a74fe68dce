-- ===== src/Ssh/Manager/Results.antt =====
-- What StartForwarding and StopForwarding leave stored, by their results.
use k8s_ssh_gateway_controll.Ssh.Uri.Spec.{Accepts, matches_requested_host_iff}
use k8s_ssh_gateway_controll.Prelude.{
  Exists, ◌≡◌, refl, sym, ap, subst, inl, inr, true, false, Option, none, some, arith,
  if◌then◌else◌, Bool-cases, Option-cases,
}
use k8s_ssh_gateway_controll.Prelude.Eq.{◌==◌, eq_refl, int_eq, nat_eq}
use k8s_ssh_gateway_controll.Go.Text.{Text, text_eq}
use k8s_ssh_gateway_controll.Go.Map.{
  Map, has, get-map_values, map_laws, get-empty, get-set, get-delete,
}
use k8s_ssh_gateway_controll.Ssh.Errors.{SshError, forwarding_not_found}
use k8s_ssh_gateway_controll.Ssh.Flags.{kind_eq}
use k8s_ssh_gateway_controll.Ssh.Manager.State.{
  ForwardingConfig, cancel, Server, Manager, Outcome, key_of, needs_verification, matches, is_ready,
}
use k8s_ssh_gateway_controll.Ssh.Manager.Requests.{send_forwarding_once, send_forwarding}
use k8s_ssh_gateway_controll.Ssh.Manager.Requests.Once.{send_forwarding_once-frame}
use k8s_ssh_gateway_controll.Ssh.Manager.Requests.Started.{
  Started, accepted, refused, has_extractor,
}
use k8s_ssh_gateway_controll.Ssh.Manager.Requests.Start.{Started-send, Frame-send}
use k8s_ssh_gateway_controll.Ssh.Manager.Operations.{
  forget, start_forwarding, stop_forwarding, get_assigned_addresses, finish_start,
}
use k8s_ssh_gateway_controll.Go.Map

module _ (srv : Server) (m : Manager) (fwd : ForwardingConfig) where
  -- What is stored after StartForwarding, by its error.
  pub data StartResult (m' : Manager) : Option SshError → Type 0 where
    stored :
        is_ready m ≡ true
        → Map.get m.forwardings (key_of fwd) ≡ none
        → ((key : Text)
            → Map.get m'.forwardings key
              ≡ (if key_of fwd == key then some fwd else Map.get m.forwardings key))
        → ((key : Text)
            → (key_of fwd == key) ≡ false
            → Map.get m'.assigned_addrs key ≡ Map.get m.assigned_addrs key)
        → StartResult m' none
    unchanged :
        (e : SshError)
        → m'.forwardings ≡ m.forwardings
        → m'.assigned_addrs ≡ m.assigned_addrs
        → StartResult m' (some e)

  abbrev StartResultOf : Outcome → Type 0
  StartResultOf (m', e) = StartResult m' e

  finish-StartResult :
      (m' : Manager) (e : Option SshError)
      → is_ready m ≡ true
      → Map.get m.forwardings (key_of fwd) ≡ none
      → m'.forwardings ≡ m.forwardings
      → Started srv fwd m m' e
      → StartResultOf (finish_start fwd (m', e))
  finish-StartResult m' (some e) ready absent same (refused _ addrs others free) =
      unchanged e same addrs
  finish-StartResult m' none ready absent same (accepted addrs verified inside assigned leased) =
      stored ready absent
        (λ key. ground (
          arith,
          get-set m'.forwardings (key_of fwd) key fwd,
          ap (λ (x : Map Text ForwardingConfig). Map.get x key) same,
        ))
        (λ key ne. ground (arith, assigned key))

  -- StartForwarding stores the forwarding under its key and nothing else, and only where it reports
  -- success, the client is ready and the key was free; with any error the stored forwardings and
  -- the assigned addresses are those of before.
  pub start_forwarding-StartResult :
      StartResult (start_forwarding srv m fwd).0 (start_forwarding srv m fwd).1
  unfolding start_forwarding
  start_forwarding-StartResult = elim (Bool-cases (is_ready m)) [
    | inr closed ↦ rw (closed, start_forwarding) (unchanged _ refl refl)
    | inl ready ↦ elim (Option-cases (Map.get m.forwardings (key_of fwd))) [
      | inr (f, present) ↦ rw (ready, present, start_forwarding) (unchanged _ refl refl)
      | inl absent ↦
          rw (ready, absent, start_forwarding)
            (finish-StartResult _ _ ready absent (Frame-send srv fwd m).forwardings
              (Started-send srv fwd m))
    ]
  ]

  abbrev Answers : Outcome → Type 0
  Answers o =
      o.1 ≡ none → matches (get_assigned_addresses o.0 fwd.remote_host fwd.remote_port) fwd ≡ true

  finish-Answers :
      (m' : Manager) (e : Option SshError)
      → has_extractor m.remote_addr_func ≡ true
      → needs_verification fwd ≡ true
      → Started srv fwd m m' e
      → Answers (finish_start fwd (m', e))
  unfolding get_assigned_addresses
  finish-Answers m' (some e) extracts needs started = λ done. cc
  finish-Answers m' none extracts needs (accepted none verified inside assigned leased) =
      absurd (verified extracts needs)
  finish-Answers m' none extracts needs (accepted (some uris) verified inside assigned leased) =
      λ done.
        rw (assigned (key_of fwd), eq_refl (key_of fwd), get_assigned_addresses)
          (verified extracts needs)

  start_forwarding-Answers :
      has_extractor m.remote_addr_func ≡ true
      → needs_verification fwd ≡ true
      → Answers (start_forwarding srv m fwd)
  unfolding start_forwarding
  start_forwarding-Answers extracts needs = elim (Bool-cases (is_ready m)) [
    | inr closed ↦ rw (closed, start_forwarding) (λ done. cc)
    | inl ready ↦ elim (Option-cases (Map.get m.forwardings (key_of fwd))) [
      | inr (f, present) ↦ rw (ready, present, start_forwarding) (λ done. cc)
      | inl absent ↦
          rw (ready, absent, start_forwarding)
            (finish-Answers _ _ extracts needs (Started-send srv fwd m))
    ]
  ]

  -- Where addresses are extracted and the host is specific or the port pinned, a successful
  -- StartForwarding leaves assigned addresses that GetAssignedAddresses gives back, at least one of
  -- which is accepted for the request: an http or https URI of the host, whatever its port, or any
  -- such URI if the host is a wildcard; for a host that is no wildcard a tcp URI with "host:port"
  -- somewhere in it, which a longer port passes too; for a wildcard host with a pinned port a tcp
  -- URI of that port.
  pub start_forwarding-addresses :
      has_extractor m.remote_addr_func ≡ true
      → needs_verification fwd ≡ true
      → (start_forwarding srv m fwd).1 ≡ none
      → Exists
          (Accepts fwd.remote_host fwd.remote_port fwd.enforce_port)
          (get_assigned_addresses (start_forwarding srv m fwd).0 fwd.remote_host fwd.remote_port)
  start_forwarding-addresses extracts needs done =
      (matches_requested_host_iff fwd.remote_host fwd.remote_port fwd.enforce_port
          (get_assigned_addresses (start_forwarding srv m fwd).0 fwd.remote_host fwd.remote_port)).0
        (start_forwarding-Answers extracts needs done)

  -- A ready client without the key.
  abbrev Stopped : Manager → Type 0
  Stopped m' = (is_ready m' ≡ true) × (Map.get m'.forwardings (key_of fwd) ≡ none)

  cancelled-Stopped :
      (session : ForwardingConfig)
      → is_ready m ≡ true
      → Stopped (send_forwarding_once srv (forget m (key_of fwd) session) session cancel).0
  unfolding forget
  cancelled-Stopped session ready =
      subst Stopped
        (sym (send_forwarding_once-frame srv (forget m (key_of fwd) session) session cancel))
        (
          ready,
          ground (arith, get-delete m.forwardings (key_of fwd) (key_of fwd), eq_refl (key_of fwd)),
        )

  stop_forwarding-Stopped : is_ready m ≡ true → Stopped (stop_forwarding srv m fwd).0
  unfolding stop_forwarding send_forwarding
  stop_forwarding-Stopped ready = elim (Option-cases (Map.get m.forwardings (key_of fwd))) [
    | inl absent ↦ rw (ready, absent, stop_forwarding) (ready, absent)
    | inr (session, there) ↦ rw (ready, there, stop_forwarding) (cancelled-Stopped session ready)
  ]

  -- After StopForwarding on a ready client, whatever the server answers, nothing is stored under
  -- the forwarding's key, so a second StopForwarding reports that it is not found.
  pub stop_forwarding-twice :
      is_ready m ≡ true
      → (stop_forwarding srv (stop_forwarding srv m fwd).0 fwd).1
        ≡ some (forwarding_not_found (key_of fwd))
  unfolding stop_forwarding
  stop_forwarding-twice ready =
      let (still, gone) = stop_forwarding-Stopped ready in rw (still, gone, stop_forwarding) refl
