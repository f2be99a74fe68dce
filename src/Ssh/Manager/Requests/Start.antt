-- ===== src/Ssh/Manager/Requests/Start.antt =====
-- sendForwarding for a start request, against its contract.
use k8s_ssh_gateway_controll.Prelude.{
  ◌≡◌, refl, sym, ap, subst, inl, inr, false, ◌&&◌, Option, none, some, List, [], arith, Bool-cases,
}
use k8s_ssh_gateway_controll.Prelude.Eq.{◌==◌, int_eq, nat_eq}
use k8s_ssh_gateway_controll.Go.Text.{Text, text_eq}
use k8s_ssh_gateway_controll.Go.Map.{Map, get-set, get-delete}
use k8s_ssh_gateway_controll.Ssh.Errors.{SshError}
use k8s_ssh_gateway_controll.Ssh.Flags.{kind_eq}
use k8s_ssh_gateway_controll.Ssh.Manager.State.{
  ForwardingConfig, start, Server, Manager, Outcome, key_of,
}
use k8s_ssh_gateway_controll.Ssh.Manager.Requests.{
  register, request_start, send_forwarding, register, listen, by_collection, cleaned,
  await_if_granted,
}
use k8s_ssh_gateway_controll.Ssh.Manager.Requests.Output.{listen-idle}
use k8s_ssh_gateway_controll.Ssh.Manager.Requests.Frame.{
  Frame, Frame-trans, Frame-refl, Frame-update, KeepsIdle, Frame-once, idle-once, Frame-listen,
  Frame-await, idle-await,
}
use k8s_ssh_gateway_controll.Ssh.Manager.Requests.Started.{
  Started, accepted, refused, has_extractor, Requested-start, assigned_addrs-request_start,
  Started-plain, Started-collected, cleaned-frame,
}

module _ (srv : Server) (fwd : ForwardingConfig) where
  Started-channels :
      (m m' : Manager) (channels : Map Text (List (List Text))) (e : Option SshError)
      → Started srv fwd m m' e
      → Started srv fwd m (record m' { addr_notifications = channels }) e
  Started-channels m m' channels e (accepted addrs verified inside assigned leased) =
      accepted addrs verified inside assigned leased
  Started-channels m m' channels e (refused x assigned others free) = refused x assigned others free

  abbrev StartedFrom : Manager → Outcome → Type 0
  StartedFrom m (m', e) = Started srv fwd m m' e

  Started-collection :
      (m : Manager) (f : Option (Text → Option (List Text)))
      → has_extractor m.remote_addr_func ≡ has_extractor f
      → StartedFrom m (by_collection f srv m fwd)
  unfolding by_collection
  Started-collection m none h =
      Started-plain srv fwd m _ _ h (assigned_addrs-request_start srv fwd m)
        (Requested-start srv fwd m)
  Started-collection m (some _) h = Started-channels m _ _ _ (
      Started-collected srv fwd m _ _ h
        (assigned_addrs-request_start srv fwd (register m (key_of fwd)))
        (Requested-start srv fwd (register m (key_of fwd))))

  pub Started-send :
      (m : Manager)
      → Started srv fwd m (send_forwarding srv m fwd start).0 (send_forwarding srv m fwd start).1
  unfolding send_forwarding
  Started-send m = elim (Bool-cases (m.capture_ready && srv.abandons m.history)) [
    | inl gone ↦ rw (gone, send_forwarding) (refused _ refl (λ key ne. refl) (λ coop free. free))
    | inr ready ↦ rw (ready, send_forwarding) (Started-collection m m.remote_addr_func refl)
  ]

  -- The rest of the state, and the absence of channels.
  Frame-request_start : (m : Manager) → Frame m (request_start srv m fwd).0
  unfolding request_start
  Frame-request_start m =
      Frame-trans m (cleaned srv m fwd) _
        (subst (Frame m) (sym (cleaned-frame srv fwd m)) (Frame-update m _ _ _))
        (Frame-once srv (cleaned srv m fwd) fwd start)

  idle-request_start : (m : Manager) (key : Text) → KeepsIdle key m (request_start srv m fwd).0
  unfolding request_start
  idle-request_start m key h =
      idle-once srv (cleaned srv m fwd) fwd start key
        (rw (ap (λ (x : Manager). x.addr_notifications) (cleaned-frame srv fwd m)) h)

  Frame-granted :
      (m : Manager) (e : Option SshError) → Frame m (await_if_granted srv fwd (key_of fwd) (m, e)).0
  Frame-granted m (some e) = Frame-refl m
  Frame-granted m none =
      Frame-trans m _ _ (Frame-listen srv m) (Frame-await srv fwd (listen srv m) (key_of fwd))

  idle-granted :
      (m : Manager) (e : Option SshError) (key : Text)
      → (key_of fwd == key) ≡ false
      → KeepsIdle key m (await_if_granted srv fwd (key_of fwd) (m, e)).0
  idle-granted m (some e) key ne h = h
  idle-granted m none key ne h =
      idle-await srv fwd (listen srv m) (key_of fwd) key ne (listen-idle srv m key h)

  Frame-collection :
      (m : Manager) (f : Option (Text → Option (List Text))) → Frame m (by_collection f srv m fwd).0
  unfolding by_collection
  Frame-collection m none = Frame-request_start m
  Frame-collection m (some _) = Frame-trans m _ _ (Frame-update m _ _ _) (
      Frame-trans _ _ _ (Frame-request_start (register m (key_of fwd)))
        (Frame-trans _ _ _ (Frame-granted _ _) (Frame-update _ _ _ _)))

  -- The state when the wait is over.
  abbrev collected : Manager → Manager
  collected m =
      (await_if_granted srv fwd (key_of fwd) (request_start srv (register m (key_of fwd)) fwd)).0

  idle-collection :
      (m : Manager) (f : Option (Text → Option (List Text))) (key : Text)
      → KeepsIdle key m (by_collection f srv m fwd).0
  unfolding by_collection
  idle-collection m none key h = idle-request_start m key h
  idle-collection m (some _) key h = elim (Bool-cases (key_of fwd == key)) [
    | inl same ↦ ground (arith, get-delete (collected m).addr_notifications (key_of fwd) key)
    | inr ne ↦ ground (
      arith,
      get-delete (collected m).addr_notifications (key_of fwd) key,
      idle-granted (request_start srv (register m (key_of fwd)) fwd).0
          (request_start srv (register m (key_of fwd)) fwd).1 key ne
          (idle-request_start (register m (key_of fwd)) key
            (ground (arith, get-set m.addr_notifications (key_of fwd) key []))),
    )
  ]

  pub Frame-send : (m : Manager) → Frame m (send_forwarding srv m fwd start).0
  unfolding send_forwarding
  Frame-send m = elim (Bool-cases (m.capture_ready && srv.abandons m.history)) [
    | inl gone ↦ rw (gone, send_forwarding) (Frame-refl m)
    | inr ready ↦ rw (ready, send_forwarding) (Frame-collection m m.remote_addr_func)
  ]

  pub idle-send : (m : Manager) (key : Text) → KeepsIdle key m (send_forwarding srv m fwd start).0
  unfolding send_forwarding
  idle-send m key h = elim (Bool-cases (m.capture_ready && srv.abandons m.history)) [
    | inl gone ↦ rw (gone, send_forwarding) h
    | inr ready ↦ rw (ready, send_forwarding) (idle-collection m m.remote_addr_func key h)
  ]
