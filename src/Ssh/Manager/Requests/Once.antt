-- ===== src/Ssh/Manager/Requests/Once.antt =====
-- What one request does to the manager and to the leases on the server.
use k8s_ssh_gateway_controll.Prelude.{
  ◌≡◌, refl, inl, inr, true, false, Option, none, some, ◌∷◌, arith, if◌then◌else◌, Bool-cases,
}
use k8s_ssh_gateway_controll.Prelude.Int.{in_range}
use k8s_ssh_gateway_controll.Prelude.Eq.{◌==◌, eq_refl, int_eq, nat_eq}
use k8s_ssh_gateway_controll.Go.Text.{Text, text_eq}
use k8s_ssh_gateway_controll.Ssh.Errors.{SshError}
use k8s_ssh_gateway_controll.Ssh.Flags.{kind_eq}
use k8s_ssh_gateway_controll.Ssh.Manager.State.{
  ForwardingConfig, ForwardRequest, start, cancel, other, Reply, granted, denied, timed_out, failed,
  exchange, History, Server, Manager, key_of,
}
use k8s_ssh_gateway_controll.Ssh.Manager.Leases.{bound, IsCooperative}
use k8s_ssh_gateway_controll.Ssh.Manager.Requests.{
  send_forwarding_once, transmit, verdict, max_port,
}

module _ (srv : Server) (m : Manager) (fwd : ForwardingConfig) where
  -- A request changes the history only.
  pub send_forwarding_once-frame :
      (req : ForwardRequest)
      → (send_forwarding_once srv m fwd req).0
        ≡ record m { history = (send_forwarding_once srv m fwd req).0.history }
  unfolding send_forwarding_once transmit
  send_forwarding_once-frame start = ground arith
  send_forwarding_once-frame cancel = ground arith
  send_forwarding_once-frame (other req) = ground arith

  -- A granted start request is the only one that succeeds; it makes a lease, and any other start
  -- request leaves the leases alone.
  pub data Once (h : History) : Option SshError → Type 0 where
    made :
        in_range max_port fwd.remote_port ≡ true
        → ((key : Text) → bound h key ≡ (if key_of fwd == key then true else bound m.history key))
        → Once h none
    failed_once :
        (e : SshError) → ((key : Text) → bound h key ≡ bound m.history key) → Once h (some e)

  Once-transmit :
      (req : Text) (reply : Reply)
      → in_range max_port fwd.remote_port ≡ true
      → Once (exchange start fwd.remote_host fwd.remote_port reply ∷ m.history) (verdict req reply)
  unfolding bound
  Once-transmit req granted h = made h (λ key. refl)
  Once-transmit req denied h = failed_once _ (λ key. refl)
  Once-transmit req timed_out h = failed_once _ (λ key. refl)
  Once-transmit req (failed e) h = failed_once _ (λ key. refl)

  pub Once-start :
      Once (send_forwarding_once srv m fwd start).0.history (send_forwarding_once srv m fwd start).1
  unfolding send_forwarding_once transmit
  Once-start = elim (Bool-cases (in_range max_port fwd.remote_port)) [
    | inl inside ↦ rw (inside, send_forwarding_once) (Once-transmit _ _ inside)
    | inr outside ↦ rw (outside, send_forwarding_once) (failed_once _ (λ key. refl))
  ]

  -- A cancel request touches no other key,
  pub cancel-other :
      (key : Text)
      → (key_of fwd == key) ≡ false
      → bound (send_forwarding_once srv m fwd cancel).0.history key ≡ bound m.history key
  unfolding send_forwarding_once transmit bound
  cancel-other key h = ground arith

  -- and never makes a lease.
  pub cancel_mono :
      (key : Text)
      → bound m.history key ≡ false
      → bound (send_forwarding_once srv m fwd cancel).0.history key ≡ false
  unfolding send_forwarding_once transmit bound
  cancel_mono key h = ground arith

  -- A cooperative server holds no lease after it.
  pub cancel_releases :
      IsCooperative srv
      → in_range max_port fwd.remote_port ≡ true
      → bound (send_forwarding_once srv m fwd cancel).0.history (key_of fwd) ≡ false
  unfolding send_forwarding_once transmit bound
  cancel_releases coop inside = elim (Bool-cases (bound m.history (key_of fwd))) [
    | inr free ↦ ground arith
    | inl held ↦ ground (
      arith,
      coop.grants_cancel m.history fwd.remote_host fwd.remote_port held,
      eq_refl (key_of fwd),
    )
  ]
