-- ===== src/Ssh/Manager/Requests/Awaited.antt =====
-- How the wait for assigned addresses ends.
use k8s_ssh_gateway_controll.Prelude.{
  ◌≡◌, refl, ap, inl, inr, Bool, true, false, not, ◌&&◌, Option, none, some, List, [], ◌∷◌, arith,
  if◌then◌else◌, Bool-cases,
}
use k8s_ssh_gateway_controll.Prelude.Int.{in_range}
use k8s_ssh_gateway_controll.Prelude.Eq.{◌==◌, int_eq, nat_eq}
use k8s_ssh_gateway_controll.Go.Text.{Text, text_eq}
use k8s_ssh_gateway_controll.Go.Map.{
  Map, has, get-map_values, map_laws, get-empty, get-set, get-delete,
}
use k8s_ssh_gateway_controll.Ssh.Errors.{SshError}
use k8s_ssh_gateway_controll.Ssh.Flags.{kind_eq}
use k8s_ssh_gateway_controll.Ssh.Manager.State.{
  ForwardingConfig, cancel, History, Server, Manager, Outcome, key_of, needs_verification, matches,
}
use k8s_ssh_gateway_controll.Ssh.Manager.Leases.{bound, IsCooperative}
use k8s_ssh_gateway_controll.Ssh.Manager.Requests.{
  send_forwarding_once, cancel_forwarding, handle_verification_timeout, handle_assigned_uris,
  await_assigned_addresses, max_port, respond,
}
use k8s_ssh_gateway_controll.Go.Map
use k8s_ssh_gateway_controll.Ssh.Manager.Requests.Once.{
  send_forwarding_once-frame, cancel-other, cancel_releases,
}

-- The addresses under a key once `addrs` have been recorded there, if any were.
abbrev pub recorded : Option (List Text) → Bool → Option (List Text) → Option (List Text)
recorded none same old = old
recorded (some uris) same old = if same then some uris else old

abbrev pub Verified : ForwardingConfig → Option (List Text) → Type 0
Verified fwd none = ⊥
Verified fwd (some uris) = matches uris fwd ≡ true

module _ (srv : Server) (fwd : ForwardingConfig) where
  -- Success keeps the leases, and records verified addresses where they are needed. Failure
  -- records nothing and cancels the forwarding.
  pub data Awaited (assigned : Map Text (List Text)) (h : History) (m' : Manager)
      : Option SshError → Type 0 where
    kept :
        (addrs : Option (List Text))
        → (needs_verification fwd ≡ true → Verified fwd addrs)
        → ((key : Text)
            → Map.get m'.assigned_addrs key
              ≡ recorded addrs (key_of fwd == key) (Map.get assigned key))
        → m'.history ≡ h
        → Awaited assigned h m' none
    released :
        (e : SshError)
        → m'.assigned_addrs ≡ assigned
        → ((key : Text) → (key_of fwd == key) ≡ false → bound m'.history key ≡ bound h key)
        → (IsCooperative srv
            → in_range max_port fwd.remote_port ≡ true
            → bound m'.history (key_of fwd) ≡ false)
        → Awaited assigned h m' (some e)

  abbrev pub AwaitedFrom : Manager → Outcome → Type 0
  AwaitedFrom m (m', e) = Awaited m.assigned_addrs m.history m' e

  module _ (m : Manager) where
    -- A cancel request for the same host and port.
    Awaited-cancel :
        (c : ForwardingConfig) (e : SshError)
        → key_of c ≡ key_of fwd
        → c.remote_port ≡ fwd.remote_port
        → AwaitedFrom m ((send_forwarding_once srv m c cancel).0, some e)
    Awaited-cancel c e same port =
        released e
          (ap (λ (x : Manager). x.assigned_addrs) (send_forwarding_once-frame srv m c cancel))
          (λ key h. cancel-other srv m c key (rw same h))
          (λ coop inside. rw (← same) (cancel_releases srv m c coop (rw port inside)))

    pub Awaited-timeout :
        (needed : Bool)
        → needs_verification fwd ≡ needed
        → AwaitedFrom m (handle_verification_timeout srv m fwd needed)
    unfolding handle_verification_timeout
    Awaited-timeout true h = Awaited-cancel fwd _ refl refl
    Awaited-timeout false h = kept none (λ n. cc) (λ key. refl) refl

    pub Awaited-uris :
        (uris : List Text)
        → AwaitedFrom m (handle_assigned_uris srv m fwd (key_of fwd) uris (needs_verification fwd))
    unfolding handle_assigned_uris cancel_forwarding
    Awaited-uris uris = elim (Bool-cases (needs_verification fwd && not (matches uris fwd))) [
      | inl bad ↦ rw (bad, handle_assigned_uris) (Awaited-cancel _ _ refl refl)
      | inr good ↦
          rw (good, handle_assigned_uris)
            (kept (some uris) (λ n. ground arith)
              (λ key. get-set m.assigned_addrs (key_of fwd) key uris) refl)
    ]

  Awaited-respond :
      (m : Manager) (channel : Option (List (List Text)))
      → AwaitedFrom m (respond srv m fwd (key_of fwd) channel)
  unfolding respond
  Awaited-respond m (some (uris ∷ later)) = Awaited-uris _ uris
  Awaited-respond m (some []) = Awaited-timeout m (needs_verification fwd) refl
  Awaited-respond m none = Awaited-timeout m (needs_verification fwd) refl

  -- The wait ends in one of these two ways.
  pub Awaited-await :
      (m : Manager) → AwaitedFrom m (await_assigned_addresses srv m fwd (key_of fwd))
  unfolding await_assigned_addresses
  Awaited-await m = Awaited-respond m (Map.get m.addr_notifications (key_of fwd))
