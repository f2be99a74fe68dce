-- ===== src/Ssh/Manager/Requests/Frame.antt =====
-- What a forwarding request leaves alone.
use k8s_ssh_gateway_controll.Prelude.{
  ◌≡◌, refl, sym, ap, ◌∙◌, subst, inl, inr, Bool, true, false, not, ◌&&◌, Option, none, some, List,
  [], ◌∷◌, arith, Bool-cases,
}
use k8s_ssh_gateway_controll.Prelude.Eq.{◌==◌, int_eq, nat_eq}
use k8s_ssh_gateway_controll.Go.Text.{Text, text_eq}
use k8s_ssh_gateway_controll.Go.Map.{
  Map, has, get-map_values, map_laws, get-empty, get-set, get-delete,
}
use k8s_ssh_gateway_controll.Ssh.Flags.{kind_eq}
use k8s_ssh_gateway_controll.Ssh.Manager.State.{
  ForwardingConfig, ForwardRequest, cancel, History, Server, Manager, needs_verification, matches,
}
use k8s_ssh_gateway_controll.Ssh.Manager.Requests.{
  send_forwarding_once, cancel_forwarding, handle_verification_timeout, handle_assigned_uris,
  await_assigned_addresses, listen, respond,
}
use k8s_ssh_gateway_controll.Go.Map
use k8s_ssh_gateway_controll.Ssh.Manager.Requests.Once.{send_forwarding_once-frame}
use k8s_ssh_gateway_controll.Ssh.Manager.Requests.Output.{listen-frame}

-- The state that a forwarding request leaves alone.
pub record Frame (m m' : Manager) : Type 0 where
  pub has_client : m'.has_client ≡ m.has_client
  pub connected : m'.connected ≡ m.connected
  pub capture_ready : m'.capture_ready ≡ m.capture_ready
  pub forwardings : m'.forwardings ≡ m.forwardings
  pub dial_errors : m'.dial_errors ≡ m.dial_errors
  pub remote_addr_func : m'.remote_addr_func ≡ m.remote_addr_func
  pub host_key : m'.host_key ≡ m.host_key
  pub flags : m'.flags ≡ m.flags

pub Frame-trans : (m n p : Manager) → Frame m n → Frame n p → Frame m p
Frame-trans m n p f g = record {
  has_client = g.has_client ∙ f.has_client;
  connected = g.connected ∙ f.connected;
  capture_ready = g.capture_ready ∙ f.capture_ready;
  forwardings = g.forwardings ∙ f.forwardings;
  dial_errors = g.dial_errors ∙ f.dial_errors;
  remote_addr_func = g.remote_addr_func ∙ f.remote_addr_func;
  host_key = g.host_key ∙ f.host_key;
  flags = g.flags ∙ f.flags;
}

-- The three fields that a request may change.
pub Frame-update :
    (m : Manager) (h : History) (assigned : Map Text (List Text))
    (channels : Map Text (List (List Text)))
    → Frame m (record m { history = h; assigned_addrs = assigned; addr_notifications = channels })
Frame-update m h assigned channels = record {
  has_client = refl;
  connected = refl;
  capture_ready = refl;
  forwardings = refl;
  dial_errors = refl;
  remote_addr_func = refl;
  host_key = refl;
  flags = refl;
}

pub Frame-refl : (m : Manager) → Frame m m
Frame-refl m = Frame-update m m.history m.assigned_addrs m.addr_notifications

-- A key that has no channel gets none.
abbrev pub KeepsIdle : Text → Manager → Manager → Type 0
KeepsIdle key m m' =
    Map.get m.addr_notifications key ≡ none → Map.get m'.addr_notifications key ≡ none

module _ (srv : Server) where
  pub Frame-once :
      (m : Manager) (fwd : ForwardingConfig) (req : ForwardRequest)
      → Frame m (send_forwarding_once srv m fwd req).0
  Frame-once m fwd req =
      subst (Frame m) (sym (send_forwarding_once-frame srv m fwd req)) (Frame-update m _ _ _)

  pub idle-once :
      (m : Manager) (fwd : ForwardingConfig) (req : ForwardRequest) (key : Text)
      → KeepsIdle key m (send_forwarding_once srv m fwd req).0
  idle-once m fwd req key h =
      rw (ap (λ (x : Manager). x.addr_notifications) (send_forwarding_once-frame srv m fwd req)) h

  pub Frame-listen : (m : Manager) → Frame m (listen srv m)
  Frame-listen m = subst (Frame m) (sym (listen-frame srv m)) (Frame-update m _ _ _)

  module _ (fwd : ForwardingConfig) where
    Frame-timeout :
        (m : Manager) (needed : Bool) → Frame m (handle_verification_timeout srv m fwd needed).0
    unfolding handle_verification_timeout
    Frame-timeout m true = Frame-once m fwd cancel
    Frame-timeout m false = Frame-refl m

    idle-timeout :
        (m : Manager) (needed : Bool) (key : Text)
        → KeepsIdle key m (handle_verification_timeout srv m fwd needed).0
    unfolding handle_verification_timeout
    idle-timeout m true key h = idle-once m fwd cancel key h
    idle-timeout m false key h = h

    Frame-uris :
        (m : Manager) (key : Text) (uris : List Text) (needed : Bool)
        → Frame m (handle_assigned_uris srv m fwd key uris needed).0
    unfolding handle_assigned_uris cancel_forwarding
    Frame-uris m key uris needed = elim (Bool-cases (needed && not (matches uris fwd))) [
      | inl bad ↦ rw (bad, handle_assigned_uris) (Frame-once m _ cancel)
      | inr good ↦ rw (good, handle_assigned_uris) (Frame-update m _ _ _)
    ]

    idle-uris :
        (m : Manager) (k : Text) (uris : List Text) (needed : Bool) (key : Text)
        → KeepsIdle key m (handle_assigned_uris srv m fwd k uris needed).0
    unfolding handle_assigned_uris cancel_forwarding
    idle-uris m k uris needed key h = elim (Bool-cases (needed && not (matches uris fwd))) [
      | inl bad ↦ rw (bad, handle_assigned_uris) (idle-once m _ cancel key h)
      | inr good ↦ rw (good, handle_assigned_uris) h
    ]

    Frame-respond :
        (m : Manager) (key : Text) (channel : Option (List (List Text)))
        → Frame m (respond srv m fwd key channel).0
    unfolding respond
    Frame-respond m key (some (uris ∷ later)) =
        Frame-trans m _ _
          (Frame-update m m.history m.assigned_addrs (Map.set m.addr_notifications key later))
          (Frame-uris _ key uris (needs_verification fwd))
    Frame-respond m key (some []) = Frame-timeout m (needs_verification fwd)
    Frame-respond m key none = Frame-timeout m (needs_verification fwd)

    idle-respond :
        (m : Manager) (k : Text) (channel : Option (List (List Text))) (key : Text)
        → (k == key) ≡ false
        → KeepsIdle key m (respond srv m fwd k channel).0
    unfolding respond
    idle-respond m k (some (uris ∷ later)) key ne h =
        idle-uris _ k uris (needs_verification fwd) key
          (ground (arith, get-set m.addr_notifications k key later))
    idle-respond m k (some []) key ne h = idle-timeout m (needs_verification fwd) key h
    idle-respond m k none key ne h = idle-timeout m (needs_verification fwd) key h

    pub Frame-await :
        (m : Manager) (key : Text) → Frame m (await_assigned_addresses srv m fwd key).0
    unfolding await_assigned_addresses
    Frame-await m key = Frame-respond m key (Map.get m.addr_notifications key)

    pub idle-await :
        (m : Manager) (k key : Text)
        → (k == key) ≡ false
        → KeepsIdle key m (await_assigned_addresses srv m fwd k).0
    unfolding await_assigned_addresses
    idle-await m k key ne h = idle-respond m k (Map.get m.addr_notifications k) key ne h
