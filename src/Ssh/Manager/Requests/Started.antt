-- ===== src/Ssh/Manager/Requests/Started.antt =====
-- The contract of sendForwarding for a start request.
use k8s_ssh_gateway_controll.Prelude.{
  ◌≡◌, refl, ap, ◌∙◌, inl, inr, Bool, true, false, Option, none, some, List, arith, if◌then◌else◌,
  Bool-cases,
}
use k8s_ssh_gateway_controll.Prelude.Int.{in_range}
use k8s_ssh_gateway_controll.Prelude.Eq.{◌==◌, int_eq, nat_eq}
use k8s_ssh_gateway_controll.Go.Text.{Text, text_eq}
use k8s_ssh_gateway_controll.Go.Map.{
  Map, has, get-map_values, map_laws, get-empty, get-set, get-delete,
}
use k8s_ssh_gateway_controll.Ssh.Errors.{SshError}
use k8s_ssh_gateway_controll.Ssh.Flags.{kind_eq}
use k8s_ssh_gateway_controll.Ssh.Manager.State.{
  ForwardingConfig, start, cancel, History, Server, Manager, key_of, needs_verification,
}
use k8s_ssh_gateway_controll.Ssh.Manager.Leases.{bound, IsCooperative}
use k8s_ssh_gateway_controll.Ssh.Manager.Requests.{
  request_start, cancel_forwarding, listen, max_port, cleaned, await_if_granted,
}
use k8s_ssh_gateway_controll.Ssh.Manager.Requests.Once.{
  Once, made, failed_once, Once-start, cancel-other, cancel_mono, send_forwarding_once-frame,
}
use k8s_ssh_gateway_controll.Ssh.Manager.Requests.Output.{listen-frame}
use k8s_ssh_gateway_controll.Ssh.Manager.Requests.Awaited.{
  Awaited, kept, released, Awaited-await, Verified, recorded,
}
use k8s_ssh_gateway_controll.Go.Map

abbrev pub has_extractor : Option (Text → Option (List Text)) → Bool
has_extractor none = false
has_extractor (some _) = true

module _ (srv : Server) (fwd : ForwardingConfig) where
  module _ (m : Manager) where
    pub cleaned-frame : cleaned srv m fwd ≡ record m { history = (cleaned srv m fwd).history }
    unfolding cleaned cancel_forwarding
    cleaned-frame = elim (Bool-cases fwd.enforce_port) [
      | inl pinned ↦ rw (pinned, cleaned) (send_forwarding_once-frame srv m _ cancel)
      | inr free ↦ rw (free, cleaned) refl
    ]

    cleaned-other :
        (key : Text)
        → (key_of fwd == key) ≡ false
        → bound (cleaned srv m fwd).history key ≡ bound m.history key
    unfolding cleaned cancel_forwarding
    cleaned-other key ne = elim (Bool-cases fwd.enforce_port) [
      | inl pinned ↦ rw (pinned, cleaned) (cancel-other srv m _ key ne)
      | inr free ↦ rw (free, cleaned) refl
    ]

    cleaned_mono :
        (key : Text) → bound m.history key ≡ false → bound (cleaned srv m fwd).history key ≡ false
    unfolding cleaned cancel_forwarding
    cleaned_mono key h = elim (Bool-cases fwd.enforce_port) [
      | inl pinned ↦ rw (pinned, cleaned) (cancel_mono srv m _ key h)
      | inr free ↦ rw (free, cleaned) h
    ]

  -- The cleanup and the request: a grant makes the one lease, a failure makes none.
  pub data Requested (h h' : History) : Option SshError → Type 0 where
    won :
        in_range max_port fwd.remote_port ≡ true
        → ((key : Text) → bound h' key ≡ (if key_of fwd == key then true else bound h key))
        → Requested h h' none
    turned_down :
        (e : SshError)
        → ((key : Text) → (key_of fwd == key) ≡ false → bound h' key ≡ bound h key)
        → (bound h (key_of fwd) ≡ false → bound h' (key_of fwd) ≡ false)
        → Requested h h' (some e)

  Requested-Once :
      (m : Manager) (h' : History) (e : Option SshError)
      → Once srv (cleaned srv m fwd) fwd h' e
      → Requested m.history h' e
  Requested-Once m h' e (made inside leased) =
      won inside (λ key. ground (arith, leased key, cleaned-other m key))
  Requested-Once m h' e (failed_once x same) =
      turned_down x (λ key ne. same key ∙ cleaned-other m key ne)
        (λ free. same (key_of fwd) ∙ cleaned_mono m (key_of fwd) free)

  pub Requested-start :
      (m : Manager)
      → Requested m.history (request_start srv m fwd).0.history (request_start srv m fwd).1
  unfolding request_start cleaned
  Requested-start m = Requested-Once m _ _ (Once-start srv (cleaned srv m fwd) fwd)

  -- A start request that succeeds makes the lease of its key, and records verified addresses where
  -- they are needed and can be collected. One that fails records nothing, leaves the other leases
  -- alone, and leaves no new lease on a cooperative server.
  pub data Started (m m' : Manager) : Option SshError → Type 0 where
    accepted :
        (addrs : Option (List Text))
        → (has_extractor m.remote_addr_func ≡ true
            → needs_verification fwd ≡ true
            → Verified fwd addrs)
        → in_range max_port fwd.remote_port ≡ true
        → ((key : Text)
            → Map.get m'.assigned_addrs key
              ≡ recorded addrs (key_of fwd == key) (Map.get m.assigned_addrs key))
        → ((key : Text)
            → bound m'.history key ≡ (if key_of fwd == key then true else bound m.history key))
        → Started m m' none
    refused :
        (e : SshError)
        → m'.assigned_addrs ≡ m.assigned_addrs
        → ((key : Text) → (key_of fwd == key) ≡ false → bound m'.history key ≡ bound m.history key)
        → (IsCooperative srv
            → bound m.history (key_of fwd) ≡ false
            → bound m'.history (key_of fwd) ≡ false)
        → Started m m' (some e)

  pub assigned_addrs-request_start :
      (m : Manager) → (request_start srv m fwd).0.assigned_addrs ≡ m.assigned_addrs
  unfolding request_start cleaned
  assigned_addrs-request_start m =
      ap (λ (x : Manager). x.assigned_addrs)
        (send_forwarding_once-frame srv (cleaned srv m fwd) fwd start)
      ∙ ap (λ (x : Manager). x.assigned_addrs) (cleaned-frame m)

  -- Without a function that extracts addresses.
  pub Started-plain :
      (m m' : Manager) (e : Option SshError)
      → has_extractor m.remote_addr_func ≡ false
      → m'.assigned_addrs ≡ m.assigned_addrs
      → Requested m.history m'.history e
      → Started m m' e
  Started-plain m m' e plain same (won inside leased) =
      accepted none (λ x. cc) inside (λ key. ap (λ (x : Map Text (List Text)). Map.get x key) same)
        leased
  Started-plain m m' e plain same (turned_down x others free) = refused x same others (λ coop. free)

  -- With one: the request, the output, and the wait.
  Started-Awaited :
      (m p q : Manager) (e : Option SshError)
      → in_range max_port fwd.remote_port ≡ true
      → p.assigned_addrs ≡ m.assigned_addrs
      → ((key : Text)
          → bound p.history key ≡ (if key_of fwd == key then true else bound m.history key))
      → Awaited srv fwd p.assigned_addrs p.history q e
      → Started m q e
  Started-Awaited m p q e inside same leased (kept addrs verified assigned held) =
      accepted addrs (λ _. verified) inside
        (λ key.
          assigned key
          ∙ ap (λ (x : Map Text (List Text)). recorded addrs (key_of fwd == key) (Map.get x key))
              same)
        (λ key. ap (λ (h : History). bound h key) held ∙ leased key)
  Started-Awaited m p q e inside same leased (released x assigned others free) =
      refused x (assigned ∙ same) (λ key ne. ground (arith, others key, leased key))
        (λ coop _. free coop inside)

  pub Started-collected :
      (m p : Manager) (e : Option SshError)
      → has_extractor m.remote_addr_func ≡ true
      → p.assigned_addrs ≡ m.assigned_addrs
      → Requested m.history p.history e
      → Started m
          (await_if_granted srv fwd (key_of fwd) (p, e)).0
          (await_if_granted srv fwd (key_of fwd) (p, e)).1
  Started-collected m p e extracts same (turned_down x others free) =
      refused x same others (λ coop. free)
  Started-collected m p e extracts same (won inside leased) =
      Started-Awaited m (listen srv p) _ _ inside
        (ap (λ (x : Manager). x.assigned_addrs) (listen-frame srv p) ∙ same)
        (λ key. ap (λ (x : Manager). bound x.history key) (listen-frame srv p) ∙ leased key)
        (Awaited-await srv fwd (listen srv p))
