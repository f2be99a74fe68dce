-- ===== src/Ssh/Manager/Hosts.antt =====
-- Host keys, and the channels that are forwarded to a backend.
use k8s_ssh_gateway_controll.Ssh.Manager.Invariant.Keyed.{run-fresh-Keyed}
use k8s_ssh_gateway_controll.Ssh.Manager.Invariant.Calls.{Call, run}
use k8s_ssh_gateway_controll.Go.Base64.{base64, length-base64}
use k8s_ssh_gateway_controll.Prelude.{
  List, ℕ, ◌++◌, length, ap, ◌≡◌, refl, sym, ◌∙◌, inl, inr, Bool, true, false, Option, none, some,
  [], arith, Option-cases, if_both,
}
use k8s_ssh_gateway_controll.Prelude.Int.{pos}
use k8s_ssh_gateway_controll.Prelude.Eq.{◌==◌, eq_iff, int_eq, nat_eq}
use k8s_ssh_gateway_controll.Go.Text.{Text, text, text_eq}
use k8s_ssh_gateway_controll.Go.Map.{
  Map, has, get-map_values, map_laws, get-empty, get-set, get-delete,
}
use k8s_ssh_gateway_controll.Ssh.Flags.{kind_eq}
use k8s_ssh_gateway_controll.Ssh.Manager.State.{ForwardingConfig, History, Server, Manager, Outcome}
use k8s_ssh_gateway_controll.Ssh.Manager.Channels.{forward_to, dispatch}
use k8s_ssh_gateway_controll.Ssh.Manager.Operations.{
  backend_address, fingerprint, host_key_callback, after_dial, connect, connect_client, Config,
  fresh_manager,
}
use k8s_ssh_gateway_controll.Ssh.Uri.{forwarding_key}
use k8s_ssh_gateway_controll.Go.Map
use k8s_ssh_gateway_controll.Ssh.Uri.Keys.{forwarding_key_inj}

-- ssh.Dial gives a client only after the host key callback has accepted the server's key.
pub record ChecksKey (srv : Server) (key : Text) : Type 0 where
  pub checked : (h : History) (accept : Text → Bool) → srv.dial h accept ≡ none → accept key ≡ true

length-fingerprint : (sum : Text) → length sum ≡ 32 → length (text "SHA256:" ++ base64 sum) ≡ 51
length-fingerprint sum size = omega (arith, length-base64 sum, size)

module _ (srv : Server) (m : Manager) where
  after_dial-pinned :
      (key : Text) (answer : Option Text)
      → (answer ≡ none → host_key_callback srv m.host_key key ≡ true)
      → (m.host_key == []) ≡ false
      → (after_dial m answer).0.connected ≡ true
      → m.connected ≡ false
      → fingerprint srv key ≡ m.host_key
  after_dial-pinned key (some e) checked pinned up down = cc
  after_dial-pinned key none checked pinned up down =
      (eq_iff (fingerprint srv key) m.host_key).0 (ground (arith, checked refl))

  connected-fingerprint :
      (key : Text)
      → ChecksKey srv key
      → (m.host_key == []) ≡ false
      → m.connected ≡ false
      → (connect srv m).0.connected ≡ true
      → fingerprint srv key ≡ m.host_key
  unfolding connect connect_client
  connected-fingerprint key keys pinned down up =
      after_dial-pinned key (srv.dial m.history (host_key_callback srv m.host_key))
        (keys.checked m.history (host_key_callback srv m.host_key)) pinned
        (sym (
            if_both (λ (o : Outcome). o.0.connected ≡ (connect_client srv m).0.connected)
              m.connected _ _ (λ on. cc) (λ off. refl))
          ∙ up)
        down

  -- With a configured host key, Connect on a closed manager gets a connection only to a server the
  -- SHA256 fingerprint of whose key, in padded base64 after SHA256:, is what is configured, if the
  -- SSH library lets the callback decide; so if SHA-256 sums have 32 bytes, a configured host key
  -- that has not 51 characters, such as a fingerprint without its padding, gets no connection.
  pub connect-pinned :
      (key : Text)
      → ChecksKey srv key
      → (m.host_key == []) ≡ false
      → m.connected ≡ false
      → length (srv.sha256 key) ≡ 32
      → (connect srv m).0.connected ≡ true
      → (text "SHA256:" ++ base64 (srv.sha256 key) ≡ m.host_key) × (length m.host_key ≡ 51)
  unfolding fingerprint
  connect-pinned key keys pinned down size up =
      let same = connected-fingerprint key keys pinned down up in
      (same, ap length (sym same) ∙ length-fingerprint (srv.sha256 key) size)

-- After any calls on a new manager, in any order and whatever the server does, a forwarded-tcpip
-- channel goes to a backend only if a forwarding of exactly its host and port is stored, and it goes
-- to the backend of that forwarding.
pub dispatch-backend :
    (srv : Server) (cfg : Config) (cs : List Call) (host backend : Text) (port : ℕ)
    → (dispatch (run srv (fresh_manager cfg) cs) (some (host, port))).0 ≡ forward_to backend
    → (fwd : ForwardingConfig) × (Map.get
          (run srv (fresh_manager cfg) cs).forwardings
          (forwarding_key host (pos port))
        ≡ some fwd)
      × (fwd.remote_host ≡ host)
      × (fwd.remote_port ≡ pos port)
      × (backend ≡ backend_address fwd)
unfolding dispatch
dispatch-backend srv cfg cs host backend port to =
    let m = run srv (fresh_manager cfg) cs in
    elim (Option-cases (Map.get m.forwardings (forwarding_key host (pos port)))) [
      | inl gone ↦ absurd (ground (arith, gone))
      | inr (fwd, there) ↦
          let (hosts, ports) =
            forwarding_key_inj fwd.remote_host host fwd.remote_port (pos port)
              (run-fresh-Keyed srv cfg cs (forwarding_key host (pos port)) fwd there) in
          (fwd, there, hosts, ports, ground (arith, there))
    ]
