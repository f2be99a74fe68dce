-- ===== src/Ssh/Manager/Requests.antt =====
-- ssh/ssh_tunnel_manager.go: forwarding requests, from sendForwardingOnce to sendForwarding, and
-- the server output that answers them.
pub mod Once
pub mod Output
pub mod Frame
pub mod Awaited
pub mod Started
pub mod Start
use k8s_ssh_gateway_controll.Prelude.{
  ℕ, ◌+◌, ◌-◌, Bool, false, not, ◌&&◌, Option, none, some, List, [], ◌∷◌, ◌++◌, arith, ltb,
  if◌then◌else◌, length,
}
use k8s_ssh_gateway_controll.Prelude.Int.{ℤ, pos, in_range}
use k8s_ssh_gateway_controll.Prelude.Eq.{int_eq, nat_eq}
use k8s_ssh_gateway_controll.Go.Text.{Text, text, text_eq}
use k8s_ssh_gateway_controll.Go.Map.{Map, map_laws}
use k8s_ssh_gateway_controll.Ssh.Errors.{
  SshError, capture_abandoned, invalid_remote_port, unknown_request, request_timed_out,
  request_denied, verification_timeout, wrong_hostname, external,
}
use k8s_ssh_gateway_controll.Ssh.Flags.{kind_eq}
use k8s_ssh_gateway_controll.Ssh.Manager.State.{
  ForwardingConfig, ForwardRequest, start, cancel, other, Reply, granted, denied, timed_out, failed,
  exchange, Server, Manager, Outcome, key_of, needs_verification, matches,
}
use k8s_ssh_gateway_controll.Go.Map
use mathlib.Core.List.{foldl}

abbrev pub max_port : ℕ
max_port = 65535

-- The error that ends a request.
abbrev pub verdict : Text → Reply → Option SshError
verdict req granted = none
verdict req denied = some (request_denied req)
verdict req timed_out = some (request_timed_out req)
verdict req (failed e) = some (external e)

-- SendRequest and the wait for its reply.
pub transmit : Server → Manager → ForwardingConfig → ForwardRequest → Text → Outcome
transmit srv m fwd req req_type =
    let reply = srv.answer m.history req fwd.remote_host fwd.remote_port in
    (
      record m { history = exchange req fwd.remote_host fwd.remote_port reply ∷ m.history },
      verdict req_type reply,
    )

unfoldable pub by_request : Server → Manager → ForwardingConfig → ForwardRequest → Outcome
unfolding transmit
by_request srv m fwd start = transmit srv m fwd start (text "tcpip-forward")
by_request srv m fwd cancel = transmit srv m fwd cancel (text "cancel-tcpip-forward")
by_request srv m fwd (other req) = (m, some (unknown_request req))

-- sendForwardingOnce
unfoldable pub send_forwarding_once : Server → Manager → ForwardingConfig → ForwardRequest → Outcome
unfolding by_request
send_forwarding_once srv m fwd req =
    if in_range max_port fwd.remote_port
    then by_request srv m fwd req
    else (m, some (invalid_remote_port fwd.remote_port))

-- cancelForwarding
unfoldable pub cancel_forwarding : Server → Manager → Text → ℤ → Manager
cancel_forwarding srv m host port =
    (send_forwarding_once srv m
      (record {
        remote_host = host;
        internal_host = [];
        remote_port = port;
        internal_port = pos 0;
        enforce_port = false;
      })
      cancel).0

-- addrNotificationChannelSize
abbrev channel_size : ℕ
channel_size = 5

-- A send that does not block: a full channel drops the batch.
abbrev pub offer : List Text → List (List Text) → List (List Text)
offer uris buffered = if ltb (length buffered) channel_size then buffered ++ uris ∷ [] else buffered

-- notifyURIWaiters
unfoldable pub notify_uri_waiters : Manager → List Text → Manager
notify_uri_waiters m uris = record m {
  addr_notifications = Map.map_values (offer uris) m.addr_notifications;
}

unfoldable pub notify_if_any : Manager → Option (List Text) → Manager
unfolding notify_uri_waiters
notify_if_any m none = m
notify_if_any m (some []) = m
notify_if_any m (some (uri ∷ uris)) = notify_uri_waiters m (uri ∷ uris)

-- m.remoteAddrFunc(data); an error and a missing function give `none`.
abbrev extracted : Option (Text → Option (List Text)) → Text → Option (List Text)
extracted none chunk = none
extracted (some extract) chunk = extract chunk

-- processServerData
unfoldable pub process_server_data : Manager → Text → Manager
unfolding notify_if_any
process_server_data m chunk = notify_if_any m (extracted m.remote_addr_func chunk)

-- What readServerOutput reads while a forwarding waits.
unfoldable pub listen : Server → Manager → Manager
unfolding process_server_data
listen srv m = foldl process_server_data m (srv.output m.history)

-- handleVerificationTimeout
unfoldable pub handle_verification_timeout : Server → Manager → ForwardingConfig → Bool → Outcome
handle_verification_timeout srv m fwd needed =
    if needed
    then ((send_forwarding_once srv m fwd cancel).0, some (verification_timeout fwd.remote_host))
    else (m, none)

-- handleAssignedURIs
unfoldable pub handle_assigned_uris :
    Server → Manager → ForwardingConfig → Text → List Text → Bool → Outcome
handle_assigned_uris srv m fwd key uris needed =
    if needed && not (matches uris fwd)
    then (cancel_forwarding srv m fwd.remote_host fwd.remote_port, some (wrong_hostname uris))
    else (record m { assigned_addrs = Map.set m.assigned_addrs key uris }, none)

-- The first batch of a channel, if one comes before the verification timeout.
unfoldable pub respond :
    Server → Manager → ForwardingConfig → Text → Option (List (List Text)) → Outcome
respond srv m fwd key (some (uris ∷ later)) =
    handle_assigned_uris srv
      (record m { addr_notifications = Map.set m.addr_notifications key later }) fwd key uris
      (needs_verification fwd)
respond srv m fwd key _ = handle_verification_timeout srv m fwd (needs_verification fwd)

-- awaitAssignedAddresses
unfoldable pub await_assigned_addresses : Server → Manager → ForwardingConfig → Text → Outcome
unfolding respond
await_assigned_addresses srv m fwd key = respond srv m fwd key (Map.get m.addr_notifications key)

-- The notification channel is made before the request is sent.
abbrev pub register : Manager → Text → Manager
register m key = record m { addr_notifications = Map.set m.addr_notifications key [] }

-- The deferred removal of the channel.
abbrev pub unregister : Text → Outcome → Outcome
unregister key (m, e) = (record m { addr_notifications = Map.delete m.addr_notifications key }, e)

-- The pre-emptive cleanup of a pinned port.
unfoldable pub cleaned : Server → Manager → ForwardingConfig → Manager
cleaned srv m fwd =
    if fwd.enforce_port then cancel_forwarding srv m fwd.remote_host fwd.remote_port else m

-- The start request after the cleanup.
unfoldable pub request_start : Server → Manager → ForwardingConfig → Outcome
unfolding cleaned
request_start srv m fwd = send_forwarding_once srv (cleaned srv m fwd) fwd start

abbrev pub await_if_granted : Server → ForwardingConfig → Text → Outcome → Outcome
await_if_granted srv fwd key (m, some e) = (m, some e)
await_if_granted srv fwd key (m, none) = await_assigned_addresses srv (listen srv m) fwd key

-- A start request without the collection of addresses, and with it.
unfoldable pub by_collection :
    Option (Text → Option (List Text)) → Server → Manager → ForwardingConfig → Outcome
unfolding request_start
by_collection none srv m fwd = request_start srv m fwd
by_collection (some _) srv m fwd =
    unregister (key_of fwd)
      (await_if_granted srv fwd (key_of fwd) (request_start srv (register m (key_of fwd)) fwd))

-- sendForwarding
unfoldable pub send_forwarding : Server → Manager → ForwardingConfig → ForwardRequest → Outcome
unfolding by_collection
send_forwarding srv m fwd start =
    if m.capture_ready && srv.abandons m.history
    then (m, some capture_abandoned)
    else by_collection m.remote_addr_func srv m fwd
send_forwarding srv m fwd req = send_forwarding_once srv m fwd req
