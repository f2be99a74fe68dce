-- ===== src/Ssh/Manager/Operations.antt =====
-- ssh/ssh_tunnel_manager.go: the exported methods of SSHTunnelManager, the keepalive and the
-- statistics of failed backend dials.
use k8s_ssh_gateway_controll.Go.Base64.{base64}
use k8s_ssh_gateway_controll.Prelude.{
  ℕ, ◌+◌, Bool, true, false, ◌&&◌, Option, none, some, List, [], ◌∷◌, ◌++◌, leb, if◌then◌else◌,
}
use k8s_ssh_gateway_controll.Prelude.Int.{ℤ}
use k8s_ssh_gateway_controll.Prelude.Eq.{◌==◌, int_eq, nat_eq}
use k8s_ssh_gateway_controll.Go.Text.{Text, text, text_eq}
use k8s_ssh_gateway_controll.Go.Decimal.{itoa}
use k8s_ssh_gateway_controll.Go.Net.{join_host_port}
use k8s_ssh_gateway_controll.Go.Map.{
  Map, has, get-map_values, map_laws, get-empty, get-set, get-delete,
}
use k8s_ssh_gateway_controll.Ssh.Errors.{
  Result, ok, err, client_not_ready, forwarding_exists, forwarding_not_found, connection_failed,
  external,
}
use k8s_ssh_gateway_controll.Ssh.Flags.{SessionFlags, kind_eq}
use k8s_ssh_gateway_controll.Ssh.Manager.State.{
  ForwardingConfig, start, cancel, dialled, hung_up, Server, DialErrorStats, Manager, Outcome,
  key_of, is_ready,
}
use k8s_ssh_gateway_controll.Ssh.Manager.Requests.{send_forwarding}
use k8s_ssh_gateway_controll.Ssh.Uri.{forwarding_key}
use k8s_ssh_gateway_controll.Go.Map
use mathlib.Core.List.{foldl}

-- What SSHConnectionConfig sets; the durations are choices of the `Server`.
pub record Config : Type 0 where
  pub private_key : Text
  pub host_key : Text
  pub remote_addr_func : Option (Text → Option (List Text))
  pub flags : SessionFlags

-- The manager that NewSSHTunnelManager builds.
unfoldable pub fresh_manager : Config → Manager
fresh_manager cfg = record {
  has_client = false;
  connected = false;
  capture_ready = false;
  forwardings = Map.empty;
  assigned_addrs = Map.empty;
  addr_notifications = Map.empty;
  dial_errors = Map.empty;
  remote_addr_func = cfg.remote_addr_func;
  host_key = cfg.host_key;
  flags = cfg.flags;
  history = [];
}

-- NewSSHTunnelManager; `parse_private_key` is ssh.ParsePrivateKey, with its error.
unfoldable pub new_ssh_tunnel_manager : (Text → Option Text) → Config → Result Manager
new_ssh_tunnel_manager parse_private_key cfg = elim (parse_private_key cfg.private_key) [
  | some e ↦ err (external (text "unable to parse private key: " ++ e))
  | none ↦ ok (fresh_manager cfg)
]

-- The fingerprint of a marshalled key.
unfoldable pub fingerprint : Server → Text → Text
unfolding base64
fingerprint srv key = text "SHA256:" ++ base64 (srv.sha256 key)

-- The host key callback: any key where none is configured.
abbrev pub host_key_callback : Server → Text → Text → Bool
host_key_callback srv expected key =
    if expected == [] then true else fingerprint srv key == expected

-- What connectClient does with the answer of the dial.
abbrev pub after_dial : Manager → Option Text → Outcome
after_dial m (some e) =
    (record m { history = dialled false ∷ m.history }, some (connection_failed (some e)))
after_dial m none = (
  record m {
    has_client = true;
    connected = true;
    capture_ready = true;
    history = dialled true ∷ m.history;
  },
  none,
)

-- connectClient
unfoldable pub connect_client : Server → Manager → Outcome
unfolding fingerprint
connect_client srv m = after_dial m (srv.dial m.history (host_key_callback srv m.host_key))

-- Connect
unfoldable pub connect : Server → Manager → Outcome
unfolding connect_client
connect srv m = if m.connected then (m, none) else connect_client srv m

-- closeClient
unfoldable pub close_client : Manager → Manager
close_client m =
    if m.connected
    then record m {
      connected = false;
      has_client = false;
      assigned_addrs = Map.empty;
      forwardings = Map.empty;
      history = if m.has_client then hung_up ∷ m.history else m.history;
    }
    else m

-- A forwarding is stored once its request has succeeded.
abbrev pub finish_start : ForwardingConfig → Outcome → Outcome
finish_start fwd (m, some e) = (m, some e)
finish_start fwd (m, none) =
    (record m { forwardings = Map.set m.forwardings (key_of fwd) fwd }, none)

-- StartForwarding
unfoldable pub start_forwarding : Server → Manager → ForwardingConfig → Outcome
start_forwarding srv m fwd =
    if is_ready m
    then elim (Map.get m.forwardings (key_of fwd)) [
      | some _ ↦ (m, some (forwarding_exists (key_of fwd)))
      | none ↦ finish_start fwd (send_forwarding srv m fwd start)
    ]
    else (m, some client_not_ready)

-- recordBackendDialSuccess
unfoldable pub record_backend_dial_success : Manager → Text → Manager
record_backend_dial_success m addr = record m { dial_errors = Map.delete m.dial_errors addr }

abbrev pub backend_address : ForwardingConfig → Text
backend_address fwd = join_host_port fwd.internal_host (itoa fwd.internal_port)

-- The bookkeeping of StopForwarding, before its cancel request.
unfoldable pub forget : Manager → Text → ForwardingConfig → Manager
unfolding record_backend_dial_success
forget m key session =
    record_backend_dial_success
      (record m {
        forwardings = Map.delete m.forwardings key;
        assigned_addrs = Map.delete m.assigned_addrs key;
      })
      (backend_address session)

-- StopForwarding
unfoldable pub stop_forwarding : Server → Manager → ForwardingConfig → Outcome
stop_forwarding srv m fwd =
    if is_ready m
    then elim (Map.get m.forwardings (key_of fwd)) [
      | none ↦ (m, some (forwarding_not_found (key_of fwd)))
      | some session ↦ send_forwarding srv (forget m (key_of fwd) session) session cancel
    ]
    else (m, some client_not_ready)

-- GetAssignedAddresses; nil is the empty list.
unfoldable pub get_assigned_addresses : Manager → Text → ℤ → List Text
get_assigned_addresses m host port = elim (Map.get m.assigned_addrs (forwarding_key host port)) [
  | none ↦ []
  | some addrs ↦ addrs
]

-- IsConnected
unfoldable pub is_connected : Manager → Bool
is_connected m = m.connected

-- One round of the loop of Stop.
unfoldable pub cancel_entry : Server → Manager → Text × ForwardingConfig → Manager
cancel_entry srv m (_, session) = (send_forwarding srv m session cancel).0

-- The loop of Stop, under its guard.
unfoldable pub cancelled_entries : Server → Manager → Manager
cancelled_entries srv m =
    let m' = foldl (cancel_entry srv) m m.forwardings.entries in
    if m.has_client && m.connected then m' else m

-- Stop
unfoldable pub stop_manager : Server → Manager → Manager
unfolding close_client
stop_manager srv m = close_client (record (cancelled_entries srv m) { forwardings = Map.empty })

-- How a keepalive request of monitorConnection ends.
pub data KeepAlive : Type 0 where
  keepalive_answered keepalive_failed keepalive_timed_out : KeepAlive

-- One tick of monitorConnection.
unfoldable pub keepalive : Manager → KeepAlive → Manager
unfolding close_client
keepalive m keepalive_answered = m
keepalive m keepalive_failed = if is_ready m then close_client m else m
keepalive m keepalive_timed_out = if is_ready m then close_client m else m

-- The level at which a failed dial is logged, with the count of suppressed errors.
pub data Level : Type 0 where
  warn : ℕ → Level
  debug : Level

-- defaultDialErrorLogCooldown, in nanoseconds
abbrev pub cooldown : ℕ
cooldown = 10_000_000_000

abbrev pub stats_of : Option DialErrorStats → DialErrorStats
stats_of none = record { last_logged = none; suppressed = 0 }
stats_of (some stats) = stats

abbrev pub should_warn : Option ℕ → ℕ → Bool
should_warn none now = true
should_warn (some last) now = leb (last + cooldown) now

-- The statistics of one backend after a failed dial at the time `now`, and the level.
unfoldable pub note_failure : DialErrorStats → ℕ → DialErrorStats × Level
note_failure stats now =
    if should_warn stats.last_logged now
    then (record { last_logged = some now; suppressed = 0 }, warn stats.suppressed)
    else (record { last_logged = stats.last_logged; suppressed = stats.suppressed + 1 }, debug)

-- logBackendDialError, at the time `now` of the clock
unfoldable pub log_backend_dial_error : Manager → Text → ℕ → Manager × Level
log_backend_dial_error m addr now =
    let (stats, level) = note_failure (stats_of (Map.get m.dial_errors addr)) now in
    (record m { dial_errors = Map.set m.dial_errors addr stats }, level)
