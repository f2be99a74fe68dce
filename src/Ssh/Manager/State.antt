-- ===== src/Ssh/Manager/State.antt =====
-- ssh/ssh_tunnel_manager.go: the state of SSHTunnelManager, and what it talks to.
-- The SSH server, the SSH library and the clock are a `Server`: functions of what has happened on
-- the connection so far, so that a theorem for every `Server` covers every reply, every timeout
-- and every order of the server's output.
use k8s_ssh_gateway_controll.Prelude.{ℕ, Bool, not, ◌&&◌, ◌||◌, Option, List}
use k8s_ssh_gateway_controll.Prelude.Int.{ℤ}
use k8s_ssh_gateway_controll.Prelude.Eq.{int_eq, nat_eq}
use k8s_ssh_gateway_controll.Go.Text.{Text, text_eq}
use k8s_ssh_gateway_controll.Go.Map.{Map}
use k8s_ssh_gateway_controll.Ssh.Errors.{SshError}
use k8s_ssh_gateway_controll.Ssh.Flags.{SessionFlags, kind_eq}
use k8s_ssh_gateway_controll.Ssh.Uri.{forwarding_key, is_wildcard, matches_requested_host}

-- ForwardingConfig
pub record ForwardingConfig : Type 0 where
  pub remote_host : Text
  pub internal_host : Text
  pub remote_port : ℤ
  pub internal_port : ℤ
  pub enforce_port : Bool

-- ForwardRequest is a string type; `other` stands for any string but the two constants.
pub data ForwardRequest : Type 0 where
  start cancel : ForwardRequest
  other : Text → ForwardRequest

-- How the wait for a global request ends.
pub data Reply : Type 0 where
  granted denied timed_out : Reply
  failed : Text → Reply

pub data Event : Type 0 where
  -- a tcpip-forward (`start`) or cancel-tcpip-forward (`cancel`) for a host and port
  exchange : ForwardRequest → Text → ℤ → Reply → Event
  -- ssh.Dial, and whether it gave a client
  dialled : Bool → Event
  -- client.Close()
  hung_up : Event

-- What has happened, the newest first.
abbrev pub History : Type 0
History = List Event

pub record Server : Type 0 where
  -- sha256.Sum256
  pub sha256 : Text → Text
  -- ssh.Dial with a host key callback on marshalled keys: its error, if any
  pub dial : History → (Text → Bool) → Option Text
  -- the reply to a request
  pub answer : History → ForwardRequest → Text → ℤ → Reply
  -- the connection's context ends while a forwarding waits for the capture session
  pub abandons : History → Bool
  -- the chunks of output that are read before the verification timeout
  pub output : History → List Text

-- dialErrorStats; `none` is the zero time.
pub record DialErrorStats : Type 0 where
  pub last_logged : Option ℕ
  pub suppressed : ℕ

pub record Manager : Type 0 where
  -- m.client != nil
  pub has_client : Bool
  pub connected : Bool
  -- m.captureReady != nil
  pub capture_ready : Bool
  pub forwardings : Map Text ForwardingConfig
  pub assigned_addrs : Map Text (List Text)
  -- each channel with the batches that it buffers, the oldest first
  pub addr_notifications : Map Text (List (List Text))
  pub dial_errors : Map Text DialErrorStats
  -- remoteAddrFunc: the URIs of a chunk, or `none` for an error
  pub remote_addr_func : Option (Text → Option (List Text))
  pub host_key : Text
  pub flags : SessionFlags
  pub history : History

-- A method's new state and its error.
abbrev pub Outcome : Type 0
Outcome = Manager × Option SshError

abbrev pub key_of : ForwardingConfig → Text
key_of fwd = forwarding_key fwd.remote_host fwd.remote_port

-- hostnameSpecific || fwd.EnforcePort
abbrev pub needs_verification : ForwardingConfig → Bool
needs_verification fwd = not (is_wildcard fwd.remote_host) || fwd.enforce_port

abbrev pub matches : List Text → ForwardingConfig → Bool
matches uris fwd = matches_requested_host uris fwd.remote_host fwd.remote_port fwd.enforce_port

-- m.connected && m.client != nil
abbrev pub is_ready : Manager → Bool
is_ready m = m.connected && m.has_client
