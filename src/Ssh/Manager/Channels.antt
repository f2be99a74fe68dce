-- ===== src/Ssh/Manager/Channels.antt =====
-- ssh/ssh_tunnel_manager.go: handleChannels, the dispatch of channels that the server opens.
use k8s_ssh_gateway_controll.Prelude.{ℕ, Option, none, some, if◌then◌else◌}
use k8s_ssh_gateway_controll.Prelude.Int.{pos}
use k8s_ssh_gateway_controll.Prelude.Eq.{◌==◌, int_eq, nat_eq}
use k8s_ssh_gateway_controll.Go.Text.{Text, text, text_eq}
use k8s_ssh_gateway_controll.Go.Map.{
  Map, has, get-map_values, map_laws, get-empty, get-set, get-delete,
}
use k8s_ssh_gateway_controll.Ssh.Flags.{kind_eq}
use k8s_ssh_gateway_controll.Ssh.Manager.State.{Server, Manager, is_ready}
use k8s_ssh_gateway_controll.Ssh.Manager.Requests.{cancel_forwarding}
use k8s_ssh_gateway_controll.Ssh.Manager.Operations.{backend_address}
use k8s_ssh_gateway_controll.Ssh.Uri.{forwarding_key}
use k8s_ssh_gateway_controll.Go.Map

-- The channel's type and the parsed payload: the forwarded address and its 32-bit port. `none` is
-- a payload that ssh.Unmarshal refuses.
pub record NewChannel : Type 0 where
  pub channel_type : Text
  pub payload : Option (Text × ℕ)

pub data Verdict : Type 0 where
  -- ch.Reject, with the reason
  reject_connection_failed reject_unknown_type : Verdict
  -- the channel is accepted and copied to and from this backend address
  forward_to : Text → Verdict

-- The goroutine that releases an orphan forwarding on the server, at the time it gets the lock.
unfoldable pub release_orphan : Server → Manager → Text × ℕ → Manager
release_orphan srv m (addr, port) =
    if is_ready m then cancel_forwarding srv m addr (pos port) else m

-- The verdict, and the orphan that a goroutine is started for.
unfoldable pub dispatch : Manager → Option (Text × ℕ) → Verdict × Option (Text × ℕ)
dispatch m none = (reject_connection_failed, none)
dispatch m (some (addr, port)) = elim (Map.get m.forwardings (forwarding_key addr (pos port))) [
  | some fwd ↦ (forward_to (backend_address fwd), none)
  | none ↦ (reject_connection_failed, some (addr, port))
]

-- One round of handleChannels.
unfoldable pub handle_channel : Manager → NewChannel → Verdict × Option (Text × ℕ)
unfolding dispatch
handle_channel m ch =
    if ch.channel_type == text "forwarded-tcpip"
    then dispatch m ch.payload
    else (reject_unknown_type, none)
