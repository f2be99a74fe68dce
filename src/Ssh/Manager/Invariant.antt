-- ===== src/Ssh/Manager/Invariant.antt =====
-- The invariant of SSHTunnelManager between the calls of its methods.
pub mod Starting
pub mod Stopping
pub mod Calls
pub mod Leaks
pub mod Keyed
use k8s_ssh_gateway_controll.Prelude.{◌≡◌, Bool, true, false, Option, none, some, List, arith}
use k8s_ssh_gateway_controll.Prelude.Int.{in_range}
use k8s_ssh_gateway_controll.Prelude.Eq.{int_eq, nat_eq}
use k8s_ssh_gateway_controll.Go.Text.{Text, text_eq}
use k8s_ssh_gateway_controll.Go.Map.{Map, map_laws}
use k8s_ssh_gateway_controll.Ssh.Flags.{kind_eq}
use k8s_ssh_gateway_controll.Ssh.Manager.State.{
  ForwardingConfig, History, Manager, key_of, needs_verification,
}
use k8s_ssh_gateway_controll.Ssh.Manager.Leases.{bound}
use k8s_ssh_gateway_controll.Ssh.Manager.Requests.{max_port}
use k8s_ssh_gateway_controll.Ssh.Manager.Requests.Awaited.{Verified}
use k8s_ssh_gateway_controll.Ssh.Manager.Requests.Started.{has_extractor}
use k8s_ssh_gateway_controll.Go.Map

-- What holds of a forwarding that is stored under a key, given the history, whether addresses are
-- extracted from the server's output, and the addresses assigned to the key.
pub record Entry (h : History) (extracts : Bool) (addrs : Option (List Text)) (key : Text)
    (fwd : ForwardingConfig) : Type 0 where
  pub keyed : key_of fwd ≡ key
  pub in_port_range : in_range max_port fwd.remote_port ≡ true
  -- the server granted it and has not been asked to release it
  pub leased : bound h key ≡ true
  -- a specific host or a pinned port has verified addresses
  pub verified : extracts ≡ true → needs_verification fwd ≡ true → Verified fwd addrs

abbrev pub EntryOf : Manager → Text → ForwardingConfig → Type 0
EntryOf m key fwd =
    Entry m.history (has_extractor m.remote_addr_func) (Map.get m.assigned_addrs key) key fwd

pub record WellFormed (m : Manager) : Type 0 where
  pub client : m.has_client ≡ m.connected
  -- no notification channel outlives its call
  pub idle : (key : Text) → Map.get m.addr_notifications key ≡ none
  -- a closed connection has no forwardings
  pub offline : m.connected ≡ false → (key : Text) → Map.get m.forwardings key ≡ none
  pub entries :
      (key : Text) (fwd : ForwardingConfig)
      → Map.get m.forwardings key ≡ some fwd
      → EntryOf m key fwd
  -- addresses belong to a stored forwarding
  pub backed : (key : Text) → Map.get m.forwardings key ≡ none → Map.get m.assigned_addrs key ≡ none

-- Every lease that the server holds has a stored forwarding.
pub record NoLeak (m : Manager) : Type 0 where
  pub known : (key : Text) → Map.get m.forwardings key ≡ none → bound m.history key ≡ false
