-- ===== src/Controllers/Addresses.antt =====
-- controllers/gateway_controller.go: extractHostnameFromURI, gatewayAddressesEqual and
-- updateGatewayAddresses.
pub mod Equality
pub mod Collected
use k8s_ssh_gateway_controll.Prelude.{
  ◌+◌, ◌/◌, Bool, true, false, ◌&&◌, ◌||◌, Option, none, some, List, [], ◌∷◌, ◌++◌, arith, eqb,
  if◌then◌else◌, length,
}
use k8s_ssh_gateway_controll.Prelude.Eq.{◌==◌, int_eq, nat_eq}
use k8s_ssh_gateway_controll.Go.Text.{Text, text, text_eq, trim_prefix, contains}
use k8s_ssh_gateway_controll.Go.Map.{Map, map_laws}
use k8s_ssh_gateway_controll.Ssh.Flags.{kind_eq}
use k8s_ssh_gateway_controll.Controllers.Listeners.{Listener}
use k8s_ssh_gateway_controll.Controllers.Parents.{default_to}
use k8s_ssh_gateway_controll.Controllers.Gateway.State.{SessionPool, Reconciler, get_gw_key}
use k8s_ssh_gateway_controll.Controllers.Objects.{Address, GatewayObject}
use k8s_ssh_gateway_controll.Controllers.RouteStatus.{condition_eq}
use k8s_ssh_gateway_controll.Go.Map
use mathlib.Core.List.{foldl}

-- What the code reads of a url.URL; `hostname` is what its method Hostname gives.
pub record Url : Type 0 where
  pub scheme : Text
  pub host : Text
  pub hostname : Text

abbrev of_url : Text → Option Url → Text
of_url uri none = uri
of_url uri (some parsed) =
    if parsed.scheme == text "http" || parsed.scheme == text "https"
    then parsed.hostname
    else if parsed.scheme == text "tcp"
    then trim_prefix uri (text "tcp://")
    else if parsed.host == []
    then uri
    else parsed.host

-- extractHostnameFromURI; `parse_url` is url.Parse, `none` for its error.
unfoldable pub extract_hostname_from_uri : (Text → Option Url) → Text → Text
extract_hostname_from_uri parse_url uri = of_url uri (parse_url uri)

-- The type of an address, which is a hostname where none is given.
abbrev pub effective_type : Address → Text
effective_type addr = default_to (text "Hostname") addr.address_type

-- The loop that fills aMap.
unfoldable pub address_map : Map Text Text → List Address → Map Text Text
address_map known [] = known
address_map known (addr ∷ addrs) =
    address_map (Map.set known addr.value (effective_type addr)) addrs

abbrev pub is_type : Text → Option Text → Bool
is_type address_type none = false
is_type address_type (some existing_type) = existing_type == address_type

-- The loop that looks the addresses up.
unfoldable pub all_known : Map Text Text → List Address → Bool
all_known known [] = true
all_known known (addr ∷ addrs) =
    is_type (effective_type addr) (Map.get known addr.value) && all_known known addrs

-- gatewayAddressesEqual
unfoldable pub gateway_addresses_equal : List Address → List Address → Bool
unfolding address_map all_known
gateway_addresses_equal a b =
    if eqb (length a) (length b) then all_known (address_map Map.empty a) b else false

-- A hostname with a port is a named address.
abbrev pub new_address : Text → Address
new_address hostname = record {
  address_type =
      some (if contains hostname (text ":") then text "NamedAddress" else text "Hostname");
  value = hostname;
}

-- addressesSeen, and the addresses so far
abbrev pub Seen : Type 0
Seen = Map Text Bool × List Address

abbrev pub was_seen : Option Bool → Bool
was_seen none = false
was_seen (some seen) = seen

module _ {P : Type 0} (api : SessionPool P) (parse_url : Text → Option Url) where
  -- One round of the inner loop.
  unfoldable pub add_address : Seen → Text → Seen
  unfolding extract_hostname_from_uri
  add_address (seen, addresses) addr =
      let hostname = extract_hostname_from_uri parse_url addr in
      if was_seen (Map.get seen hostname)
      then (seen, addresses)
      else (Map.set seen hostname true, addresses ++ new_address hostname ∷ [])

  -- One round of the outer loop.
  unfoldable pub add_listener : P → Seen → Text × Listener → Seen
  unfolding add_address
  add_listener p seen (_, l) =
      let added = foldl add_address seen (api.addresses_in p l.session_kind l.hostname l.port) in
      if l.rejected then seen else added

  -- The addresses for the listeners, in the order in which the loop takes them from the map.
  unfoldable pub collect_addresses : P → List (Text × Listener) → List Address
  unfolding add_listener
  collect_addresses p listeners = (foldl (add_listener p) (Map.empty, []) listeners).1

  abbrev pub with_addresses : P → GatewayObject → Option (Map Text Listener) → GatewayObject
  with_addresses p gw none = gw
  with_addresses p gw (some listeners) = record gw {
    addresses = collect_addresses p listeners.entries;
  }

  -- updateGatewayAddresses
  unfoldable pub update_gateway_addresses : Reconciler P → GatewayObject → GatewayObject
  unfolding collect_addresses get_gw_key
  update_gateway_addresses r gw =
      with_addresses r.pool gw (Map.get r.gateways (get_gw_key gw.spec.namespace gw.spec.name))
