-- ===== src/Controllers/Reconcile/StatusTests.antt =====
-- Names, the status of routes and the addresses of Gateways on a small cluster.
use k8s_ssh_gateway_controll.Prelude.{◌≡◌, refl, ◌↔◌, true, none, List, [], ◌∷◌, any}
use k8s_ssh_gateway_controll.Prelude.Int.{pos}
use k8s_ssh_gateway_controll.Prelude.Eq.{int_eq, nat_eq, list_beq}
use k8s_ssh_gateway_controll.Go.Text.{Text, text, text_eq}
use k8s_ssh_gateway_controll.Go.Map.{
  Map, has, get-map_values, map_laws, get-empty, get-set, get-delete,
}
use k8s_ssh_gateway_controll.Ssh.Flags.{kind_eq}
use k8s_ssh_gateway_controll.Controllers.Listeners.{Listener, create_listener}
use k8s_ssh_gateway_controll.Controllers.Names.{
  contains_string, get_http_route_finalizer, get_tcp_route_finalizer, get_tls_route_finalizer,
  get_gateway_finalizer, IsQualified, finalizers-IsQualified,
}
use k8s_ssh_gateway_controll.Controllers.Objects.{http_route, Address}
use k8s_ssh_gateway_controll.Controllers.RouteStatus.{
  condition_eq, accepted_route_conditions, set_our_route_parent_status, write_route_parent_status,
}
use k8s_ssh_gateway_controll.Controllers.RouteStatus.Upsert.{
  StatusSet, set_our_route_parent_status-StatusSet,
}
use k8s_ssh_gateway_controll.Controllers.RouteStatus.Writes.{
  reported_at, write_route_parent_status-quiet,
}
use k8s_ssh_gateway_controll.Controllers.RouteKinds.{
  extract_http_route_details, extract_tcp_route_details, extract_tls_route_details,
  http_details-agree,
}
use k8s_ssh_gateway_controll.Controllers.Addresses.{
  gateway_addresses_equal, new_address, collect_addresses,
}
use k8s_ssh_gateway_controll.Controllers.Addresses.Equality.{
  values, distinct, SameAddresses, gateway_addresses_equal_iff,
}
use k8s_ssh_gateway_controll.Controllers.Addresses.Collected.{
  has_hostname, collect_addresses_iff, collect_addresses-order,
}
use k8s_ssh_gateway_controll.Go.Map
use mathlib.Core.List.{Permᴰ}
use k8s_ssh_gateway_controll.Controllers.Reconcile.SmallCluster.{
  easy_pool, gw_parent, no_environment, small_cluster, small_cluster-Setter, small_route,
  small_store, stranger, url_as_is, web_listener,
}

finalizers-IsQualified_example :
    IsQualified (get_http_route_finalizer no_environment)
    × IsQualified (get_tcp_route_finalizer no_environment)
    × IsQualified (get_tls_route_finalizer no_environment)
    × IsQualified (get_gateway_finalizer no_environment)
finalizers-IsQualified_example = finalizers-IsQualified no_environment

set_our_route_parent_status-StatusSet_example :
    StatusSet
      (text "us")
      gw_parent
      (pos 3)
      accepted_route_conditions
      (stranger ∷ [])
      (set_our_route_parent_status small_cluster
        (text "us")
        7
        gw_parent
        (pos 3)
        accepted_route_conditions
        (stranger ∷ [])).0
unfolding list_beq
set_our_route_parent_status-StatusSet_example =
    set_our_route_parent_status-StatusSet small_cluster small_cluster-Setter (text "us") (pos 3)
      gw_parent accepted_route_conditions refl 7 (stranger ∷ [])

write_route_parent_status-quiet_example :
    write_route_parent_status small_cluster
      (text "us")
      http_route
      gw_parent
      accepted_route_conditions
      small_store
      (reported_at small_cluster small_cluster-Setter
        (text "us")
        http_route
        gw_parent
        accepted_route_conditions
        5
        small_route)
    ≡ (
      small_store,
      reported_at small_cluster small_cluster-Setter
          (text "us")
          http_route
          gw_parent
          accepted_route_conditions
          5
          small_route,
    )
unfolding list_beq
write_route_parent_status-quiet_example =
    write_route_parent_status-quiet small_cluster small_cluster-Setter (text "us") http_route
      gw_parent accepted_route_conditions small_store 5 small_route refl

http_details-agree_example :
    (extract_http_route_details small_route ≡ extract_tcp_route_details small_route)
    × (extract_http_route_details small_route ≡ extract_tls_route_details small_route)
http_details-agree_example = http_details-agree small_route

abbrev some_addresses : List Address
some_addresses = new_address (text "web.example") ∷ new_address (text "tcp.example:80") ∷ []

abbrev plain_address : Address
plain_address = record { address_type = none; value = text "web.example" }

gateway_addresses_equal_iff_example :
    (gateway_addresses_equal
        (new_address (text "tcp.example:80") ∷ plain_address ∷ [])
        some_addresses
      ≡ true)
    ↔ SameAddresses (new_address (text "tcp.example:80") ∷ plain_address ∷ []) some_addresses
unfolding contains_string list_beq
gateway_addresses_equal_iff_example =
    gateway_addresses_equal_iff (new_address (text "tcp.example:80") ∷ plain_address ∷ [])
      some_addresses refl

abbrev two_listeners : List (Text × Listener)
two_listeners =
    (text "web", create_listener web_listener Map.empty)
    ∷ (text "api", create_listener web_listener Map.empty)
    ∷ []

abbrev two_listeners_turned : List (Text × Listener)
two_listeners_turned =
    (text "api", create_listener web_listener Map.empty)
    ∷ (text "web", create_listener web_listener Map.empty)
    ∷ []

collect_addresses_iff_example :
    (distinct (values (collect_addresses easy_pool url_as_is tt two_listeners)) ≡ true)
    × ((h : Text)
        → contains_string (values (collect_addresses easy_pool url_as_is tt two_listeners)) h
          ≡ any (has_hostname easy_pool url_as_is tt h) two_listeners)
collect_addresses_iff_example = collect_addresses_iff easy_pool url_as_is tt two_listeners

collect_addresses-order_example :
    gateway_addresses_equal
      (collect_addresses easy_pool url_as_is tt two_listeners)
      (collect_addresses easy_pool url_as_is tt two_listeners_turned)
    ≡ true
collect_addresses-order_example =
    collect_addresses-order easy_pool url_as_is tt two_listeners two_listeners_turned
      (Permᴰ.swap refl refl)
