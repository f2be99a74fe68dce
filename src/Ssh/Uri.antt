-- ===== src/Ssh/Uri.antt =====
-- ssh/ssh_tunnel_manager.go: which assigned URIs satisfy a forwarding request, and the key of a
-- forwarding.
pub mod Spec
pub mod Keys
pub mod Ports
mod Tests
use k8s_ssh_gateway_controll.Prelude.{
  ℕ, zero, suc, ◌+◌, ◌-◌, ◌*◌, ◌/◌, ◌%◌, ◌≤◌, ◌<◌, ◌≡◌, refl, sym, ap, ◌∙◌, subst, ◌≢◌, ◌↔◌, ◌⊎◌,
  inl, inr, Bool, true, false, not, ◌&&◌, ◌||◌, Option, none, some, List, [], ◌∷◌, ◌++◌, map, arith,
  ltb, leb, eqb, if◌then◌else◌, Bool-cases, Option-cases, length, any, All, Exists,
}
use k8s_ssh_gateway_controll.Prelude.Int.{
  ℤ, pos, negsuc, int_eqb, int_eqb_iff, is_positive, in_range,
}
use k8s_ssh_gateway_controll.Prelude.Eq.{list_beq, Eq, ◌==◌, eq_iff, eq_refl, int_eq}
use k8s_ssh_gateway_controll.Go.Text.{Text, text, text_eq}
use k8s_ssh_gateway_controll.Go.Text.{cut_prefix, has_prefix, trim_prefix, contains}
use k8s_ssh_gateway_controll.Go.Decimal.{itoa, atoi, decimal}
use k8s_ssh_gateway_controll.Go.Net.{split_host_port}

abbrev pub http : Text
http = text "http://"

abbrev pub https : Text
https = text "https://"

abbrev pub tcp : Text
tcp = text "tcp://"

-- forwardingKey
unfoldable pub forwarding_key : Text → ℤ → Text
unfolding itoa
forwarding_key host port = host ++ b':' ∷ itoa port

-- tcpURIPort
unfoldable pub tcp_uri_port : Text → Option ℤ
unfolding trim_prefix split_host_port atoi
tcp_uri_port uri = elim (split_host_port (trim_prefix uri tcp)) [
  | none ↦ none
  | some (_, port) ↦ atoi port
]

-- The byte after the host ends it.
abbrev pub at_boundary : Text → Bool
at_boundary [] = true
at_boundary (c ∷ s) = eqb c b'/' || eqb c b':'

abbrev pub host_ends : Option Text → Bool
host_ends none = false
host_ends (some remainder) = at_boundary remainder

-- httpURIHasHost
unfoldable pub http_uri_has_host : Text → Text → Bool
unfolding has_prefix trim_prefix cut_prefix
http_uri_has_host uri host =
    if has_prefix uri http
    then host_ends (cut_prefix (trim_prefix uri http) host)
    else if has_prefix uri https
    then host_ends (cut_prefix (trim_prefix uri https) host)
    else false

abbrev pub port_is : ℤ → Option ℤ → Bool
port_is port none = false
port_is port (some p) = p == port

-- The hosts for which every assigned name is accepted.
unfoldable pub is_wildcard : Text → Bool
unfolding list_beq
is_wildcard host = host == [] || host == text "0.0.0.0" || host == text "localhost"

-- One round of the loop: `true` where it returns, `false` where it continues.
unfoldable pub uri_matches : Text → Text → ℤ → Bool → Bool
uri_matches uri host port enforce_port =
    if has_prefix uri http || has_prefix uri https
    then is_wildcard host || http_uri_has_host uri host
    else if has_prefix uri tcp
    then (if not (is_wildcard host)
        then contains uri (forwarding_key host port)
        else if not enforce_port
        then true
        else port_is port (tcp_uri_port uri))
    else false

-- MatchesRequestedHost
unfoldable pub matches_requested_host : List Text → Text → ℤ → Bool → Bool
matches_requested_host [] host port enforce_port = false
matches_requested_host (uri ∷ uris) host port enforce_port =
    uri_matches uri host port enforce_port || matches_requested_host uris host port enforce_port
