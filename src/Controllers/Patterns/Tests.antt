-- ===== src/Controllers/Patterns/Tests.antt =====
-- Runs of the patterns on the output of the services that the source names.
use k8s_ssh_gateway_controll.Prelude.{◌≡◌, refl, inl, inr, some, List, [], ◌∷◌, ◌++◌, All, Exists}
use k8s_ssh_gateway_controll.Go.Text.{Text, text}
use k8s_ssh_gateway_controll.Controllers.Patterns.{
  consume, or_else, literal_then, many_then, some_then, piece_then, pieces_then, match_at, find_all,
  Scheme, tcp_scheme, http_scheme, https_scheme, remote_address_patterns, address_of, by_patterns,
  by_schemes, get_remote_address,
}
use k8s_ssh_gateway_controll.Controllers.Patterns.Found.{
  IsShown, NothingShown, get_remote_address-Shown,
}

abbrev in_order : List Scheme
in_order = https_scheme ∷ tcp_scheme ∷ http_scheme ∷ []

every_scheme : (scheme : Scheme) → Exists (λ (x : Scheme). x ≡ scheme) in_order
every_scheme tcp_scheme = inr (inl refl)
every_scheme http_scheme = inr (inr (inl refl))
every_scheme https_scheme = inl refl

abbrev serveo_output : Text
serveo_output = text "ok, Forwarding TCP traffic from serveo.net:1234 to you"

serveo_address :
    get_remote_address in_order serveo_output ≡ some (text "tcp://serveo.net:1234" ∷ [])
unfolding get_remote_address by_schemes by_patterns find_all match_at pieces_then piece_then
    some_then many_then literal_then or_else consume remote_address_patterns address_of
serveo_address = refl

-- The colours end before the spaces, and the line before the group is cut short.
pico_addresses :
    get_remote_address in_order (
      text "HTTP"
      ++ 27 ∷ text "[0m:  http://a-b.pico.sh"
      ++ 13 ∷ 10 ∷ text "HTTPS"
      ++ 27 ∷ text "[0m: https://a-b.pico.sh"
      ++ 13 ∷ [])
    ≡ some (text "https://a-b.pico.sh" ∷ text "http://a-b.pico.sh" ∷ [])
unfolding get_remote_address by_schemes by_patterns find_all match_at pieces_then piece_then
    some_then many_then literal_then or_else consume remote_address_patterns address_of
pico_addresses = refl

get_remote_address-Shown_example :
    (addresses : List Text) × (get_remote_address in_order serveo_output ≡ some addresses)
    × All (IsShown in_order serveo_output) addresses
    × (addresses ≡ [] → NothingShown serveo_output)
get_remote_address-Shown_example = get_remote_address-Shown in_order serveo_output every_scheme
