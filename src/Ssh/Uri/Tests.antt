-- ===== src/Ssh/Uri/Tests.antt =====
-- Runs and witnesses about assigned URIs.
use k8s_ssh_gateway_controll.Prelude.{
  ◌≡◌, ◌↔◌, refl, arith, ◌++◌, some, true, false, List, [], ◌∷◌, Exists,
}
use k8s_ssh_gateway_controll.Ssh.Uri.Spec.{Accepts, matches_requested_host_iff}
use k8s_ssh_gateway_controll.Ssh.Uri.Ports.{tcp_uri_port-forwarding_key}
use k8s_ssh_gateway_controll.Prelude.Int.{pos}
use k8s_ssh_gateway_controll.Prelude.Eq.{int_eq, nat_eq}
use k8s_ssh_gateway_controll.Go.Text.{Text, text, text_eq, has_byte, has_prefix, contains}
use k8s_ssh_gateway_controll.Ssh.Uri.{
  tcp, http_uri_has_host, forwarding_key, tcp_uri_port, is_wildcard, uri_matches,
  matches_requested_host,
}

uri_runs :
    (matches_requested_host (text "http://user-dev.tuns.sh" ∷ []) (text "dev") (pos 80) false
      ≡ false)
    × (matches_requested_host (text "http://dev:80/x" ∷ []) (text "dev") (pos 80) false ≡ true)
    × (matches_requested_host (text "tcp://a.b:34012" ∷ []) (text "localhost") (pos 22) true
        ≡ false)
    × (matches_requested_host (text "tcp://a.b:22" ∷ []) (text "localhost") (pos 22) true ≡ true)
unfolding matches_requested_host uri_matches is_wildcard http_uri_has_host tcp_uri_port contains
    forwarding_key has_prefix
uri_runs = (refl, refl, refl, refl)

abbrev dev_uris : List Text
dev_uris = text "tcp://dev:2222" ∷ text "https://dev.example/x" ∷ []

matches_requested_host_iff_example :
    (matches_requested_host dev_uris (text "dev.example") (pos 443) false ≡ true)
    ↔ Exists (Accepts (text "dev.example") (pos 443) false) dev_uris
matches_requested_host_iff_example =
    matches_requested_host_iff (text "dev.example") (pos 443) false dev_uris

tcp_uri_port-forwarding_key_example :
    tcp_uri_port (tcp ++ forwarding_key (text "nue.tuns.sh") (pos 34012)) ≡ some (pos 34012)
unfolding has_byte
tcp_uri_port-forwarding_key_example =
    tcp_uri_port-forwarding_key (text "nue.tuns.sh") (pos 34012) refl refl refl (omega arith)
