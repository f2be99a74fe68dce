-- ===== src/Ssh/Uri/Ports.antt =====
-- forwardingKey and tcpURIPort of ssh/ssh_tunnel_manager.go.
use k8s_ssh_gateway_controll.Prelude.{
  ◌≡◌, refl, sym, subst, false, Option, none, some, ◌∷◌, ◌++◌, arith,
}
use k8s_ssh_gateway_controll.Prelude.Int.{ℤ}
use k8s_ssh_gateway_controll.Go.Text.{Text, has_byte, trim_prefix, cut_prefix}
use k8s_ssh_gateway_controll.Go.Decimal.{itoa, atoi, has_byte-itoa, IsInt, atoi-itoa}
use k8s_ssh_gateway_controll.Go.Net.{split_host_port, split_host_port-plain}
use k8s_ssh_gateway_controll.Ssh.Uri.{tcp, forwarding_key, tcp_uri_port}

-- The port of a tcp URI that names a forwarding's host and port is read back, for a host without
-- colons and brackets and a port within the range of int.
pub tcp_uri_port-forwarding_key :
    (host : Text) (port : ℤ)
    → has_byte b':' host ≡ false
    → has_byte b'[' host ≡ false
    → has_byte b']' host ≡ false
    → IsInt port
    → tcp_uri_port (tcp ++ forwarding_key host port) ≡ some port
unfolding forwarding_key trim_prefix cut_prefix tcp_uri_port
tcp_uri_port-forwarding_key host port colon bracket bracket' inside =
    port_read (split_host_port (host ++ b':' ∷ itoa port)) (
      split_host_port-plain host (itoa port) colon bracket bracket'
        (has_byte-itoa b':' port refl (λ e. ground arith))
        (has_byte-itoa b'[' port refl (λ e. ground arith))
        (has_byte-itoa b']' port refl (λ e. ground arith)))
  where
    port_read :
        (o : Option (Text × Text))
        → o ≡ some (host, itoa port)
        → (elim o [ none ↦ none | some (_, digits) ↦ atoi digits ]) ≡ some port
    port_read o e =
        subst
          (λ (x : Option (Text × Text)).
            (elim x [ none ↦ none | some (_, digits) ↦ atoi digits ]) ≡ some port)
          (sym e) (atoi-itoa port inside)
