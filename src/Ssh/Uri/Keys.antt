-- ===== src/Ssh/Uri/Keys.antt =====
-- The keys under which forwardings are stored.
use k8s_ssh_gateway_controll.Prelude.{◌≡◌, refl, arith}
use k8s_ssh_gateway_controll.Prelude.Int.{ℤ}
use k8s_ssh_gateway_controll.Prelude.Eq.{int_eq}
use k8s_ssh_gateway_controll.Go.Text.{Text, text_eq}
use k8s_ssh_gateway_controll.Go.Text.{append-cons_inj}
use k8s_ssh_gateway_controll.Go.Decimal.{itoa, itoa_inj, has_byte-itoa}
use k8s_ssh_gateway_controll.Ssh.Uri.{forwarding_key}

-- Two forwardings have one key only if they ask for one host and one port.
pub forwarding_key_inj :
    (host host' : Text) (port port' : ℤ)
    → forwarding_key host port ≡ forwarding_key host' port'
    → (host ≡ host') × (port ≡ port')
unfolding forwarding_key
forwarding_key_inj host host' port port' e =
    let (hosts, ports) =
      append-cons_inj b':' host host' (itoa port) (itoa port')
        (has_byte-itoa b':' port refl (omega arith)) (has_byte-itoa b':' port' refl (omega arith))
        e in
    (hosts, itoa_inj port port' ports)
