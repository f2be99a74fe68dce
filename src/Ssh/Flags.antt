-- ===== src/Ssh/Flags.antt =====
-- ssh/ssh_tunnel_manager.go: SessionFlags; ssh/ssh_session_pool.go: SessionKind.
use k8s_ssh_gateway_controll.Prelude.{
  ◌≡◌, ◌↔◌, Bool, true, false, not, ◌&&◌, List, [], ◌∷◌, ◌++◌, arith, if◌then◌else◌,
}
use k8s_ssh_gateway_controll.Prelude.Int.{ℤ, pos, int_eqb, int_eqb_iff, is_positive}
use k8s_ssh_gateway_controll.Prelude.Eq.{Eq, int_eq, nat_eq}
use k8s_ssh_gateway_controll.Go.Text.{Text, text, text_eq}
use k8s_ssh_gateway_controll.Ssh.Errors.{spaced}
use k8s_ssh_gateway_controll.Go.Decimal.{itoa}

pub record SessionFlags : Type 0 where
  pub proxy_protocol_version : ℤ
  pub sni_proxy : Bool

abbrev pub no_flags : SessionFlags
no_flags = record { proxy_protocol_version = pos 0; sni_proxy = false }

-- The Go comparison `f == g`.
abbrev pub flags_beq : SessionFlags → SessionFlags → Bool
flags_beq f g =
    int_eqb f.proxy_protocol_version g.proxy_protocol_version
    && (if f.sni_proxy then g.sni_proxy else not g.sni_proxy)

pub flags_beq_iff : (f g : SessionFlags) → (flags_beq f g ≡ true) ↔ (f ≡ g)
flags_beq_iff f g = ground (arith, int_eqb_iff f.proxy_protocol_version g.proxy_protocol_version)

-- The flags as words of the exec command.
unfoldable pub command_words : SessionFlags → List Text
command_words f =
    (if is_positive f.proxy_protocol_version
      then (text "proxy-protocol=" ++ itoa f.proxy_protocol_version) ∷ []
      else [])
    ++ (if f.sni_proxy then text "sni-proxy=true" ∷ [] else [])

abbrev or_shell : List Text → Text × Bool
or_shell [] = ([], true)
or_shell (w ∷ ws) = (spaced (w ∷ ws), false)

-- execCommand: the command, and whether to call session.Shell() in its place.
unfoldable pub exec_command : SessionFlags → Text × Bool
unfolding command_words
exec_command f = or_shell (command_words f)

-- DefaultLabel
unfoldable pub default_label : SessionFlags → Text
default_label f =
    if f.sni_proxy
    then text "sni"
    else if is_positive f.proxy_protocol_version
    then text "pp:v" ++ itoa f.proxy_protocol_version
    else text "plain"

pub data SessionKind : Type 0 where
  session_plain session_proxy_proto session_sni_proxy : SessionKind

-- SessionKind.String
unfoldable pub kind_string : SessionKind → Text
kind_string session_plain = text "plain"
kind_string session_proxy_proto = text "pp"
kind_string session_sni_proxy = text "sni"

abbrev pub kind_beq : SessionKind → SessionKind → Bool
kind_beq session_plain session_plain = true
kind_beq session_proxy_proto session_proxy_proto = true
kind_beq session_sni_proxy session_sni_proxy = true
kind_beq _ _ = false

pub kind_beq_iff : (a b : SessionKind) → (kind_beq a b ≡ true) ↔ (a ≡ b)
kind_beq_iff session_plain b = ground arith
kind_beq_iff session_proxy_proto b = ground arith
kind_beq_iff session_sni_proxy b = ground arith

instance abbrev pub kind_eq : Eq SessionKind
kind_eq = record { equals = kind_beq; equality = kind_beq_iff }
