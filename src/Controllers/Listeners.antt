-- ===== src/Controllers/Listeners.antt =====
-- controllers/common.go: createListener and deriveListenerSession; the Listener of
-- controllers/gateway_controller.go.
use k8s_ssh_gateway_controll.Prelude.{
  ◌≡◌, refl, ap, subst, ◌↔◌, Bool, true, false, Option, none, some, [], if◌then◌else◌, if_both,
}
use k8s_ssh_gateway_controll.Prelude.Int.{ℤ}
use k8s_ssh_gateway_controll.Prelude.Eq.{◌==◌, eq_iff, int_eq, nat_eq, list_beq}
use k8s_ssh_gateway_controll.Go.Text.{Text, text, text_eq, to_upper}
use k8s_ssh_gateway_controll.Go.Map.{Map}
use k8s_ssh_gateway_controll.Ssh.Flags.{
  SessionKind, session_plain, session_proxy_proto, session_sni_proxy, kind_eq,
}
use k8s_ssh_gateway_controll.Controllers.Annotations.{parse_listener_proxy_protocol}

-- Route
pub record Route : Type 0 where
  pub name : Text
  pub namespace : Text
  pub host : Text
  pub port : ℤ

-- Listener
pub record Listener : Type 0 where
  pub route : Option Route
  pub protocol : Text
  pub hostname : Text
  pub port : ℤ
  pub session_kind : SessionKind
  pub rejected : Bool
  pub reason : Text

-- What the code reads of gatewayv1.Listener; `tls_mode` is the mode of its TLS config, if both are
-- set.
pub record K8sListener : Type 0 where
  pub name : Text
  pub hostname : Option Text
  pub protocol : Text
  pub port : ℤ
  pub tls_mode : Option Text

abbrev pub reason_unsupported_tls_mode : Text
reason_unsupported_tls_mode = text "UnsupportedTLSMode"

abbrev pub reason_unsupported_listener_protocol : Text
reason_unsupported_listener_protocol = text "UnsupportedListenerProtocol"

abbrev pub is_passthrough : Option Text → Bool
is_passthrough none = false
is_passthrough (some mode) = mode == text "Passthrough"

abbrev pub reject : Listener → Text → Listener
reject l reason = record l { rejected = true; reason = reason }

-- deriveListenerSession
unfoldable pub derive_listener_session : Listener → K8sListener → Map Text Text → Listener
derive_listener_session l k8s_listener gw_annotations =
    if to_upper l.protocol == text "HTTP"
    then record l { session_kind = session_plain }
    else if to_upper l.protocol == text "TCP"
    then (if parse_listener_proxy_protocol gw_annotations k8s_listener.name
        then record l { session_kind = session_proxy_proto }
        else record l { session_kind = session_plain })
    else if to_upper l.protocol == text "TLS"
    then (if is_passthrough k8s_listener.tls_mode
        then record l { session_kind = session_sni_proxy }
        else reject l reason_unsupported_tls_mode)
    else reject l reason_unsupported_listener_protocol

abbrev pub hostname_of : Option Text → Text
hostname_of none = text "localhost"
hostname_of (some hostname) = hostname

-- createListener
unfoldable pub create_listener : K8sListener → Map Text Text → Listener
unfolding derive_listener_session
create_listener k8s_listener gw_annotations =
    derive_listener_session
      (record {
        route = none;
        protocol = k8s_listener.protocol;
        hostname = hostname_of k8s_listener.hostname;
        port = k8s_listener.port;
        session_kind = session_plain;
        rejected = false;
        reason = [];
      })
      k8s_listener gw_annotations

-- Which session serves a listener.
pub data Served (k : K8sListener) (annotations : Map Text Text) : SessionKind → Type 0 where
  http_served : to_upper k.protocol ≡ text "HTTP" → Served k annotations session_plain
  tcp_served :
      to_upper k.protocol ≡ text "TCP"
      → parse_listener_proxy_protocol annotations k.name ≡ false
      → Served k annotations session_plain
  proxy_served :
      to_upper k.protocol ≡ text "TCP"
      → parse_listener_proxy_protocol annotations k.name ≡ true
      → Served k annotations session_proxy_proto
  passthrough_served :
      to_upper k.protocol ≡ text "TLS"
      → k.tls_mode ≡ some (text "Passthrough")
      → Served k annotations session_sni_proxy

module _ (k : K8sListener) (annotations : Map Text Text) where
  is_passthrough-some : (o : Option Text) → is_passthrough o ≡ true → o ≡ some (text "Passthrough")
  is_passthrough-some none h = cc
  is_passthrough-some (some mode) h = ap some ((eq_iff mode (text "Passthrough")).0 h)

  -- A listener, if it is not rejected, is served by its session kind.
  abbrev IfAccepted : Listener → Type 0
  IfAccepted l = l.rejected ≡ false → Served k annotations l.session_kind

  upper_eq : (t : Text) → (to_upper k.protocol == t) ≡ true → to_upper k.protocol ≡ t
  upper_eq t h = (eq_iff (to_upper k.protocol) t).0 h

  create_listener-IfAccepted : IfAccepted (create_listener k annotations)
  unfolding create_listener derive_listener_session
  create_listener-IfAccepted =
      if_both IfAccepted (to_upper k.protocol == text "HTTP") _ _
        (λ p. λ r. http_served (upper_eq (text "HTTP") p))
        (λ p.
          if_both IfAccepted (to_upper k.protocol == text "TCP") _ _
            (λ q.
              if_both IfAccepted (parse_listener_proxy_protocol annotations k.name) _ _
                (λ on. λ r. proxy_served (upper_eq (text "TCP") q) on)
                (λ off. λ r. tcp_served (upper_eq (text "TCP") q) off))
            (λ q.
              if_both IfAccepted (to_upper k.protocol == text "TLS") _ _
                (λ t.
                  if_both IfAccepted (is_passthrough k.tls_mode) _ _
                    (λ on. λ r.
                      passthrough_served (upper_eq (text "TLS") t)
                        (is_passthrough-some k.tls_mode on))
                    (λ off. λ r. cc))
                (λ t. λ r. cc)))

  create_listener-Served :
      (kind : SessionKind)
      → Served k annotations kind
      → ((create_listener k annotations).rejected ≡ false)
        × ((create_listener k annotations).session_kind ≡ kind)
  unfolding create_listener derive_listener_session list_beq
  create_listener-Served kind (http_served e) =
      rw (e, create_listener, derive_listener_session) (refl, refl)
  create_listener-Served kind (tcp_served e off) =
      rw (e, off, create_listener, derive_listener_session) (refl, refl)
  create_listener-Served kind (proxy_served e on) =
      rw (e, on, create_listener, derive_listener_session) (refl, refl)
  create_listener-Served kind (passthrough_served e mode) =
      rw (e, mode, create_listener, derive_listener_session) (refl, refl)

  -- createListener makes a listener that is not rejected and has a given session kind exactly when
  -- the protocol, whatever its case, is HTTP, or TCP without the PROXY annotation of the
  -- listener, for the plain session; TCP with that annotation for the PROXY-protocol session; or
  -- TLS in mode Passthrough for the SNI session. Every other listener is rejected.
  pub create_listener_iff :
      (kind : SessionKind)
      → (((create_listener k annotations).rejected ≡ false)
          × ((create_listener k annotations).session_kind ≡ kind))
        ↔ Served k annotations kind
  create_listener_iff kind = (
    λ (accepted_l, same). subst (Served k annotations) same (create_listener-IfAccepted accepted_l),
    create_listener-Served kind,
  )
