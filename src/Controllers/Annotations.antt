-- ===== src/Controllers/Annotations.antt =====
-- controllers/common.go: the annotations of GatewayClass and Gateway.
use k8s_ssh_gateway_controll.Prelude.{
  ◌≡◌, inl, inr, Bool, true, false, ◌||◌, Option, none, some, List, [], ◌∷◌, ◌++◌, arith,
  if◌then◌else◌, Bool-cases, Option-cases, if_both, any,
}
use k8s_ssh_gateway_controll.Prelude.Int.{ℤ, pos, int_eqb, int_eqb_iff, is_positive}
use k8s_ssh_gateway_controll.Prelude.Eq.{◌==◌, int_eq, nat_eq}
use k8s_ssh_gateway_controll.Go.Text.{Text, text, text_eq, equal_fold}
use k8s_ssh_gateway_controll.Go.Decimal.{atoi}
use k8s_ssh_gateway_controll.Go.Map.{
  Map, has, get-map_values, map_laws, get-empty, get-set, get-delete,
}
use k8s_ssh_gateway_controll.Ssh.Flags.{
  SessionKind, session_plain, session_proxy_proto, session_sni_proxy, kind_eq,
}
use k8s_ssh_gateway_controll.Ssh.Pool.{SessionManager, Pool, configure_sessions}
use k8s_ssh_gateway_controll.Ssh.Pool.Configure.{Paired, configure_sessions-ConfiguredBy}
use k8s_ssh_gateway_controll.Go.Map

abbrev pub annotation_proxy_protocol : Text
annotation_proxy_protocol = text "ssh-gateway.io/proxy-protocol"

abbrev pub annotation_sni_proxy : Text
annotation_sni_proxy = text "ssh-gateway.io/sni-proxy"

abbrev pub annotation_listener_proxy_protocol_prefix : Text
annotation_listener_proxy_protocol_prefix = text "ssh-gateway.io/listener-proxy-protocol."

abbrev pub version_of : Option ℤ → ℤ
version_of none = pos 0
version_of (some v) = if int_eqb v (pos 1) || int_eqb v (pos 2) then v else pos 0

-- parseProxyProtocol
unfoldable pub parse_proxy_protocol : Map Text Text → ℤ
unfolding atoi
parse_proxy_protocol annotations = elim (Map.get annotations annotation_proxy_protocol) [
  | none ↦ pos 0
  | some val ↦ if val == [] then pos 0 else version_of (atoi val)
]

-- An annotation that is set to "true", whatever its case.
abbrev pub is_true : Option Text → Bool
is_true none = false
is_true (some val) = if val == [] then false else equal_fold val (text "true")

-- parseListenerProxyProtocol
unfoldable pub parse_listener_proxy_protocol : Map Text Text → Text → Bool
parse_listener_proxy_protocol annotations listener_name =
    is_true (Map.get annotations (annotation_listener_proxy_protocol_prefix ++ listener_name))

-- ClassSessionConfig
pub record ClassSessionConfig : Type 0 where
  pub proxy_protocol_version : ℤ
  pub sni_proxy_enabled : Bool

-- parseClassSessionConfig
unfoldable pub parse_class_session_config : Map Text Text → ClassSessionConfig
unfolding parse_proxy_protocol
parse_class_session_config annotations = record {
  proxy_protocol_version = parse_proxy_protocol annotations;
  sni_proxy_enabled = is_true (Map.get annotations annotation_sni_proxy);
}

-- requiredSessionKinds
unfoldable pub required_session_kinds : ClassSessionConfig → List SessionKind
required_session_kinds sessions =
    session_plain
      ∷ (if is_positive sessions.proxy_protocol_version then session_proxy_proto ∷ [] else [])
    ++ (if sessions.sni_proxy_enabled then session_sni_proxy ∷ [] else [])

-- The versions that an annotation can select.
pub data IsVersion : ℤ → Type 0 where
  disabled : IsVersion (pos 0)
  version_1 : IsVersion (pos 1)
  version_2 : IsVersion (pos 2)

version_of-IsVersion : (o : Option ℤ) → IsVersion (version_of o)
version_of-IsVersion none = disabled
version_of-IsVersion (some v) = elim (Bool-cases (int_eqb v (pos 1))) [
  | inl one ↦ rw (one, (int_eqb_iff v (pos 1)).0 one) version_1
  | inr other_v ↦ elim (Bool-cases (int_eqb v (pos 2))) [
    | inl two ↦ rw (other_v, two, (int_eqb_iff v (pos 2)).0 two) version_2
    | inr none_v ↦ rw (other_v, none_v) disabled
  ]
]

-- parseProxyProtocol answers 0, 1 or 2, whatever the annotations are.
pub parse_proxy_protocol-IsVersion :
    (annotations : Map Text Text) → IsVersion (parse_proxy_protocol annotations)
unfolding parse_proxy_protocol
parse_proxy_protocol-IsVersion annotations =
    elim (Option-cases (Map.get annotations annotation_proxy_protocol)) [
      | inl absent ↦ rw (absent, parse_proxy_protocol) disabled
      | inr (val, there) ↦
          rw (there, parse_proxy_protocol)
            (if_both IsVersion (val == []) (pos 0) (version_of (atoi val)) (λ e. disabled)
              (λ ne. version_of-IsVersion (atoi val)))
    ]

module _ {M : Type 0} (api : SessionManager M) where
  -- After ConfigureSessions has succeeded with the configuration of a class, a kind of session has a
  -- manager in the pool exactly when requiredSessionKinds lists it, for a pool with a plain
  -- session and with flags for exactly the kinds that have a manager.
  pub required_session_kinds_iff :
      (annotations : Map Text Text) (p : Pool M) (kind : SessionKind)
      → Paired p
      → has p.managers session_plain ≡ true
      → (configure_sessions api p
          (parse_class_session_config annotations).proxy_protocol_version
          (parse_class_session_config annotations).sni_proxy_enabled).1
        ≡ none
      → has
          (configure_sessions api p
            (parse_class_session_config annotations).proxy_protocol_version
            (parse_class_session_config annotations).sni_proxy_enabled).0.managers
          kind
        ≡ any
            (λ (k : SessionKind). k == kind)
            (required_session_kinds (parse_class_session_config annotations))
  unfolding required_session_kinds
  required_session_kinds_iff annotations p session_plain paired plain done =
      let cfg = parse_class_session_config annotations in
      let c =
        configure_sessions-ConfiguredBy api cfg.proxy_protocol_version cfg.sni_proxy_enabled p
          paired in
      ground (arith, c.plain)
  required_session_kinds_iff annotations p session_proxy_proto paired plain done =
      let cfg = parse_class_session_config annotations in
      let c =
        configure_sessions-ConfiguredBy api cfg.proxy_protocol_version cfg.sni_proxy_enabled p
          paired in
      ground (arith, c.paired session_proxy_proto, c.pp done)
  required_session_kinds_iff annotations p session_sni_proxy paired plain done =
      let cfg = parse_class_session_config annotations in
      let c =
        configure_sessions-ConfiguredBy api cfg.proxy_protocol_version cfg.sni_proxy_enabled p
          paired in
      ground (arith, c.paired session_sni_proxy, c.sni_proxy done)
