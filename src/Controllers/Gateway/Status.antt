-- ===== src/Controllers/Gateway/Status.antt =====
-- controllers/gateway_controller.go: listenerProgrammedCondition, supportedKindsFor,
-- attachedRouteCount and populateListenerStatuses.
use k8s_ssh_gateway_controll.Prelude.{
  ℕ, ◌≡◌, sym, ◌∙◌, ◌↔◌, Bool, true, false, not, ◌&&◌, ◌||◌, none, some, List, [], ◌∷◌, ◌++◌, arith,
  if◌then◌else◌, any,
}
use k8s_ssh_gateway_controll.Prelude.Int.{ℤ, pos, int_eqb}
use k8s_ssh_gateway_controll.Prelude.Eq.{◌==◌, int_eq, nat_eq}
use k8s_ssh_gateway_controll.Go.Text.{Text, text, text_eq, to_upper}
use k8s_ssh_gateway_controll.Go.Map.{
  Map, has, get-map_values, map_laws, get-empty, get-set, get-delete,
}
use k8s_ssh_gateway_controll.Ssh.Errors.{message}
use k8s_ssh_gateway_controll.Ssh.Flags.{
  SessionKind, session_plain, session_proxy_proto, session_sni_proxy, kind_eq,
}
use k8s_ssh_gateway_controll.Controllers.Annotations.{
  ClassSessionConfig, required_session_kinds, IsVersion, disabled, version_1, version_2,
}
use k8s_ssh_gateway_controll.Controllers.Listeners.{Listener, K8sListener}
use k8s_ssh_gateway_controll.Controllers.Gateway.State.{SessionPool}
use k8s_ssh_gateway_controll.Go.Map

-- The Programmed condition of a listener, without its type and its time.
pub record Condition : Type 0 where
  pub status : Bool
  pub reason : Text
  pub message : Text

abbrev not_programmed : Text → Text → Condition
not_programmed reason message = record { status = false; reason = reason; message = message }

abbrev pub reason_session_not_enabled : Text
reason_session_not_enabled = text "SessionNotEnabled"

-- attachedRouteCount
unfoldable pub attached_route_count : Listener → ℕ
attached_route_count l = elim l.route [ none ↦ 0 | some route ↦ 1 ]

-- supportedKindsFor, by the kinds' names
unfoldable pub supported_kinds_for : Listener → List Text
supported_kinds_for l =
    if to_upper l.protocol == text "HTTP"
    then text "HTTPRoute" ∷ []
    else if to_upper l.protocol == text "TCP"
    then text "TCPRoute" ∷ []
    else if to_upper l.protocol == text "TLS"
    then text "TLSRoute" ∷ []
    else []

pub record ListenerStatus : Type 0 where
  pub name : Text
  pub condition : Condition
  pub supported_kinds : List Text
  pub attached_routes : ℕ

module _ {P : Type 0} (api : SessionPool P) where
  abbrev pub by_connection : Bool → Condition
  by_connection live =
      if live
      then record {
        status = true;
        reason = text "Programmed";
        message = text "Listener programmed";
      }
      else not_programmed (text "Pending") (text "SSH session not connected")

  -- listenerProgrammedCondition
  unfoldable pub listener_programmed_condition : P → Listener → ClassSessionConfig → Condition
  listener_programmed_condition p l sessions =
      if l.rejected
      then not_programmed l.reason (text "Listener rejected: " ++ l.reason)
      else if l.session_kind == session_proxy_proto
          && int_eqb sessions.proxy_protocol_version (pos 0)
      then not_programmed reason_session_not_enabled
          (text "Listener requires proxy-protocol session but GatewayClass has not enabled it")
      else if l.session_kind == session_sni_proxy && not sessions.sni_proxy_enabled
      then not_programmed reason_session_not_enabled
          (text "Listener requires sni-proxy session but GatewayClass has not enabled it")
      else by_connection (api.live_in p l.session_kind)

  -- The loop of populateListenerStatuses: the statuses, and whether all are programmed.
  unfoldable pub listener_statuses :
      P → Map Text Listener → ClassSessionConfig → List K8sListener → List ListenerStatus × Bool
  listener_statuses p listeners sessions [] = ([], true)
  listener_statuses p listeners sessions (k ∷ ks) =
      let (statuses, all_programmed) = listener_statuses p listeners sessions ks in
      elim (Map.get listeners k.name) [
        | none ↦ (statuses, all_programmed)
        | some l ↦
            let condition = listener_programmed_condition p l sessions in
            (
              record {
                name = k.name;
                condition = condition;
                supported_kinds = supported_kinds_for l;
                attached_routes = attached_route_count l;
              }
                  ∷ statuses,
              condition.status && all_programmed,
            )
      ]

  -- A listener that can carry traffic now.
  pub record CanServe (p : P) (l : Listener) (sessions : ClassSessionConfig) : Type 0 where
    pub accepted : l.rejected ≡ false
    pub enabled :
        any (λ (k : SessionKind). k == l.session_kind) (required_session_kinds sessions) ≡ true
    pub live : api.live_in p l.session_kind ≡ true

  -- A kind that one of the two tests refuses.
  abbrev lacks : SessionKind → ℤ → Bool → Bool
  lacks kind version sni =
      (kind == session_proxy_proto && int_eqb version (pos 0))
      || (kind == session_sni_proxy && not sni)

  required_unless_lacks :
      (kind : SessionKind) (version : ℤ) (sni : Bool)
      → IsVersion version
      → any
          (λ (k : SessionKind). k == kind)
          (required_session_kinds
            (record { proxy_protocol_version = version; sni_proxy_enabled = sni }))
        ≡ not (lacks kind version sni)
  unfolding required_session_kinds
  required_unless_lacks session_plain version sni v = ground arith
  required_unless_lacks session_proxy_proto version sni disabled = ground arith
  required_unless_lacks session_proxy_proto version sni version_1 = ground arith
  required_unless_lacks session_proxy_proto version sni version_2 = ground arith
  required_unless_lacks session_sni_proxy version sni disabled = ground arith
  required_unless_lacks session_sni_proxy version sni version_1 = ground arith
  required_unless_lacks session_sni_proxy version sni version_2 = ground arith

  condition_status :
      (p : P) (l : Listener) (sessions : ClassSessionConfig)
      → (listener_programmed_condition p l sessions).status ≡ (
          not l.rejected
          && not (lacks l.session_kind sessions.proxy_protocol_version sessions.sni_proxy_enabled)
          && api.live_in p l.session_kind)
  unfolding listener_programmed_condition
  condition_status p l sessions = ground arith

  -- The Programmed condition of a listener is true exactly when the listener is not rejected, its
  -- session kind is one that the class requires, and that session is connected, for a class whose
  -- PROXY version is 0, 1 or 2.
  pub listener_programmed_condition_iff :
      (p : P) (l : Listener) (sessions : ClassSessionConfig)
      → IsVersion sessions.proxy_protocol_version
      → ((listener_programmed_condition p l sessions).status ≡ true) ↔ CanServe p l sessions
  listener_programmed_condition_iff p l sessions v =
      let e = condition_status p l sessions in
      let r =
        required_unless_lacks l.session_kind sessions.proxy_protocol_version
          sessions.sni_proxy_enabled v in
      (
        λ h. record {
          accepted = ground (arith, sym e ∙ h);
          enabled = r ∙ ground (arith, sym e ∙ h);
          live = ground (arith, sym e ∙ h);
        },
        λ c. e ∙ ground (arith, c.accepted, c.live, sym r ∙ c.enabled),
      )
