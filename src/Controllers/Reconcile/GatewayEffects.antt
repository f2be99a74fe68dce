-- ===== src/Controllers/Reconcile/GatewayEffects.antt =====
-- What the reconcile loop of Gateways may do to the cluster and the registry, and what it answers
-- then.
use k8s_ssh_gateway_controll.Prelude.Eq.{◌==◌}
use k8s_ssh_gateway_controll.Prelude.{
  false, ◌≡◌, inl, inr, Bool, true, not, ◌||◌, Option, none, some, [], ◌∷◌, ◌++◌, any,
}
use k8s_ssh_gateway_controll.Prelude.Eq.{◌==◌, int_eq, nat_eq}
use k8s_ssh_gateway_controll.Go.Text.{Text, text_eq}
use k8s_ssh_gateway_controll.Ssh.Errors.{SshError}
use k8s_ssh_gateway_controll.Ssh.Flags.{SessionKind, session_plain, kind_eq}
use k8s_ssh_gateway_controll.Controllers.Annotations.{
  parse_class_session_config, required_session_kinds,
}
use k8s_ssh_gateway_controll.Controllers.Gateway.State.{SessionPool, Reconciler}
use k8s_ssh_gateway_controll.Controllers.Gateway.Attaching.{reconnect_required_sessions}
use k8s_ssh_gateway_controll.Controllers.Gateway.Specs.{
  handle_add_or_update_gateway, handle_delete_gateway,
}
use k8s_ssh_gateway_controll.Controllers.Names.{
  contains_string, remove_string, Environment, get_gateway_controller_name, get_gateway_finalizer,
}
use k8s_ssh_gateway_controll.Controllers.Objects.{
  ApiError, GatewayObject, GatewayClass, Cluster, Updated,
}
use k8s_ssh_gateway_controll.Controllers.RouteStatus.{condition_eq}
use k8s_ssh_gateway_controll.Controllers.Addresses.{Url}
use k8s_ssh_gateway_controll.Controllers.GatewayStatus.{update_gateway_status_if_changed}
use k8s_ssh_gateway_controll.Controllers.Reconcile.{
  no_requeue, after_10_seconds, after_gateway_period, api_failed, Answer, finished, fails,
  ignore_not_found,
}
use k8s_ssh_gateway_controll.Controllers.Reconcile.Gateways.{ensure_plain_session}

-- The answers of the last call on the API, by its error.
abbrev pub written : Option ApiError → Answer
written none = finished after_gateway_period
written (some e) = fails (api_failed e)

abbrev pub let_go : Option ApiError → Answer
let_go none = finished no_requeue
let_go (some e) = fails (api_failed e)

module _ {P W : Type 0} (api : SessionPool P) (cluster : Cluster W) (env : Environment)
    (parse_url : Text → Option Url) (w : W) (r : Reconciler P) (namespace name : Text) where
  -- ensurePlainSSHSessionConnected, with the pool that it leaves
  abbrev pub plain : P × Bool
  plain = ensure_plain_session api r.pool

  -- The plain session is connected then.
  abbrev pub IsUp : Type 0
  IsUp = api.live_in plain.0 session_plain ≡ true

  -- The cluster after the Gateway is read, and after its class is.
  abbrev pub cluster_read : W
  cluster_read = (cluster.get_gateway w namespace name).0

  abbrev pub cluster_classed : GatewayObject → W
  cluster_classed gw = (cluster.get_class cluster_read gw.class_name).0

  -- The plain session is connected, and the API has shown the Gateway of the request.
  abbrev pub Shown : GatewayObject → Type 0
  Shown gw = IsUp × ((cluster.get_gateway w namespace name).1 ≡ inl gw)

  abbrev pub has_ours : GatewayObject → Bool
  has_ours gw = contains_string gw.finalizers (get_gateway_finalizer env)

  abbrev pub with_ours : GatewayObject → GatewayObject
  with_ours gw = record gw { finalizers = gw.finalizers ++ get_gateway_finalizer env ∷ [] }

  abbrev pub without_ours : GatewayObject → GatewayObject
  without_ours gw = record gw {
    finalizers = remove_string gw.finalizers (get_gateway_finalizer env);
  }

  -- The Gateway is a living one, and `gc` is the class that the API shows under its class's name.
  abbrev pub Classed : GatewayObject → GatewayClass → Type 0
  Classed gw gc =
      Shown gw
      × (gw.is_deleted ≡ false)
      × ((cluster.get_class cluster_read gw.class_name).1 ≡ inl gc)

  -- The Gateway has our finalizer, or its class names this controller.
  abbrev pub is_claimed : GatewayObject → GatewayClass → Bool
  is_claimed gw gc = has_ours gw || gc.controller_name == get_gateway_controller_name env

  -- ConfigureSessions and reconnectRequiredSessions, by the annotations of the class
  abbrev pub configured : GatewayClass → P × Option SshError
  configured gc =
      api.configure plain.0 (parse_class_session_config gc.annotations).proxy_protocol_version
        (parse_class_session_config gc.annotations).sni_proxy_enabled

  abbrev pub reconnected : GatewayClass → P × Bool
  reconnected gc =
      reconnect_required_sessions api (configured gc).0
        (required_session_kinds (parse_class_session_config gc.annotations))

  -- A session that the class requires is not connected then.
  abbrev pub is_any_down : GatewayClass → Bool
  is_any_down gc =
      any (λ (kind : SessionKind). not (api.live_in (reconnected gc).0 kind))
        (required_session_kinds (parse_class_session_config gc.annotations))

  abbrev pub AllLive : GatewayClass → Type 0
  AllLive gc = is_any_down gc ≡ false

  -- The Gateway with our finalizer, as shown or, by an update that the API took, as it answered.
  pub data Marked : GatewayObject → GatewayObject → W → Type 0 where
    had_finalizer : (gw : GatewayObject) → has_ours gw ≡ true → Marked gw gw (cluster_classed gw)
    gets_finalizer :
        (gw : GatewayObject)
        → has_ours gw ≡ false
        → (cluster.update_gateway (cluster_classed gw) (with_ours gw)).1.1 ≡ none
        → Marked gw
            (cluster.update_gateway (cluster_classed gw) (with_ours gw)).1.0
            (cluster.update_gateway (cluster_classed gw) (with_ours gw)).0

  -- What a loop does that leaves the listeners alone.
  pub data Idle : W → P → Answer → Type 0 where
    plain_down :
        api.live_in plain.0 session_plain ≡ false → Idle w plain.0 (finished after_10_seconds)
    unread :
        (e : ApiError)
        → IsUp
        → (cluster.get_gateway w namespace name).1 ≡ inr e
        → Idle cluster_read plain.0 (ignore_not_found e)
    leaving :
        (gw : GatewayObject)
        → Shown gw
        → gw.is_deleted ≡ true
        → has_ours gw ≡ false
        → Idle cluster_read plain.0 (finished no_requeue)
    class_unread :
        (gw : GatewayObject) (e : ApiError)
        → Shown gw
        → gw.is_deleted ≡ false
        → (cluster.get_class cluster_read gw.class_name).1 ≡ inr e
        → Idle (cluster_classed gw) plain.0 (fails (api_failed e))
    not_ours :
        (gw : GatewayObject) (gc : GatewayClass)
        → Classed gw gc
        → is_claimed gw gc ≡ false
        → Idle (cluster_classed gw) plain.0 (finished no_requeue)
    unconfigured :
        (gw : GatewayObject) (gc : GatewayClass) (e : SshError)
        → Classed gw gc
        → is_claimed gw gc ≡ true
        → (configured gc).1 ≡ some e
        → Idle (cluster_classed gw) (configured gc).0 (finished after_10_seconds)
    session_down :
        (gw : GatewayObject) (gc : GatewayClass)
        → Classed gw gc
        → is_claimed gw gc ≡ true
        → (configured gc).1 ≡ none
        → is_any_down gc ≡ true
        → Idle (cluster_classed gw) (reconnected gc).0 (finished after_10_seconds)
    refused :
        (gw : GatewayObject) (gc : GatewayClass) (e : ApiError)
        → Classed gw gc
        → is_claimed gw gc ≡ true
        → (configured gc).1 ≡ none
        → AllLive gc
        → has_ours gw ≡ false
        → (cluster.update_gateway (cluster_classed gw) (with_ours gw)).1.1 ≡ some e
        → Idle
            (cluster.update_gateway (cluster_classed gw) (with_ours gw)).0
            (reconnected gc).0
            (fails (api_failed e))

  -- The registry after handleAddOrUpdateGateway, and the update of the status then.
  abbrev pub updated : GatewayClass → GatewayObject → Reconciler P
  updated gc gw = handle_add_or_update_gateway api (record r { pool = (reconnected gc).0 }) gw.spec

  abbrev pub status_written : GatewayClass → GatewayObject → W → Updated W GatewayObject
  status_written gc gw w' =
      update_gateway_status_if_changed api cluster parse_url w' (updated gc gw) gw gc

  -- What a loop may do to the cluster and the registry, and its answer then.
  pub data GatewayStep : W → Reconciler P → Answer → Type 0 where
    idles :
        (w' : W) (p : P) (answer : Answer)
        → Idle w' p answer
        → GatewayStep w' (record r { pool = p }) answer
    updates :
        (gw marked : GatewayObject) (gc : GatewayClass) (w' : W)
        → Classed gw gc
        → is_claimed gw gc ≡ true
        → (configured gc).1 ≡ none
        → AllLive gc
        → Marked gw marked w'
        → GatewayStep
            (status_written gc marked w').0
            (updated gc marked)
            (written (status_written gc marked w').1.1)
    removes :
        (gw : GatewayObject)
        → Shown gw
        → gw.is_deleted ≡ true
        → has_ours gw ≡ true
        → GatewayStep
            (cluster.update_gateway cluster_read (without_ours gw)).0
            (handle_delete_gateway api (record r { pool = plain.0 }) gw.spec)
            (let_go (cluster.update_gateway cluster_read (without_ours gw)).1.1)
