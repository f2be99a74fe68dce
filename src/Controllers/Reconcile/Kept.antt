-- ===== src/Controllers/Reconcile/Kept.antt =====
-- A property of the registry and its pool that the calls of the reconcile loops keep, and that the
-- loop of Gateways keeps it.
use k8s_ssh_gateway_controll.Prelude.{
  ◌⊎◌, inl, inr, Bool, not, Option, none, some, List, if_both, any,
}
use k8s_ssh_gateway_controll.Prelude.Int.{ℤ}
use k8s_ssh_gateway_controll.Prelude.Eq.{int_eq, nat_eq}
use k8s_ssh_gateway_controll.Go.Text.{Text, text_eq}
use k8s_ssh_gateway_controll.Ssh.Errors.{SshError}
use k8s_ssh_gateway_controll.Ssh.Flags.{SessionKind, session_plain, kind_eq}
use k8s_ssh_gateway_controll.Controllers.Annotations.{
  ClassSessionConfig, parse_class_session_config, required_session_kinds,
}
use k8s_ssh_gateway_controll.Controllers.Gateway.State.{SessionPool, Reconciler}
use k8s_ssh_gateway_controll.Controllers.Gateway.Attaching.{reconnect_required_sessions}
use k8s_ssh_gateway_controll.Controllers.Gateway.Specs.{
  handle_add_or_update_gateway, handle_delete_gateway,
}
use k8s_ssh_gateway_controll.Controllers.Gateway.Updates.{
  GatewayCall, adds_or_updates, deletes, gateway_step,
}
use k8s_ssh_gateway_controll.Controllers.Names.{
  contains_string, remove_string, Environment, get_gateway_finalizer,
}
use k8s_ssh_gateway_controll.Controllers.Objects.{
  ApiError, GatewayObject, GatewayClass, Cluster, Fetched, Updated,
}
use k8s_ssh_gateway_controll.Controllers.RouteStatus.{condition_eq}
use k8s_ssh_gateway_controll.Controllers.Addresses.{Url}
use k8s_ssh_gateway_controll.Controllers.GatewayStatus.{update_gateway_status_if_changed}
use k8s_ssh_gateway_controll.Controllers.Reconcile.{Answer}
use k8s_ssh_gateway_controll.Controllers.Reconcile.Gateways.{
  gateway_class_if_managed, ensure_gateway_finalizer, ensure_plain_session, delete_answer,
  status_answer, after_finalizer, after_configure, with_owner, reconcile_gateway_delete,
  reconcile_found, reconcile_gateway,
}

-- A property of the registry and its pool that these calls keep.
pub record RegistryKept {P : Type 0} (api : SessionPool P) (I : Reconciler P → Type 0)
    : Type 0 where
  pub by_call : (r : Reconciler P) (c : GatewayCall) → I r → I (gateway_step api r c)
  pub by_configure :
      (r : Reconciler P) (version : ℤ) (sni : Bool)
      → I r
      → I (record r { pool = (api.configure r.pool version sni).0 })
  pub by_reconnection : (r : Reconciler P) → I r → I (record r { pool = api.reconnect r.pool })

module _ {P W : Type 0} (api : SessionPool P) (cluster : Cluster W) (env : Environment)
    (parse_url : Text → Option Url) (I : Reconciler P → Type 0) (kept_by : RegistryKept api I) where
  -- The registry that a loop leaves has the property.
  abbrev Keeping : (W × Reconciler P) × Answer → Type 0
  Keeping o = I o.0.1

  plain-Keeping :
      (r : Reconciler P) → I r → I (record r { pool = (ensure_plain_session api r.pool).0 })
  unfolding ensure_plain_session
  plain-Keeping r i =
      if_both (λ (x : P × Bool). I (record r { pool = x.0 })) (api.live_in r.pool session_plain) _ _
        (λ on. i) (λ off. kept_by.by_reconnection r i)

  required-Keeping :
      (r : Reconciler P) (required : List SessionKind)
      → I r
      → I (record r { pool = (reconnect_required_sessions api r.pool required).0 })
  unfolding reconnect_required_sessions
  required-Keeping r required i =
      if_both (λ (x : P × Bool). I (record r { pool = x.0 }))
        (any (λ (kind : SessionKind). not (api.live_in r.pool kind)) required) _ _
        (λ some_down. kept_by.by_reconnection r i) (λ all_up. i)

  delete_answer-Keeping :
      (r : Reconciler P) (o : Updated W GatewayObject)
      → I r
      → Keeping (delete_answer api cluster env parse_url r o)
  delete_answer-Keeping r (w, (gw, none)) i = i
  delete_answer-Keeping r (w, (gw, some e)) i = i

  reconcile_gateway_delete-Keeping :
      (w : W) (r : Reconciler P) (gw : GatewayObject) (managed : Bool)
      → I r
      → Keeping (reconcile_gateway_delete api cluster env parse_url w r gw managed)
  unfolding reconcile_gateway_delete gateway_step
  reconcile_gateway_delete-Keeping w r gw managed i =
      if_both Keeping managed _ _
        (λ yes.
          delete_answer-Keeping (handle_delete_gateway api r gw.spec)
            (cluster.update_gateway w
              (record gw { finalizers = remove_string gw.finalizers (get_gateway_finalizer env) }))
            (kept_by.by_call r (deletes gw.spec) i))
        (λ no. i)

  status_answer-Keeping :
      (r : Reconciler P) (o : Updated W GatewayObject)
      → I r
      → Keeping (status_answer api cluster env parse_url r o)
  status_answer-Keeping r (w, (gw, none)) i = i
  status_answer-Keeping r (w, (gw, some e)) i = i

  after_finalizer-Keeping :
      (r : Reconciler P) (gc : GatewayClass) (o : Updated W GatewayObject)
      → I r
      → Keeping (after_finalizer api cluster env parse_url r gc o)
  unfolding gateway_step
  after_finalizer-Keeping r gc (w, (gw, some e)) i = i
  after_finalizer-Keeping r gc (w, (gw, none)) i =
      let r' = handle_add_or_update_gateway api r gw.spec in
      status_answer-Keeping r' (update_gateway_status_if_changed api cluster parse_url w r' gw gc)
        (kept_by.by_call r (adds_or_updates gw.spec) i)

  after_configure-Keeping :
      (w : W) (r : Reconciler P) (gw : GatewayObject) (gc : GatewayClass)
      (sessions : ClassSessionConfig) (o : P × Option SshError)
      → I (record r { pool = o.0 })
      → Keeping (after_configure api cluster env parse_url w r gw gc sessions o)
  after_configure-Keeping w r gw gc sessions (p, some e) i = i
  after_configure-Keeping w r gw gc sessions (p, none) i =
      let again = required-Keeping (record r { pool = p }) (required_session_kinds sessions) i in
      if_both Keeping (reconnect_required_sessions api p (required_session_kinds sessions)).1 _ _
        (λ up.
          after_finalizer-Keeping
            (record r {
              pool = (reconnect_required_sessions api p (required_session_kinds sessions)).0;
            })
            gc (ensure_gateway_finalizer cluster env w gw) again)
        (λ down. again)

  with_owner-Keeping :
      (r : Reconciler P) (gw : GatewayObject) (o : W × (Option GatewayClass ⊎ ApiError))
      → I r
      → Keeping (with_owner api cluster env parse_url r gw o)
  with_owner-Keeping r gw (w, inr e) i = i
  with_owner-Keeping r gw (w, inl none) i = i
  with_owner-Keeping r gw (w, inl (some gc)) i =
      after_configure-Keeping w r gw gc (parse_class_session_config gc.annotations)
        (api.configure r.pool (parse_class_session_config gc.annotations).proxy_protocol_version
          (parse_class_session_config gc.annotations).sni_proxy_enabled)
        (kept_by.by_configure r (parse_class_session_config gc.annotations).proxy_protocol_version
          (parse_class_session_config gc.annotations).sni_proxy_enabled i)

  reconcile_found-Keeping :
      (r : Reconciler P) (o : Fetched W GatewayObject)
      → I r
      → Keeping (reconcile_found api cluster env parse_url r o)
  reconcile_found-Keeping r (w, inr e) i = i
  reconcile_found-Keeping r (w, inl gw) i =
      if_both Keeping gw.is_deleted _ _
        (λ yes.
          reconcile_gateway_delete-Keeping w r gw
            (contains_string gw.finalizers (get_gateway_finalizer env)) i)
        (λ no.
          with_owner-Keeping r gw
            (gateway_class_if_managed cluster env w gw
              (contains_string gw.finalizers (get_gateway_finalizer env)))
            i)

  pub reconcile_gateway-Keeping :
      (w : W) (r : Reconciler P) (namespace name : Text)
      → I r
      → Keeping (reconcile_gateway api cluster env parse_url w r namespace name)
  unfolding reconcile_gateway
  reconcile_gateway-Keeping w r namespace name i =
      let i' = plain-Keeping r i in
      if_both Keeping (ensure_plain_session api r.pool).1 _ _
        (λ up.
          reconcile_found-Keeping (record r { pool = (ensure_plain_session api r.pool).0 })
            (cluster.get_gateway w namespace name) i')
        (λ down. i')
