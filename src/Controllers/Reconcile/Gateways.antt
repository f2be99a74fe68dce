-- ===== src/Controllers/Reconcile/Gateways.antt =====
-- controllers/gateway_controller.go: the reconcile loops of Gateways and GatewayClasses, and
-- IsGatewayManaged.
use k8s_ssh_gateway_controll.Prelude.{
  ℕ, ◌⊎◌, inl, inr, Bool, true, false, Option, none, some, [], ◌∷◌, ◌++◌, if◌then◌else◌,
}
use k8s_ssh_gateway_controll.Prelude.Eq.{◌==◌, int_eq, nat_eq}
use k8s_ssh_gateway_controll.Go.Text.{Text, text, text_eq}
use k8s_ssh_gateway_controll.Ssh.Errors.{SshError}
use k8s_ssh_gateway_controll.Ssh.Flags.{session_plain, kind_eq}
use k8s_ssh_gateway_controll.Controllers.Annotations.{
  ClassSessionConfig, parse_class_session_config, required_session_kinds,
}
use k8s_ssh_gateway_controll.Controllers.Gateway.State.{SessionPool, Reconciler}
use k8s_ssh_gateway_controll.Controllers.Gateway.Attaching.{reconnect_required_sessions}
use k8s_ssh_gateway_controll.Controllers.Gateway.Specs.{
  handle_add_or_update_gateway, handle_delete_gateway,
}
use k8s_ssh_gateway_controll.Controllers.Names.{
  contains_string, remove_string, Environment, get_gateway_controller_name, get_gateway_finalizer,
}
use k8s_ssh_gateway_controll.Controllers.Objects.{
  ApiError, not_found, MetaCondition, GatewayObject, GatewayClass, Cluster, Fetched, Updated,
}
use k8s_ssh_gateway_controll.Controllers.RouteStatus.{condition_eq, new_condition}
use k8s_ssh_gateway_controll.Controllers.Addresses.{Url}
use k8s_ssh_gateway_controll.Controllers.GatewayStatus.{update_gateway_status_if_changed}
use k8s_ssh_gateway_controll.Controllers.Reconcile.{
  no_requeue, after_10_seconds, after_gateway_period, api_failed, Answer, finished, fails,
  ignore_not_found,
}

module _ {W : Type 0} (cluster : Cluster W) (env : Environment) where
  abbrev class_answer : Updated W GatewayClass → W × Answer
  class_answer (w, (gc, none)) = (w, finished no_requeue)
  class_answer (w, (gc, some e)) = (w, fails (api_failed e))

  -- The one condition that is written.
  abbrev class_accepted : ℕ → MetaCondition
  class_accepted time =
      record (new_condition (text "Accepted") (text "True") (text "Accepted")
        (text "Controller has accepted this GatewayClass")) { last_transition_time = time }

  abbrev class_found : Fetched W GatewayClass → W × Answer
  class_found (w, inr e) = (w, ignore_not_found e)
  class_found (w, inl gc) =
      if gc.controller_name == get_gateway_controller_name env
      then class_answer (
          cluster.update_class_status w
            (record gc { conditions = class_accepted (cluster.now w) ∷ [] }))
      else (w, finished no_requeue)

  -- GatewayClassReconciler.Reconcile
  unfoldable pub reconcile_class : W → Text → W × Answer
  unfolding get_gateway_controller_name
  reconcile_class w name = class_found (cluster.get_class w name)

  abbrev pub managed_class : Fetched W GatewayClass → W × (Bool ⊎ ApiError)
  managed_class (w, inr not_found) = (w, inl false)
  managed_class (w, inr e) = (w, inr e)
  managed_class (w, inl gc) = (w, inl (gc.controller_name == get_gateway_controller_name env))

  abbrev pub managed_gateway : Fetched W GatewayObject → W × (Bool ⊎ ApiError)
  managed_gateway (w, inr not_found) = (w, inl false)
  managed_gateway (w, inr e) = (w, inr e)
  managed_gateway (w, inl gw) = managed_class (cluster.get_class w gw.class_name)

  -- IsGatewayManaged
  unfoldable pub is_gateway_managed : W → Text → Text → W × (Bool ⊎ ApiError)
  unfolding get_gateway_controller_name
  is_gateway_managed w gw_namespace gw_name =
      managed_gateway (cluster.get_gateway w gw_namespace gw_name)

  -- gatewayClassIfManaged: the class if the Gateway is ours.
  abbrev pub class_if_managed : Bool → Fetched W GatewayClass → W × (Option GatewayClass ⊎ ApiError)
  class_if_managed is_managed_by_us (w, inr e) = (w, inr e)
  class_if_managed is_managed_by_us (w, inl gc) =
      if is_managed_by_us
      then (w, inl (some gc))
      else if gc.controller_name == get_gateway_controller_name env
      then (w, inl (some gc))
      else (w, inl none)

  -- gatewayClassIfManaged
  unfoldable pub gateway_class_if_managed :
      W → GatewayObject → Bool → W × (Option GatewayClass ⊎ ApiError)
  unfolding get_gateway_controller_name
  gateway_class_if_managed w gw is_managed_by_us =
      class_if_managed is_managed_by_us (cluster.get_class w gw.class_name)

  -- ensureGatewayFinalizer
  unfoldable pub ensure_gateway_finalizer : W → GatewayObject → Updated W GatewayObject
  unfolding contains_string get_gateway_finalizer
  ensure_gateway_finalizer w gw =
      if contains_string gw.finalizers (get_gateway_finalizer env)
      then (w, (gw, none))
      else cluster.update_gateway w
          (record gw { finalizers = gw.finalizers ++ get_gateway_finalizer env ∷ [] })

module _ {P : Type 0} (api : SessionPool P) where
  -- ensurePlainSSHSessionConnected
  unfoldable pub ensure_plain_session : P → P × Bool
  ensure_plain_session p =
      if api.live_in p session_plain
      then (p, true)
      else (api.reconnect p, api.live_in (api.reconnect p) session_plain)

module _ {P W : Type 0} (api : SessionPool P) (cluster : Cluster W) (env : Environment)
    (parse_url : Text → Option Url) where
  -- What a reconcile loop leaves: the cluster, the registry and the answer.
  abbrev pub Reconciled : Type 0
  Reconciled = (W × Reconciler P) × Answer

  abbrev pub delete_answer : Reconciler P → Updated W GatewayObject → Reconciled
  delete_answer r (w, (gw, none)) = ((w, r), finished no_requeue)
  delete_answer r (w, (gw, some e)) = ((w, r), fails (api_failed e))

  -- reconcileGatewayDelete
  unfoldable pub reconcile_gateway_delete : W → Reconciler P → GatewayObject → Bool → Reconciled
  unfolding handle_delete_gateway remove_string get_gateway_finalizer
  reconcile_gateway_delete w r gw is_managed_by_us =
      if is_managed_by_us
      then delete_answer (handle_delete_gateway api r gw.spec) (
          cluster.update_gateway w
            (record gw { finalizers = remove_string gw.finalizers (get_gateway_finalizer env) }))
      else ((w, r), finished no_requeue)

  abbrev pub status_answer : Reconciler P → Updated W GatewayObject → Reconciled
  status_answer r (w, (gw, none)) = ((w, r), finished after_gateway_period)
  status_answer r (w, (gw, some e)) = ((w, r), fails (api_failed e))

  -- The steps after the finalizer is there.
  abbrev pub after_finalizer : Reconciler P → GatewayClass → Updated W GatewayObject → Reconciled
  after_finalizer r gc (w, (gw, some e)) = ((w, r), fails (api_failed e))
  after_finalizer r gc (w, (gw, none)) =
      let r' = handle_add_or_update_gateway api r gw.spec in
      status_answer r' (update_gateway_status_if_changed api cluster parse_url w r' gw gc)

  -- The steps after ConfigureSessions.
  abbrev pub after_configure :
      W
      → Reconciler P
      → GatewayObject
      → GatewayClass
      → ClassSessionConfig
      → P × Option SshError
      → Reconciled
  after_configure w r gw gc sessions (p, some e) =
      ((w, record r { pool = p }), finished after_10_seconds)
  after_configure w r gw gc sessions (p, none) =
      let (p', connected) = reconnect_required_sessions api p (required_session_kinds sessions) in
      let done =
        after_finalizer (record r { pool = p' }) gc (ensure_gateway_finalizer cluster env w gw) in
      if connected then done else ((w, record r { pool = p' }), finished after_10_seconds)

  abbrev pub with_owner :
      Reconciler P → GatewayObject → W × (Option GatewayClass ⊎ ApiError) → Reconciled
  with_owner r gw (w, inr e) = ((w, r), fails (api_failed e))
  with_owner r gw (w, inl none) = ((w, r), finished no_requeue)
  with_owner r gw (w, inl (some gc)) =
      let sessions = parse_class_session_config gc.annotations in
      after_configure w r gw gc sessions
        (api.configure r.pool sessions.proxy_protocol_version sessions.sni_proxy_enabled)

  abbrev pub reconcile_found : Reconciler P → Fetched W GatewayObject → Reconciled
  reconcile_found r (w, inr e) = ((w, r), ignore_not_found e)
  reconcile_found r (w, inl gw) =
      let is_managed_by_us = contains_string gw.finalizers (get_gateway_finalizer env) in
      if gw.is_deleted
      then reconcile_gateway_delete w r gw is_managed_by_us
      else with_owner r gw (gateway_class_if_managed cluster env w gw is_managed_by_us)

  -- GatewayReconciler.Reconcile
  unfoldable pub reconcile_gateway : W → Reconciler P → Text → Text → Reconciled
  unfolding ensure_plain_session reconcile_gateway_delete gateway_class_if_managed contains_string
      get_gateway_finalizer reconnect_required_sessions required_session_kinds
      parse_class_session_config ensure_gateway_finalizer handle_add_or_update_gateway
      update_gateway_status_if_changed
  reconcile_gateway w r namespace name =
      let (p, connected) = ensure_plain_session api r.pool in
      if connected
      then reconcile_found (record r { pool = p }) (cluster.get_gateway w namespace name)
      else ((w, record r { pool = p }), finished after_10_seconds)
