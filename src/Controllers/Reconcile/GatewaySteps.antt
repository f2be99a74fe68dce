-- ===== src/Controllers/Reconcile/GatewaySteps.antt =====
-- The reconcile loop of Gateways against the calls that it may make on the registry and the pool.
use k8s_ssh_gateway_controll.Prelude.{
  ◌∙◌, sym, false, subst, ◌≡◌, refl, ◌⊎◌, inl, inr, Bool, true, not, Option, none, some, arith,
  if_both, any,
}
use k8s_ssh_gateway_controll.Prelude.Eq.{◌==◌, int_eq, nat_eq}
use k8s_ssh_gateway_controll.Go.Text.{Text, text_eq}
use k8s_ssh_gateway_controll.Ssh.Errors.{SshError}
use k8s_ssh_gateway_controll.Ssh.Flags.{SessionKind, session_plain, kind_eq}
use k8s_ssh_gateway_controll.Controllers.Annotations.{
  parse_class_session_config, required_session_kinds,
}
use k8s_ssh_gateway_controll.Controllers.Gateway.State.{SessionPool, Reconciler}
use k8s_ssh_gateway_controll.Controllers.Gateway.Attaching.{reconnect_required_sessions}
use k8s_ssh_gateway_controll.Controllers.Gateway.Specs.{handle_delete_gateway}
use k8s_ssh_gateway_controll.Controllers.Names.{Environment, get_gateway_controller_name}
use k8s_ssh_gateway_controll.Controllers.Objects.{
  ApiError, GatewayObject, GatewayClass, Cluster, Updated,
}
use k8s_ssh_gateway_controll.Controllers.RouteStatus.{condition_eq}
use k8s_ssh_gateway_controll.Controllers.Addresses.{Url}
use k8s_ssh_gateway_controll.Controllers.Reconcile.{
  no_requeue, after_10_seconds, api_failed, Answer, finished, fails, ignore_not_found,
}
use k8s_ssh_gateway_controll.Controllers.Reconcile.Gateways.{
  ensure_plain_session, gateway_class_if_managed, class_if_managed, ensure_gateway_finalizer,
  delete_answer, status_answer, after_finalizer, after_configure, with_owner,
  reconcile_gateway_delete, reconcile_found, reconcile_gateway,
}
use k8s_ssh_gateway_controll.Controllers.Reconcile.GatewayEffects.{
  IsUp, is_any_down, written, let_go, plain, cluster_read, cluster_classed, Shown, has_ours,
  without_ours, Classed, is_claimed, configured, reconnected, AllLive, Marked, had_finalizer,
  gets_finalizer, Idle, plain_down, unread, leaving, class_unread, not_ours, unconfigured,
  session_down, refused, updated, status_written, GatewayStep, idles, updates, removes,
}

module _ {P W : Type 0} (api : SessionPool P) (cluster : Cluster W) (env : Environment)
    (parse_url : Text → Option Url) (w : W) (r : Reconciler P) (namespace name : Text) where
  abbrev Steps : (W × Reconciler P) × Answer → Type 0
  Steps o = GatewayStep api cluster env parse_url w r namespace name o.0.0 o.0.1 o.1

  abbrev IsShown : GatewayObject → Type 0
  IsShown = Shown api cluster env parse_url w r namespace name

  abbrev IsClassed : GatewayObject → GatewayClass → Type 0
  IsClassed = Classed api cluster env parse_url w r namespace name

  abbrev ours_on : GatewayObject → Bool
  ours_on = has_ours api cluster env parse_url w r namespace name

  abbrev claimed_by : GatewayObject → GatewayClass → Bool
  claimed_by = is_claimed api cluster env parse_url w r namespace name

  abbrev IsMarked : GatewayObject → GatewayObject → W → Type 0
  IsMarked = Marked api cluster env parse_url w r namespace name

  abbrev IsIdle : W → P → Answer → Type 0
  IsIdle = Idle api cluster env parse_url w r namespace name

  abbrev read_cluster : W
  read_cluster = cluster_read api cluster env parse_url w r namespace name

  abbrev classed_cluster : GatewayObject → W
  classed_cluster = cluster_classed api cluster env parse_url w r namespace name

  abbrev plain_pool : P
  plain_pool = (plain api cluster env parse_url w r namespace name).0

  abbrev configured_pool : GatewayClass → P × Option SshError
  configured_pool = configured api cluster env parse_url w r namespace name

  abbrev reconnected_pool : GatewayClass → P × Bool
  reconnected_pool = reconnected api cluster env parse_url w r namespace name

  delete_answer-let_go :
      (r' : Reconciler P) (o : Updated W GatewayObject)
      → ((o.0, r'), let_go o.1.1) ≡ delete_answer api cluster env parse_url r' o
  delete_answer-let_go r' (w', (gw, none)) = refl
  delete_answer-let_go r' (w', (gw, some e)) = refl

  status_answer-written :
      (r' : Reconciler P) (o : Updated W GatewayObject)
      → ((o.0, r'), written o.1.1) ≡ status_answer api cluster env parse_url r' o
  status_answer-written r' (w', (gw, none)) = refl
  status_answer-written r' (w', (gw, some e)) = refl

  module _ (gw : GatewayObject) (gc : GatewayClass) (classed : IsClassed gw gc)
      (claimed : claimed_by gw gc ≡ true) where
    module _ (done : (configured_pool gc).1 ≡ none) where
      after_finalizer-Steps :
          AllLive api cluster env parse_url w r namespace name gc
          → (o : Updated W GatewayObject) → (o.1.1 ≡ none → IsMarked gw o.1.0 o.0)
          → ((e : ApiError)
              → o.1.1 ≡ some e
              → IsIdle o.0 (reconnected_pool gc).0 (fails (api_failed e)))
          → Steps (
              after_finalizer api cluster env parse_url
                (record r { pool = (reconnected_pool gc).0 })
                gc
                o)
      after_finalizer-Steps live (w', (marked, some e)) ready held =
          idles w' (reconnected_pool gc).0 (fails (api_failed e)) (held e refl)
      after_finalizer-Steps live (w', (marked, none)) ready held =
          subst Steps
            (status_answer-written (updated api cluster env parse_url w r namespace name gc marked)
              (status_written api cluster env parse_url w r namespace name gc marked w'))
            (updates gw marked gc w' classed claimed done live (ready refl))

      ensured-Steps :
          AllLive api cluster env parse_url w r namespace name gc
          → Steps (
              after_finalizer api cluster env parse_url
                (record r { pool = (reconnected_pool gc).0 })
                gc
                (ensure_gateway_finalizer cluster env (classed_cluster gw) gw))
      unfolding ensure_gateway_finalizer
      ensured-Steps live =
          let (ready, held) =
            if_both
              (λ (o : Updated W GatewayObject).
                (o.1.1 ≡ none → IsMarked gw o.1.0 o.0)
                × ((e : ApiError)
                    → o.1.1 ≡ some e
                    → IsIdle o.0 (reconnected_pool gc).0 (fails (api_failed e))))
              (ours_on gw) _ _
              (λ mine. (
                λ ok. had_finalizer gw mine,
                λ (e : ApiError). λ (failed_so : none ≡ some e). absurd (cc failed_so),
              ))
              (λ lacking. (
                λ taken. gets_finalizer gw lacking taken,
                λ e failed_so. refused gw gc e classed claimed done live lacking failed_so,
              )) in
          after_finalizer-Steps live (ensure_gateway_finalizer cluster env (classed_cluster gw) gw)
            ready held

      reconnected-down :
          (reconnected_pool gc).1
          ≡ not (is_any_down api cluster env parse_url w r namespace name gc)
      unfolding reconnect_required_sessions
      reconnected-down =
          if_both
            (λ (x : P × Bool).
              x.1
              ≡ not (
                  any (λ (kind : SessionKind). not (api.live_in x.0 kind))
                    (required_session_kinds (parse_class_session_config gc.annotations))))
            (any (λ (kind : SessionKind). not (api.live_in (configured_pool gc).0 kind))
              (required_session_kinds (parse_class_session_config gc.annotations)))
            _ _ (λ some_down. refl) (λ all_up. ground (arith, all_up))

    after_configure-Steps :
        (o : Option SshError)
        → (configured_pool gc).1 ≡ o
        → Steps (
            after_configure api cluster env parse_url
              (classed_cluster gw)
              (record r { pool = plain_pool })
              gw
              gc
              (parse_class_session_config gc.annotations)
              ((configured_pool gc).0, o))
    after_configure-Steps (some e) done =
        idles _ _ (finished after_10_seconds) (unconfigured gw gc e classed claimed done)
    after_configure-Steps none done =
        if_both Steps (reconnected_pool gc).1 _ _
          (λ up. ensured-Steps done (ground (arith, up, reconnected-down done)))
          (λ down.
            idles _ _ (finished after_10_seconds) (
              session_down gw gc classed claimed done
                (ground (arith, down, reconnected-down done))))

  class_if_managed-Steps :
      (gw : GatewayObject) (o : GatewayClass ⊎ ApiError)
      → IsShown gw
      → gw.is_deleted ≡ false
      → (cluster.get_class read_cluster gw.class_name).1 ≡ o
      → Steps (
          with_owner api cluster env parse_url
            (record r { pool = plain_pool })
            gw
            (class_if_managed cluster env (ours_on gw) (classed_cluster gw, o)))
  class_if_managed-Steps gw (inr e) there living found =
      idles _ plain_pool (fails (api_failed e)) (class_unread gw e there living found)
  class_if_managed-Steps gw (inl gc) there living found =
      let Owned : W × (Option GatewayClass ⊎ ApiError) → Type 0 =
        λ x. Steps (with_owner api cluster env parse_url (record r { pool = plain_pool }) gw x) in
      let claimed_so : claimed_by gw gc ≡ true → Owned (classed_cluster gw, inl (some gc)) =
        λ claimed.
          after_configure-Steps gw gc (there, living, found) claimed (configured_pool gc).1 refl in
      if_both Owned (ours_on gw) _ _ (λ mine. claimed_so (ground (arith, mine)))
        (λ lacking.
          if_both Owned (gc.controller_name == get_gateway_controller_name env) _ _
            (λ named. claimed_so (ground (arith, named)))
            (λ unnamed.
              idles _ plain_pool (finished no_requeue)
                (not_ours gw gc (there, living, found) (ground (arith, lacking, unnamed)))))

  plain-live :
      (plain api cluster env parse_url w r namespace name).1 ≡ api.live_in plain_pool session_plain
  unfolding ensure_plain_session
  plain-live =
      if_both (λ (x : P × Bool). x.1 ≡ api.live_in x.0 session_plain)
        (api.live_in r.pool session_plain) _ _ (λ on. sym on) (λ off. refl)

  reconcile_found-Steps :
      (o : GatewayObject ⊎ ApiError)
      → IsUp api cluster env parse_url w r namespace name
      → (cluster.get_gateway w namespace name).1 ≡ o
      → Steps (
          reconcile_found api cluster env parse_url
            (record r { pool = plain_pool })
            (read_cluster, o))
  unfolding reconcile_gateway_delete gateway_class_if_managed
  reconcile_found-Steps (inr e) up found =
      idles _ plain_pool (ignore_not_found e) (unread e up found)
  reconcile_found-Steps (inl gw) up found =
      if_both Steps gw.is_deleted _ _
        (λ deleted.
          if_both Steps (ours_on gw) _ _
            (λ mine.
              subst Steps
                (delete_answer-let_go
                  (handle_delete_gateway api (record r { pool = plain_pool }) gw.spec)
                  (cluster.update_gateway read_cluster
                    (without_ours api cluster env parse_url w r namespace name gw)))
                (removes gw (up, found) deleted mine))
            (λ lacking.
              idles _ plain_pool (finished no_requeue) (leaving gw (up, found) deleted lacking)))
        (λ living.
          class_if_managed-Steps gw (cluster.get_class read_cluster gw.class_name).1 (up, found)
            living refl)

  -- The loop of Gateways, once the plain session is connected, works on the Gateway that the API
  -- shows. A deleted Gateway with our finalizer gets handleDeleteGateway, and the API then gets it
  -- without the finalizer. A living one is looked up with the class that the API shows under its
  -- class's name: if it has our finalizer or that class names this controller, the pool is
  -- configured by the annotations of the class, and if that succeeds and every session that the
  -- class requires is connected then, it gets our finalizer, one handleAddOrUpdateGateway with the
  -- Gateway as shown or as the API answered, and its status. In every other case the listeners stay
  -- as they were, and only the pool may have changed: a required session is down, the Gateway or its
  -- class cannot be read, the Gateway is not ours, or the API refuses the finalizer.
  pub reconcile_gateway-GatewayStep :
      GatewayStep api cluster env parse_url w r namespace name
        (reconcile_gateway api cluster env parse_url w r namespace name).0.0
        (reconcile_gateway api cluster env parse_url w r namespace name).0.1
        (reconcile_gateway api cluster env parse_url w r namespace name).1
  unfolding reconcile_gateway
  reconcile_gateway-GatewayStep =
      if_both Steps (plain api cluster env parse_url w r namespace name).1 _ _
        (λ up.
          reconcile_found-Steps (cluster.get_gateway w namespace name).1 (sym plain-live ∙ up) refl)
        (λ down.
          idles w plain_pool (finished after_10_seconds) (plain_down (sym plain-live ∙ down)))
