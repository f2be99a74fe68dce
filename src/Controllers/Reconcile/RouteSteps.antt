-- ===== src/Controllers/Reconcile/RouteSteps.antt =====
-- The reconcile loops of routes against the calls of SetRoute and RemoveRoute that they may make.
use k8s_ssh_gateway_controll.Controllers.Reconcile.RouteCalls.{
  is_retried-pending, is_gone-absent, set_route_with_status-same, remove_route_with_status-same,
  outcome-parts,
}
use k8s_ssh_gateway_controll.Controllers.Objects.{
  not_found, conflict, failed_with, GatewayObject, GatewayClass,
}
use k8s_ssh_gateway_controll.Controllers.Reconcile.Gateways.{managed_class, managed_gateway}
use k8s_ssh_gateway_controll.Prelude.{
  ◌≡◌, refl, sym, ap, ◌∙◌, subst, ◌⊎◌, inl, inr, Bool, true, false, Option, none, some, if_both,
}
use k8s_ssh_gateway_controll.Prelude.Eq.{int_eq, nat_eq}
use k8s_ssh_gateway_controll.Go.Text.{Text, text, text_eq}
use k8s_ssh_gateway_controll.Ssh.Flags.{kind_eq}
use k8s_ssh_gateway_controll.Controllers.Parents.{
  ParentRef, RouteDetails, extract_parent_gateway_ref, DetailsError, first,
}
use k8s_ssh_gateway_controll.Controllers.Gateway.State.{SessionPool, GatewayError, Reconciler}
use k8s_ssh_gateway_controll.Controllers.Names.{remove_string, Environment}
use k8s_ssh_gateway_controll.Controllers.Objects.{
  ApiError, RouteObject, RouteKind, Cluster, Updated,
}
use k8s_ssh_gateway_controll.Controllers.RouteStatus.{
  condition_eq, accepted_route_conditions, pending_route_conditions,
}
use k8s_ssh_gateway_controll.Controllers.Addresses.{Url}
use k8s_ssh_gateway_controll.Controllers.Reconcile.{
  no_requeue, after_route_period, after_retry_period, api_failed, details_failed, Answer, finished,
  fails, ignore_not_found,
}
use k8s_ssh_gateway_controll.Controllers.Reconcile.Gateways.{is_gateway_managed}
use k8s_ssh_gateway_controll.Controllers.Reconcile.Routes.{
  with_status, set_route_with_status, remove_route_with_status, is_retried, is_gone, after_set,
  after_add_finalizer, ensure_route_finalizer, handle_add_or_update, finalizer_removed,
  after_remove, handle_deletion, reconcile_owned, if_managed, by_parent, route_found,
  reconcile_route,
}
use k8s_ssh_gateway_controll.Controllers.Reconcile.RouteEffects.{
  is_pending, Managed, gateway_absent, gateway_unread, class_absent, class_unread, compared, let_go,
  is_removed, is_reported, set_by, removed_by, cluster_set, cluster_removed, Shown, has_ours, Ours,
  finalized, targets_ours, Marked, had_finalizer, gets_finalizer, Idle, unread, no_gateway,
  not_ours, unchecked, undetailed, leaving, refused, RouteStep, idles, attaches, waits, gives_up,
  overruns, detaches, stays,
}

module _ {P W : Type 0} (api : SessionPool P) (cluster : Cluster W) (env : Environment)
    (parse_url : Text → Option Url) (kind : RouteKind) (finalizer : Text)
    (extract : RouteObject → RouteDetails ⊎ DetailsError) (w : W) (r : Reconciler P)
    (namespace name : Text) where
  abbrev set_result : RouteDetails → Reconciler P × Option GatewayError
  set_result = set_by api cluster env parse_url kind finalizer extract w r namespace name

  abbrev removal_result : RouteDetails → Reconciler P × Option GatewayError
  removal_result = removed_by api cluster env parse_url kind finalizer extract w r namespace name

  abbrev set_cluster : W → RouteDetails → W
  set_cluster = cluster_set api cluster env parse_url kind finalizer extract w r namespace name

  abbrev removed_cluster : W → RouteDetails → W
  removed_cluster =
      cluster_removed api cluster env parse_url kind finalizer extract w r namespace name

  abbrev IsShown : RouteObject → Type 0
  IsShown = Shown api cluster env parse_url kind finalizer extract w r namespace name

  abbrev ours_on : RouteObject → Bool
  ours_on = has_ours api cluster env parse_url kind finalizer extract w r namespace name

  abbrev IsOurs : RouteObject → W → Type 0
  IsOurs = Ours api cluster env parse_url kind finalizer extract w r namespace name

  abbrev IsMarked : RouteObject → RouteObject → W → Type 0
  IsMarked = Marked api cluster env parse_url kind finalizer extract w r namespace name

  abbrev IsIdle : W → Answer → Type 0
  IsIdle = Idle api cluster env parse_url kind finalizer extract w r namespace name

  abbrev Steps : (W × Reconciler P) × Answer → Type 0
  Steps o =
      RouteStep api cluster env parse_url kind finalizer extract w r namespace name o.0.0 o.0.1 o.1

  module _ (route : RouteObject) (d : RouteDetails) (detailed : extract route ≡ inl d) where
    module _ (living : route.is_deleted ≡ false) (marked : RouteObject) (w' : W)
        (ready : IsMarked route marked w') where
      attached-Steps :
          (o : Option ParentRef)
          → first marked.parent_refs ≡ o
          → (set_result d).1 ≡ none
          → Steps (
              with_status api cluster env parse_url kind finalizer extract
                (set_cluster w' d)
                (set_result d).0
                marked
                accepted_route_conditions
                after_route_period
                o)
      attached-Steps none at done =
          overruns route marked w' d ready living detailed (ap is_reported done) at
      attached-Steps (some parent_ref) at done =
          attaches route marked w' d parent_ref ready living detailed done at

      waiting-Steps :
          (o : Option ParentRef) (e : GatewayError)
          → first marked.parent_refs ≡ o
          → (set_result d).1 ≡ some e
          → is_retried e ≡ true
          → Steps (
              with_status api cluster env parse_url kind finalizer extract
                (set_cluster w' d)
                (set_result d).0
                marked
                (pending_route_conditions (text "Parent Gateway is not ready"))
                after_retry_period
                o)
      waiting-Steps none e at done later =
          overruns route marked w' d ready living detailed (ap is_reported done ∙ later) at
      waiting-Steps (some parent_ref) e at done later =
          waits route marked w' d e parent_ref ready living detailed done later at

      set-Steps :
          (o : Option GatewayError)
          → (set_result d).1 ≡ o
          → Steps (
              after_set api cluster env parse_url kind finalizer extract marked
                ((set_cluster w' d, (set_result d).0), o))
      set-Steps none done = attached-Steps (first marked.parent_refs) refl done
      set-Steps (some e) done =
          if_both Steps (is_retried e) _ _
            (λ retried.
              let later : is_pending e ≡ true = sym (is_retried-pending e) ∙ retried in
              waiting-Steps (first marked.parent_refs) e refl done later)
            (λ given_up.
              gives_up route marked w' d e ready living detailed done
                (sym (is_retried-pending e) ∙ given_up))

    after_add_finalizer-Steps :
        (o : Updated W RouteObject)
        → route.is_deleted ≡ false
        → (o.1.1 ≡ none → IsMarked route o.1.0 o.0)
        → ((e : ApiError) → o.1.1 ≡ some e → IsIdle o.0 (fails (api_failed e)))
        → Steps (after_add_finalizer api cluster env parse_url kind finalizer extract r d o)
    after_add_finalizer-Steps (w', (marked, some e)) living ready held =
        idles w' (fails (api_failed e)) (held e refl)
    after_add_finalizer-Steps (w', (marked, none)) living ready held =
        subst
          (λ (o : (W × Reconciler P) × Option GatewayError).
            Steps (after_set api cluster env parse_url kind finalizer extract marked o))
          (outcome-parts api cluster parse_url r w' d
            (set_route_with_status api cluster parse_url w' r d) (set_result d)
            (set_route_with_status-same api cluster parse_url r w' d))
          (set-Steps living marked w' (ready refl) (set_result d).1 refl)

    module _ (w' : W) (ours : IsOurs route w') where
      handle_add_or_update-Steps :
          route.is_deleted ≡ false
          → Steps
              (handle_add_or_update api cluster env parse_url kind finalizer extract w' r route d)
      unfolding handle_add_or_update
      handle_add_or_update-Steps living =
          let (ready, held) =
            if_both
              (λ (o : Updated W RouteObject).
                (o.1.1 ≡ none → IsMarked route o.1.0 o.0)
                × ((e : ApiError) → o.1.1 ≡ some e → IsIdle o.0 (fails (api_failed e))))
              (ours_on route) _ _
              (λ mine. (
                λ done. had_finalizer route w' ours mine,
                λ (e : ApiError). λ (failed_so : none ≡ some e). absurd (cc failed_so),
              ))
              (λ lacking. (
                λ done. gets_finalizer route w' ours lacking done,
                λ e failed_so. refused route w' e ours living lacking failed_so,
              )) in
          after_add_finalizer-Steps
            (ensure_route_finalizer api cluster env parse_url kind finalizer extract w' route)
            living ready held

      finalizer_removed-let_go :
          (r' : Reconciler P) (o : Updated W RouteObject)
          → ((o.0, r'), let_go o.1.1)
            ≡ finalizer_removed api cluster env parse_url kind finalizer extract r' o
      finalizer_removed-let_go r' (w'', (gone, none)) = refl
      finalizer_removed-let_go r' (w'', (gone, some e)) = refl

      module _ (deleted : route.is_deleted ≡ true) (mine : ours_on route ≡ true) where
        released-Steps :
            is_removed (removal_result d).1 ≡ true
            → Steps (
                finalizer_removed api cluster env parse_url kind finalizer extract
                  (removal_result d).0
                  (cluster.update_route
                    (removed_cluster w' d)
                    kind
                    (record route { finalizers = remove_string route.finalizers finalizer })))
        released-Steps gone =
            subst Steps
              (finalizer_removed-let_go (removal_result d).0 (
                cluster.update_route (removed_cluster w' d) kind
                  (record route { finalizers = remove_string route.finalizers finalizer })))
              (detaches route w' d ours deleted mine detailed gone)

        removed-Steps :
            (o : Option GatewayError)
            → (removal_result d).1 ≡ o
            → Steps (
                after_remove api cluster env parse_url kind finalizer extract route
                  ((removed_cluster w' d, (removal_result d).0), o))
        removed-Steps none done = released-Steps (ap is_removed done)
        removed-Steps (some e) done =
            if_both Steps (is_gone e) _ _
              (λ gone. released-Steps (ap is_removed done ∙ sym (is_gone-absent e) ∙ gone))
              (λ there.
                stays route w' d e ours deleted mine detailed done (sym (is_gone-absent e) ∙ there))

        handle_deletion-Steps :
            Steps (handle_deletion api cluster env parse_url kind finalizer extract w' r route d)
        unfolding handle_deletion
        handle_deletion-Steps = rw mine (
            subst
              (λ (o : (W × Reconciler P) × Option GatewayError).
                Steps (after_remove api cluster env parse_url kind finalizer extract route o))
              (outcome-parts api cluster parse_url r w' d
                (remove_route_with_status api cluster parse_url w' r d) (removal_result d)
                (remove_route_with_status-same api cluster parse_url r w' d))
              (removed-Steps (removal_result d).1 refl))

  reconcile_owned-Steps :
      (w' : W) (route : RouteObject) (o : RouteDetails ⊎ DetailsError)
      → extract route ≡ o
      → IsOurs route w'
      → Steps (reconcile_owned api cluster env parse_url kind finalizer extract w' r route o)
  reconcile_owned-Steps w' route (inr e) detailed ours =
      idles w' (fails (details_failed e)) (undetailed route w' e ours detailed)
  reconcile_owned-Steps w' route (inl d) detailed ours =
      if_both Steps route.is_deleted _ _
        (λ deleted.
          if_both Steps (ours_on route) _ _
            (λ mine. handle_deletion-Steps route d detailed w' ours deleted mine)
            (λ lacking. idles w' (finished no_requeue) (leaving route w' ours deleted lacking)))
        (λ living. handle_add_or_update-Steps route d detailed w' ours living)

  abbrev IsManaged : W → Text → Text → W → Bool ⊎ ApiError → Type 0
  IsManaged = Managed api cluster env parse_url kind finalizer extract w r namespace name

  module _ (w' : W) (gw_namespace gw_name : Text) where
    abbrev gateway_cluster : W
    gateway_cluster = (cluster.get_gateway w' gw_namespace gw_name).0

    abbrev ManagedSo : W × (Bool ⊎ ApiError) → Type 0
    ManagedSo o = IsManaged w' gw_namespace gw_name o.0 o.1

    managed_class-Managed :
        (gw : GatewayObject) (o : GatewayClass ⊎ ApiError)
        → (cluster.get_gateway w' gw_namespace gw_name).1 ≡ inl gw
        → (cluster.get_class gateway_cluster gw.class_name).1 ≡ o
        → ManagedSo
            (managed_class cluster env ((cluster.get_class gateway_cluster gw.class_name).0, o))
    managed_class-Managed gw (inl gc) there found = compared gw gc there found
    managed_class-Managed gw (inr not_found) there found = class_absent gw there found
    managed_class-Managed gw (inr conflict) there found = class_unread gw conflict there found refl
    managed_class-Managed gw (inr (failed_with e)) there found =
        class_unread gw (failed_with e) there found refl

    managed_gateway-Managed :
        (o : GatewayObject ⊎ ApiError)
        → (cluster.get_gateway w' gw_namespace gw_name).1 ≡ o
        → ManagedSo (managed_gateway cluster env (gateway_cluster, o))
    managed_gateway-Managed (inl gw) found =
        managed_class-Managed gw (cluster.get_class gateway_cluster gw.class_name).1 found refl
    managed_gateway-Managed (inr not_found) found = gateway_absent found
    managed_gateway-Managed (inr conflict) found = gateway_unread conflict found refl
    managed_gateway-Managed (inr (failed_with e)) found = gateway_unread (failed_with e) found refl

    is_gateway_managed-Managed : ManagedSo (is_gateway_managed cluster env w' gw_namespace gw_name)
    unfolding is_gateway_managed
    is_gateway_managed-Managed =
        managed_gateway-Managed (cluster.get_gateway w' gw_namespace gw_name).1 refl

  module _ (route : RouteObject) (there : IsShown route) (lacking : ours_on route ≡ false) where
    if_managed-Steps :
        (gw_namespace gw_name : Text) (o : W × (Bool ⊎ ApiError))
        → extract_parent_gateway_ref route.parent_refs route.namespace ≡ inl (gw_namespace, gw_name)
        → IsManaged (cluster.get_route w kind namespace name).0 gw_namespace gw_name o.0 o.1
        → Steps (if_managed api cluster env parse_url kind finalizer extract r route o)
    if_managed-Steps gw_namespace gw_name (w', inr e) targets checked =
        idles w' (fails (api_failed e))
          (unchecked route gw_namespace gw_name w' e there lacking targets checked)
    if_managed-Steps gw_namespace gw_name (w', inl true) targets checked =
        reconcile_owned-Steps w' route (extract route) refl
          (targets_ours route gw_namespace gw_name w' there lacking targets checked)
    if_managed-Steps gw_namespace gw_name (w', inl false) targets checked =
        idles w' (finished no_requeue)
          (not_ours route gw_namespace gw_name w' there lacking targets checked)

    by_parent-Steps :
        (o : (Text × Text) ⊎ DetailsError)
        → extract_parent_gateway_ref route.parent_refs route.namespace ≡ o
        → Steps (
            by_parent api cluster env parse_url kind finalizer extract
              (cluster.get_route w kind namespace name).0
              r
              route
              o)
    by_parent-Steps (inr e) targets =
        idles _ (finished no_requeue) (no_gateway route e there lacking targets)
    by_parent-Steps (inl (gw_namespace, gw_name)) targets =
        if_managed-Steps gw_namespace gw_name
          (is_gateway_managed cluster env (cluster.get_route w kind namespace name).0 gw_namespace
            gw_name)
          targets
          (is_gateway_managed-Managed (cluster.get_route w kind namespace name).0 gw_namespace
            gw_name)

  route_found-Steps :
      (o : RouteObject ⊎ ApiError)
      → (cluster.get_route w kind namespace name).1 ≡ o
      → Steps (
          route_found api cluster env parse_url kind finalizer extract r
            ((cluster.get_route w kind namespace name).0, o))
  route_found-Steps (inr e) found = idles _ (ignore_not_found e) (unread e found)
  route_found-Steps (inl route) found =
      if_both Steps (ours_on route) _ _
        (λ mine. reconcile_owned-Steps _ route (extract route) refl (finalized route found mine))
        (λ lacking.
          by_parent-Steps route found lacking
            (extract_parent_gateway_ref route.parent_refs route.namespace) refl)

  pub reconcile_route-Steps :
      Steps (reconcile_route api cluster env parse_url kind finalizer extract w r namespace name)
  unfolding reconcile_route
  reconcile_route-Steps = route_found-Steps (cluster.get_route w kind namespace name).1 refl

module _ {P W : Type 0} (api : SessionPool P) (cluster : Cluster W) (env : Environment)
    (parse_url : Text → Option Url) (w : W) (r : Reconciler P) (namespace name : Text) where
  abbrev pub StepOf :
      RouteKind
      → Text
      → (RouteObject → RouteDetails ⊎ DetailsError)
      → (W × Reconciler P) × Answer
      → Type 0
  StepOf kind finalizer extract o =
      RouteStep api cluster env parse_url kind finalizer extract w r namespace name o.0.0 o.0.1 o.1
