-- ===== src/Controllers/Reconcile/NoPanic.antt =====
-- The route controllers do not index out of range.
use k8s_ssh_gateway_controll.Prelude.{
  ◌≡◌, refl, sym, ap, ◌∙◌, ◌≢◌, ◌⊎◌, inl, inr, Bool, Option, none, some, List, arith, Option-cases,
  if_both, length,
}
use k8s_ssh_gateway_controll.Prelude.Eq.{int_eq, nat_eq}
use k8s_ssh_gateway_controll.Go.Text.{Text, text, text_eq}
use k8s_ssh_gateway_controll.Ssh.Flags.{kind_eq}
use k8s_ssh_gateway_controll.Controllers.Parents.{
  ParentRef, RouteDetails, extract_parent_gateway_ref, extract_route_details-DetailsOf,
  DetailsError, first,
}
use k8s_ssh_gateway_controll.Controllers.Gateway.State.{SessionPool, GatewayError, Reconciler}
use k8s_ssh_gateway_controll.Controllers.Names.{
  contains_string, remove_string, Environment, get_http_route_finalizer, get_tcp_route_finalizer,
  get_tls_route_finalizer,
}
use k8s_ssh_gateway_controll.Controllers.Objects.{
  ApiError, not_found, conflict, failed_with, MetaCondition, RouteObject, RouteKind, http_route,
  tcp_route, tls_route, Cluster, Fetched, Updated,
}
use k8s_ssh_gateway_controll.Controllers.RouteStatus.{
  condition_eq, accepted_route_conditions, pending_route_conditions,
}
use k8s_ssh_gateway_controll.Controllers.RouteKinds.{
  extract_http_route_details, extract_tcp_route_details, extract_tls_route_details,
  http_details-agree, rule_backends,
}
use k8s_ssh_gateway_controll.Controllers.Addresses.{Url}
use k8s_ssh_gateway_controll.Controllers.Reconcile.{
  Requeue, after_route_period, after_retry_period, Answer, panics,
}
use k8s_ssh_gateway_controll.Controllers.Reconcile.Gateways.{is_gateway_managed}
use k8s_ssh_gateway_controll.Controllers.Reconcile.Routes.{
  with_status, set_route_with_status, remove_route_with_status, is_retried, is_gone, after_set,
  after_add_finalizer, ensure_route_finalizer, handle_add_or_update, finalizer_removed,
  after_remove, handle_deletion, reconcile_owned, if_managed, by_parent, route_found,
  reconcile_route, reconcile_http_route, reconcile_tcp_route, reconcile_tls_route,
}

-- The API keeps the parents of a route that it takes an update of.
pub record KeepsParents {W : Type 0} (cluster : Cluster W) : Type 0 where
  pub parents_kept :
      (w : W) (kind : RouteKind) (route : RouteObject)
      → (cluster.update_route w kind route).1.0.parent_refs ≡ route.parent_refs

module _ {P W : Type 0} (api : SessionPool P) (cluster : Cluster W) (env : Environment)
    (parse_url : Text → Option Url) (kind : RouteKind) (finalizer : Text)
    (extract : RouteObject → RouteDetails ⊎ DetailsError) (r : Reconciler P) where
  abbrev NoPanic : (W × Reconciler P) × Answer → Type 0
  NoPanic o = o.1 ≢ panics

  with_status-NoPanic :
      (w : W) (r' : Reconciler P) (route : RouteObject) (conditions : List MetaCondition)
      (period : Requeue) (o : Option ParentRef) (parent_ref : ParentRef)
      → o ≡ some parent_ref
      → NoPanic (
          with_status api cluster env parse_url kind finalizer extract w r' route conditions period
            o)
  with_status-NoPanic w r' route conditions period none parent_ref there = absurd cc
  with_status-NoPanic w r' route conditions period (some p) parent_ref there = λ h. cc

  after_set-NoPanic :
      (route : RouteObject) (parent_ref : ParentRef) (o : (W × Reconciler P) × Option GatewayError)
      → first route.parent_refs ≡ some parent_ref
      → NoPanic (after_set api cluster env parse_url kind finalizer extract route o)
  after_set-NoPanic route parent_ref ((w, r'), none) there =
      with_status-NoPanic w r' route accepted_route_conditions after_route_period _ parent_ref there
  after_set-NoPanic route parent_ref ((w, r'), some e) there =
      if_both NoPanic (is_retried e) _ _
        (λ later.
          with_status-NoPanic w r' route
            (pending_route_conditions (text "Parent Gateway is not ready")) after_retry_period _
            parent_ref there)
        (λ never. λ h. cc)

  after_add_finalizer-NoPanic :
      (d : RouteDetails) (parent_ref : ParentRef) (o : Updated W RouteObject)
      → first o.1.0.parent_refs ≡ some parent_ref
      → NoPanic (after_add_finalizer api cluster env parse_url kind finalizer extract r d o)
  after_add_finalizer-NoPanic d parent_ref (w, (route, some e)) there = λ h. cc
  after_add_finalizer-NoPanic d parent_ref (w, (route, none)) there =
      after_set-NoPanic route parent_ref (set_route_with_status api cluster parse_url w r d) there

  finalizer_removed-NoPanic :
      (r' : Reconciler P) (o : Updated W RouteObject)
      → NoPanic (finalizer_removed api cluster env parse_url kind finalizer extract r' o)
  finalizer_removed-NoPanic r' (w, (route, none)) = λ h. cc
  finalizer_removed-NoPanic r' (w, (route, some e)) = λ h. cc

  after_remove-NoPanic :
      (route : RouteObject) (o : (W × Reconciler P) × Option GatewayError)
      → NoPanic (after_remove api cluster env parse_url kind finalizer extract route o)
  after_remove-NoPanic route ((w, r'), none) = finalizer_removed-NoPanic r' (
      cluster.update_route w kind
        (record route { finalizers = remove_string route.finalizers finalizer }))
  after_remove-NoPanic route ((w, r'), some e) =
      if_both NoPanic (is_gone e) _ _
        (λ gone. finalizer_removed-NoPanic r' (
          cluster.update_route w kind
            (record route { finalizers = remove_string route.finalizers finalizer })))
        (λ there. λ h. cc)

  module _ (keeps : KeepsParents cluster)
      (has_parent : (route : RouteObject) (d : RouteDetails)
        → extract route ≡ inl d
        → (parent_ref : ParentRef) × (first route.parent_refs ≡ some parent_ref)) where
    ensured-parents :
        (w : W) (route : RouteObject)
        → (ensure_route_finalizer api cluster env parse_url kind finalizer extract w
            route).1.0.parent_refs
          ≡ route.parent_refs
    ensured-parents w route =
        if_both (λ (o : Updated W RouteObject). o.1.0.parent_refs ≡ route.parent_refs)
          (contains_string route.finalizers finalizer) _ _ (λ mine. refl)
          (λ lacking. keeps.parents_kept w kind _)

    reconcile_owned-NoPanic :
        (w : W) (route : RouteObject) (o : RouteDetails ⊎ DetailsError)
        → extract route ≡ o
        → NoPanic (reconcile_owned api cluster env parse_url kind finalizer extract w r route o)
    unfolding handle_deletion handle_add_or_update
    reconcile_owned-NoPanic w route (inr e) found = λ h. cc
    reconcile_owned-NoPanic w route (inl d) found =
        if_both NoPanic route.is_deleted _ _
          (λ deleted.
            if_both NoPanic (contains_string route.finalizers finalizer) _ _
              (λ mine.
                if_both NoPanic (contains_string route.finalizers finalizer) _ _
                  (λ still.
                    after_remove-NoPanic route
                      (remove_route_with_status api cluster parse_url w r d))
                  (λ lost. λ h. cc))
              (λ lacking. λ h. cc))
          (λ living.
            let (parent_ref, there) = has_parent route d found in
            after_add_finalizer-NoPanic d parent_ref
              (ensure_route_finalizer api cluster env parse_url kind finalizer extract w route)
              (ap first (ensured-parents w route) ∙ there))

    if_managed-NoPanic :
        (route : RouteObject) (o : W × (Bool ⊎ ApiError))
        → NoPanic (if_managed api cluster env parse_url kind finalizer extract r route o)
    if_managed-NoPanic route (w, inr e) = λ h. cc
    if_managed-NoPanic route (w, inl managed) =
        if_both NoPanic managed _ _ (λ owned. reconcile_owned-NoPanic w route (extract route) refl)
          (λ foreign_one. λ h. cc)

    by_parent-NoPanic :
        (w : W) (route : RouteObject) (o : (Text × Text) ⊎ DetailsError)
        → NoPanic (by_parent api cluster env parse_url kind finalizer extract w r route o)
    by_parent-NoPanic w route (inr e) = λ h. cc
    by_parent-NoPanic w route (inl (gw_namespace, gw_name)) =
        if_managed-NoPanic route (is_gateway_managed cluster env w gw_namespace gw_name)

    route_found-NoPanic :
        (o : Fetched W RouteObject)
        → NoPanic (route_found api cluster env parse_url kind finalizer extract r o)
    route_found-NoPanic (w, inr not_found) = λ h. cc
    route_found-NoPanic (w, inr conflict) = λ h. cc
    route_found-NoPanic (w, inr (failed_with e)) = λ h. cc
    route_found-NoPanic (w, inl route) =
        if_both NoPanic (contains_string route.finalizers finalizer) _ _
          (λ mine. reconcile_owned-NoPanic w route (extract route) refl)
          (λ lacking.
            by_parent-NoPanic w route
              (extract_parent_gateway_ref route.parent_refs route.namespace))

tcp-has_parent :
    (route : RouteObject) (d : RouteDetails)
    → extract_tcp_route_details route ≡ inl d
    → (parent_ref : ParentRef) × (first route.parent_refs ≡ some parent_ref)
unfolding extract_tcp_route_details extract_parent_gateway_ref
tcp-has_parent route d found = elim (Option-cases (first route.parent_refs)) [
  | inr there ↦ there
  | inl gone ↦
      let parent =
        (extract_route_details-DetailsOf route.namespace route.name route.parent_refs
          (rule_backends route.rules) (length route.rules) d found).parent in
      absurd (ground (arith, gone, parent))
]

module _ {P W : Type 0} (api : SessionPool P) (cluster : Cluster W) (env : Environment)
    (parse_url : Text → Option Url) (keeps : KeepsParents cluster) where
  -- None of the three loops indexes its route's parents out of range, if the API keeps the parents
  -- of a route whose finalizers it updates.
  pub reconcile_routes-no_panic :
      (w : W) (r : Reconciler P) (namespace name : Text)
      → ((reconcile_http_route api cluster env parse_url w r namespace name).1 ≢ panics)
        × ((reconcile_tcp_route api cluster env parse_url w r namespace name).1 ≢ panics)
        × ((reconcile_tls_route api cluster env parse_url w r namespace name).1 ≢ panics)
  unfolding reconcile_http_route reconcile_tcp_route reconcile_tls_route reconcile_route
  reconcile_routes-no_panic w r namespace name = (
    route_found-NoPanic api cluster env parse_url http_route (get_http_route_finalizer env)
        extract_http_route_details r keeps
        (λ route d found. tcp-has_parent route d (sym (http_details-agree route).0 ∙ found))
        (cluster.get_route w http_route namespace name),
    route_found-NoPanic api cluster env parse_url tcp_route (get_tcp_route_finalizer env)
        extract_tcp_route_details r keeps tcp-has_parent
        (cluster.get_route w tcp_route namespace name),
    route_found-NoPanic api cluster env parse_url tls_route (get_tls_route_finalizer env)
        extract_tls_route_details r keeps
        (λ route d found.
          tcp-has_parent route d
            (sym (http_details-agree route).0 ∙ (http_details-agree route).1 ∙ found))
        (cluster.get_route w tls_route namespace name),
  )
