-- ===== src/Controllers/RouteStatus/Writes.antt =====
-- writeRouteParentStatus of controllers/route_status.go on a status that is there already.
use k8s_ssh_gateway_controll.Prelude.{ℕ, ◌≡◌, refl, true, List}
use k8s_ssh_gateway_controll.Prelude.Eq.{int_eq, nat_eq}
use k8s_ssh_gateway_controll.Go.Text.{Text, text_eq}
use k8s_ssh_gateway_controll.Ssh.Flags.{kind_eq}
use k8s_ssh_gateway_controll.Controllers.Parents.{ParentRef}
use k8s_ssh_gateway_controll.Controllers.Objects.{MetaCondition, RouteObject, RouteKind, Cluster}
use k8s_ssh_gateway_controll.Controllers.RouteStatus.{
  condition_eq, set_our_route_parent_status, write_route_parent_status,
}
use k8s_ssh_gateway_controll.Controllers.RouteStatus.Upsert.{
  Setter, distinct_types, set_our_route_parent_status-twice,
}

module _ {W : Type 0} (api : Cluster W) (setter : Setter api) (controller : Text) (kind : RouteKind)
    (parent_ref : ParentRef) (conditions : List MetaCondition) where
  -- The route with the status that a call at some time has given it.
  abbrev pub reported_at : ℕ → RouteObject → RouteObject
  reported_at time route = record route {
    parents =
        (set_our_route_parent_status api controller time parent_ref route.generation conditions
          route.parents).0;
  }

  -- Writing a status that the route has got before, for the same generation, makes no call to the
  -- cluster and leaves the route as it is, if the conditions have distinct types.
  pub write_route_parent_status-quiet :
      (w : W) (time : ℕ) (route : RouteObject)
      → distinct_types conditions ≡ true
      → write_route_parent_status api controller kind parent_ref conditions w
          (reported_at time route)
        ≡ (w, reported_at time route)
  unfolding write_route_parent_status
  write_route_parent_status-quiet w time route distinct =
      rw
        (set_our_route_parent_status-twice api setter controller route.generation parent_ref
          conditions distinct time (api.now w) route.parents)
        refl
