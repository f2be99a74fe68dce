-- ===== src/Controllers/GatewayStatus.antt =====
-- controllers/gateway_controller.go: populateListenerStatuses, updateGatewayStatus and
-- updateGatewayStatusIfChanged.
-- The listeners' conditions are written without their time; one read of the clock stands for those
-- of one call.
use k8s_ssh_gateway_controll.Prelude.{
  ℕ, ◌⊎◌, inl, inr, Bool, true, false, not, ◌||◌, Option, none, some, List, if◌then◌else◌,
}
use k8s_ssh_gateway_controll.Prelude.Eq.{int_eq, nat_eq}
use k8s_ssh_gateway_controll.Go.Text.{Text, text, text_eq}
use k8s_ssh_gateway_controll.Go.Map.{
  Map, has, get-map_values, map_laws, get-empty, get-set, get-delete,
}
use k8s_ssh_gateway_controll.Ssh.Flags.{kind_eq}
use k8s_ssh_gateway_controll.Controllers.Annotations.{
  ClassSessionConfig, parse_class_session_config,
}
use k8s_ssh_gateway_controll.Controllers.Listeners.{Listener}
use k8s_ssh_gateway_controll.Controllers.Gateway.State.{SessionPool, Reconciler, get_gw_key}
use k8s_ssh_gateway_controll.Controllers.Gateway.Status.{listener_statuses}
use k8s_ssh_gateway_controll.Controllers.Objects.{
  ApiError, MetaCondition, GatewayObject, GatewayClass, Cluster, Fetched, Updated,
}
use k8s_ssh_gateway_controll.Controllers.RouteStatus.{condition_eq, new_condition}
use k8s_ssh_gateway_controll.Controllers.Addresses.{
  Url, gateway_addresses_equal, update_gateway_addresses,
}
use k8s_ssh_gateway_controll.Go.Map

abbrev pub gateway_key : GatewayObject → Text
gateway_key gw = get_gw_key gw.spec.namespace gw.spec.name

-- The two conditions of a Gateway; the time is set by SetStatusCondition.
abbrev pub gateway_accepted : MetaCondition
gateway_accepted =
    new_condition (text "Accepted") (text "True") (text "Accepted")
      (text "Gateway accepted by controller")

abbrev pub gateway_programmed : Bool → MetaCondition
gateway_programmed true =
    new_condition (text "Programmed") (text "True") (text "Programmed")
      (text "Gateway programmed successfully")
gateway_programmed false =
    new_condition (text "Programmed") (text "False") (text "ListenersNotProgrammed")
      (text "At least one listener is not Programmed")

module _ {P : Type 0} (api : SessionPool P) where
  abbrev pub populated_by :
      P → GatewayObject → ClassSessionConfig → Option (Map Text Listener) → GatewayObject × Bool
  populated_by p gw sessions none = (gw, true)
  populated_by p gw sessions (some listeners) =
      let (statuses, all_programmed) =
        listener_statuses api p listeners sessions gw.spec.listeners in
      (record gw { listener_statuses = statuses }, all_programmed)

  -- populateListenerStatuses
  unfoldable pub populate_listener_statuses :
      Reconciler P → GatewayObject → GatewayClass → GatewayObject × Bool
  unfolding listener_statuses parse_class_session_config get_gw_key
  populate_listener_statuses r gw gc =
      populated_by r.pool gw (parse_class_session_config gc.annotations)
        (Map.get r.gateways (gateway_key gw))

module _ {P W : Type 0} (api : SessionPool P) (cluster : Cluster W)
    (parse_url : Text → Option Url) where
  -- The two calls of SetStatusCondition, and whether one of them changed the conditions.
  unfoldable pub set_gateway_conditions : ℕ → List MetaCondition → Bool → List MetaCondition × Bool
  set_gateway_conditions time conds all_programmed =
      let (conds', changed) = cluster.set_status_condition time conds gateway_accepted in
      let (conds'', changed') =
        cluster.set_status_condition time conds' (gateway_programmed all_programmed) in
      (conds'', changed' || changed)

  -- The Gateway with the status that updateGatewayStatusIfChanged computes, and whether it counts
  -- as changed.
  unfoldable pub refreshed : ℕ → Reconciler P → GatewayObject → GatewayClass → GatewayObject × Bool
  unfolding set_gateway_conditions populate_listener_statuses update_gateway_addresses
      gateway_addresses_equal
  refreshed time r gw gc =
      let (gw', all_programmed) = populate_listener_statuses api r gw gc in
      let (conds, changed) = set_gateway_conditions time gw'.conditions all_programmed in
      let gw'' = update_gateway_addresses api parse_url r (record gw' { conditions = conds }) in
      (gw'', changed || not (gateway_addresses_equal gw'.addresses gw''.addresses))

  -- updateGatewayStatusIfChanged
  unfoldable pub update_gateway_status_if_changed :
      W → Reconciler P → GatewayObject → GatewayClass → Updated W GatewayObject
  unfolding refreshed
  update_gateway_status_if_changed w r gw gc =
      let (gw', changed) = refreshed (cluster.now w) r gw gc in
      if changed then cluster.update_gateway_status w gw' else (w, (gw', none))

  -- The listeners' statuses, if the class was found.
  abbrev populated_if_found : Reconciler P → GatewayObject → GatewayClass ⊎ ApiError → GatewayObject
  populated_if_found r gw (inl gc) = (populate_listener_statuses api r gw gc).0
  populated_if_found r gw (inr e) = gw

  abbrev with_class : Reconciler P → GatewayObject → Fetched W GatewayClass → W × Option ApiError
  with_class r gw (w, found) =
      let (w', (gw', e)) =
        cluster.update_gateway_status w
          (update_gateway_addresses api parse_url r (populated_if_found r gw found)) in
      (w', e)

  abbrev with_gateway : Reconciler P → Fetched W GatewayObject → W × Option ApiError
  with_gateway r (w, inr e) = (w, some e)
  with_gateway r (w, inl gw) = with_class r gw (cluster.get_class w gw.class_name)

  -- updateGatewayStatus
  unfoldable pub update_gateway_status : W → Reconciler P → Text → Text → W × Option ApiError
  unfolding populate_listener_statuses update_gateway_addresses
  update_gateway_status w r gw_namespace gw_name =
      with_gateway r (cluster.get_gateway w gw_namespace gw_name)
