-- ===== src/Controllers/Reconcile/Converges.antt =====
-- updateGatewayStatusIfChanged of controllers/gateway_controller.go, called once and again.
use k8s_ssh_gateway_controll.Prelude.{
  ℕ, ◌≡◌, refl, ap, ◌∙◌, Bool, true, false, not, ◌||◌, Option, none, some, List, arith,
  if◌then◌else◌,
}
use k8s_ssh_gateway_controll.Prelude.Eq.{int_eq, nat_eq, list_beq}
use k8s_ssh_gateway_controll.Go.Text.{Text, text, text_eq}
use k8s_ssh_gateway_controll.Go.Map.{
  Map, has, get-map_values, map_laws, get-empty, get-set, get-delete,
}
use k8s_ssh_gateway_controll.Ssh.Flags.{kind_eq}
use k8s_ssh_gateway_controll.Controllers.Annotations.{parse_class_session_config}
use k8s_ssh_gateway_controll.Controllers.Listeners.{Listener}
use k8s_ssh_gateway_controll.Controllers.Gateway.State.{SessionPool, Reconciler}
use k8s_ssh_gateway_controll.Controllers.Gateway.Status.{ListenerStatus, listener_statuses}
use k8s_ssh_gateway_controll.Controllers.Objects.{
  MetaCondition, Address, GatewayObject, GatewayClass, Cluster, Updated,
}
use k8s_ssh_gateway_controll.Controllers.RouteStatus.{condition_eq}
use k8s_ssh_gateway_controll.Controllers.RouteStatus.Upsert.{says_if_any, settled, Setter}
use k8s_ssh_gateway_controll.Controllers.Addresses.{
  Url, gateway_addresses_equal, collect_addresses, update_gateway_addresses, with_addresses,
}
use k8s_ssh_gateway_controll.Controllers.Addresses.Collected.{collect_addresses-order}
use k8s_ssh_gateway_controll.Controllers.GatewayStatus.{
  gateway_key, populated_by, gateway_accepted, gateway_programmed, populate_listener_statuses,
  set_gateway_conditions, refreshed, update_gateway_status_if_changed,
}
use k8s_ssh_gateway_controll.Go.Map
use mathlib.Core.List.Permᴰ

module _ {P W : Type 0} (api : SessionPool P) (cluster : Cluster W) (setter : Setter cluster)
    (parse_url : Text → Option Url) where
  abbrev set_once : ℕ → List MetaCondition → Bool → List MetaCondition
  set_once time conds all_programmed =
      (set_gateway_conditions api cluster parse_url time conds all_programmed).0

  accepted-settled :
      (time : ℕ) (conds : List MetaCondition) (all_programmed : Bool)
      → settled (set_once time conds all_programmed) gateway_accepted ≡ true
  unfolding set_gateway_conditions list_beq
  accepted-settled time conds true =
      ap (says_if_any gateway_accepted) (
        setter.keeps time (cluster.set_status_condition time conds gateway_accepted).0
          (gateway_programmed true) (text "Accepted") refl)
      ∙ setter.sets time conds gateway_accepted
  accepted-settled time conds false =
      ap (says_if_any gateway_accepted) (
        setter.keeps time (cluster.set_status_condition time conds gateway_accepted).0
          (gateway_programmed false) (text "Accepted") refl)
      ∙ setter.sets time conds gateway_accepted

  set_again-idle :
      (time time' : ℕ) (conds : List MetaCondition) (all_programmed : Bool)
      → (set_gateway_conditions api cluster parse_url time'
          (set_once time conds all_programmed)
          all_programmed).1
        ≡ false
  unfolding set_gateway_conditions
  set_again-idle time time' conds all_programmed =
      rw
        (
          setter.idles time' (set_once time conds all_programmed) gateway_accepted
              (accepted-settled time conds all_programmed),
          setter.idles time' (set_once time conds all_programmed)
              (gateway_programmed all_programmed)
              (setter.sets time (cluster.set_status_condition time conds gateway_accepted).0
                (gateway_programmed all_programmed)),
        )
        refl

  module _ (r : Reconciler P) (gw : GatewayObject) (gc : GatewayClass)
      (listeners : Map Text Listener)
      (registered : Map.get r.gateways (gateway_key gw) ≡ some listeners) where
    abbrev statuses : List ListenerStatus × Bool
    statuses =
        listener_statuses api r.pool listeners (parse_class_session_config gc.annotations)
          gw.spec.listeners

    abbrev collected : List Address
    collected = collect_addresses api parse_url r.pool listeners.entries

    abbrev with_status_at : List MetaCondition → List Address → GatewayObject
    with_status_at conds addresses = record gw {
      listener_statuses = statuses.0;
      conditions = conds;
      addresses = addresses;
    }

    abbrev the_gateway : List MetaCondition → List Address → List ListenerStatus → GatewayObject
    the_gateway conds addresses old = record gw {
      listener_statuses = old;
      conditions = conds;
      addresses = addresses;
    }

    -- What the status is computed to, given the populated Gateway.
    abbrev after_populate : ℕ → GatewayObject × Bool → GatewayObject × Bool
    after_populate time (gw', all_programmed) =
        let (conds, changed) =
          set_gateway_conditions api cluster parse_url time gw'.conditions all_programmed in
        let gw'' = update_gateway_addresses api parse_url r (record gw' { conditions = conds }) in
        (gw'', changed || not (gateway_addresses_equal gw'.addresses gw''.addresses))

    abbrev after_lookup :
        List MetaCondition → Bool → List Address → Option (Map Text Listener) → GatewayObject × Bool
    after_lookup conds changed addresses o =
        let gw'' = with_addresses api parse_url r.pool (with_status_at conds addresses) o in
        (gw'', changed || not (gateway_addresses_equal addresses gw''.addresses))

    -- What is computed for a Gateway with any conditions, addresses and listener statuses.
    refreshed-found :
        (time : ℕ) (conds : List MetaCondition) (addresses : List Address)
        (old : List ListenerStatus)
        → refreshed api cluster parse_url time r (the_gateway conds addresses old) gc ≡ (
          with_status_at (set_once time conds statuses.1) collected,
          (set_gateway_conditions api cluster parse_url time conds statuses.1).1
              || not (gateway_addresses_equal addresses collected),
        )
    unfolding refreshed populate_listener_statuses update_gateway_addresses
    refreshed-found time conds addresses old =
        let c = set_gateway_conditions api cluster parse_url time conds statuses.1 in
        ap
          (λ (o : Option (Map Text Listener)). after_populate time (
            populated_by api r.pool (the_gateway conds addresses old)
              (parse_class_session_config gc.annotations) o))
          registered
        ∙ ap (after_lookup c.0 c.1 addresses) registered

    collected-equal : gateway_addresses_equal collected collected ≡ true
    collected-equal =
        collect_addresses-order api parse_url r.pool listeners.entries listeners.entries
          (Permᴰ.refl listeners.entries)

    unchanged-again :
        (time' time : ℕ)
        → ((set_gateway_conditions api cluster parse_url time'
              (set_once time gw.conditions statuses.1)
              statuses.1).1
            || not (gateway_addresses_equal collected collected))
          ≡ false
    unchanged-again time' time =
        ground (arith, set_again-idle time time' gw.conditions statuses.1, collected-equal)

    -- What updateGatewayStatusIfChanged does with the computed status.
    abbrev sent : W → GatewayObject × Bool → Updated W GatewayObject
    sent w (gw', changed) =
        if changed then cluster.update_gateway_status w gw' else (w, (gw', none))

    -- For a Gateway of the registry, the status that updateGatewayStatusIfChanged has computed does
    -- not count as changed when it computes it again, at any time, while the registry and the
    -- pool's addresses and connections are the same: the second call sends no update.
    pub update_gateway_status_if_changed-twice :
        (w : W) (time : ℕ)
        → (update_gateway_status_if_changed api cluster parse_url w r
            (refreshed api cluster parse_url time r gw gc).0
            gc).0
          ≡ w
    unfolding update_gateway_status_if_changed
    update_gateway_status_if_changed-twice w time =
        let conds = set_once time gw.conditions statuses.1 in
        ap (λ (x : GatewayObject × Bool). (sent w x).0)
          (ap
              (λ (x : GatewayObject × Bool).
                refreshed api cluster parse_url (cluster.now w) r x.0 gc)
              (refreshed-found time gw.conditions gw.addresses gw.listener_statuses)
            ∙ refreshed-found (cluster.now w) conds collected statuses.0
            ∙ ap
                (λ (b : Bool).
                  (with_status_at (set_once (cluster.now w) conds statuses.1) collected, b))
                (unchanged-again (cluster.now w) time))
