-- ===== src/Controllers/Gateway/Agreement.antt =====
-- handleAddOrUpdateGateway of controllers/gateway_controller.go against the Gateway's listeners.
use k8s_ssh_gateway_controll.Prelude.{
  ◌≡◌, refl, sym, ◌∙◌, subst, inl, inr, true, Option, none, some, List, [], ◌∷◌, arith, if_both,
  Exists,
}
use k8s_ssh_gateway_controll.Prelude.Int.{int_eqb_iff}
use k8s_ssh_gateway_controll.Prelude.Eq.{◌==◌, eq_iff, eq_refl, int_eq, nat_eq}
use k8s_ssh_gateway_controll.Go.Text.{Text, text_eq}
use k8s_ssh_gateway_controll.Go.Map.{
  Map, has, get-map_values, map_laws, get-empty, get-set, get-delete,
}
use k8s_ssh_gateway_controll.Ssh.Flags.{kind_eq}
use k8s_ssh_gateway_controll.Controllers.Listeners.{Listener, K8sListener, create_listener}
use k8s_ssh_gateway_controll.Controllers.Gateway.State.{SessionPool, Reconciler, get_gw_key}
use k8s_ssh_gateway_controll.Controllers.Gateway.Specs.{
  K8sGateway, is_unchanged, next_listener, update_listeners, new_listeners, updated_at,
  handle_add_or_update_gateway,
}
use k8s_ssh_gateway_controll.Controllers.Gateway.Routes.{listener_at}
use k8s_ssh_gateway_controll.Go.Map

-- One port, one hostname and one session kind.
abbrev pub SameForwarding : Listener → Listener → Type 0
SameForwarding l m =
    (l.port ≡ m.port) × (l.hostname ≡ m.hostname) × (l.session_kind ≡ m.session_kind)

-- The registered listener has the port, the hostname and the session kind of a listener of the
-- Gateway with that name.
pub record Agrees (annotations : Map Text Text) (ks : List K8sListener) (name : Text) (l : Listener)
    : Type 0 where
  pub source :
      Exists
        (λ (k : K8sListener). (k.name ≡ name) × SameForwarding l (create_listener k annotations))
        ks

is_unchanged-SameForwarding : (l m : Listener) → is_unchanged l m ≡ true → SameForwarding l m
is_unchanged-SameForwarding l m h = ground (
  arith,
  int_eqb_iff l.port m.port,
  eq_iff l.hostname m.hostname,
  eq_iff l.session_kind m.session_kind,
)

SameForwarding-refl : (l : Listener) → SameForwarding l l
SameForwarding-refl l = (refl, refl, refl)

-- What one listener of the Gateway adds to the registered ones.
abbrev FromAny : Map Text Text → List K8sListener → Text → Option Listener → Type 0
FromAny annotations ks name none = Unit
FromAny annotations ks name (some l) = Agrees annotations ks name l

abbrev AllFrom : Map Text Text → List K8sListener → Map Text Listener → Type 0
AllFrom annotations ks listeners =
    (name : Text) → FromAny annotations ks name (Map.get listeners name)

module _ (annotations : Map Text Text) (all : List K8sListener) where
  -- The items still to come are items of the whole list.
  abbrev WithinAll : List K8sListener → Type 1
  WithinAll ks = (Q : K8sListener → Type 0) → Exists Q ks → Exists Q all

  set-AllFrom :
      (k : K8sListener) (ks : List K8sListener) (listeners : Map Text Listener) (l : Listener)
      → WithinAll (k ∷ ks)
      → SameForwarding l (create_listener k annotations)
      → AllFrom annotations all listeners
      → AllFrom annotations all (Map.set listeners k.name l)
  set-AllFrom k ks listeners l inside same from name = rw (get-set listeners k.name name l) (
      if_both (FromAny annotations all name) (k.name == name) (some l) (Map.get listeners name)
        (λ e. record { source = inside _ (inl ((eq_iff k.name name).0 e, same)) })
        (λ ne. from name))

  new_listeners-AllFrom :
      (ks : List K8sListener) (acc : Map Text Listener)
      → WithinAll ks
      → AllFrom annotations all acc
      → AllFrom annotations all (new_listeners annotations ks acc)
  unfolding new_listeners
  new_listeners-AllFrom [] acc inside from = from
  new_listeners-AllFrom (k ∷ ks) acc inside from =
      new_listeners-AllFrom ks _ (λ Q x. inside Q (inr x))
        (set-AllFrom k ks acc (create_listener k annotations) inside
          (SameForwarding-refl (create_listener k annotations)) from)

  module _ {P : Type 0} (api : SessionPool P) where
    next_listener-SameForwarding :
        (p : P) (o : Option Listener) (l : Listener) → SameForwarding (next_listener api p o l).1 l
    next_listener-SameForwarding p none l = SameForwarding-refl l
    next_listener-SameForwarding p (some old) l =
        if_both (λ (x : P × Listener). SameForwarding x.1 l) (is_unchanged old l) _ _
          (λ same. is_unchanged-SameForwarding old l same) (λ changed. SameForwarding-refl l)

    update_listeners-AllFrom :
        (ks : List K8sListener) (p : P) (existing acc : Map Text Listener)
        → WithinAll ks
        → AllFrom annotations all acc
        → AllFrom annotations all (update_listeners api p existing annotations ks acc).1
    unfolding update_listeners
    update_listeners-AllFrom [] p existing acc inside from = from
    update_listeners-AllFrom (k ∷ ks) p existing acc inside from =
        update_listeners-AllFrom ks
          (next_listener api p (Map.get existing k.name) (create_listener k annotations)).0 existing
          _ (λ Q x. inside Q (inr x))
          (set-AllFrom k ks acc _ inside
            (next_listener-SameForwarding p (Map.get existing k.name)
              (create_listener k annotations))
            from)

listener_at-same :
    (gateways : Map Text (Map Text Listener)) (key : Text) (listeners : Map Text Listener)
    (name : Text)
    → listener_at (Map.set gateways key listeners) key name ≡ Map.get listeners name
listener_at-same gateways key listeners name =
    rw (get-set gateways key key listeners, eq_refl key, listener_at) refl

module _ {P : Type 0} (api : SessionPool P) where
  updated-AllFrom :
      (r : Reconciler P) (gw : K8sGateway) (o : Option (Map Text Listener))
      → AllFrom gw.annotations gw.listeners (updated_at api r gw o).1
  updated-AllFrom r gw none =
      new_listeners-AllFrom gw.annotations gw.listeners gw.listeners Map.empty (λ Q x. x)
        (λ name. subst (FromAny gw.annotations gw.listeners name) (sym (get-empty name)) tt)
  updated-AllFrom r gw (some existing) =
      update_listeners-AllFrom gw.annotations gw.listeners api gw.listeners r.pool existing
        Map.empty (λ Q x. x)
        (λ name. subst (FromAny gw.annotations gw.listeners name) (sym (get-empty name)) tt)

  -- After handleAddOrUpdateGateway, every listener that is registered for the gateway has the name
  -- of a listener of the Gateway, and the port, hostname and session kind that createListener
  -- gives that one: nothing remains of a listener that the Gateway no longer has.
  pub handle_add_or_update_gateway-Agrees :
      (r : Reconciler P) (gw : K8sGateway) (name : Text) (l : Listener)
      → listener_at
          (handle_add_or_update_gateway api r gw).gateways
          (get_gw_key gw.namespace gw.name)
          name
        ≡ some l
      → Agrees gw.annotations gw.listeners name l
  unfolding handle_add_or_update_gateway
  handle_add_or_update_gateway-Agrees r gw name l at =
      let key = get_gw_key gw.namespace gw.name in
      subst (FromAny gw.annotations gw.listeners name)
        (sym (listener_at-same r.gateways key _ name) ∙ at)
        (updated-AllFrom r gw (Map.get r.gateways key) name)
