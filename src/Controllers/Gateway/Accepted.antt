-- ===== src/Controllers/Gateway/Accepted.antt =====
-- Registries in which rejected listeners have no route.
-- No rejected listener has a route.
use k8s_ssh_gateway_controll.Prelude.{
  ◌≡◌, subst, inl, inr, true, Option, none, some, List, [], ◌∷◌, arith, Bool-cases, if_both,
}
use k8s_ssh_gateway_controll.Prelude.Eq.{◌==◌, int_eq, nat_eq}
use k8s_ssh_gateway_controll.Go.Text.{Text, text_eq}
use k8s_ssh_gateway_controll.Go.Map.{
  Map, has, get-map_values, map_laws, get-empty, get-set, get-delete,
}
use k8s_ssh_gateway_controll.Ssh.Flags.{kind_eq}
use k8s_ssh_gateway_controll.Controllers.Listeners.{
  Listener, K8sListener, create_listener, derive_listener_session,
}
use k8s_ssh_gateway_controll.Controllers.Gateway.Specs.{new_listeners}
use k8s_ssh_gateway_controll.Go.Map

abbrev pub NoRejectedRoute : Option Listener → Type 0
NoRejectedRoute none = Unit
NoRejectedRoute (some l) = l.rejected ≡ true → l.route ≡ none

abbrev pub RoutesAccepted : Map Text Listener → Type 0
RoutesAccepted listeners = (name : Text) → NoRejectedRoute (Map.get listeners name)

-- In a registry.
pub record Registered (gateways : Map Text (Map Text Listener)) : Type 0 where
  pub accepted :
      (key : Text) (listeners : Map Text Listener)
      → Map.get gateways key ≡ some listeners
      → RoutesAccepted listeners

pub set-RoutesAccepted :
    (listeners : Map Text Listener) (name : Text) (l : Listener)
    → RoutesAccepted listeners
    → NoRejectedRoute (some l)
    → RoutesAccepted (Map.set listeners name l)
set-RoutesAccepted listeners name l all one name' = rw (get-set listeners name name' l) (
    if_both NoRejectedRoute (name == name') (some l) (Map.get listeners name') (λ same. one)
      (λ ne. all name'))

pub set-Registered :
    (gateways : Map Text (Map Text Listener)) (key : Text) (listeners : Map Text Listener)
    → Registered gateways
    → RoutesAccepted listeners
    → Registered (Map.set gateways key listeners)
set-Registered gateways key listeners reg all = record { accepted = accepted_at }
  where
    accepted_at :
        (key' : Text) (ls : Map Text Listener)
        → Map.get (Map.set gateways key listeners) key' ≡ some ls
        → RoutesAccepted ls
    accepted_at key' ls at = elim (Bool-cases (key == key')) [
      | inl same ↦
          let e : listeners ≡ ls = ground (arith, get-set gateways key key' listeners) in
          subst RoutesAccepted e all
      | inr ne ↦ reg.accepted key' ls (ground (arith, get-set gateways key key' listeners))
    ]

pub create_listener-no_route :
    (k : K8sListener) (annotations : Map Text Text) → (create_listener k annotations).route ≡ none
unfolding create_listener derive_listener_session
create_listener-no_route k annotations = ground arith

pub new_listeners-RoutesAccepted :
    (annotations : Map Text Text) (ks : List K8sListener) (acc : Map Text Listener)
    → RoutesAccepted acc
    → RoutesAccepted (new_listeners annotations ks acc)
unfolding new_listeners
new_listeners-RoutesAccepted annotations [] acc all = all
new_listeners-RoutesAccepted annotations (k ∷ ks) acc all =
    new_listeners-RoutesAccepted annotations ks _
      (set-RoutesAccepted acc k.name _ all (λ bad. create_listener-no_route k annotations))
