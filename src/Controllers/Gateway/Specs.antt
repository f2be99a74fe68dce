-- ===== src/Controllers/Gateway/Specs.antt =====
-- controllers/gateway_controller.go: handleAddOrUpdateGateway and handleDeleteGateway.
use k8s_ssh_gateway_controll.Prelude.{Bool, ◌&&◌, Option, none, some, List, [], ◌∷◌, if◌then◌else◌}
use k8s_ssh_gateway_controll.Prelude.Int.{int_eqb}
use k8s_ssh_gateway_controll.Prelude.Eq.{◌==◌, int_eq, nat_eq}
use k8s_ssh_gateway_controll.Go.Text.{Text, text_eq}
use k8s_ssh_gateway_controll.Go.Map.{
  Map, has, get-map_values, map_laws, get-empty, get-set, get-delete,
}
use k8s_ssh_gateway_controll.Ssh.Flags.{kind_eq}
use k8s_ssh_gateway_controll.Controllers.Listeners.{Listener, K8sListener, create_listener}
use k8s_ssh_gateway_controll.Controllers.Gateway.State.{SessionPool, Reconciler, get_gw_key}
use k8s_ssh_gateway_controll.Controllers.Gateway.Attaching.{stop_existing}
use k8s_ssh_gateway_controll.Go.Map
use mathlib.Core.List.{foldl}

-- What the code reads of a Gateway object.
pub record K8sGateway : Type 0 where
  pub namespace : Text
  pub name : Text
  pub annotations : Map Text Text
  pub listeners : List K8sListener

-- existing.Port == listener.Port && existing.Hostname == listener.Hostname && ...
abbrev pub is_unchanged : Listener → Listener → Bool
is_unchanged existing l =
    int_eqb existing.port l.port
    && existing.hostname == l.hostname
    && existing.session_kind == l.session_kind

-- The loop over the listeners of a new gateway.
unfoldable pub new_listeners :
    Map Text Text → List K8sListener → Map Text Listener → Map Text Listener
new_listeners annotations [] listeners = listeners
new_listeners annotations (k ∷ ks) listeners =
    new_listeners annotations ks (Map.set listeners k.name (create_listener k annotations))

module _ {P : Type 0} (api : SessionPool P) where
  -- The listener that is kept under a name, and the pool after the old forwarding is stopped.
  abbrev pub next_listener : P → Option Listener → Listener → P × Listener
  next_listener p none l = (p, l)
  next_listener p (some existing) l =
      if is_unchanged existing l
      then (p, existing)
      else ((stop_existing api p existing existing.route).0, l)

  -- The loop over the listeners of an existing gateway.
  unfoldable pub update_listeners :
      P
      → Map Text Listener
      → Map Text Text
      → List K8sListener
      → Map Text Listener
      → P × Map Text Listener
  update_listeners p existing annotations [] updated = (p, updated)
  update_listeners p existing annotations (k ∷ ks) updated =
      let (p', l) = next_listener p (Map.get existing k.name) (create_listener k annotations) in
      update_listeners p' existing annotations ks (Map.set updated k.name l)

  abbrev pub updated_at :
      Reconciler P → K8sGateway → Option (Map Text Listener) → P × Map Text Listener
  updated_at r gw none = (r.pool, new_listeners gw.annotations gw.listeners Map.empty)
  updated_at r gw (some existing) =
      update_listeners r.pool existing gw.annotations gw.listeners Map.empty

  -- handleAddOrUpdateGateway
  unfoldable pub handle_add_or_update_gateway : Reconciler P → K8sGateway → Reconciler P
  unfolding update_listeners new_listeners get_gw_key
  handle_add_or_update_gateway r gw =
      let key = get_gw_key gw.namespace gw.name in
      let (p, listeners) = updated_at r gw (Map.get r.gateways key) in
      record { pool = p; gateways = Map.set r.gateways key listeners }

  -- One round of the loop of handleDeleteGateway.
  abbrev pub stop_listener : P → Text × Listener → P
  stop_listener p (_, l) = (stop_existing api p l l.route).0

  abbrev pub deleted_at : Reconciler P → Text → Option (Map Text Listener) → Reconciler P
  deleted_at r key none = r
  deleted_at r key (some listeners) = record {
    pool = foldl stop_listener r.pool listeners.entries;
    gateways = Map.delete r.gateways key;
  }

  -- handleDeleteGateway
  unfoldable pub handle_delete_gateway : Reconciler P → K8sGateway → Reconciler P
  unfolding get_gw_key
  handle_delete_gateway r gw =
      let key = get_gw_key gw.namespace gw.name in deleted_at r key (Map.get r.gateways key)
