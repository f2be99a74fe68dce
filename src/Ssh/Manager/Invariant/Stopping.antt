-- ===== src/Ssh/Manager/Invariant/Stopping.antt =====
-- The invariant under the methods that open and close the connection.
use k8s_ssh_gateway_controll.Prelude.{
  ◌≡◌, refl, sym, ap, ◌∙◌, subst, false, ◌&&◌, Option, none, some, List, [], ◌∷◌, if_both,
}
use k8s_ssh_gateway_controll.Prelude.Eq.{int_eq, nat_eq}
use k8s_ssh_gateway_controll.Go.Text.{Text, text_eq}
use k8s_ssh_gateway_controll.Go.Map.{
  Map, has, get-map_values, map_laws, get-empty, get-set, get-delete,
}
use k8s_ssh_gateway_controll.Ssh.Flags.{kind_eq}
use k8s_ssh_gateway_controll.Ssh.Manager.State.{
  ForwardingConfig, cancel, Server, Manager, Outcome, is_ready,
}
use k8s_ssh_gateway_controll.Ssh.Manager.Leases.{bound}
use k8s_ssh_gateway_controll.Ssh.Manager.Requests.{send_forwarding_once, send_forwarding}
use k8s_ssh_gateway_controll.Ssh.Manager.Requests.Once.{send_forwarding_once-frame}
use k8s_ssh_gateway_controll.Ssh.Manager.Invariant.{WellFormed}
use k8s_ssh_gateway_controll.Ssh.Manager.Invariant.Starting.{Entry-same}
use k8s_ssh_gateway_controll.Ssh.Manager.Operations.{
  cancel_entry, host_key_callback, fresh_manager, after_dial, cancelled_entries, Config, connect,
  close_client, stop_manager, keepalive, KeepAlive, keepalive_answered, keepalive_failed,
  keepalive_timed_out,
}
use k8s_ssh_gateway_controll.Go.Map
use mathlib.Core.List.{foldl}

-- A manager without forwardings and addresses is well-formed.
empty-WellFormed :
    (m : Manager)
    → m.has_client ≡ m.connected
    → ((key : Text) → Map.get m.addr_notifications key ≡ none)
    → m.forwardings ≡ Map.empty
    → ((key : Text) → Map.get m.assigned_addrs key ≡ none)
    → WellFormed m
empty-WellFormed m client idle none_stored none_assigned = record {
  client = client;
  idle = idle;
  offline = λ off key. rw none_stored (get-empty key);
  entries = λ key f stored. absurd (nothing key f stored);
  backed = λ key gone. none_assigned key;
}
  where
    nothing : (key : Text) (f : ForwardingConfig) → Map.get m.forwardings key ≡ some f → ⊥
    nothing key f stored = cc (
      stored,
      ap (λ (x : Map Text ForwardingConfig). Map.get x key) none_stored,
      get-empty {V = ForwardingConfig} key,
    )

pub fresh-WellFormed : (cfg : Config) → WellFormed (fresh_manager cfg)
unfolding fresh_manager
fresh-WellFormed cfg = empty-WellFormed _ refl (λ key. get-empty key) refl (λ key. get-empty key)

pub close_client-WellFormed : (m : Manager) → WellFormed m → WellFormed (close_client m)
unfolding close_client
close_client-WellFormed m wf =
    if_both WellFormed m.connected _ m
      (λ on. empty-WellFormed _ refl wf.idle refl (λ key. get-empty key)) (λ off. wf)

pub keepalive-WellFormed : (m : Manager) (r : KeepAlive) → WellFormed m → WellFormed (keepalive m r)
unfolding keepalive
keepalive-WellFormed m keepalive_answered wf = wf
keepalive-WellFormed m keepalive_failed wf =
    if_both WellFormed (is_ready m) _ m (λ ready. close_client-WellFormed m wf) (λ off. wf)
keepalive-WellFormed m keepalive_timed_out wf =
    if_both WellFormed (is_ready m) _ m (λ ready. close_client-WellFormed m wf) (λ off. wf)

module _ (srv : Server) where
  -- The loop of Stop changes the history only.
  pub cancel_entries-frame :
      (m : Manager) (l : List (Text × ForwardingConfig))
      → foldl (cancel_entry srv) m l ≡ record m { history = (foldl (cancel_entry srv) m l).history }
  unfolding cancel_entry send_forwarding
  cancel_entries-frame m [] = refl
  cancel_entries-frame m ((key, f) ∷ l) =
      cancel_entries-frame (send_forwarding_once srv m f cancel).0 l
      ∙ ap
          (λ (x : Manager). record x {
            history = (foldl (cancel_entry srv) m ((key, f) ∷ l)).history;
          })
          (send_forwarding_once-frame srv m f cancel)

  -- What Stop needs of the state after its loop.
  abbrev Stoppable : Manager → Type 0
  Stoppable n =
      (n.has_client ≡ n.connected)
      × ((key : Text) → Map.get n.addr_notifications key ≡ none)
      × (n.connected ≡ false → (key : Text) → Map.get n.assigned_addrs key ≡ none)

  cancelled-Stoppable : (m : Manager) → WellFormed m → Stoppable (cancelled_entries srv m)
  unfolding cancelled_entries
  cancelled-Stoppable m wf =
      if_both Stoppable (m.has_client && m.connected) _ m
        (λ on. subst Stoppable (sym (cancel_entries-frame m m.forwardings.entries)) here)
        (λ off. here)
    where
      here : Stoppable m
      here = (wf.client, wf.idle, λ off key. wf.backed key (wf.offline off key))

  pub stop_manager-WellFormed : (m : Manager) → WellFormed m → WellFormed (stop_manager srv m)
  unfolding stop_manager
  stop_manager-WellFormed m wf =
      let (client, idle, unassigned) = cancelled-Stoppable m wf in
      if_both WellFormed (cancelled_entries srv m).connected _ _
        (λ on. empty-WellFormed _ refl idle refl (λ key. get-empty key))
        (λ off. empty-WellFormed _ client idle refl (unassigned off))

  after_dial-WellFormed :
      (m : Manager) (answer : Option Text) → WellFormed m → WellFormed (after_dial m answer).0
  unfolding bound
  after_dial-WellFormed m (some e) wf = record {
    client = wf.client;
    idle = wf.idle;
    offline = wf.offline;
    entries = λ key f stored. Entry-same key f refl refl refl (wf.entries key f stored);
    backed = wf.backed;
  }
  after_dial-WellFormed m none wf = record {
    client = refl;
    idle = wf.idle;
    offline = λ off. cc;
    entries = λ key f stored. Entry-same key f refl refl refl (wf.entries key f stored);
    backed = wf.backed;
  }

  pub connect-WellFormed : (m : Manager) → WellFormed m → WellFormed (connect srv m).0
  unfolding connect
  connect-WellFormed m wf =
      if_both (λ (o : Outcome). WellFormed o.0) m.connected _ _ (λ on. wf)
        (λ off. after_dial-WellFormed m (srv.dial m.history (host_key_callback srv m.host_key)) wf)
