-- ===== src/Ssh/Manager/Recovery.antt =====
-- StartForwarding of ssh/ssh_tunnel_manager.go on a connected manager, and after a lost connection.
use k8s_ssh_gateway_controll.Prelude.{
  ◌≡◌, refl, true, false, ◌&&◌, Option, none, some, List, [], ◌∷◌, arith,
}
use k8s_ssh_gateway_controll.Prelude.Int.{in_range}
use k8s_ssh_gateway_controll.Prelude.Eq.{eq_refl, int_eq, nat_eq}
use k8s_ssh_gateway_controll.Go.Text.{Text, text_eq}
use k8s_ssh_gateway_controll.Go.Map.{
  Map, has, get-map_values, map_laws, get-empty, get-set, get-delete,
}
use k8s_ssh_gateway_controll.Ssh.Flags.{kind_eq}
use k8s_ssh_gateway_controll.Ssh.Manager.State.{
  ForwardingConfig, start, granted, History, Server, Manager, Outcome, key_of, needs_verification,
  is_ready,
}
use k8s_ssh_gateway_controll.Ssh.Manager.Requests.{
  register, request_start, send_forwarding_once, handle_verification_timeout, handle_assigned_uris,
  await_assigned_addresses, send_forwarding, register, listen, max_port, respond, await_if_granted,
  by_collection, cleaned, by_request,
}
use k8s_ssh_gateway_controll.Ssh.Manager.Invariant.Calls.{
  connects, starts_forwarding, ticks, step, run,
}
use k8s_ssh_gateway_controll.Ssh.Manager.Operations.{
  host_key_callback, start_forwarding, connect, connect_client, close_client, keepalive,
  keepalive_failed, finish_start,
}
use k8s_ssh_gateway_controll.Go.Map

close_client-closes :
    (m : Manager)
    → m.connected ≡ true
    → ((close_client m).connected ≡ false)
      × ((close_client m).forwardings ≡ Map.empty)
      × ((close_client m).host_key ≡ m.host_key)
unfolding close_client
close_client-closes m up = rw up (refl, refl, refl)

connect-connects :
    (srv : Server) (m : Manager)
    → m.connected ≡ false
    → ((h : History) → srv.dial h (host_key_callback srv m.host_key) ≡ none)
    → (is_ready (connect srv m).0 ≡ true) × ((connect srv m).0.forwardings ≡ m.forwardings)
unfolding connect connect_client
connect-connects srv m down answers = rw (down, answers m.history) (refl, refl)

-- The server grants the forwarding whenever it is asked for.
pub record GrantsStart (srv : Server) (fwd : ForwardingConfig) : Type 0 where
  pub grants : (h : History) → srv.answer h start fwd.remote_host fwd.remote_port ≡ granted

module _ (srv : Server) (fwd : ForwardingConfig) (grants : GrantsStart srv fwd)
    (inside : in_range max_port fwd.remote_port ≡ true) where
  request_start-succeeds : (m : Manager) → (request_start srv m fwd).1 ≡ none
  unfolding request_start send_forwarding_once by_request
  request_start-succeeds m = ground (arith, inside, grants.grants (cleaned srv m fwd).history)

  module _ (free : needs_verification fwd ≡ false) where
    handle_assigned_uris-succeeds :
        (m : Manager) (key : Text) (uris : List Text)
        → (handle_assigned_uris srv m fwd key uris (needs_verification fwd)).1 ≡ none
    unfolding handle_assigned_uris
    handle_assigned_uris-succeeds m key uris = rw free refl

    respond-succeeds :
        (m : Manager) (key : Text) (o : Option (List (List Text)))
        → (respond srv m fwd key o).1 ≡ none
    unfolding respond handle_verification_timeout
    respond-succeeds m key none = rw free refl
    respond-succeeds m key (some []) = rw free refl
    respond-succeeds m key (some (uris ∷ later)) = handle_assigned_uris-succeeds _ key uris

    awaited-succeeds :
        (key : Text) (o : Outcome) → o.1 ≡ none → (await_if_granted srv fwd key o).1 ≡ none
    unfolding await_assigned_addresses
    awaited-succeeds key (m, some e) h = h
    awaited-succeeds key (m, none) h = respond-succeeds (listen srv m) key _

    by_collection-succeeds :
        (extract : Option (Text → Option (List Text))) (m : Manager)
        → (by_collection extract srv m fwd).1 ≡ none
    unfolding by_collection
    by_collection-succeeds none m = request_start-succeeds m
    by_collection-succeeds (some f) m =
        awaited-succeeds (key_of fwd) _ (request_start-succeeds (register m (key_of fwd)))

    send_forwarding-succeeds :
        (m : Manager)
        → (m.capture_ready && srv.abandons m.history) ≡ false
        → (send_forwarding srv m fwd start).1 ≡ none
    unfolding send_forwarding
    send_forwarding-succeeds m waits = rw waits (by_collection-succeeds m.remote_addr_func m)

    finish-stored :
        (o : Outcome)
        → o.1 ≡ none
        → ((finish_start fwd o).1 ≡ none)
          × (Map.get (finish_start fwd o).0.forwardings (key_of fwd) ≡ some fwd)
    finish-stored (m, some e) h = absurd cc
    finish-stored (m, none) h = (
      refl,
      ground (arith, get-set m.forwardings (key_of fwd) (key_of fwd) fwd, eq_refl (key_of fwd)),
    )

    -- On a connected manager, StartForwarding of a forwarding that is not stored yet, has a port up
    -- to 65535, a wildcard host and no pinned port, succeeds and stores it, if the server grants it
    -- and the capture session is not lost meanwhile, whatever the server prints.
    pub start_forwarding-succeeds :
        (m : Manager)
        → is_ready m ≡ true
        → (m.capture_ready && srv.abandons m.history) ≡ false
        → Map.get m.forwardings (key_of fwd) ≡ none
        → ((start_forwarding srv m fwd).1 ≡ none)
          × (Map.get (start_forwarding srv m fwd).0.forwardings (key_of fwd) ≡ some fwd)
    unfolding start_forwarding
    start_forwarding-succeeds m ready waits absent =
        rw (ready, absent, start_forwarding) (finish-stored _ (send_forwarding-succeeds m waits))

    -- A connected manager whose keepalive fails, once connected again, accepts a forwarding with a
    -- port up to 65535, a wildcard host and no pinned port, stored before or not, and stores it, if
    -- the dial succeeds, the server grants the forwarding and the capture session is not lost.
    pub recovers :
        (m : Manager)
        → is_ready m ≡ true
        → ((h : History) → srv.dial h (host_key_callback srv m.host_key) ≡ none)
        → ((h : History) → srv.abandons h ≡ false)
        → Map.get
            (run srv m (ticks keepalive_failed ∷ connects ∷ starts_forwarding fwd ∷ [])).forwardings
            (key_of fwd)
          ≡ some fwd
    unfolding run step keepalive
    recovers m ready answers stays =
        let closed = close_client-closes m (ground arith) in
        let (up, same) =
          connect-connects srv (close_client m) closed.0 (λ h. rw closed.2 (answers h)) in
        rw ready
          (start_forwarding-succeeds (connect srv (close_client m)).0 up
            (ground (arith, stays (connect srv (close_client m)).0.history))
            (rw (same, closed.1) (get-empty (key_of fwd)))).1
