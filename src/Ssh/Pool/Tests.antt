-- ===== src/Ssh/Pool/Tests.antt =====
-- Runs of the pool over tunnels to a server that grants every request.
use k8s_ssh_gateway_controll.Ssh.Pool.Reached.{pool_run-idempotent}
use k8s_ssh_gateway_controll.Prelude.{some, ◌≡◌, refl, true, false, Option, none, List, [], ◌∷◌}
use k8s_ssh_gateway_controll.Prelude.Int.{pos}
use k8s_ssh_gateway_controll.Prelude.Eq.{int_eq, nat_eq}
use k8s_ssh_gateway_controll.Go.Text.{Text, text, text_eq}
use k8s_ssh_gateway_controll.Go.Map.{
  Map, has, get-map_values, map_laws, get-empty, get-set, get-delete,
}
use k8s_ssh_gateway_controll.Ssh.Flags.{
  SessionFlags, no_flags, session_plain, session_proxy_proto, session_sni_proxy, kind_eq,
}
use k8s_ssh_gateway_controll.Ssh.Manager.State.{granted, Server, Manager}
use k8s_ssh_gateway_controll.Ssh.Manager.Invariant.{WellFormed}
use k8s_ssh_gateway_controll.Ssh.Manager.Operations.{
  is_connected, new_ssh_tunnel_manager, fresh_manager, Config, connect, connect_client,
}
use k8s_ssh_gateway_controll.Ssh.Pool.{
  SessionManager, Pool, open_locked, reconcile_kind, configure_sessions, new_session_pool,
  pool_connect,
}
use k8s_ssh_gateway_controll.Ssh.Pool.Configure.{BuildsAll, configure_sessions-succeeds}
use k8s_ssh_gateway_controll.Ssh.Pool.Held.{
  PoolCall, configures, pool_connects, pool_step, pool_run,
}
use k8s_ssh_gateway_controll.Ssh.Pool.Tunnel.{tunnels, new_ssh_session_pool, pool-WellFormed}
use k8s_ssh_gateway_controll.Go.Map

abbrev granting : SessionFlags → Server
granting flags = record {
  dial = λ h accept. none;
  answer = λ h req host port. granted;
  sha256 = λ key. key;
  abandons = λ h. false;
  output = λ h. [];
}

abbrev pool_config : Config
pool_config = record {
  private_key = text "key";
  host_key = [];
  remote_addr_func = none;
  flags = no_flags;
}

abbrev parse_any : Text → Option Text
parse_any key = none

abbrev test_tunnels : SessionManager Manager
test_tunnels = tunnels parse_any granting pool_config

abbrev plain_pool : Pool Manager
plain_pool = record {
  managers =
      Map.set Map.empty session_plain (connect (granting no_flags) (fresh_manager pool_config)).0;
  flags = Map.set Map.empty session_plain no_flags;
  retired = [];
}

-- Calls that open the other sessions and close one of them again.
abbrev earlier : List PoolCall
earlier = configures (pos 1) true ∷ configures (pos 0) true ∷ []

abbrev earlier_pool : Pool Manager
earlier_pool = pool_run test_tunnels plain_pool earlier

test_tunnels-BuildsAll : BuildsAll test_tunnels
unfolding tunnels new_ssh_tunnel_manager
test_tunnels-BuildsAll flags = (fresh_manager (record pool_config { flags = flags }), refl)

configure_sessions-succeeds_example :
    ((configure_sessions test_tunnels earlier_pool (pos 2) true).1 ≡ none)
    × (has
          (configure_sessions test_tunnels earlier_pool (pos 2) true).0.managers
          session_proxy_proto
        ≡ true)
    × (has (configure_sessions test_tunnels earlier_pool (pos 2) true).0.managers session_sni_proxy
        ≡ true)
configure_sessions-succeeds_example =
    configure_sessions-succeeds test_tunnels test_tunnels-BuildsAll earlier_pool (pos 2) true

pool_run-idempotent_example :
    configure_sessions test_tunnels
      (configure_sessions test_tunnels earlier_pool (pos 2) true).0
      (pos 2)
      true
    ≡ ((configure_sessions test_tunnels earlier_pool (pos 2) true).0, none)
unfolding new_session_pool tunnels new_ssh_tunnel_manager connect connect_client fresh_manager
pool_run-idempotent_example =
    pool_run-idempotent test_tunnels plain_pool earlier_pool earlier (pos 2) true refl refl
      (configure_sessions-succeeds test_tunnels test_tunnels-BuildsAll earlier_pool (pos 2) true).0

-- The sessions that a run opens.
abbrev busy : List PoolCall
busy = configures (pos 2) true ∷ pool_connects ∷ []

abbrev plain_manager : Manager
plain_manager = (connect (granting no_flags) (fresh_manager pool_config)).0

pool-WellFormed_example :
    (flags : SessionFlags) × (Map.get (pool_run test_tunnels plain_pool busy).flags session_plain
      ≡ some flags)
    × WellFormed plain_manager
unfolding new_ssh_session_pool new_session_pool tunnels new_ssh_tunnel_manager pool_run pool_step
    configure_sessions reconcile_kind open_locked pool_connect connect is_connected connect_client
    fresh_manager Map.map_values Map.values_mapped Map.get Map.set Map.delete Map.empty Map.lookup
    Map.without
pool-WellFormed_example =
    pool-WellFormed parse_any granting pool_config plain_pool busy session_plain plain_manager refl
      refl
