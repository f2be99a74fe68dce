-- ===== src/Ssh/Manager/Tests.antt =====
-- Runs of the manager against a server that grants every request.
use k8s_ssh_gateway_controll.Ssh.Uri.Spec.{Accepts}
use k8s_ssh_gateway_controll.Go.Base64.{base64}
use k8s_ssh_gateway_controll.Prelude.{
  Exists, length, ◌≡◌, refl, true, false, Option, none, some, List, [], ◌∷◌, ◌++◌, arith,
  if◌then◌else◌,
}
use k8s_ssh_gateway_controll.Prelude.Int.{pos}
use k8s_ssh_gateway_controll.Prelude.Eq.{int_eq, nat_eq, list_beq}
use k8s_ssh_gateway_controll.Go.Text.{
  Text, text, text_eq, cut_prefix, has_prefix, trim_prefix, has_byte,
}
use k8s_ssh_gateway_controll.Go.Decimal.{itoa, decimal}
use k8s_ssh_gateway_controll.Go.Net.{join_host_port}
use k8s_ssh_gateway_controll.Go.Map.{
  Map, has, get-map_values, map_laws, get-empty, get-set, get-delete,
}
use k8s_ssh_gateway_controll.Ssh.Errors.{forwarding_not_found}
use k8s_ssh_gateway_controll.Ssh.Flags.{no_flags, kind_eq}
use k8s_ssh_gateway_controll.Ssh.Manager.State.{ForwardingConfig, granted, Server, Manager, key_of}
use k8s_ssh_gateway_controll.Ssh.Manager.Leases.{bound, IsCooperative, known_to_server, in_doubt}
use k8s_ssh_gateway_controll.Ssh.Manager.Requests.{
  request_start, send_forwarding_once, cancel_forwarding, notify_uri_waiters, process_server_data,
  handle_assigned_uris, await_assigned_addresses, send_forwarding, listen, respond, by_collection,
  cleaned, notify_if_any, by_request,
}
use k8s_ssh_gateway_controll.Ssh.Manager.Channels.{release_orphan, dispatch}
use k8s_ssh_gateway_controll.Ssh.Manager.Invariant.{WellFormed}
use k8s_ssh_gateway_controll.Ssh.Manager.Invariant.Calls.{
  Call, connects, starts_forwarding, stops_forwarding, ticks, releases, all_timely, step, run,
  run-fresh-WellFormed,
}
use k8s_ssh_gateway_controll.Ssh.Manager.Operations.{
  backend_address, forget, start_forwarding, stop_forwarding, get_assigned_addresses, fresh_manager,
  fingerprint, Config, connect, connect_client, keepalive_failed, record_backend_dial_success, warn,
  debug,
}
use k8s_ssh_gateway_controll.Ssh.Manager.Invariant.Leaks.{
  leases-eq-forwardings, release_orphan-loses,
}
use k8s_ssh_gateway_controll.Ssh.Manager.Results.{
  StartResult, start_forwarding-StartResult, start_forwarding-addresses, stop_forwarding-twice,
}
use k8s_ssh_gateway_controll.Ssh.Manager.Hosts.{ChecksKey, connect-pinned, dispatch-backend}
use k8s_ssh_gateway_controll.Ssh.Manager.Recovery.{GrantsStart, start_forwarding-succeeds, recovers}
use k8s_ssh_gateway_controll.Ssh.Manager.Dials.{note_failures, note_failures-window}
use k8s_ssh_gateway_controll.Ssh.Uri.{
  http_uri_has_host, forwarding_key, is_wildcard, uri_matches, matches_requested_host,
}
use k8s_ssh_gateway_controll.Go.Map

abbrev site : Text
site = text "http://a.example"

-- A sum of 32 bytes.
abbrev test_sum : Text
test_sum = text "0123456789abcdef0123456789ABCDEF"

-- It assigns one address to each forwarding.
abbrev obliging : Server
obliging = record {
  dial = λ h accept. if accept (text "key") then none else some (text "host key mismatch");
  answer = λ h req host port. granted;
  sha256 = λ key. test_sum;
  abandons = λ h. false;
  output = λ h. site ∷ [];
}

obliging-IsCooperative : IsCooperative obliging
obliging-IsCooperative = record { grants_cancel = λ h host port held. refl }

obliging-ChecksKey : ChecksKey obliging (text "key")
obliging-ChecksKey = record { checked = λ h accept e. ground arith }

abbrev whole_chunk : Text → Option (List Text)
whole_chunk chunk = some (chunk ∷ [])

abbrev test_config : Config
test_config = record {
  private_key = text "key";
  host_key = text "SHA256:MDEyMzQ1Njc4OWFiY2RlZjAxMjM0NTY3ODlBQkNERUY=";
  remote_addr_func = some whole_chunk;
  flags = no_flags;
}

abbrev web : ForwardingConfig
web = record {
  remote_host = text "a.example";
  internal_host = text "web.default.svc";
  remote_port = pos 80;
  internal_port = pos 8080;
  enforce_port = false;
}

abbrev up_manager : Manager
up_manager = run obliging (fresh_manager test_config) (connects ∷ [])

abbrev web_manager : Manager
web_manager = run obliging (fresh_manager test_config) (connects ∷ starts_forwarding web ∷ [])

abbrev some_calls : List Call
some_calls =
    connects
    ∷ starts_forwarding web
    ∷ stops_forwarding web
    ∷ releases (text "a.example", 80)
    ∷ starts_forwarding web
    ∷ releases (text "b.example", 80)
    ∷ []

run-fresh-WellFormed_example : WellFormed (run obliging (fresh_manager test_config) some_calls)
unfolding all_timely release_orphan cancel_forwarding stop_forwarding forget
    record_backend_dial_success fingerprint base64 run step connect connect_client fresh_manager
    start_forwarding send_forwarding by_collection request_start cleaned send_forwarding_once
    by_request listen process_server_data notify_if_any notify_uri_waiters await_assigned_addresses
    respond handle_assigned_uris Map.map_values Map.values_mapped matches_requested_host uri_matches
    is_wildcard http_uri_has_host has_prefix trim_prefix cut_prefix forwarding_key itoa Map.get
    Map.set Map.delete Map.empty Map.lookup Map.without list_beq decimal
run-fresh-WellFormed_example = run-fresh-WellFormed obliging test_config some_calls refl

leases-eq-forwardings_example :
    bound
      (known_to_server (λ h. true) (run obliging (fresh_manager test_config) some_calls).history)
      (key_of web)
    ≡ has (run obliging (fresh_manager test_config) some_calls).forwardings (key_of web)
unfolding in_doubt all_timely release_orphan cancel_forwarding stop_forwarding forget
    record_backend_dial_success fingerprint base64 run step connect connect_client fresh_manager
    start_forwarding send_forwarding by_collection request_start cleaned send_forwarding_once
    by_request listen process_server_data notify_if_any notify_uri_waiters await_assigned_addresses
    respond handle_assigned_uris Map.map_values Map.values_mapped matches_requested_host uri_matches
    is_wildcard http_uri_has_host has_prefix trim_prefix cut_prefix forwarding_key itoa Map.get
    Map.set Map.delete Map.empty Map.lookup Map.without list_beq decimal
leases-eq-forwardings_example =
    leases-eq-forwardings obliging obliging-IsCooperative test_config some_calls (key_of web)
      (λ h. true) refl refl

release_orphan-loses_example :
    (Map.get
        (release_orphan obliging web_manager (text "a.example", 80)).forwardings
        (forwarding_key (text "a.example") (pos 80))
      ≡ some web)
    × (bound
          (release_orphan obliging web_manager (text "a.example", 80)).history
          (forwarding_key (text "a.example") (pos 80))
        ≡ false)
unfolding all_timely release_orphan cancel_forwarding stop_forwarding forget
    record_backend_dial_success fingerprint base64 run step connect connect_client fresh_manager
    start_forwarding send_forwarding by_collection request_start cleaned send_forwarding_once
    by_request listen process_server_data notify_if_any notify_uri_waiters await_assigned_addresses
    respond handle_assigned_uris Map.map_values Map.values_mapped matches_requested_host uri_matches
    is_wildcard http_uri_has_host has_prefix trim_prefix cut_prefix forwarding_key itoa Map.get
    Map.set Map.delete Map.empty Map.lookup Map.without list_beq decimal
release_orphan-loses_example =
    release_orphan-loses obliging obliging-IsCooperative web_manager (text "a.example") 80 web
      (run-fresh-WellFormed obliging test_config (connects ∷ starts_forwarding web ∷ []) refl) refl
      refl

start_forwarding-StartResult_example :
    StartResult obliging up_manager web
      (start_forwarding obliging up_manager web).0
      (start_forwarding obliging up_manager web).1
start_forwarding-StartResult_example = start_forwarding-StartResult obliging up_manager web

start_forwarding-addresses_example : Exists (Accepts (text "a.example") (pos 80) false) (
    get_assigned_addresses (start_forwarding obliging up_manager web).0 (text "a.example") (pos 80))
unfolding fingerprint base64 run step connect connect_client fresh_manager start_forwarding
    send_forwarding by_collection request_start cleaned send_forwarding_once by_request listen
    process_server_data notify_if_any notify_uri_waiters await_assigned_addresses respond
    handle_assigned_uris Map.map_values Map.values_mapped matches_requested_host uri_matches
    is_wildcard http_uri_has_host has_prefix trim_prefix cut_prefix forwarding_key itoa Map.get
    Map.set Map.delete Map.empty Map.lookup Map.without list_beq decimal
start_forwarding-addresses_example =
    start_forwarding-addresses obliging up_manager web refl refl refl

stop_forwarding-twice_example :
    (stop_forwarding obliging (stop_forwarding obliging web_manager web).0 web).1
    ≡ some (forwarding_not_found (text "a.example:80"))
unfolding fingerprint base64 run step connect connect_client fresh_manager start_forwarding
    send_forwarding by_collection request_start cleaned send_forwarding_once by_request listen
    process_server_data notify_if_any notify_uri_waiters await_assigned_addresses respond
    handle_assigned_uris Map.map_values Map.values_mapped matches_requested_host uri_matches
    is_wildcard http_uri_has_host has_prefix trim_prefix cut_prefix forwarding_key itoa Map.get
    Map.set Map.delete Map.empty Map.lookup Map.without list_beq decimal
stop_forwarding-twice_example = stop_forwarding-twice obliging web_manager web refl

connect-pinned_example :
    (text "SHA256:" ++ base64 test_sum ≡ test_config.host_key) × (length test_config.host_key ≡ 51)
unfolding list_beq fresh_manager connect connect_client fingerprint base64
connect-pinned_example =
    connect-pinned obliging (fresh_manager test_config) (text "key") obliging-ChecksKey refl refl
      refl refl

dispatch-backend_example :
    (fwd : ForwardingConfig) × (Map.get web_manager.forwardings
        (forwarding_key (text "a.example") (pos 80))
      ≡ some fwd)
    × (fwd.remote_host ≡ text "a.example")
    × (fwd.remote_port ≡ pos 80)
    × (text "web.default.svc:8080" ≡ backend_address fwd)
unfolding all_timely dispatch join_host_port has_byte fingerprint base64 run step connect
    connect_client fresh_manager start_forwarding send_forwarding by_collection request_start
    cleaned send_forwarding_once by_request listen process_server_data notify_if_any
    notify_uri_waiters await_assigned_addresses respond handle_assigned_uris Map.map_values
    Map.values_mapped matches_requested_host uri_matches is_wildcard http_uri_has_host has_prefix
    trim_prefix cut_prefix forwarding_key itoa Map.get Map.set Map.delete Map.empty Map.lookup
    Map.without list_beq decimal
dispatch-backend_example =
    dispatch-backend obliging test_config (connects ∷ starts_forwarding web ∷ []) (text "a.example")
      (text "web.default.svc:8080") 80 refl

note_failures-window_example :
    note_failures
      (record { last_logged = none; suppressed = 0 })
      (5 ∷ (6 ∷ 7 ∷ []) ++ 20_000_000_000 ∷ [])
    ≡ (
      record { last_logged = some 20_000_000_000; suppressed = 0 },
      warn 0 ∷ (debug ∷ debug ∷ []) ++ warn 2 ∷ [],
    )
note_failures-window_example =
    note_failures-window (record { last_logged = none; suppressed = 0 }) 5 20_000_000_000
      (6 ∷ 7 ∷ []) refl (omega arith, (omega arith, tt)) (omega arith)

abbrev anywhere : ForwardingConfig
anywhere = record {
  remote_host = text "localhost";
  internal_host = text "web.default.svc";
  remote_port = pos 80;
  internal_port = pos 8080;
  enforce_port = false;
}

anywhere-GrantsStart : GrantsStart obliging anywhere
anywhere-GrantsStart = record { grants = λ h. refl }

abbrev anywhere_manager : Manager
anywhere_manager = run obliging up_manager (starts_forwarding anywhere ∷ [])

start_forwarding-succeeds_example :
    ((start_forwarding obliging up_manager anywhere).1 ≡ none)
    × (Map.get (start_forwarding obliging up_manager anywhere).0.forwardings (key_of anywhere)
        ≡ some anywhere)
unfolding all_timely release_orphan cancel_forwarding stop_forwarding forget
    record_backend_dial_success fingerprint base64 run step connect connect_client fresh_manager
    start_forwarding send_forwarding by_collection request_start cleaned send_forwarding_once
    by_request listen process_server_data notify_if_any notify_uri_waiters await_assigned_addresses
    respond handle_assigned_uris Map.map_values Map.values_mapped matches_requested_host uri_matches
    is_wildcard http_uri_has_host has_prefix trim_prefix cut_prefix forwarding_key itoa Map.get
    Map.set Map.delete Map.empty Map.lookup Map.without list_beq decimal
start_forwarding-succeeds_example =
    start_forwarding-succeeds obliging anywhere anywhere-GrantsStart refl refl up_manager refl refl
      refl

recovers_example :
    Map.get
      (run obliging anywhere_manager
        (ticks keepalive_failed ∷ connects ∷ starts_forwarding anywhere ∷ [])).forwardings
      (key_of anywhere)
    ≡ some anywhere
unfolding all_timely release_orphan cancel_forwarding stop_forwarding forget
    record_backend_dial_success fingerprint base64 run step connect connect_client fresh_manager
    start_forwarding send_forwarding by_collection request_start cleaned send_forwarding_once
    by_request listen process_server_data notify_if_any notify_uri_waiters await_assigned_addresses
    respond handle_assigned_uris Map.map_values Map.values_mapped matches_requested_host uri_matches
    is_wildcard http_uri_has_host has_prefix trim_prefix cut_prefix forwarding_key itoa Map.get
    Map.set Map.delete Map.empty Map.lookup Map.without list_beq decimal
recovers_example =
    recovers obliging anywhere anywhere-GrantsStart refl refl anywhere_manager refl (λ h. refl)
      (λ h. refl)
