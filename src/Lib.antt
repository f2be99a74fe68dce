-- ===== src/Lib.antt =====
-- A model of k8s-ssh-gateway-controller, a Kubernetes Gateway controller that exposes routes through
-- SSH remote forwardings.
--
-- The parts and the files that model them:
--   Prelude         tests, lists, integers and equality that the parts share.
--   Go              what the code takes from Go's library: strings as lists of bytes (Go/Text),
--                   strconv (Go/Decimal), maps (Go/Map), net.SplitHostPort (Go/Net),
--                   encoding/base64 (Go/Base64).
--   Ssh/Errors      ssh/ssh_errors.go, and the errors of ssh/ssh_tunnel_manager.go as one data type.
--   Ssh/Flags       SessionFlags and SessionKind of ssh/ssh_tunnel_manager.go and
--                   ssh/ssh_session_pool.go.
--   Ssh/Uri         forwardingKey, MatchesRequestedHost, httpURIHasHost and tcpURIPort of
--                   ssh/ssh_tunnel_manager.go; Ssh/Uri/Spec describes the accepted URIs on its own.
--   Ssh/Manager     SSHTunnelManager of ssh/ssh_tunnel_manager.go. State has the record Manager, with
--                   a field per field of the struct that decides what a method does, and the Server;
--                   Requests has sendForwardingOnce, sendForwarding and what they call, and
--                   processServerData; Operations has the exported methods, closeClient, a tick of
--                   monitorConnection and logBackendDialError; Channels has handleChannels and the
--                   goroutine that releases an orphan. Leases reads the forwardings that the server
--                   holds off the history of exchanges, with the start requests that were never
--                   answered in doubt, Invariant relates them to the manager's state over any
--                   sequence of calls, and Recovery is about a lost connection.
--   Ssh/Pool        SSHSessionPool of ssh/ssh_session_pool.go over its interface sessionManager,
--                   a record of functions that Ssh/Pool/Tunnel fills with the manager.
--   Controllers/Annotations, Controllers/Listeners, Controllers/Parents
--                   the annotations, createListener with deriveListenerSession, and the details of a
--                   route of controllers/common.go.
--   Controllers/Names, Controllers/RouteKinds
--                   the environment, the finalizers' names and the lists of strings of
--                   controllers/common.go; the extraction of details from each kind of route.
--   Controllers/Patterns
--                   getRemoteAddress of controllers/common.go with its patterns and what package
--                   regexp does with them, and createSSHSessionPool. Elsewhere the extraction is a
--                   function of the manager's configuration.
--   Controllers/Gateway
--                   the registry of GatewayReconciler of controllers/gateway_controller.go, with
--                   SetRoute, RemoveRoute, handleAddOrUpdateGateway and handleDeleteGateway, over
--                   SSHSessionPoolInterface as a record of functions; Sessions and Tunnels put the
--                   pool of tunnels in its place, Status has the listeners' conditions.
--   Controllers/Objects
--                   the Kubernetes objects and the record Cluster of the API's functions.
--   Controllers/RouteStatus
--                   controllers/route_status.go.
--   Controllers/Addresses, Controllers/GatewayStatus
--                   gatewayAddressesEqual, updateGatewayAddresses, updateGatewayStatus and
--                   updateGatewayStatusIfChanged of controllers/gateway_controller.go.
--   Controllers/Reconcile
--                   the reconcile loops: Gateways has those of Gateways and GatewayClasses, Routes
--                   that of the three route controllers, which are copies but for the finalizer and
--                   the extraction; GatewayEffects and RouteEffects say which calls on the
--                   registry a loop may make, GatewaySteps and RouteSteps relate the loops to
--                   them, and Runs puts the loops, the pool and the managers' background
--                   tasks together.
--
-- A method of a Go type is a function from the state to the state and the error, `none` for nil. The
-- SSH server, golang.org/x/crypto/ssh, crypto/sha256 and the timers are the parameter `Server`:
-- functions of the history of the connection, so a theorem for every server covers every reply,
-- error, timeout and order of output. Methods take locks, and a call is one step here; a start request and the server
-- output that is read while it waits are one call, and output at other times is a step of its own.
-- The goroutine by which handleChannels releases an orphan forwarding is a step of its own, which may
-- come at any time after its channel was rejected. The Kubernetes API, the clock, url.Parse,
-- SetStatusCondition and RetryOnConflict are parameters; a theorem names what it needs of the
-- documentation of the last two as a hypothesis. A reconcile loop is one step as well.
-- A `Text` is a list of byte values. An int is an unbounded integer; atoi has the bounds of a 64-bit
-- int. Every function is structurally recursive, so no fuel is needed.
--
-- Not modelled: the copying of bytes between a channel and its backend, the capture session's pipes,
-- logging other than the level of a failed backend dial, the durations of timeouts, two calls of one
-- manager that overlap, loops that interleave where SetRoute and RemoveRoute drop the registry's
-- locks to update the status of a Gateway, the set-up in main.go, and the fakes of the tests.
pub mod Prelude
pub mod Go
pub mod Ssh
pub mod Controllers
