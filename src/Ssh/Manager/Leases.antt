-- ===== src/Ssh/Manager/Leases.antt =====
-- The server's side of the forwardings, as an abstract specification: which host:port keys the
-- server has granted and not released, read off the exchanges of a connection. `bound` does not count
-- a start request whose answer never came; a history with the outcome of these filled in does.
use k8s_ssh_gateway_controll.Prelude.{◌≡◌, refl, Bool, true, false, [], ◌∷◌, if◌then◌else◌}
use k8s_ssh_gateway_controll.Prelude.Int.{ℤ}
use k8s_ssh_gateway_controll.Prelude.Eq.{◌==◌, int_eq, nat_eq}
use k8s_ssh_gateway_controll.Go.Text.{Text, text_eq}
use k8s_ssh_gateway_controll.Ssh.Flags.{kind_eq}
use k8s_ssh_gateway_controll.Ssh.Manager.State.{
  ForwardRequest, start, cancel, other, Reply, granted, denied, timed_out, failed, Event, exchange,
  dialled, hung_up, History, Server,
}
use k8s_ssh_gateway_controll.Ssh.Uri.{forwarding_key}

-- What an answered request does to the lease of a key, `same` being whether it names that key.
abbrev exchange_effect : ForwardRequest → Reply → Bool → Bool → Bool
exchange_effect start granted same held = if same then true else held
exchange_effect cancel granted same held = if same then false else held
exchange_effect _ _ same held = held

abbrev effect : Event → Text → Bool → Bool
effect (exchange req host port reply) key held =
    exchange_effect req reply (forwarding_key host port == key) held
effect (dialled _) key held = held
effect hung_up key held = false

-- The server holds a forwarding for the key.
unfoldable pub bound : History → Text → Bool
bound [] key = false
bound (e ∷ h) key = effect e key (bound h key)

-- What became of a request, `late` being whether the server grants a start request whose answer does
-- not arrive.
abbrev outcome : Bool → ForwardRequest → Reply → Reply
outcome late start timed_out = if late then granted else timed_out
outcome late start (failed e) = if late then granted else failed e
outcome late start granted = granted
outcome late start denied = denied
outcome late cancel reply = reply
outcome late (other _) reply = reply

abbrev event_outcome : Bool → Event → Event
event_outcome late (exchange req host port reply) = exchange req host port (outcome late req reply)
event_outcome late (dialled up) = dialled up
event_outcome late hung_up = hung_up

-- The history as the server knows it, for each choice of what it did with the start requests whose
-- answers did not arrive.
unfoldable pub known_to_server : (History → Bool) → History → History
known_to_server late [] = []
known_to_server late (e ∷ h) = event_outcome (late h) e ∷ known_to_server late h

abbrev doubt : ForwardRequest → Reply → Bool → Bool → Bool
doubt start timed_out same before = if same then true else before
doubt start (failed _) same before = if same then true else before
doubt start granted same before = if same then false else before
doubt start denied same before = before
doubt cancel granted same before = if same then false else before
doubt _ _ same before = before

-- A start request for the key got no answer, and since then neither did the connection end nor was a
-- request for the key granted.
unfoldable pub in_doubt : History → Text → Bool
in_doubt [] key = false
in_doubt (exchange req host port reply ∷ h) key =
    doubt req reply (forwarding_key host port == key) (in_doubt h key)
in_doubt (dialled _ ∷ h) key = in_doubt h key
in_doubt (hung_up ∷ h) key = false

exchange-settled :
    (late : Bool) (req : ForwardRequest) (reply : Reply) (same before held known : Bool)
    → doubt req reply same before ≡ false
    → (before ≡ false → known ≡ held)
    → exchange_effect req (outcome late req reply) same known ≡ exchange_effect req reply same held
exchange-settled late start granted true before held known sure was = refl
exchange-settled late start granted false before held known sure was = was sure
exchange-settled late start denied same before held known sure was = was sure
exchange-settled late start timed_out true before held known sure was = absurd cc
exchange-settled true start timed_out false before held known sure was = was sure
exchange-settled false start timed_out false before held known sure was = was sure
exchange-settled late start (failed x) true before held known sure was = absurd cc
exchange-settled true start (failed x) false before held known sure was = was sure
exchange-settled false start (failed x) false before held known sure was = was sure
exchange-settled late cancel granted true before held known sure was = refl
exchange-settled late cancel granted false before held known sure was = was sure
exchange-settled late cancel denied same before held known sure was = was sure
exchange-settled late cancel timed_out same before held known sure was = was sure
exchange-settled late cancel (failed x) same before held known sure was = was sure
exchange-settled late (other x) reply same before held known sure was = was sure

-- Without a doubt, the leases of the server are those that were granted in answers.
pub bound-settled :
    (late : History → Bool) (h : History) (key : Text)
    → in_doubt h key ≡ false
    → bound (known_to_server late h) key ≡ bound h key
unfolding known_to_server in_doubt bound
bound-settled late [] key sure = refl
bound-settled late (exchange req host port reply ∷ h) key sure =
    exchange-settled (late h) req reply (forwarding_key host port == key) (in_doubt h key)
      (bound h key) (bound (known_to_server late h) key) sure (bound-settled late h key)
bound-settled late (dialled up ∷ h) key sure = bound-settled late h key sure
bound-settled late (hung_up ∷ h) key sure = refl

-- RFC 4254, section 7.1: the server grants the cancellation of a forwarding that it holds.
pub record IsCooperative (srv : Server) : Type 0 where
  pub grants_cancel :
      (h : History) (host : Text) (port : ℤ)
      → bound h (forwarding_key host port) ≡ true
      → srv.answer h cancel host port ≡ granted
