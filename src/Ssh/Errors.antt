-- ===== src/Ssh/Errors.antt =====
-- ssh/ssh_errors.go, and the errors that ssh/ssh_tunnel_manager.go builds with fmt.Errorf.
use k8s_ssh_gateway_controll.Prelude.{◌≡◌, Option, none, some, List, [], ◌∷◌, ◌++◌}
use k8s_ssh_gateway_controll.Prelude.Int.{ℤ}
use k8s_ssh_gateway_controll.Prelude.Eq.{int_eq, nat_eq}
use k8s_ssh_gateway_controll.Go.Text.{Text, text, text_eq}
use k8s_ssh_gateway_controll.Go.Decimal.{itoa}

pub data SshError : Type 0 where
  client_not_ready : SshError
  forwarding_exists : Text → SshError
  forwarding_not_found : Text → SshError
  session_not_enabled : Text → SshError
  -- the text of the wrapped error, where there is one
  connection_failed : Option Text → SshError
  capture_abandoned : SshError
  invalid_remote_port : ℤ → SshError
  unknown_request : Text → SshError
  request_timed_out : Text → SshError
  request_denied : Text → SshError
  verification_timeout : Text → SshError
  wrong_hostname : List Text → SshError
  -- "build %s manager: %w"
  build_failed : Text → SshError → SshError
  -- an error of a library, by its text
  external : Text → SshError

pub data Result {ℓ} (A : Type ℓ) : Type ℓ where
  ok : A → Result A
  err : SshError → Result A

pub ok_inj {ℓ} : {A : Type ℓ} (x y : A) → ok x ≡ ok y → x ≡ y
ok_inj x y e = cc

-- The items of a slice with a space between them.
unfoldable pub spaced : List Text → Text
spaced [] = []
spaced (t ∷ []) = t
spaced (t ∷ u ∷ ts) = t ++ b' ' ∷ spaced (u ∷ ts)

-- Error(), by each error's type
unfoldable pub message : SshError → Text
unfolding spaced
message client_not_ready = text "ssh client not connected"
message (forwarding_exists key) = text "forwarding already exists: " ++ key
message (forwarding_not_found key) = text "forwarding not found: " ++ key
message (session_not_enabled kind) = text "session not enabled: " ++ kind
message (connection_failed none) = text "failed to connect to SSH server"
message (connection_failed (some cause)) = text "failed to connect to SSH server: " ++ cause
message capture_abandoned = text "connection closed while waiting for capture session"
message (invalid_remote_port port) =
    text "invalid remote port " ++ itoa port ++ text ": must be between 0 and 65535"
message (unknown_request req) = text "ssh: unknown forwarding request type: " ++ req
message (request_timed_out req) = text "ssh: " ++ req ++ text " request timed out"
message (request_denied req) = text "ssh: " ++ req ++ text " request denied by server"
message (verification_timeout host) = text "timeout waiting for address verification for " ++ host
message (wrong_hostname uris) = text "wrong hostname assigned: [" ++ spaced uris ++ text "]"
message (build_failed kind e) = text "build " ++ kind ++ text " manager: " ++ message e
message (external cause) = cause
