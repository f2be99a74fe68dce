-- ===== src/Go/Net.antt =====
-- net.SplitHostPort and net.JoinHostPort.
use k8s_ssh_gateway_controll.Prelude.{
  ℕ, ◌≡◌, refl, Bool, false, ◌||◌, arith, Option, none, some, [], ◌∷◌, ◌++◌, eqb, if◌then◌else◌,
}
use k8s_ssh_gateway_controll.Prelude.Eq.{int_eq}
use k8s_ssh_gateway_controll.Go.Text.{Text, text, text_eq}
use k8s_ssh_gateway_controll.Go.Text.{has_byte, cut_first, cut_last}

-- The text holds a bracket.
has_bracket : Text → Bool
unfolding has_byte
has_bracket s = has_byte b'[' s || has_byte b']' s

-- `[host]` before the last colon: its closing bracket is the first one of the whole text.
bracketed : Option (Text × Text) → Text → Option (Text × Text)
bracketed (some (_ ∷ host, [])) port =
    if has_byte b'[' host || has_bracket port then none else some (host, port)
bracketed _ port = none

-- What precedes the last colon, and what follows it.
host_and_port : Text → Text → Option (Text × Text)
unfolding has_byte has_bracket cut_first bracketed
host_and_port [] port = if has_bracket port then none else some ([], port)
host_and_port (c ∷ host) port =
    if eqb c b'['
    then bracketed (cut_first b']' (c ∷ host)) port
    else if has_byte b':' (c ∷ host) || has_bracket (c ∷ host) || has_bracket port
    then none
    else some (c ∷ host, port)

-- net.SplitHostPort(hostport); `none` is its error.
unfoldable pub split_host_port : Text → Option (Text × Text)
unfolding cut_last host_and_port
split_host_port s = elim (cut_last b':' s) [
  | none ↦ none
  | some (host, port) ↦ host_and_port host port
]

-- net.JoinHostPort(host, port)
unfoldable pub join_host_port : Text → Text → Text
join_host_port host port =
    if has_byte b':' host then b'[' ∷ host ++ b']' ∷ b':' ∷ port else host ++ b':' ∷ port

split_runs :
    (split_host_port (text "example.com:8080") ≡ some (text "example.com", text "8080"))
    × (split_host_port (text "[::1]:80") ≡ some (text "::1", text "80"))
    × (split_host_port (text "::1:80") ≡ none)
    × (split_host_port (text "[::1]80:") ≡ none)
    × (split_host_port (text "host") ≡ none)
unfolding split_host_port
split_runs = (refl, refl, refl, refl, refl)

cut_last-none : (c : ℕ) (s : Text) → has_byte c s ≡ false → cut_last c s ≡ none
unfolding cut_last has_byte
cut_last-none c [] absent = refl
cut_last-none c (x ∷ s) absent = ground (arith, cut_last-none c s)

cut_last-append :
    (c : ℕ) (host port : Text)
    → has_byte c port ≡ false
    → cut_last c (host ++ c ∷ port) ≡ some (host, port)
unfolding cut_last
cut_last-append c [] port absent = ground (arith, cut_last-none c port absent)
cut_last-append c (x ∷ host) port absent = ground (arith, cut_last-append c host port absent)

host_and_port-plain :
    (host port : Text)
    → has_byte b':' host ≡ false
    → has_bracket host ≡ false
    → has_bracket port ≡ false
    → host_and_port host port ≡ some (host, port)
unfolding host_and_port has_bracket has_byte
host_and_port-plain [] port colon bracket bracket' = ground arith
host_and_port-plain (c ∷ host) port colon bracket bracket' = ground arith

-- A host without colons and brackets and a port without them are found again.
pub split_host_port-plain :
    (host port : Text)
    → has_byte b':' host ≡ false
    → has_byte b'[' host ≡ false
    → has_byte b']' host ≡ false
    → has_byte b':' port ≡ false
    → has_byte b'[' port ≡ false
    → has_byte b']' port ≡ false
    → split_host_port (host ++ b':' ∷ port) ≡ some (host, port)
unfolding split_host_port has_bracket
split_host_port-plain host port colon bracket bracket' colon' bracket2 bracket3 =
    let found = cut_last-append b':' host port colon' in
    let plain = host_and_port-plain host port colon (ground arith) (ground arith) in
    rw (found, split_host_port) plain
