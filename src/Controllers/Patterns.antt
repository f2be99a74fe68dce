-- ===== src/Controllers/Patterns.antt =====
-- controllers/common.go: getRemoteAddress with its patterns, and createSSHSessionPool.
-- A pattern is the text before the group, the group and the text after it, each a sequence of pieces;
-- matching is that of package regexp: leftmost, with greedy repetitions that are given back from the
-- longest down.
pub mod Matching
pub mod Complete
pub mod Found
mod Tests
use k8s_ssh_gateway_controll.Prelude.{
  ℕ, suc, zero, ◌-◌, Bool, true, false, ◌||◌, ◌&&◌, Option, none, some, List, [], ◌∷◌, ◌++◌, map,
  eqb, leb, if◌then◌else◌,
}
use k8s_ssh_gateway_controll.Go.Text.{Text, text}
use k8s_ssh_gateway_controll.Ssh.Errors.{Result, err, external}
use k8s_ssh_gateway_controll.Ssh.Flags.{SessionFlags, no_flags}
use k8s_ssh_gateway_controll.Ssh.Manager.State.{Server, Manager}
use k8s_ssh_gateway_controll.Ssh.Manager.Operations.{Config}
use k8s_ssh_gateway_controll.Ssh.Pool.{Pool}
use k8s_ssh_gateway_controll.Ssh.Pool.Tunnel.{new_ssh_session_pool}

pub data Piece : Type 0 where
  literal : Text → Piece
  -- `+` after a class of bytes
  one_or_more : (ℕ → Bool) → Piece

pub record Pattern : Type 0 where
  pub before : List Piece
  pub group : List Piece
  pub after : List Piece

-- The bytes of the group, and how many bytes were read.
abbrev pub Match : Type 0
Match = Text × ℕ

-- A byte that is read, in the group or outside.
unfoldable pub consume : Bool → ℕ → Option Match → Option Match
consume inside b none = none
consume true b (some (t, n)) = some (b ∷ t, suc n)
consume false b (some (t, n)) = some (t, suc n)

unfoldable pub or_else : Option Match → Option Match → Option Match
or_else none o = o
or_else (some x) o = some x

unfoldable pub literal_then : Bool → Text → (Text → Option Match) → Text → Option Match
literal_then inside [] k s = k s
literal_then inside (c ∷ cs) k [] = none
literal_then inside (c ∷ cs) k (b ∷ s) =
    let rest = literal_then inside cs k s in if eqb c b then consume inside b rest else none

unfoldable pub many_then : Bool → (ℕ → Bool) → (Text → Option Match) → Text → Option Match
many_then inside c k [] = k []
many_then inside c k (b ∷ s) =
    let more = many_then inside c k s in
    if c b then or_else (consume inside b more) (k (b ∷ s)) else k (b ∷ s)

unfoldable pub some_then : Bool → (ℕ → Bool) → (Text → Option Match) → Text → Option Match
some_then inside c k [] = none
some_then inside c k (b ∷ s) = if c b then consume inside b (many_then inside c k s) else none

unfoldable pub piece_then : Bool → Piece → (Text → Option Match) → Text → Option Match
piece_then inside (literal t) k = literal_then inside t k
piece_then inside (one_or_more c) k = some_then inside c k

unfoldable pub pieces_then : Bool → List Piece → (Text → Option Match) → Text → Option Match
pieces_then inside [] k = k
pieces_then inside (p ∷ ps) k = piece_then inside p (pieces_then inside ps k)

abbrev pub nothing_more : Text → Option Match
nothing_more s = some ([], 0)

-- The match that begins where the text does.
unfoldable pub match_at : Pattern → Text → Option Match
match_at re =
    pieces_then false re.before
      (pieces_then true re.group (pieces_then false re.after nothing_more))

abbrev pub groups : Option Match → List Text
groups none = []
groups (some (t, n)) = t ∷ []

abbrev pub left_of : Option Match → ℕ
left_of none = 0
left_of (some (t, n)) = n - 1

-- re.FindAllStringSubmatch(input, -1), of each match the group: after a match the search goes on
-- behind it. The number is of the bytes that still belong to the last match.
unfoldable pub find_all : Pattern → ℕ → Text → List Text
find_all re skipped [] = []
find_all re (suc n) (b ∷ s) = find_all re n s
find_all re zero (b ∷ s) =
    let found = match_at re (b ∷ s) in groups found ++ find_all re (left_of found) s

-- \d, [\w\.-] and \s
abbrev pub is_digit : ℕ → Bool
is_digit b = leb b'0' b && leb b b'9'

abbrev pub is_host_byte : ℕ → Bool
is_host_byte b =
    is_digit b
    || (leb b'a' b && leb b b'z')
    || (leb b'A' b && leb b b'Z')
    || eqb b b'_'
    || eqb b b'.'
    || eqb b b'-'

abbrev pub is_space : ℕ → Bool
is_space b = eqb b 32 || eqb b 9 || eqb b 10 || eqb b 12 || eqb b 13

abbrev pub host_and_port : List Piece
host_and_port = one_or_more is_host_byte ∷ literal (text ":") ∷ one_or_more is_digit ∷ []

abbrev pub url_with : Text → List Piece
url_with prefix = literal prefix ∷ one_or_more is_host_byte ∷ []

-- NAME\x1b[0m:\s+(group)\r
abbrev pub coloured : Text → List Piece → Pattern
coloured name group = record {
  before = literal (name ++ 27 ∷ text "[0m:") ∷ one_or_more is_space ∷ [];
  group = group;
  after = literal (13 ∷ []) ∷ [];
}

abbrev pub announced : Text → List Piece → Pattern
announced words group = record { before = literal words ∷ []; group = group; after = [] }

pub data Scheme : Type 0 where
  tcp_scheme http_scheme https_scheme : Scheme

-- remoteAddressPatterns
unfoldable pub remote_address_patterns : Scheme → List Pattern
remote_address_patterns tcp_scheme =
    coloured (text "TCP") host_and_port
    ∷ announced (text "Forwarding TCP traffic from ") host_and_port
    ∷ []
remote_address_patterns http_scheme =
    coloured (text "HTTP") (url_with (text "http://"))
    ∷ announced (text "Forwarding HTTP traffic from ") (url_with (text "http://"))
    ∷ []
remote_address_patterns https_scheme =
    coloured (text "HTTPS") (url_with (text "https://"))
    ∷ announced (text "tunneled with tls termination, ") (url_with (text "https://"))
    ∷ announced (text "Forwarding HTTP traffic from ") (url_with (text "https://"))
    ∷ []

unfoldable pub address_of : Scheme → Text → Text
address_of tcp_scheme t = text "tcp://" ++ t
address_of http_scheme t = t
address_of https_scheme t = t

unfoldable pub by_patterns : Scheme → List Pattern → Text → List Text
by_patterns scheme [] input = []
by_patterns scheme (re ∷ res) input =
    map (address_of scheme) (find_all re 0 input) ++ by_patterns scheme res input

-- getRemoteAddress: Go goes over the map of patterns in any order, here the list of its schemes.
unfoldable pub by_schemes : List Scheme → Text → List Text
by_schemes [] input = []
by_schemes (scheme ∷ schemes) input =
    by_patterns scheme (remote_address_patterns scheme) input ++ by_schemes schemes input

unfoldable pub get_remote_address : List Scheme → Text → Option (List Text)
get_remote_address schemes input = some (by_schemes schemes input)

-- createSSHSessionPool, with what reading the key file gave.
unfoldable pub create_ssh_session_pool :
    (Text → Option Text)
    → (SessionFlags → Server)
    → List Scheme
    → Text
    → Option Text
    → Result (Pool Manager)
create_ssh_session_pool parse_private_key srv schemes host_key none =
    err (external (text "could not load private key"))
create_ssh_session_pool parse_private_key srv schemes host_key (some key) =
    new_ssh_session_pool parse_private_key srv (record {
      private_key = key;
      host_key = host_key;
      remote_addr_func = some (get_remote_address schemes);
      flags = no_flags;
    })
