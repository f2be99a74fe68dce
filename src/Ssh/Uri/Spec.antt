-- ===== src/Ssh/Uri/Spec.antt =====
-- An independent description of the URIs that a forwarding request accepts.
use k8s_ssh_gateway_controll.Prelude.{
  ◌≡◌, refl, ap, ◌∙◌, ◌↔◌, ◌⊎◌, inl, inr, Bool, true, false, not, ◌||◌, Option, none, some, List,
  [], ◌∷◌, ◌++◌, arith, if◌then◌else◌, Bool-cases, Option-cases, Exists,
}
use k8s_ssh_gateway_controll.Prelude.Int.{ℤ, int_eqb_iff}
use k8s_ssh_gateway_controll.Prelude.Eq.{int_eq, nat_eq}
use k8s_ssh_gateway_controll.Go.Text.{
  Text, text_eq, cut_prefix, has_prefix, contains, cut_prefix-append, append-cut_prefix,
}
use k8s_ssh_gateway_controll.Ssh.Uri.{
  http, https, tcp, at_boundary, host_ends, http_uri_has_host, forwarding_key, tcp_uri_port,
  is_wildcard, uri_matches, matches_requested_host, port_is,
}

pub has_prefix-append : (p s : Text) → has_prefix (p ++ s) p ≡ true
unfolding has_prefix
has_prefix-append p s = rw (cut_prefix-append p s, has_prefix)

pub has_prefix-rest : (s p : Text) → has_prefix s p ≡ true → (r : Text) × (s ≡ p ++ r)
unfolding has_prefix
has_prefix-rest s p h = elim (Option-cases (cut_prefix s p)) [
  | inl e ↦ absurd (ground arith)
  | inr (r, e) ↦ (r, append-cut_prefix s p e)
]

contains-prefix : (t s : Text) → has_prefix t s ≡ true → contains t s ≡ true
unfolding contains
contains-prefix [] s h = h
contains-prefix (c ∷ t) s h = ground arith

-- strings.Contains finds every text that stands inside another.
pub contains-middle : (pre s post : Text) → contains (pre ++ (s ++ post)) s ≡ true
unfolding contains
contains-middle [] s post = contains-prefix (s ++ post) s (has_prefix-append s post)
contains-middle (c ∷ pre) s post = ground (arith, contains-middle pre s post)

-- What strings.Contains finds stands inside the text.
pub contains-inside :
    (t s : Text) → contains t s ≡ true → (pre : Text) × (post : Text) × (t ≡ pre ++ (s ++ post))
unfolding contains
contains-inside [] s h = let (r, e) = has_prefix-rest [] s h in ([], r, e)
contains-inside (c ∷ t) s h = elim (Bool-cases (has_prefix (c ∷ t) s)) [
  | inl here ↦ let (r, e) = has_prefix-rest (c ∷ t) s here in ([], r, e)
  | inr later ↦
      let (pre, post, e) = contains-inside t s (ground arith) in (c ∷ pre, post, ap (◌∷◌ c) e)
]

-- The text goes on with nothing, with a path or with a port.
abbrev pub EndsHost : Text → Type 0
EndsHost rest = at_boundary rest ≡ true

-- Why a URI satisfies a request for `host` and `port`.
pub data Accepts (host : Text) (port : ℤ) (enforce_port : Bool) (uri : Text) : Type 0 where
  any_http :
      (rest : Text)
      → is_wildcard host ≡ true
      → uri ≡ http ++ rest
      → Accepts host port enforce_port uri
  any_https :
      (rest : Text)
      → is_wildcard host ≡ true
      → uri ≡ https ++ rest
      → Accepts host port enforce_port uri
  http_host :
      (rest : Text)
      → uri ≡ http ++ (host ++ rest)
      → EndsHost rest
      → Accepts host port enforce_port uri
  https_host :
      (rest : Text)
      → uri ≡ https ++ (host ++ rest)
      → EndsHost rest
      → Accepts host port enforce_port uri
  tcp_host :
      (pre post rest : Text)
      → is_wildcard host ≡ false
      → uri ≡ tcp ++ rest
      → uri ≡ pre ++ (forwarding_key host port ++ post)
      → Accepts host port enforce_port uri
  any_tcp :
      (rest : Text)
      → is_wildcard host ≡ true
      → enforce_port ≡ false
      → uri ≡ tcp ++ rest
      → Accepts host port enforce_port uri
  tcp_port :
      (rest : Text)
      → is_wildcard host ≡ true
      → uri ≡ tcp ++ rest
      → tcp_uri_port uri ≡ some port
      → Accepts host port enforce_port uri

port_is-some : (port : ℤ) (o : Option ℤ) → port_is port o ≡ true → o ≡ some port
port_is-some port none h = cc
port_is-some port (some p) h = ap some ((int_eqb_iff p port).0 h)

module _ (host : Text) (port : ℤ) (enforce_port : Bool) where
  host_ends-rest :
      (t : Text)
      → host_ends (cut_prefix t host) ≡ true
      → (rest : Text) × (t ≡ host ++ rest) × EndsHost rest
  host_ends-rest t h = elim (Option-cases (cut_prefix t host)) [
    | inl e ↦ absurd (ground arith)
    | inr (rest, e) ↦ (rest, append-cut_prefix t host e, ground arith)
  ]

  host_ends-append :
      (rest : Text) → EndsHost rest → host_ends (cut_prefix (host ++ rest) host) ≡ true
  host_ends-append rest b = rw (cut_prefix-append host rest, host_ends) b

  -- The test on a URI of each scheme.
  uri_matches-http :
      (rest : Text)
      → uri_matches (http ++ rest) host port enforce_port
        ≡ (is_wildcard host || host_ends (cut_prefix rest host))
  unfolding uri_matches http_uri_has_host
  uri_matches-http rest = refl

  uri_matches-https :
      (rest : Text)
      → uri_matches (https ++ rest) host port enforce_port
        ≡ (is_wildcard host || host_ends (cut_prefix rest host))
  unfolding uri_matches http_uri_has_host
  uri_matches-https rest = refl

  uri_matches-tcp :
      (rest : Text)
      → uri_matches (tcp ++ rest) host port enforce_port ≡ (
          if not (is_wildcard host)
          then contains (tcp ++ rest) (forwarding_key host port)
          else if not enforce_port
          then true
          else port_is port (tcp_uri_port (tcp ++ rest)))
  unfolding uri_matches has_prefix cut_prefix
  uri_matches-tcp rest = refl

  -- Every URI that the description accepts passes the test.
  uri_matches_complete :
      (uri : Text)
      → Accepts host port enforce_port uri
      → uri_matches uri host port enforce_port ≡ true
  uri_matches_complete uri (any_http rest w e) = rw e (ground (arith, uri_matches-http rest))
  uri_matches_complete uri (any_https rest w e) = rw e (ground (arith, uri_matches-https rest))
  uri_matches_complete uri (http_host rest e b) =
      rw e (ground (arith, uri_matches-http (host ++ rest), host_ends-append rest b))
  uri_matches_complete uri (https_host rest e b) =
      rw e (ground (arith, uri_matches-https (host ++ rest), host_ends-append rest b))
  uri_matches_complete uri (tcp_host pre post rest w e f) =
      ground (arith, uri_matches-tcp rest, contains-middle pre (forwarding_key host port) post)
  uri_matches_complete uri (any_tcp rest w n e) = rw e (ground (arith, uri_matches-tcp rest))
  uri_matches_complete uri (tcp_port rest w e p) =
      ground (arith, uri_matches-tcp rest, int_eqb_iff port port)

  -- A URI that passes the test has a scheme that the code knows.
  uri_matches-scheme :
      (uri : Text)
      → uri_matches uri host port enforce_port ≡ true
      → (has_prefix uri http ≡ true) ⊎ (has_prefix uri https ≡ true) ⊎ (has_prefix uri tcp ≡ true)
  unfolding uri_matches
  uri_matches-scheme uri h = ground arith

  tcp_sound :
      (uri rest : Text)
      → uri ≡ tcp ++ rest
      → uri_matches uri host port enforce_port ≡ true
      → Accepts host port enforce_port uri
  tcp_sound uri rest e h = elim (Bool-cases (is_wildcard host)) [
    | inr specific ↦
        let (pre, post, f) =
          contains-inside uri (forwarding_key host port) (ground (arith, uri_matches-tcp rest)) in
        tcp_host pre post rest specific e f
    | inl wild ↦ elim (Bool-cases enforce_port) [
      | inr free ↦ any_tcp rest wild free e
      | inl pinned ↦
          tcp_port rest wild e
            (port_is-some port (tcp_uri_port uri) (ground (arith, uri_matches-tcp rest)))
    ]
  ]

  http_sound :
      (uri rest : Text)
      → uri ≡ http ++ rest
      → uri_matches uri host port enforce_port ≡ true
      → Accepts host port enforce_port uri
  http_sound uri rest e h = elim (Bool-cases (is_wildcard host)) [
    | inl wild ↦ any_http rest wild e
    | inr specific ↦
        let (after, f, b) = host_ends-rest rest (ground (arith, uri_matches-http rest)) in
        http_host after (e ∙ ap (◌++◌ http) f) b
  ]

  https_sound :
      (uri rest : Text)
      → uri ≡ https ++ rest
      → uri_matches uri host port enforce_port ≡ true
      → Accepts host port enforce_port uri
  https_sound uri rest e h = elim (Bool-cases (is_wildcard host)) [
    | inl wild ↦ any_https rest wild e
    | inr specific ↦
        let (after, f, b) = host_ends-rest rest (ground (arith, uri_matches-https rest)) in
        https_host after (e ∙ ap (◌++◌ https) f) b
  ]

  -- A URI that passes the test is one that the description accepts.
  uri_matches_sound :
      (uri : Text)
      → uri_matches uri host port enforce_port ≡ true
      → Accepts host port enforce_port uri
  uri_matches_sound uri h = elim (uri_matches-scheme uri h) [
    | inl p ↦ let (rest, e) = has_prefix-rest uri http p in http_sound uri rest e h
    | inr (inl p) ↦ let (rest, e) = has_prefix-rest uri https p in https_sound uri rest e h
    | inr (inr p) ↦ let (rest, e) = has_prefix-rest uri tcp p in tcp_sound uri rest e h
  ]

  matches_sound :
      (uris : List Text)
      → matches_requested_host uris host port enforce_port ≡ true
      → Exists (Accepts host port enforce_port) uris
  unfolding matches_requested_host
  matches_sound [] h = cc
  matches_sound (uri ∷ uris) h = elim (Bool-cases (uri_matches uri host port enforce_port)) [
    | inl hit ↦ inl (uri_matches_sound uri hit)
    | inr miss ↦ inr (matches_sound uris (ground arith))
  ]

  matches_complete :
      (uris : List Text)
      → Exists (Accepts host port enforce_port) uris
      → matches_requested_host uris host port enforce_port ≡ true
  unfolding matches_requested_host
  matches_complete [] x = absurd x
  matches_complete (uri ∷ uris) (inl a) = ground (arith, uri_matches_complete uri a)
  matches_complete (uri ∷ uris) (inr x) = ground (arith, matches_complete uris x)

  -- `MatchesRequestedHost` answers true exactly when some URI is one that the request accepts: for
  -- a wildcard host any http or https URI, and any tcp URI, of the requested port if that is
  -- enforced; for any host an http or https URI whose authority begins with the host and goes on
  -- with nothing, a path or a port; for a host that is no wildcard a tcp URI that contains
  -- "host:port".
  pub matches_requested_host_iff :
      (uris : List Text)
      → (matches_requested_host uris host port enforce_port ≡ true)
        ↔ Exists (Accepts host port enforce_port) uris
  matches_requested_host_iff uris = (matches_sound uris, matches_complete uris)
