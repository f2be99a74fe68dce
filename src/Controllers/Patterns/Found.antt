-- ===== src/Controllers/Patterns/Found.antt =====
-- controllers/common.go: the addresses that getRemoteAddress reads off the server's output.
use k8s_ssh_gateway_controll.Prelude.{
  ℕ, zero, suc, ◌≡◌, refl, sym, ap, ◌∙◌, inl, inr, false, Option, none, some, List, [], ◌∷◌, ◌++◌,
  map, All, Exists, arith, All-append, All-map, All-weaker, append-empty, map-empty, append_assoc,
}
use k8s_ssh_gateway_controll.Go.Text.{Text, text}
use k8s_ssh_gateway_controll.Controllers.Patterns.{
  Pattern, Match, match_at, groups, left_of, find_all, Scheme, tcp_scheme, http_scheme,
  https_scheme, remote_address_patterns, address_of, by_patterns, by_schemes, get_remote_address,
}
use k8s_ssh_gateway_controll.Controllers.Patterns.Matching.{Matches, match_at-Matches}
use k8s_ssh_gateway_controll.Controllers.Patterns.Complete.{is_found, match_at-found}

-- Somewhere in the text is a match whose group is `found`.
abbrev pub Occurs : Pattern → Text → Text → Type 0
Occurs re input found = (u s : Text) × (input ≡ u ++ s) × Matches re s found

module _ (re : Pattern) (input : Text) where
  groups-Occurs :
      (u s : Text) (o : Option Match)
      → input ≡ u ++ s
      → match_at re s ≡ o
      → All (Occurs re input) (groups o)
  groups-Occurs u s none whole e = tt
  groups-Occurs u s (some x) whole e = ((u, s, whole, match_at-Matches re s x e), tt)

  find_all-Occurs : (n : ℕ) (u s : Text) → input ≡ u ++ s → All (Occurs re input) (find_all re n s)
  unfolding find_all
  find_all-Occurs n u [] whole = tt
  find_all-Occurs (suc n) u (b ∷ s) whole =
      find_all-Occurs n (u ++ b ∷ []) s (whole ∙ sym (append_assoc u (b ∷ []) s))
  find_all-Occurs zero u (b ∷ s) whole =
      All-append (Occurs re input) (groups (match_at re (b ∷ s)))
        (find_all re (left_of (match_at re (b ∷ s))) s)
        (groups-Occurs u (b ∷ s) (match_at re (b ∷ s)) whole refl)
        (find_all-Occurs (left_of (match_at re (b ∷ s))) (u ++ b ∷ []) s
          (whole ∙ sym (append_assoc u (b ∷ []) s)))

  no_group : (o : Option Match) → groups o ≡ [] → (is_found o ≡ false) × (left_of o ≡ 0)
  no_group none e = (refl, refl)
  no_group (some x) e = absurd (cc e)

  find_all-empty :
      (u s : Text) (b : ℕ) (found : Text)
      → find_all re 0 (u ++ b ∷ s) ≡ []
      → ¬ Matches re (b ∷ s) found
  unfolding find_all
  find_all-empty [] s b found e m =
      let (none_here, _) =
        append-empty (groups (match_at re (b ∷ s))) (find_all re (left_of (match_at re (b ∷ s))) s)
          e in
      let (missed, _) = no_group (match_at re (b ∷ s)) none_here in
      absurd (ground (arith, missed, match_at-found re (b ∷ s) found m))
  find_all-empty (c ∷ u) s b found e m =
      let o = match_at re (c ∷ (u ++ b ∷ s)) in
      let (none_here, none_later) =
        append-empty (groups o) (find_all re (left_of o) (u ++ b ∷ s)) e in
      let (_, at_once) = no_group o none_here in
      find_all-empty u s b found
        (ap (λ (n : ℕ). find_all re n (u ++ b ∷ s)) (sym at_once) ∙ none_later) m

-- A TCP address is shown without its scheme.
abbrev pub Reported : Scheme → Text → Text → Type 0
Reported tcp_scheme found address = address ≡ text "tcp://" ++ found
Reported http_scheme found address = address ≡ found
Reported https_scheme found address = address ≡ found

address_of-Reported :
    (scheme : Scheme) (found : Text) → Reported scheme found (address_of scheme found)
unfolding address_of
address_of-Reported tcp_scheme found = refl
address_of-Reported http_scheme found = refl
address_of-Reported https_scheme found = refl

-- An address that one of the schemes' patterns shows in the text.
abbrev pub ShownBy : Text → Text → Scheme → Pattern → Type 0
ShownBy input address scheme re =
    (found : Text) × Occurs re input found × Reported scheme found address

abbrev pub IsShown : List Scheme → Text → Text → Type 0
IsShown schemes input address =
    Exists
      (λ (scheme : Scheme). Exists (ShownBy input address scheme) (remote_address_patterns scheme))
      schemes

by_patterns-Shown :
    (scheme : Scheme) (res : List Pattern) (input : Text)
    → All (λ (a : Text). Exists (ShownBy input a scheme) res) (by_patterns scheme res input)
unfolding by_patterns
by_patterns-Shown scheme [] input = tt
by_patterns-Shown scheme (re ∷ res) input =
    let Q : Text → Type 0 = λ (a : Text). Exists (ShownBy input a scheme) (re ∷ res) in
    All-append Q (map (address_of scheme) (find_all re 0 input)) (by_patterns scheme res input)
      (All-map (Occurs re input) Q (address_of scheme)
        (λ t occurs. inl (t, occurs, address_of-Reported scheme t)) (find_all re 0 input)
        (find_all-Occurs re input 0 [] input refl))
      (All-weaker (λ (a : Text). Exists (ShownBy input a scheme) res) Q (λ a shown. inr shown)
        (by_patterns scheme res input) (by_patterns-Shown scheme res input))

by_schemes-IsShown :
    (schemes : List Scheme) (input : Text) → All (IsShown schemes input) (by_schemes schemes input)
unfolding by_schemes
by_schemes-IsShown [] input = tt
by_schemes-IsShown (scheme ∷ schemes) input =
    let here = by_patterns scheme (remote_address_patterns scheme) input in
    All-append (IsShown (scheme ∷ schemes) input) here (by_schemes schemes input)
      (All-weaker (λ (a : Text). Exists (ShownBy input a scheme) (remote_address_patterns scheme))
        (IsShown (scheme ∷ schemes) input) (λ a shown. inl shown) here
        (by_patterns-Shown scheme (remote_address_patterns scheme) input))
      (All-weaker (IsShown schemes input) (IsShown (scheme ∷ schemes) input) (λ a shown. inr shown)
        (by_schemes schemes input) (by_schemes-IsShown schemes input))

-- No pattern of any scheme matches anywhere in the text.
abbrev pub NothingShown : Text → Type 0
NothingShown input =
    (scheme : Scheme) (re : Pattern)
    → Exists (λ (x : Pattern). x ≡ re) (remote_address_patterns scheme)
    → (u s : Text) (b : ℕ) (found : Text) → input ≡ u ++ b ∷ s
    → ¬ Matches re (b ∷ s) found

by_patterns-empty :
    (scheme : Scheme) (res : List Pattern) (input : Text)
    → by_patterns scheme res input ≡ []
    → (re : Pattern) → Exists (λ (x : Pattern). x ≡ re) res
    → find_all re 0 input ≡ []
unfolding by_patterns
by_patterns-empty scheme [] input e re at = absurd at
by_patterns-empty scheme (x ∷ res) input e re at =
    let (here, later) =
      append-empty (map (address_of scheme) (find_all x 0 input)) (by_patterns scheme res input)
        e in
    elim at [
      | inl same ↦
          ap (λ (y : Pattern). find_all y 0 input) (sym same)
          ∙ map-empty (address_of scheme) (find_all x 0 input) here
      | inr further ↦ by_patterns-empty scheme res input later re further
    ]

by_schemes-empty :
    (schemes : List Scheme) (input : Text)
    → by_schemes schemes input ≡ []
    → (scheme : Scheme) → Exists (λ (x : Scheme). x ≡ scheme) schemes
    → by_patterns scheme (remote_address_patterns scheme) input ≡ []
unfolding by_schemes
by_schemes-empty [] input e scheme at = absurd at
by_schemes-empty (x ∷ schemes) input e scheme at =
    let (here, later) =
      append-empty (by_patterns x (remote_address_patterns x) input) (by_schemes schemes input) e in
    elim at [
      | inl same ↦
          ap (λ (y : Scheme). by_patterns y (remote_address_patterns y) input) (sym same) ∙ here
      | inr further ↦ by_schemes-empty schemes input later scheme further
    ]

-- getRemoteAddress does not fail; each address that it returns is the group of a match, somewhere in
-- the text, of a pattern of its scheme, with tcp:// before that of a TCP pattern; and in whatever
-- order the map gives its schemes, if it gives all of them, getRemoteAddress returns no address only
-- where no pattern matches at any byte of the text.
pub get_remote_address-Shown :
    (schemes : List Scheme) (input : Text)
    → ((scheme : Scheme) → Exists (λ (x : Scheme). x ≡ scheme) schemes)
    → (addresses : List Text) × (get_remote_address schemes input ≡ some addresses)
      × All (IsShown schemes input) addresses
      × (addresses ≡ [] → NothingShown input)
unfolding get_remote_address
get_remote_address-Shown schemes input every = (
  by_schemes schemes input,
  refl,
  by_schemes-IsShown schemes input,
  λ silent scheme re at u s b found whole. find_all-empty re input u s b found (
      ap (find_all re 0) (sym whole)
      ∙ by_patterns-empty scheme (remote_address_patterns scheme) input
          (by_schemes-empty schemes input silent scheme (every scheme)) re at),
)
