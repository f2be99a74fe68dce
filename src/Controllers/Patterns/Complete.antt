-- ===== src/Controllers/Patterns/Complete.antt =====
-- controllers/common.go: a pattern of getRemoteAddress misses no match.
use k8s_ssh_gateway_controll.Prelude.{
  append_assoc, ℕ, ◌≡◌, refl, sym, ap, ◌∙◌, subst, Bool, true, false, Option, none, some, List, [],
  ◌∷◌, ◌++◌, All, arith, eqb, if_both,
}
use k8s_ssh_gateway_controll.Go.Text.{Text}
use k8s_ssh_gateway_controll.Controllers.Patterns.{
  Piece, literal, one_or_more, Pattern, Match, consume, or_else, literal_then, many_then, some_then,
  piece_then, pieces_then, nothing_more, match_at,
}
use k8s_ssh_gateway_controll.Controllers.Patterns.Matching.{Reads, ReadsAll, Matches}

abbrev pub is_found : Option Match → Bool
is_found none = false
is_found (some x) = true

consume-found :
    (inside : Bool) (b : ℕ) (o : Option Match)
    → is_found o ≡ true
    → is_found (consume inside b o) ≡ true
unfolding consume
consume-found inside b none e = e
consume-found true b (some (t, n)) e = refl
consume-found false b (some (t, n)) e = refl

or_else-first : (o o' : Option Match) → is_found o ≡ true → is_found (or_else o o') ≡ true
unfolding or_else
or_else-first none o' e = absurd (cc e)
or_else-first (some x) o' e = refl

or_else-second : (o o' : Option Match) → is_found o' ≡ true → is_found (or_else o o') ≡ true
unfolding or_else
or_else-second none o' e = e
or_else-second (some x) o' e = refl

module _ (inside : Bool) (k : Text → Option Match) where
  literal_then-found :
      (t rest : Text)
      → is_found (k rest) ≡ true
      → is_found (literal_then inside t k (t ++ rest)) ≡ true
  unfolding literal_then
  literal_then-found [] rest e = e
  literal_then-found (c ∷ cs) rest e =
      if_both (λ (o : Option Match). is_found o ≡ true) (eqb c c) _ _
        (λ same.
          consume-found inside c (literal_then inside cs k (cs ++ rest))
            (literal_then-found cs rest e))
        (λ differs. absurd (ground (arith, differs)))

  many_then-here :
      (c : ℕ → Bool) (s : Text) → is_found (k s) ≡ true → is_found (many_then inside c k s) ≡ true
  unfolding many_then
  many_then-here c [] e = e
  many_then-here c (b ∷ s) e =
      if_both (λ (o : Option Match). is_found o ≡ true) (c b) _ _
        (λ mine. or_else-second (consume inside b (many_then inside c k s)) (k (b ∷ s)) e)
        (λ foreign. e)

  many_then-found :
      (c : ℕ → Bool) (t rest : Text)
      → All (λ (d : ℕ). c d ≡ true) t
      → is_found (k rest) ≡ true
      → is_found (many_then inside c k (t ++ rest)) ≡ true
  unfolding many_then
  many_then-found c [] rest fits e = many_then-here c rest e
  many_then-found c (b ∷ t) rest (mine, fits) e = rw mine (
      or_else-first (consume inside b (many_then inside c k (t ++ rest))) (k (b ∷ (t ++ rest))) (
        consume-found inside b (many_then inside c k (t ++ rest))
          (many_then-found c t rest fits e)))

  piece_then-found :
      (p : Piece) (t rest : Text)
      → Reads p t
      → is_found (k rest) ≡ true
      → is_found (piece_then inside p k (t ++ rest)) ≡ true
  unfolding piece_then some_then
  piece_then-found (literal u) t rest fits e =
      subst (λ (v : Text). is_found (literal_then inside u k (v ++ rest)) ≡ true) (sym fits)
        (literal_then-found u rest e)
  piece_then-found (one_or_more c) [] rest fits e = absurd fits
  piece_then-found (one_or_more c) (b ∷ t) rest (mine, fits) e =
      rw mine (
        consume-found inside b (many_then inside c k (t ++ rest)) (many_then-found c t rest fits e))

pieces_then-found :
    (inside : Bool) (ps : List Piece) (k : Text → Option Match) (u rest : Text)
    → ReadsAll ps u
    → is_found (k rest) ≡ true
    → is_found (pieces_then inside ps k (u ++ rest)) ≡ true
unfolding pieces_then
pieces_then-found inside [] k u rest fits e =
    subst (λ (v : Text). is_found (k (v ++ rest)) ≡ true) (sym fits) e
pieces_then-found inside (p ∷ ps) k u rest (t, v, fits, fit, whole) e =
    subst (λ (x : Text). is_found (piece_then inside p (pieces_then inside ps k) x) ≡ true)
      (sym (append_assoc t v rest) ∙ ap (λ (x : Text). x ++ rest) (sym whole))
      (piece_then-found inside (pieces_then inside ps k) p t (v ++ rest) fits
        (pieces_then-found inside ps k v rest fit e))

-- Wherever the pattern matches, something is found.
pub match_at-found :
    (re : Pattern) (s found : Text) → Matches re s found → is_found (match_at re s) ≡ true
unfolding match_at
match_at-found re s found m =
    let last = pieces_then false re.after nothing_more in
    subst
      (λ (x : Text).
        is_found (pieces_then false re.before (pieces_then true re.group last) x) ≡ true)
      (sym m.split)
      (pieces_then-found false re.before (pieces_then true re.group last) m.before
        (found ++ (m.after ++ m.rest)) m.before_reads
        (pieces_then-found true re.group last found (m.after ++ m.rest) m.found_reads
          (pieces_then-found false re.after nothing_more m.after m.rest m.after_reads refl)))
