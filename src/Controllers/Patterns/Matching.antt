-- ===== src/Controllers/Patterns/Matching.antt =====
-- controllers/common.go: what the patterns of getRemoteAddress match, against a description of the
-- texts that each piece of a pattern reads.
use k8s_ssh_gateway_controll.Prelude.{
  append_assoc, append-nil, ℕ, ◌≡◌, refl, sym, ap, ◌∙◌, subst, ◌⊎◌, inl, inr, Bool, true, false,
  Option, none, some, List, [], ◌∷◌, ◌++◌, All, arith, eqb, if_both,
}
use k8s_ssh_gateway_controll.Go.Text.{Text}
use k8s_ssh_gateway_controll.Controllers.Patterns.{
  Piece, literal, one_or_more, Pattern, Match, consume, or_else, literal_then, many_then, some_then,
  piece_then, pieces_then, nothing_more, match_at,
}

-- The bytes of a class, at least one.
abbrev pub Run : (ℕ → Bool) → Text → Type 0
Run c [] = ⊥
Run c (b ∷ t) = (c b ≡ true) × All (λ (d : ℕ). c d ≡ true) t

-- The texts that a piece reads.
abbrev pub Reads : Piece → Text → Type 0
Reads (literal t) u = u ≡ t
Reads (one_or_more c) u = Run c u

abbrev pub ReadsAll : List Piece → Text → Type 0
ReadsAll [] u = u ≡ []
ReadsAll (p ∷ ps) u = (t v : Text) × Reads p t × ReadsAll ps v × (u ≡ t ++ v)

-- A text begins with a match whose group is `found`.
pub record Matches (re : Pattern) (s found : Text) : Type 0 where
  pub before : Text
  pub after : Text
  pub rest : Text
  pub before_reads : ReadsAll re.before before
  pub found_reads : ReadsAll re.group found
  pub after_reads : ReadsAll re.after after
  pub split : s ≡ before ++ (found ++ (after ++ rest))

-- What is added to the bytes of the group.
abbrev kept : Bool → Text → Text → Text
kept true t u = t ++ u
kept false t u = u

kept-nil : (inside : Bool) (u : Text) → u ≡ kept inside [] u
kept-nil true u = refl
kept-nil false u = refl

kept-append :
    (inside : Bool) (t u v : Text) → kept inside t (kept inside u v) ≡ kept inside (t ++ u) v
kept-append true t u v = sym (append_assoc t u v)
kept-append false t u v = refl

consume-some :
    (inside : Bool) (b : ℕ) (o : Option Match) (x : Match)
    → consume inside b o ≡ some x
    → (y : Match) × (o ≡ some y) × (x.0 ≡ kept inside (b ∷ []) y.0)
unfolding consume
consume-some inside b none x e = absurd (cc e)
consume-some true b (some (t, n)) x e = ((t, n), refl, cc)
consume-some false b (some (t, n)) x e = ((t, n), refl, cc)

or_else-some :
    (o o' : Option Match) (x : Match) → or_else o o' ≡ some x → (o ≡ some x) ⊎ (o' ≡ some x)
unfolding or_else
or_else-some none o' x e = inr e
or_else-some (some y) o' x e = inl e

-- A match of a text: what was read, and the match of the rest.
record After (inside : Bool) (k : Text → Option Match) (Q : Text → Type 0) (s : Text) (x : Match)
    : Type 0 where
  read : Text
  rest : Text
  further : Match
  fits : Q read
  split : s ≡ read ++ rest
  gathered : x.0 ≡ kept inside read further.0
  next : k rest ≡ some further

module _ (inside : Bool) (k : Text → Option Match) where
  After-none :
      (Q : Text → Type 0) (s : Text) (x : Match) → Q [] → k s ≡ some x → After inside k Q s x
  After-none Q s x q e = record {
    read = [];
    rest = s;
    further = x;
    fits = q;
    split = refl;
    gathered = kept-nil inside x.0;
    next = e;
  }

  After-byte :
      (Q R : Text → Type 0) (b : ℕ) (s : Text) (x y : Match)
      → ((t : Text) → Q t → R (b ∷ t))
      → x.0 ≡ kept inside (b ∷ []) y.0
      → After inside k Q s y
      → After inside k R (b ∷ s) x
  After-byte Q R b s x y longer g a = record {
    read = b ∷ a.read;
    rest = a.rest;
    further = a.further;
    fits = longer a.read a.fits;
    split = ap (λ (t : Text). b ∷ t) a.split;
    gathered =
        g ∙ ap (kept inside (b ∷ [])) a.gathered ∙ kept-append inside (b ∷ []) a.read a.further.0;
    next = a.next;
  }

  literal_then-After :
      (t s : Text) (x : Match)
      → literal_then inside t k s ≡ some x
      → After inside k (λ u. u ≡ t) s x
  unfolding literal_then
  literal_then-After [] s x = After-none (λ u. u ≡ []) s x refl
  literal_then-After (c ∷ cs) [] x = λ e. absurd (cc e)
  literal_then-After (c ∷ cs) (b ∷ s) x =
      if_both (λ (o : Option Match). o ≡ some x → After inside k (λ u. u ≡ c ∷ cs) (b ∷ s) x)
        (eqb c b) _ _
        (λ same. λ e.
          let (y, e', g) = consume-some inside b (literal_then inside cs k s) x e in
          let c≡b : c ≡ b = ground arith in
          After-byte (λ u. u ≡ cs) (λ u. u ≡ c ∷ cs) b s x y (λ u q. cc) g
            (literal_then-After cs s y e'))
        (λ other_byte. λ e. absurd (cc e))

  many_then-After :
      (c : ℕ → Bool) (s : Text) (x : Match)
      → many_then inside c k s ≡ some x
      → After inside k (All (λ (d : ℕ). c d ≡ true)) s x
  unfolding many_then
  many_then-After c [] x = After-none (All (λ (d : ℕ). c d ≡ true)) [] x tt
  many_then-After c (b ∷ s) x =
      if_both
        (λ (o : Option Match). o ≡ some x → After inside k (All (λ (d : ℕ). c d ≡ true)) (b ∷ s) x)
        (c b) _ _
        (λ mine. λ e.
          elim (or_else-some (consume inside b (many_then inside c k s)) (k (b ∷ s)) x e) [
            | inl e' ↦
                let (y, e'', g) = consume-some inside b (many_then inside c k s) x e' in
                After-byte (All (λ (d : ℕ). c d ≡ true)) (All (λ (d : ℕ). c d ≡ true)) b s x y
                  (λ u q. (mine, q)) g (many_then-After c s y e'')
            | inr e' ↦ After-none (All (λ (d : ℕ). c d ≡ true)) (b ∷ s) x tt e'
          ])
        (λ foreign. λ e. After-none (All (λ (d : ℕ). c d ≡ true)) (b ∷ s) x tt e)

  piece_then-After :
      (p : Piece) (s : Text) (x : Match)
      → piece_then inside p k s ≡ some x
      → After inside k (Reads p) s x
  unfolding piece_then some_then
  piece_then-After (literal t) s x = literal_then-After t s x
  piece_then-After (one_or_more c) [] x = λ e. absurd (cc e)
  piece_then-After (one_or_more c) (b ∷ s) x =
      if_both (λ (o : Option Match). o ≡ some x → After inside k (Run c) (b ∷ s) x) (c b) _ _
        (λ mine. λ e.
          let (y, e', g) = consume-some inside b (many_then inside c k s) x e in
          After-byte (All (λ (d : ℕ). c d ≡ true)) (Run c) b s x y (λ u q. (mine, q)) g
            (many_then-After c s y e'))
        (λ foreign. λ e. absurd (cc e))

pieces_then-After :
    (inside : Bool) (ps : List Piece) (k : Text → Option Match) (s : Text) (x : Match)
    → pieces_then inside ps k s ≡ some x
    → After inside k (ReadsAll ps) s x
unfolding pieces_then
pieces_then-After inside [] k s x e = After-none inside k (ReadsAll []) s x refl e
pieces_then-After inside (p ∷ ps) k s x e =
    let a = piece_then-After inside (pieces_then inside ps k) p s x e in
    let b = pieces_then-After inside ps k a.rest a.further a.next in
    record {
      read = a.read ++ b.read;
      rest = b.rest;
      further = b.further;
      fits = (a.read, b.read, a.fits, b.fits, refl);
      split =
          a.split
          ∙ ap (λ (t : Text). a.read ++ t) b.split
          ∙ sym (append_assoc a.read b.read b.rest);
      gathered =
          a.gathered
          ∙ ap (kept inside a.read) b.gathered
          ∙ kept-append inside a.read b.read b.further.0;
      next = b.next;
    }

-- What is found is the group of a match of the pattern at the beginning of the text.
pub match_at-Matches :
    (re : Pattern) (s : Text) (x : Match) → match_at re s ≡ some x → Matches re s x.0
unfolding match_at
match_at-Matches re s x e =
    let last = pieces_then false re.after nothing_more in
    let a = pieces_then-After false re.before (pieces_then true re.group last) s x e in
    let b = pieces_then-After true re.group last a.rest a.further a.next in
    let c = pieces_then-After false re.after nothing_more b.rest b.further b.next in
    let nil : c.further.0 ≡ [] = cc c.next in
    let whole : x.0 ≡ b.read =
      a.gathered
      ∙ b.gathered
      ∙ ap (λ (t : Text). b.read ++ t) (c.gathered ∙ nil)
      ∙ append-nil b.read in
    subst (λ (t : Text). Matches re s t) (sym whole)
      (record {
        before = a.read;
        after = c.read;
        rest = c.rest;
        before_reads = a.fits;
        found_reads = b.fits;
        after_reads = c.fits;
        split =
            a.split
            ∙ ap (λ (t : Text). a.read ++ t) (b.split ∙ ap (λ (t : Text). b.read ++ t) c.split);
      })
