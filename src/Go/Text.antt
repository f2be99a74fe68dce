-- ===== src/Go/Text.antt =====
-- Go strings as sequences of bytes, and what the source uses of package strings.
use Prim.Native.Char.{code}
use mathlib.Core.Option
use k8s_ssh_gateway_controll.Prelude.{
  ℕ, ◌-◌, ◌≡◌, refl, Bool, true, false, ◌&&◌, ◌||◌, String, List, [], ◌∷◌, ◌++◌, map, Option, none,
  some, arith, eqb, leb, if◌then◌else◌,
}
use k8s_ssh_gateway_controll.Prelude.Eq.{Eq, ◌==◌, list_eq, list_beq, nat_eq}

abbrev pub Text : Type 0
Text = List ℕ

instance abbrev pub text_eq : Eq Text
text_eq = list_eq

-- A string literal: the code points of an ASCII text are its bytes.
abbrev pub text : String → Text
text String.[] = []
text (String.◌∷◌ c s) = code c ∷ text s

-- strings.HasPrefix(s, prefix), with what follows the prefix.
unfoldable pub cut_prefix : Text → Text → Option Text
cut_prefix s [] = some s
cut_prefix [] (p ∷ ps) = none
cut_prefix (c ∷ s) (p ∷ ps) = if eqb c p then cut_prefix s ps else none

unfoldable pub has_prefix : Text → Text → Bool
has_prefix s p = elim (cut_prefix s p) [ none ↦ false | some _ ↦ true ]

-- strings.TrimPrefix(s, prefix)
unfoldable pub trim_prefix : Text → Text → Text
trim_prefix s p = elim (cut_prefix s p) [ none ↦ s | some rest ↦ rest ]

-- strings.Contains(s, substr)
unfoldable pub contains : Text → Text → Bool
unfolding has_prefix
contains [] p = has_prefix [] p
contains (c ∷ s) p = has_prefix (c ∷ s) p || contains s p

unfoldable pub to_upper_byte : ℕ → ℕ
to_upper_byte c = if leb b'a' c && leb c b'z' then c - 32 else c

-- strings.ToUpper(s) on ASCII.
unfoldable pub to_upper : Text → Text
to_upper = map to_upper_byte

-- strings.EqualFold(s, t) where `t` is ASCII text without the letters k and s, to which no other
-- character folds.
unfoldable pub equal_fold : Text → Text → Bool
unfolding to_upper to_upper_byte list_beq
equal_fold s t = to_upper s == to_upper t

-- strings.ReplaceAll(s, old, new) for one-byte `old` and `new`.
unfoldable pub replace_byte : ℕ → ℕ → Text → Text
replace_byte old new [] = []
replace_byte old new (c ∷ s) = (if eqb c old then new else c) ∷ replace_byte old new s

-- `cut_prefix` takes apart exactly the texts that begin with the prefix.
pub cut_prefix-append : (p s : Text) → cut_prefix (p ++ s) p ≡ some s
unfolding cut_prefix
cut_prefix-append [] s = refl
cut_prefix-append (c ∷ p) s = ground (arith, cut_prefix-append p s)

pub append-cut_prefix : (s p : Text) {r : Text} → cut_prefix s p ≡ some r → s ≡ p ++ r
unfolding cut_prefix
append-cut_prefix s [] h = ground arith
append-cut_prefix [] (c ∷ p) h = ground arith
append-cut_prefix (d ∷ s) (c ∷ p) {r} h = ground (arith, append-cut_prefix s p {r = r})

-- strings.IndexByte(s, c) >= 0
unfoldable pub has_byte : ℕ → Text → Bool
has_byte c [] = false
has_byte c (x ∷ s) = eqb x c || has_byte c s

-- The text before and after the first `c`.
unfoldable pub cut_first : ℕ → Text → Option (Text × Text)
cut_first c [] = none
cut_first c (x ∷ s) =
    if eqb x c then some ([], s) else Option.map (λ p. (x ∷ p.0, p.1)) (cut_first c s)

-- The text before and after the last `c`.
unfoldable pub cut_last : ℕ → Text → Option (Text × Text)
cut_last c [] = none
cut_last c (x ∷ s) = elim (cut_last c s) [
  | some p ↦ some (x ∷ p.0, p.1)
  | none ↦ if eqb x c then some ([], s) else none
]

has_byte-middle : (c : ℕ) (xs ys : Text) → has_byte c (xs ++ c ∷ ys) ≡ true
unfolding has_byte
has_byte-middle c [] ys = ground arith
has_byte-middle c (x ∷ xs) ys = ground (arith, has_byte-middle c xs ys)

-- The last `c` of a text splits it in one way.
pub append-cons_inj :
    (c : ℕ) (xs xs' ys ys' : Text)
    → has_byte c ys ≡ false
    → has_byte c ys' ≡ false
    → xs ++ c ∷ ys ≡ xs' ++ c ∷ ys'
    → (xs ≡ xs') × (ys ≡ ys')
append-cons_inj c [] [] ys ys' h h' e = ground arith
append-cons_inj c [] (x ∷ xs') ys ys' h h' e = ground (arith, has_byte-middle c xs' ys')
append-cons_inj c (x ∷ xs) [] ys ys' h h' e = ground (arith, has_byte-middle c xs ys)
append-cons_inj c (x ∷ xs) (x' ∷ xs') ys ys' h h' e =
    ground (arith, append-cons_inj c xs xs' ys ys' h h')
