-- ===== src/Go/Decimal.antt =====
-- fmt.Sprintf("%d", n), strconv.Itoa and strconv.Atoi on Go's 64-bit `int`.
use k8s_ssh_gateway_controll.Prelude.{
  ℕ, zero, suc, ◌+◌, ◌-◌, ◌*◌, ◌/◌, ◌%◌, ◌≤◌, ◌<◌, ◌≡◌, refl, sym, ap, Bool, true, false, ◌&&◌, [],
  ◌∷◌, Option, none, some, arith, eqb, ltb, leb, if◌then◌else◌, Bool-cases, inl, inr, ◌≢◌, subst,
}
use k8s_ssh_gateway_controll.Prelude.Int.{ℤ, pos, negsuc}
use k8s_ssh_gateway_controll.Go.Text.{Text, has_byte}

-- The digits of `n` before `rest`; `fuel` above `n` is enough.
digits_before : ℕ → ℕ → Text → Text
digits_before zero n rest = rest
digits_before (suc fuel) n rest =
    let more = digits_before fuel (n / 10) ((b'0' + n % 10) ∷ rest) in
    if ltb n 10 then (b'0' + n) ∷ rest else more

unfoldable pub decimal : ℕ → Text
unfolding digits_before
decimal n = digits_before (suc n) n []

-- fmt.Sprintf("%d", n)
unfoldable pub itoa : ℤ → Text
itoa (pos n) = decimal n
itoa (negsuc n) = b'-' ∷ decimal (suc n)

abbrev is_digit : ℕ → Bool
is_digit c = leb b'0' c && leb c b'9'

-- The number read so far, and the digits that follow.
parse_digits : ℕ → Text → Option ℕ
parse_digits n [] = some n
parse_digits n (c ∷ s) =
    let more = parse_digits (n * 10 + (c - b'0')) s in if is_digit c then more else none

unsigned : Text → Option ℕ
unfolding parse_digits
unsigned [] = none
unsigned (c ∷ s) = parse_digits 0 (c ∷ s)

-- The range of a 64-bit `int`.
abbrev max_int : ℕ
max_int = 9223372036854775807

positive : Option ℕ → Option ℤ
positive none = none
positive (some n) = if leb n max_int then some (pos n) else none

negative : Option ℕ → Option ℤ
negative none = none
negative (some zero) = some (pos 0)
negative (some (suc n)) = if leb n max_int then some (negsuc n) else none

-- strconv.Atoi(s); `none` is its error.
unfoldable pub atoi : Text → Option ℤ
unfolding unsigned positive negative
atoi [] = none
atoi (c ∷ s) =
    if eqb c b'+'
    then positive (unsigned s)
    else if eqb c b'-'
    then negative (unsigned s)
    else positive (unsigned (c ∷ s))

parse_digits_before :
    (fuel n : ℕ) (rest : Text)
    → n < fuel
    → parse_digits 0 (digits_before fuel n rest) ≡ parse_digits n rest
unfolding parse_digits digits_before
parse_digits_before zero n rest h = elim h [ ]
parse_digits_before (suc fuel) n rest h =
    ground (arith, parse_digits_before fuel (n / 10) ((b'0' + n % 10) ∷ rest))

parse-decimal : (n : ℕ) → parse_digits 0 (decimal n) ≡ some n
unfolding decimal parse_digits
parse-decimal n = parse_digits_before (suc n) n [] (omega arith)

decimal_inj : (m n : ℕ) → decimal m ≡ decimal n → m ≡ n
decimal_inj m n e = cc (parse-decimal m, parse-decimal n, ap (parse_digits 0) e)

-- A text whose first byte is a digit.
abbrev StartsWithDigit : Text → Type 0
StartsWithDigit [] = ⊥
StartsWithDigit (c ∷ s) = is_digit c ≡ true

digits_before-StartsWithDigit :
    (fuel n : ℕ) (rest : Text) → n < fuel → StartsWithDigit (digits_before fuel n rest)
unfolding digits_before
digits_before-StartsWithDigit zero n rest h = elim h [ ]
digits_before-StartsWithDigit (suc fuel) n rest h = elim (Bool-cases (ltb n 10)) [
  | inl small ↦ rw (small, digits_before) (ground arith)
  | inr large ↦
      rw (large, digits_before)
        (digits_before-StartsWithDigit fuel (n / 10) ((b'0' + n % 10) ∷ rest) (ground arith))
]

decimal-StartsWithDigit : (n : ℕ) → StartsWithDigit (decimal n)
unfolding decimal
decimal-StartsWithDigit n = digits_before-StartsWithDigit (suc n) n [] (omega arith)

has_byte-digits_before :
    (c fuel n : ℕ) (rest : Text)
    → is_digit c ≡ false
    → has_byte c rest ≡ false
    → has_byte c (digits_before fuel n rest) ≡ false
unfolding digits_before has_byte
has_byte-digits_before c zero n rest h k = k
has_byte-digits_before c (suc fuel) n rest h k =
    ground (arith, has_byte-digits_before c fuel (n / 10) ((b'0' + n % 10) ∷ rest))

has_byte-decimal : (c n : ℕ) → is_digit c ≡ false → has_byte c (decimal n) ≡ false
unfolding decimal has_byte
has_byte-decimal c n h = has_byte-digits_before c (suc n) n [] h refl

pub has_byte-itoa : (c : ℕ) (n : ℤ) → is_digit c ≡ false → c ≢ b'-' → has_byte c (itoa n) ≡ false
unfolding itoa has_byte
has_byte-itoa c (pos n) h k = has_byte-decimal c n h
has_byte-itoa c (negsuc n) h k = ground (arith, has_byte-decimal c (suc n))

-- No two numbers are printed alike.
pub itoa_inj : (m n : ℤ) → itoa m ≡ itoa n → m ≡ n
unfolding itoa
itoa_inj (pos m) (pos n) e = ap pos (decimal_inj m n e)
itoa_inj (pos m) (negsuc n) e =
    let h : ◌≡◌ {A = Bool} false true = subst StartsWithDigit e (decimal-StartsWithDigit m) in cc
itoa_inj (negsuc m) (pos n) e =
    let h : ◌≡◌ {A = Bool} false true = subst StartsWithDigit (sym e) (decimal-StartsWithDigit n) in
    cc
itoa_inj (negsuc m) (negsuc n) e = ground (arith, decimal_inj (suc m) (suc n))

abbrev pub IsInt : ℤ → Type 0
IsInt (pos n) = n ≤ max_int
IsInt (negsuc n) = n ≤ max_int

unsigned_digits :
    (s : Text) (n : ℕ)
    → StartsWithDigit s
    → parse_digits 0 s ≡ some n
    → (unsigned s ≡ some n) × (atoi s ≡ positive (some n))
unfolding atoi
unsigned_digits [] n h e = elim h [ ]
unsigned_digits (c ∷ s) n h e = ground arith

-- Reading back a printed number gives the number.
pub atoi-itoa : (n : ℤ) → IsInt n → atoi (itoa n) ≡ some n
unfolding itoa positive
atoi-itoa (pos n) h =
    ground (arith, unsigned_digits (decimal n) n (decimal-StartsWithDigit n) (parse-decimal n))
atoi-itoa (negsuc n) h =
    unfold atoi in
    ground (
      arith,
      unsigned_digits (decimal (suc n)) (suc n) (decimal-StartsWithDigit (suc n))
          (parse-decimal (suc n)),
    )
