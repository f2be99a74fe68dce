-- ===== src/Prelude/Int.antt =====
-- Go's signed `int` as an integer over the native numbers: `negsuc n` is -(n + 1).
use k8s_ssh_gateway_controll.Prelude.{ℕ, ◌≡◌, ◌↔◌, Bool, true, false, arith, eqb, ltb, leb}

pub data ℤ : Type 0 where
  pos : ℕ → ℤ
  negsuc : ℕ → ℤ

abbrev pub int_eqb : ℤ → ℤ → Bool
int_eqb (pos a) (pos b) = eqb a b
int_eqb (pos a) (negsuc b) = false
int_eqb (negsuc a) (pos b) = false
int_eqb (negsuc a) (negsuc b) = eqb a b

pub int_eqb_iff : (a b : ℤ) → (int_eqb a b ≡ true) ↔ (a ≡ b)
int_eqb_iff (pos a) (pos b) = ground arith
int_eqb_iff (pos a) (negsuc b) = ground arith
int_eqb_iff (negsuc a) (pos b) = ground arith
int_eqb_iff (negsuc a) (negsuc b) = ground arith

-- `n > 0` and `n >= 0 && n <= max`.
abbrev pub is_positive : ℤ → Bool
is_positive (pos n) = ltb 0 n
is_positive (negsuc n) = false

abbrev pub in_range : ℕ → ℤ → Bool
in_range max (pos n) = leb n max
in_range max (negsuc n) = false
