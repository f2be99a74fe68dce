-- ===== src/Prelude/Eq.antt =====
-- Go's `==` on comparable types, as an interface with its law.
use k8s_ssh_gateway_controll.Prelude.{
  ℕ, ◌≡◌, ◌↔◌, Bool, true, false, ◌&&◌, List, [], ◌∷◌, arith, eqb, eqb_iff,
}
use k8s_ssh_gateway_controll.Prelude.Int.{ℤ, int_eqb, int_eqb_iff}

pub record Eq {ℓ} (A : Type ℓ) : Type ℓ where
  pub equals : A → A → Bool
  pub equality : (x y : A) → (equals x y ≡ true) ↔ (x ≡ y)

instance abbrev pub int_eq : Eq ℤ
int_eq = record { equals = int_eqb; equality = int_eqb_iff }

instance abbrev pub nat_eq : Eq ℕ
nat_eq = record { equals = eqb; equality = eqb_iff }

infix 50 ◌==◌
abbrev pub ◌==◌ {ℓ} : {A : Type ℓ} ⦃e : Eq A⦄ → A → A → Bool
◌==◌ ⦃e⦄ x y = e.equals x y

pub eq_iff {ℓ} : {A : Type ℓ} ⦃e : Eq A⦄ (x y : A) → ((x == y) ≡ true) ↔ (x ≡ y)
eq_iff ⦃e⦄ x y = e.equality x y

pub eq_refl {ℓ} : {A : Type ℓ} ⦃e : Eq A⦄ (x : A) → (x == x) ≡ true
eq_refl x = (eq_iff x x).1 (λ i. x)

module _ {ℓ} {A : Type ℓ} ⦃e : Eq A⦄ where
  unfoldable pub list_beq : List A → List A → Bool
  list_beq [] [] = true
  list_beq [] (y ∷ ys) = false
  list_beq (x ∷ xs) [] = false
  list_beq (x ∷ xs) (y ∷ ys) = x == y && list_beq xs ys

  pub list_beq_iff : (xs ys : List A) → (list_beq xs ys ≡ true) ↔ (xs ≡ ys)
  unfolding list_beq
  list_beq_iff [] [] = ground arith
  list_beq_iff [] (y ∷ ys) = ground arith
  list_beq_iff (x ∷ xs) [] = ground arith
  list_beq_iff (x ∷ xs) (y ∷ ys) = ground (arith, e.equality x y, list_beq_iff xs ys)

  abbrev pub list_eq : Eq (List A)
  list_eq = record { equals = list_beq; equality = list_beq_iff }
