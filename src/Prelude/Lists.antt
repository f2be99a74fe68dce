-- ===== src/Prelude/Lists.antt =====
-- Lists over the native numbers.
use Prim.Native.Nat.{ℕ, zero, suc, ◌+◌}
use mathlib.Core.Path.{◌≡◌, refl}
use mathlib.Core.Bool.{Bool, false, ◌||◌}
use mathlib.Core.Logic.{◌⊎◌}
use mathlib.Core.List.{List, [], ◌∷◌, ◌++◌, map}
use native.Mathlib.Omega.{arith}

module _ {ℓ} {A : Type ℓ} where
  abbrev pub length : List A → ℕ
  length [] = 0
  length (x ∷ xs) = suc (length xs)

  pub length-append : (xs ys : List A) → length (xs ++ ys) ≡ length xs + length ys
  length-append [] ys = omega arith
  length-append (x ∷ xs) ys = omega (arith, length-append xs ys)

  abbrev pub drop : ℕ → List A → List A
  drop zero xs = xs
  drop (suc n) [] = []
  drop (suc n) (x ∷ xs) = drop n xs

  pub append-empty : (xs ys : List A) → xs ++ ys ≡ [] → (xs ≡ []) × (ys ≡ [])
  append-empty [] ys e = (refl, e)
  append-empty (x ∷ xs) ys e = absurd (cc e)

  abbrev pub any : (A → Bool) → List A → Bool
  any p [] = false
  any p (x ∷ xs) = p x || any p xs

  -- A predicate by recursion computes to tuples, which the tactics read and build.
  abbrev pub All {κ} : (A → Type κ) → List A → Type κ
  All P [] = Unit
  All P (x ∷ xs) = P x × All P xs

  pub All-append {κ} : (P : A → Type κ) (xs ys : List A) → All P xs → All P ys → All P (xs ++ ys)
  All-append P [] ys p q = q
  All-append P (x ∷ xs) ys (p, ps) q = (p, All-append P xs ys ps q)

  pub All-weaker {κ μ} :
      (P : A → Type κ) (Q : A → Type μ)
      → ((x : A) → P x → Q x)
      → (xs : List A) → All P xs
      → All Q xs
  All-weaker P Q weaker [] p = tt
  All-weaker P Q weaker (x ∷ xs) (p, ps) = (weaker x p, All-weaker P Q weaker xs ps)

-- An element that satisfies `P`, with its place.
abbrev pub Exists {ℓ} : {A : Type ℓ} → (A → Type 0) → List A → Type 0
Exists P [] = ⊥
Exists P (x ∷ xs) = P x ⊎ Exists P xs

module _ {ℓ ℓ'} {A : Type ℓ} {B : Type ℓ'} where
  pub map-empty : (f : A → B) (xs : List A) → map f xs ≡ [] → xs ≡ []
  map-empty f [] e = refl
  map-empty f (x ∷ xs) e = absurd (cc e)

  pub All-map {κ μ} :
      (P : A → Type κ) (Q : B → Type μ) (f : A → B)
      → ((x : A) → P x → Q (f x))
      → (xs : List A) → All P xs
      → All Q (map f xs)
  All-map P Q f longer [] p = tt
  All-map P Q f longer (x ∷ xs) (p, ps) = (longer x p, All-map P Q f longer xs ps)
