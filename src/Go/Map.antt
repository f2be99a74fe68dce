-- ===== src/Go/Map.antt =====
-- Go's `map[K]V`. Proofs use `map_laws`; only tests compute with the representation. The order in which
-- `range` visits a map is unspecified in Go; `entries` fixes one.
use k8s_ssh_gateway_controll.Prelude.{
  ◌≡◌, refl, Bool, true, false, Option, none, some, List, [], ◌∷◌, arith, if◌then◌else◌,
}
use k8s_ssh_gateway_controll.Prelude.Eq.{Eq, ◌==◌, int_eq, nat_eq}
use k8s_ssh_gateway_controll.Go.Text.{text_eq}
use mathlib.Core.Option

module _ {ℓ} {K V : Type ℓ} ⦃e : Eq K⦄ where
  unfoldable pub without : K → List (K × V) → List (K × V)
  without key [] = []
  without key (entry ∷ entries) =
      let others = without key entries in if entry.0 == key then others else entry ∷ others

  unfoldable pub lookup : K → List (K × V) → Option V
  lookup key [] = none
  lookup key (entry ∷ entries) = if entry.0 == key then some entry.1 else lookup key entries

  lookup-without :
      (gone key : K) (entries : List (K × V))
      → lookup key (without gone entries) ≡ (if gone == key then none else lookup key entries)
  unfolding without lookup
  lookup-without gone key [] = ground arith
  lookup-without gone key ((k, v) ∷ entries) = ground (
    arith,
    e.equality gone key,
    e.equality k gone,
    e.equality k key,
    lookup-without gone key entries,
  )

pub record Map {ℓ} (K V : Type ℓ) : Type ℓ where
  pub entries : List (K × V)

module _ {ℓ} {K V : Type ℓ} where
  -- make(map[K]V)
  unfoldable pub empty : Map K V
  empty = record { entries = [] }

module _ {ℓ} {K V : Type ℓ} ⦃e : Eq K⦄ where
  -- v, ok := m[k]
  unfoldable pub get : Map K V → K → Option V
  unfolding lookup
  get m k = lookup k m.entries

  -- delete(m, k)
  unfoldable pub delete : Map K V → K → Map K V
  unfolding without
  delete m k = record { entries = without k m.entries }

  -- m[k] = v
  unfoldable pub set : Map K V → K → V → Map K V
  unfolding without
  set m k v = record { entries = (k, v) ∷ without k m.entries }

  pub get-empty : (k : K) → get empty k ≡ none
  unfolding get empty
  get-empty k = refl

  pub get-delete : (m : Map K V) (k j : K) → get (delete m k) j ≡ (if k == j then none else get m j)
  unfolding get delete
  get-delete m k j = lookup-without k j m.entries

  pub get-set :
      (m : Map K V) (k j : K) (v : V) → get (set m k v) j ≡ (if k == j then some v else get m j)
  unfolding get set
  get-set m k j v = simp lookup-without (ground arith)

-- Every value of a map, replaced in place.
unfoldable pub values_mapped {ℓ} : {K V : Type ℓ} → (V → V) → List (K × V) → List (K × V)
values_mapped f [] = []
values_mapped f ((k, v) ∷ l) = (k, f v) ∷ values_mapped f l

unfoldable pub map_values {ℓ} : {K V : Type ℓ} → (V → V) → Map K V → Map K V
unfolding values_mapped
map_values f m = record { entries = values_mapped f m.entries }

lookup-values_mapped {ℓ} :
    {K V : Type ℓ} ⦃e : Eq K⦄ (f : V → V) (k : K) (l : List (K × V))
    → lookup k (values_mapped f l) ≡ Option.map f (lookup k l)
unfolding lookup values_mapped
lookup-values_mapped f k [] = refl
lookup-values_mapped f k ((j, v) ∷ l) = ground (arith, lookup-values_mapped f k l)

pub get-map_values {ℓ} :
    {K V : Type ℓ} ⦃e : Eq K⦄ (f : V → V) (m : Map K V) (k : K)
    → get (map_values f m) k ≡ Option.map f (get m k)
unfolding get map_values
get-map_values f m k = lookup-values_mapped f k m.entries

-- What a map holds, as a test.
abbrev pub has {ℓ} : {K V : Type ℓ} ⦃e : Eq K⦄ → Map K V → K → Bool
has m k = elim (get m k) [ none ↦ false | some _ ↦ true ]

pub ruleset map_laws = (get-empty, get-delete, get-set, get-map_values)
