-- ===== src/Controllers/Addresses/Equality.antt =====
-- gatewayAddressesEqual of controllers/gateway_controller.go.
use k8s_ssh_gateway_controll.Prelude.{
  suc, ◌≤◌, ◌≡◌, refl, sym, ap, ◌∙◌, ◌↔◌, inl, inr, Bool, true, false, not, ◌&&◌, Option, none,
  some, List, [], ◌∷◌, arith, if◌then◌else◌, Bool-cases, length,
}
use k8s_ssh_gateway_controll.Prelude.Eq.{◌==◌, eq_iff, eq_refl, int_eq, nat_eq}
use k8s_ssh_gateway_controll.Go.Text.{Text, text_eq}
use k8s_ssh_gateway_controll.Go.Map.{
  Map, has, get-map_values, map_laws, get-empty, get-set, get-delete,
}
use k8s_ssh_gateway_controll.Ssh.Flags.{kind_eq}
use k8s_ssh_gateway_controll.Controllers.Names.{contains_string}
use k8s_ssh_gateway_controll.Controllers.Objects.{Address}
use k8s_ssh_gateway_controll.Controllers.RouteStatus.{condition_eq}
use k8s_ssh_gateway_controll.Controllers.Addresses.{
  effective_type, gateway_addresses_equal, address_map, all_known, is_type,
}
use k8s_ssh_gateway_controll.Go.Map

abbrev pub values : List Address → List Text
values [] = []
values (addr ∷ addrs) = addr.value ∷ values addrs

-- No value occurs twice.
abbrev pub distinct : List Text → Bool
distinct [] = true
distinct (v ∷ vs) = not (contains_string vs v) && distinct vs

-- The two lists have the same length and give each value the same type, or neither has it.
pub record SameAddresses (a b : List Address) : Type 0 where
  pub lengths : length a ≡ length b
  pub types :
      (value : Text)
      → Map.get (address_map Map.empty a) value ≡ Map.get (address_map Map.empty b) value

-- Each string of the first list is in the second.
abbrev pub Includes : List Text → List Text → Type 0
Includes ys xs = (z : Text) → contains_string ys z ≡ true → contains_string xs z ≡ true

-- The list without the first occurrence of a string.
unfoldable without_first : List Text → Text → List Text
without_first [] y = []
without_first (x ∷ xs) y = let rest = without_first xs y in if x == y then xs else x ∷ rest

without_first-length :
    (xs : List Text) (y : Text)
    → contains_string xs y ≡ true
    → length xs ≡ suc (length (without_first xs y))
unfolding contains_string without_first
without_first-length [] y there = ground arith
without_first-length (x ∷ xs) y there = ground (arith, without_first-length xs y)

without_first-other :
    (xs : List Text) (y z : Text)
    → (y == z) ≡ false
    → contains_string (without_first xs y) z ≡ contains_string xs z
unfolding contains_string without_first
without_first-other [] y z ne = refl
without_first-other (x ∷ xs) y z ne =
    ground (arith, without_first-other xs y z ne, eq_iff x y, eq_iff x z, eq_iff y z)

-- A list that is no longer than the distinct strings that it has, has no others.
no_others :
    (ys xs : List Text)
    → distinct ys ≡ true
    → length xs ≡ length ys
    → Includes ys xs
    → Includes xs ys
unfolding contains_string
no_others [] [] unique same inside z there = there
no_others [] (x ∷ xs) unique same inside z there = absurd (omega (arith, same))
no_others (y ∷ ys) xs unique same inside z there = elim (Bool-cases (y == z)) [
  | inl e ↦ ground arith
  | inr ne ↦
      let found = inside y (ground (arith, eq_refl y)) in
      let kept_within : Includes ys (without_first xs y) = λ v within. (elim (Bool-cases (y == v)) [
        | inl e ↦ absurd (ground (arith, ap (contains_string ys) ((eq_iff y v).0 e)))
        | inr apart ↦ without_first-other xs y v apart ∙ inside v (ground arith)
      ]) in
      ground (
        arith,
        no_others ys (without_first xs y) (ground arith)
            (omega (arith, same, without_first-length xs y found)) kept_within z
            (without_first-other xs y z ne ∙ there),
      )
]

-- Distinct strings that a list has are no more than its length.
pub distinct-length :
    (ys xs : List Text) → distinct ys ≡ true → Includes ys xs → length ys ≤ length xs
unfolding contains_string
distinct-length [] xs unique inside = omega arith
distinct-length (y ∷ ys) xs unique inside =
    let found = inside y (ground (arith, eq_refl y)) in
    let kept_within : Includes ys (without_first xs y) = λ v within. (elim (Bool-cases (y == v)) [
      | inl e ↦ absurd (ground (arith, ap (contains_string ys) ((eq_iff y v).0 e)))
      | inr apart ↦ without_first-other xs y v apart ∙ inside v (ground arith)
    ]) in
    omega (
      arith,
      distinct-length ys (without_first xs y) (ground arith) kept_within,
      without_first-length xs y found,
    )

pub address_map-other :
    (known : Map Text Text) (addrs : List Address) (v : Text)
    → contains_string (values addrs) v ≡ false
    → Map.get (address_map known addrs) v ≡ Map.get known v
unfolding contains_string address_map
address_map-other known [] v absent = refl
address_map-other known (addr ∷ addrs) v absent =
    address_map-other (Map.set known addr.value (effective_type addr)) addrs v (ground arith)
    ∙ ground (arith, get-set known addr.value v (effective_type addr))

-- The map has the types of addresses with distinct values.
address_map-all_known :
    (known : Map Text Text) (addrs : List Address)
    → distinct (values addrs) ≡ true
    → all_known (address_map known addrs) addrs ≡ true
unfolding address_map all_known
address_map-all_known known [] unique = refl
address_map-all_known known (addr ∷ addrs) unique =
    let known' = Map.set known addr.value (effective_type addr) in
    let at =
      address_map-other known' addrs addr.value (ground arith)
      ∙ get-set known addr.value addr.value (effective_type addr) in
    ground (
      arith,
      at,
      eq_refl addr.value,
      eq_refl (effective_type addr),
      address_map-all_known known' addrs (ground arith),
    )

known_type : (t : Text) (o : Option Text) → is_type t o ≡ true → o ≡ some t
known_type t none h = absurd (ground arith)
known_type t (some x) h = ap some ((eq_iff x t).0 h)

-- What two maps know of an address that both know.
all_known-get :
    (m m' : Map Text Text) (addrs : List Address) (v : Text)
    → all_known m addrs ≡ true
    → all_known m' addrs ≡ true
    → contains_string (values addrs) v ≡ true
    → Map.get m v ≡ Map.get m' v
unfolding contains_string all_known
all_known-get m m' [] v known known' there = ground arith
all_known-get m m' (addr ∷ addrs) v known known' there = elim (Bool-cases (addr.value == v)) [
  | inl e ↦
      let at = (eq_iff addr.value v).0 e in
      ap (Map.get m) (sym at)
      ∙ known_type (effective_type addr) (Map.get m addr.value) (ground arith)
      ∙ sym (known_type (effective_type addr) (Map.get m' addr.value) (ground arith))
      ∙ ap (Map.get m') at
  | inr ne ↦ all_known-get m m' addrs v (ground arith) (ground arith) (ground arith)
]

all_known-congruent :
    (m m' : Map Text Text) (addrs : List Address)
    → ((v : Text) → Map.get m v ≡ Map.get m' v)
    → all_known m addrs ≡ all_known m' addrs
unfolding all_known
all_known-congruent m m' [] same = refl
all_known-congruent m m' (addr ∷ addrs) same =
    ground (arith, same addr.value, all_known-congruent m m' addrs same)

all_known-none :
    (m : Map Text Text) (addrs : List Address) (v : Text)
    → all_known m addrs ≡ true
    → Map.get m v ≡ none
    → contains_string (values addrs) v ≡ false
unfolding contains_string all_known
all_known-none m [] v known gone = refl
all_known-none m (addr ∷ addrs) v known gone = elim (Bool-cases (addr.value == v)) [
  | inl e ↦
      let absent = ap (Map.get m) ((eq_iff addr.value v).0 e) ∙ gone in
      absurd (ground (arith, absent))
  | inr ne ↦ ground (arith, all_known-none m addrs v (ground arith) gone)
]

-- The values of known addresses are those of the addresses in the map.
all_known-Includes :
    (a b : List Address)
    → all_known (address_map Map.empty a) b ≡ true
    → Includes (values b) (values a)
all_known-Includes a b known z there = elim (Bool-cases (contains_string (values a) z)) [
  | inl has_it ↦ has_it
  | inr absent ↦
      let missing =
        all_known-none (address_map Map.empty a) b z known
          (address_map-other Map.empty a z absent ∙ get-empty z) in
      absurd (ground arith)
]

pub length-values : (addrs : List Address) → length (values addrs) ≡ length addrs
length-values [] = refl
length-values (addr ∷ addrs) = ap suc (length-values addrs)

equal-SameAddresses :
    (a b : List Address)
    → distinct (values b) ≡ true
    → length a ≡ length b
    → all_known (address_map Map.empty a) b ≡ true
    → SameAddresses a b
equal-SameAddresses a b unique lengths known = record {
  lengths = lengths;
  types = λ v. elim (Bool-cases (contains_string (values b) v)) [
    | inl there ↦
        all_known-get (address_map Map.empty a) (address_map Map.empty b) b v known
          (address_map-all_known Map.empty b unique) there
    | inr absent ↦
        address_map-other Map.empty a v (missing v absent)
        ∙ sym (address_map-other Map.empty b v absent)
  ];
}
  where
    sizes : length (values a) ≡ length (values b)
    sizes = omega (arith, lengths, length-values a, length-values b)

    missing :
        (v : Text) → contains_string (values b) v ≡ false → contains_string (values a) v ≡ false
    missing v absent = elim (Bool-cases (contains_string (values a) v)) [
      | inr lacking ↦ lacking
      | inl has_it ↦
          let there =
            no_others (values b) (values a) unique sizes (all_known-Includes a b known) v has_it in
          absurd (ground arith)
    ]

-- For a second list without repeated values, gatewayAddressesEqual tells whether the two lists have
-- the same length and give each value the same type, in whatever order they stand; an address
-- without a type counts as a hostname.
pub gateway_addresses_equal_iff :
    (a b : List Address)
    → distinct (values b) ≡ true
    → (gateway_addresses_equal a b ≡ true) ↔ SameAddresses a b
unfolding gateway_addresses_equal
gateway_addresses_equal_iff a b unique = (
  λ h. equal-SameAddresses a b unique (ground arith) (ground arith),
  λ same. ground (
    arith,
    same.lengths,
    all_known-congruent (address_map Map.empty a) (address_map Map.empty b) b same.types,
    address_map-all_known Map.empty b unique,
  ),
)
