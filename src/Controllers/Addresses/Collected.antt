-- ===== src/Controllers/Addresses/Collected.antt =====
-- updateGatewayAddresses of controllers/gateway_controller.go: which addresses it collects.
use k8s_ssh_gateway_controll.Prelude.{
  ◌≡◌, refl, sym, ap, ◌∙◌, inl, inr, Bool, true, false, not, ◌&&◌, ◌||◌, Option, some, List, [],
  ◌∷◌, ◌++◌, arith, if◌then◌else◌, Bool-cases, if_both, any,
}
use k8s_ssh_gateway_controll.Prelude.Eq.{◌==◌, eq_iff, int_eq, nat_eq}
use k8s_ssh_gateway_controll.Go.Text.{Text, text_eq}
use k8s_ssh_gateway_controll.Go.Map.{
  Map, has, get-map_values, map_laws, get-empty, get-set, get-delete,
}
use k8s_ssh_gateway_controll.Ssh.Flags.{kind_eq}
use k8s_ssh_gateway_controll.Controllers.Listeners.{Listener}
use k8s_ssh_gateway_controll.Controllers.Gateway.State.{SessionPool}
use k8s_ssh_gateway_controll.Controllers.Names.{contains_string}
use k8s_ssh_gateway_controll.Controllers.Objects.{Address}
use k8s_ssh_gateway_controll.Controllers.RouteStatus.{condition_eq}
use k8s_ssh_gateway_controll.Controllers.Addresses.{
  Url, extract_hostname_from_uri, effective_type, gateway_addresses_equal, address_map, new_address,
  add_address, add_listener, collect_addresses, Seen, was_seen,
}
use k8s_ssh_gateway_controll.Controllers.Addresses.Equality.{
  values, distinct, gateway_addresses_equal_iff, distinct-length, length-values,
}
use k8s_ssh_gateway_controll.Go.Map
use mathlib.Core.List.{foldl, Permᴰ}

contains_string-add :
    (xs : List Text) (y z : Text)
    → contains_string (xs ++ y ∷ []) z ≡ (contains_string xs z || y == z)
unfolding contains_string
contains_string-add [] y z = ground arith
contains_string-add (x ∷ xs) y z = ground (arith, contains_string-add xs y z)

distinct-add :
    (xs : List Text) (y : Text)
    → distinct xs ≡ true
    → contains_string xs y ≡ false
    → distinct (xs ++ y ∷ []) ≡ true
unfolding contains_string
distinct-add [] y unique absent = refl
distinct-add (x ∷ xs) y unique absent = ground (
  arith,
  distinct-add xs y (ground arith) (ground arith),
  contains_string-add xs y x,
  eq_iff x y,
  eq_iff y x,
)

values-add :
    (addrs : List Address) (h : Text)
    → values (addrs ++ new_address h ∷ []) ≡ values addrs ++ h ∷ []
values-add [] h = refl
values-add (a ∷ addrs) h = ap (λ (x : List Text). a.value ∷ x) (values-add addrs h)

-- The addresses of hostnames.
abbrev named : List Text → List Address
named [] = []
named (h ∷ hs) = new_address h ∷ named hs

named-add : (hs : List Text) (h : Text) → named (hs ++ h ∷ []) ≡ named hs ++ new_address h ∷ []
named-add [] h = refl
named-add (x ∷ hs) h = ap (λ (addrs : List Address). new_address x ∷ addrs) (named-add hs h)

-- What the loops keep: each address is that of its hostname, the map of seen hostnames is that of
-- the addresses, and no hostname occurs twice.
record Tracks (st : Seen) : Type 0 where
  built : st.1 ≡ named (values st.1)
  known : (h : Text) → was_seen (Map.get st.0 h) ≡ contains_string (values st.1) h
  unique : distinct (values st.1) ≡ true

repeated :
    (seen : Map Text Bool) (addresses : List Address) (x h : Text)
    → Tracks (seen, addresses)
    → was_seen (Map.get seen x) ≡ true
    → contains_string (values addresses) h ≡ (contains_string (values addresses) h || x == h)
repeated seen addresses x h tracks there = elim (Bool-cases (x == h)) [
  | inr ne ↦ ground arith
  | inl e ↦
      let has_it = ap (contains_string (values addresses)) ((eq_iff x h).0 e) in
      ground (arith, has_it, tracks.known x)
]

added-Tracks :
    (seen : Map Text Bool) (addresses : List Address) (x : Text)
    → Tracks (seen, addresses)
    → was_seen (Map.get seen x) ≡ false
    → Tracks (Map.set seen x true, addresses ++ new_address x ∷ [])
added-Tracks seen addresses x tracks absent = record {
  built =
      ap (λ (y : List Address). y ++ new_address x ∷ []) tracks.built
      ∙ sym (named-add (values addresses) x)
      ∙ sym (ap named (values-add addresses x));
  known = λ h.
      ap was_seen (get-set seen x h true)
      ∙ ground (arith, tracks.known h, contains_string-add (values addresses) x h)
      ∙ sym (ap (λ (v : List Text). contains_string v h) (values-add addresses x));
  unique =
      ap distinct (values-add addresses x)
      ∙ distinct-add (values addresses) x tracks.unique (sym (tracks.known x) ∙ absent);
}

-- What a list of such addresses tells of a hostname.
named-get :
    (known : Map Text Text) (hs : List Text) (v : Text)
    → Map.get (address_map known (named hs)) v
      ≡ (if contains_string hs v then some (effective_type (new_address v)) else Map.get known v)
unfolding address_map contains_string
named-get known [] v = refl
named-get known (h ∷ hs) v =
    named-get (Map.set known h (effective_type (new_address h))) hs v
    ∙ (elim (Bool-cases (h == v)) [
      | inr ne ↦ ground (arith, get-set known h v (effective_type (new_address h)))
      | inl e ↦
          let same = ap (λ (x : Text). some (effective_type (new_address x))) ((eq_iff h v).0 e) in
          ground (arith, get-set known h v (effective_type (new_address h)), same)
    ])

any-Permᴰ : {A : Type 0} (f : A → Bool) {xs ys : List A} → Permᴰ xs ys → any f xs ≡ any f ys
any-Permᴰ f Permᴰ.nil = refl
any-Permᴰ f (Permᴰ.cons e d) = ground (arith, ap f e, any-Permᴰ f d)
any-Permᴰ f (Permᴰ.swap e e') = ground (arith, ap f e, ap f e')
any-Permᴰ f (Permᴰ.trans d d') = any-Permᴰ f d ∙ any-Permᴰ f d'

module _ {P : Type 0} (api : SessionPool P) (parse_url : Text → Option Url) where
  abbrev gives : Text → Text → Bool
  gives h addr = extract_hostname_from_uri parse_url addr == h

  -- A listener that is not rejected has been assigned an address with this hostname.
  abbrev pub has_hostname : P → Text → Text × Listener → Bool
  has_hostname p h (_, l) =
      not l.rejected && any (gives h) (api.addresses_in p l.session_kind l.hostname l.port)

  -- A state that keeps track, and has the hostnames of the first and those that `more` tells.
  abbrev Extends : Seen → (Text → Bool) → Seen → Type 0
  Extends st more st' =
      Tracks st'
      × ((h : Text)
          → contains_string (values st'.1) h ≡ (contains_string (values st.1) h || more h))

  add_address-Extends :
      (st : Seen) (addr : Text)
      → Tracks st
      → Extends st (λ h. gives h addr) (add_address api parse_url st addr)
  unfolding add_address
  add_address-Extends (seen, addresses) addr tracks =
      let x = extract_hostname_from_uri parse_url addr in
      if_both (Extends (seen, addresses) (λ h. gives h addr)) (was_seen (Map.get seen x)) _ _
        (λ there. (tracks, λ h. repeated seen addresses x h tracks there))
        (λ absent. (
          added-Tracks seen addresses x tracks absent,
          λ h.
              ap (λ (v : List Text). contains_string v h) (values-add addresses x)
              ∙ contains_string-add (values addresses) x h,
        ))

  add_addresses-Extends :
      (addrs : List Text) (st : Seen)
      → Tracks st
      → Extends st (λ h. any (gives h) addrs) (foldl (add_address api parse_url) st addrs)
  add_addresses-Extends [] st tracks = (tracks, λ h. ground arith)
  add_addresses-Extends (addr ∷ addrs) st tracks =
      let (one, has_one) = add_address-Extends st addr tracks in
      let (all, has_all) = add_addresses-Extends addrs (add_address api parse_url st addr) one in
      (all, λ h. ground (arith, has_one h, has_all h))

  add_listener-Extends :
      (p : P) (st : Seen) (entry : Text × Listener)
      → Tracks st
      → Extends st (λ h. has_hostname p h entry) (add_listener api parse_url p st entry)
  unfolding add_listener
  add_listener-Extends p st (name, l) tracks =
      if_both (Extends st (λ h. has_hostname p h (name, l))) l.rejected _ _
        (λ bad. (tracks, λ h. ground arith))
        (λ good.
          let (all, has) =
            add_addresses-Extends (api.addresses_in p l.session_kind l.hostname l.port) st tracks in
          (all, λ h. ground (arith, has h)))

  add_listeners-Extends :
      (p : P) (listeners : List (Text × Listener)) (st : Seen)
      → Tracks st
      → Extends st
          (λ h. any (has_hostname p h) listeners)
          (foldl (add_listener api parse_url p) st listeners)
  add_listeners-Extends p [] st tracks = (tracks, λ h. ground arith)
  add_listeners-Extends p (l ∷ listeners) st tracks =
      let (one, has_one) = add_listener-Extends p st l tracks in
      let (all, has_all) =
        add_listeners-Extends p listeners (add_listener api parse_url p st l) one in
      (all, λ h. ground (arith, has_one h, has_all h))

  empty-Tracks : Tracks (Map.empty, [])
  unfolding contains_string
  empty-Tracks = record { built = refl; known = λ h. ap was_seen (get-empty h); unique = refl }

  -- The addresses that updateGatewayAddresses collects have distinct values, and these are exactly
  -- the hostnames extracted from the addresses that are assigned to listeners that are not
  -- rejected.
  pub collect_addresses_iff :
      (p : P) (listeners : List (Text × Listener))
      → (distinct (values (collect_addresses api parse_url p listeners)) ≡ true)
        × ((h : Text)
            → contains_string (values (collect_addresses api parse_url p listeners)) h
              ≡ any (has_hostname p h) listeners)
  unfolding collect_addresses contains_string
  collect_addresses_iff p listeners =
      let (tracks, has) = add_listeners-Extends p listeners (Map.empty, []) empty-Tracks in
      (tracks.unique, has)

  collected-Tracks :
      (p : P) (listeners : List (Text × Listener))
      → Tracks (foldl (add_listener api parse_url p) (Map.empty, []) listeners)
  collected-Tracks p listeners = (add_listeners-Extends p listeners (Map.empty, []) empty-Tracks).0

  -- However the listeners are ordered, as a Go map yields them in any order, the addresses that are
  -- collected count as equal to those collected before, so the order alone never makes the
  -- controller write the status of a Gateway.
  pub collect_addresses-order :
      (p : P) (listeners listeners' : List (Text × Listener))
      → Permᴰ listeners listeners'
      → gateway_addresses_equal
          (collect_addresses api parse_url p listeners)
          (collect_addresses api parse_url p listeners')
        ≡ true
  unfolding collect_addresses
  collect_addresses-order p listeners listeners' order =
      let a = collect_addresses api parse_url p listeners in
      let b = collect_addresses api parse_url p listeners' in
      let (unique, has) = collect_addresses_iff p listeners in
      let (unique', has') = collect_addresses_iff p listeners' in
      let same : (h : Text) → contains_string (values a) h ≡ contains_string (values b) h =
        λ h. (has h ∙ any-Permᴰ (has_hostname p h) order ∙ sym (has' h)) in
      (gateway_addresses_equal_iff a b unique').1 (record {
        lengths = omega (
          arith,
          distinct-length (values a) (values b) unique (λ h there. sym (same h) ∙ there),
          distinct-length (values b) (values a) unique' (λ h there. same h ∙ there),
          length-values a,
          length-values b,
        );
        types = λ v.
            ap (λ (x : List Address). Map.get (address_map Map.empty x) v)
              (collected-Tracks p listeners).built
            ∙ named-get Map.empty (values a) v
            ∙ ap
                (λ (x : Bool).
                  if x then some (effective_type (new_address v)) else Map.get Map.empty v)
                (same v)
            ∙ sym (named-get Map.empty (values b) v)
            ∙ sym (
                ap (λ (x : List Address). Map.get (address_map Map.empty x) v)
                  (collected-Tracks p listeners').built);
      })
