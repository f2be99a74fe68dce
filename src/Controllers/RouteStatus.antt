-- ===== src/Controllers/RouteStatus.antt =====
-- controllers/route_status.go: the status of a route under its parent, and its update.
pub mod Upsert
pub mod Writes
use k8s_ssh_gateway_controll.Prelude.{
  ℕ, ◌≡◌, ◌↔◌, inl, inr, Bool, true, false, ◌&&◌, Option, none, some, List, [], ◌∷◌, arith,
  if◌then◌else◌,
}
use k8s_ssh_gateway_controll.Prelude.Int.{ℤ, pos}
use k8s_ssh_gateway_controll.Prelude.Eq.{Eq, ◌==◌, eq_iff, int_eq, nat_eq, list_beq, list_beq_iff}
use k8s_ssh_gateway_controll.Go.Text.{Text, text, text_eq}
use k8s_ssh_gateway_controll.Go.Map.{map_laws}
use k8s_ssh_gateway_controll.Ssh.Errors.{message}
use k8s_ssh_gateway_controll.Ssh.Flags.{kind_eq}
use k8s_ssh_gateway_controll.Controllers.Parents.{ParentRef}
use k8s_ssh_gateway_controll.Controllers.Objects.{
  ApiError, MetaCondition, RouteParentStatus, RouteObject, RouteKind, http_route, tcp_route,
  tls_route, Cluster, Fetched, Updated,
}

-- ptrEqual
unfoldable pub ptr_equal {ℓ} : {A : Type ℓ} ⦃e : Eq A⦄ → Option A → Option A → Bool
ptr_equal none none = true
ptr_equal none (some b) = false
ptr_equal (some a) none = false
ptr_equal (some a) (some b) = a == b

pub ptr_equal_iff {ℓ} : {A : Type ℓ} ⦃e : Eq A⦄ (a b : Option A) → (ptr_equal a b ≡ true) ↔ (a ≡ b)
unfolding ptr_equal
ptr_equal_iff none none = ground arith
ptr_equal_iff none (some b) = ground arith
ptr_equal_iff (some a) none = ground arith
ptr_equal_iff (some a) (some b) = ground (arith, eq_iff a b)

-- parentRefEqual
unfoldable pub parent_ref_equal : ParentRef → ParentRef → Bool
unfolding ptr_equal
parent_ref_equal a b =
    ptr_equal a.group b.group
    && ptr_equal a.kind b.kind
    && ptr_equal a.namespace b.namespace
    && a.name == b.name
    && ptr_equal a.section_name b.section_name
    && ptr_equal a.port b.port

pub parent_ref_equal_iff : (a b : ParentRef) → (parent_ref_equal a b ≡ true) ↔ (a ≡ b)
unfolding parent_ref_equal
parent_ref_equal_iff a b = ground (
  arith,
  ptr_equal_iff a.group b.group,
  ptr_equal_iff a.kind b.kind,
  ptr_equal_iff a.namespace b.namespace,
  eq_iff a.name b.name,
  ptr_equal_iff a.section_name b.section_name,
  ptr_equal_iff a.port b.port,
)

-- reflect.DeepEqual on conditions
unfoldable pub condition_beq : MetaCondition → MetaCondition → Bool
condition_beq a b =
    a.type_name == b.type_name
    && a.status == b.status
    && a.observed_generation == b.observed_generation
    && a.last_transition_time == b.last_transition_time
    && a.reason == b.reason
    && a.message == b.message

pub condition_beq_iff : (a b : MetaCondition) → (condition_beq a b ≡ true) ↔ (a ≡ b)
unfolding condition_beq
condition_beq_iff a b = ground (
  arith,
  eq_iff a.type_name b.type_name,
  eq_iff a.status b.status,
  eq_iff a.observed_generation b.observed_generation,
  eq_iff a.last_transition_time b.last_transition_time,
  eq_iff a.reason b.reason,
  eq_iff a.message b.message,
)

instance abbrev pub condition_eq : Eq MetaCondition
condition_eq = record { equals = condition_beq; equality = condition_beq_iff }

-- reflect.DeepEqual on the status of a parent
unfoldable pub parent_status_beq : RouteParentStatus → RouteParentStatus → Bool
unfolding list_beq condition_beq parent_ref_equal
parent_status_beq a b =
    parent_ref_equal a.parent_ref b.parent_ref
    && a.controller_name == b.controller_name
    && list_beq a.conditions b.conditions

pub parent_status_beq_iff : (a b : RouteParentStatus) → (parent_status_beq a b ≡ true) ↔ (a ≡ b)
unfolding parent_status_beq
parent_status_beq_iff a b = ground (
  arith,
  parent_ref_equal_iff a.parent_ref b.parent_ref,
  eq_iff a.controller_name b.controller_name,
  list_beq_iff a.conditions b.conditions,
)

-- A condition before its generation and time are set.
abbrev pub new_condition : Text → Text → Text → Text → MetaCondition
new_condition type_name status reason message = record {
  type_name = type_name;
  status = status;
  observed_generation = pos 0;
  last_transition_time = 0;
  reason = reason;
  message = message;
}

-- acceptedRouteConditions
abbrev pub accepted_route_conditions : List MetaCondition
accepted_route_conditions =
    new_condition (text "Accepted") (text "True") (text "Accepted") (text "Route accepted")
    ∷ new_condition (text "ResolvedRefs") (text "True") (text "ResolvedRefs")
        (text "All references resolved")
    ∷ []

-- pendingRouteConditions
abbrev pub pending_route_conditions : Text → List MetaCondition
pending_route_conditions msg =
    new_condition (text "Accepted") (text "False") (text "Pending") msg ∷ []

-- The entry of this controller for a parent.
abbrev pub is_ours : Text → ParentRef → RouteParentStatus → Bool
is_ours controller parent_ref entry =
    entry.controller_name == controller && parent_ref_equal entry.parent_ref parent_ref

-- getRouteStatus finds the status of this kind of route.
abbrev pub has_route_status : Bool → RouteKind → Bool
has_route_status alias http_route = true
has_route_status alias tcp_route = true
has_route_status alias tls_route = alias

module _ {W : Type 0} (api : Cluster W) (controller : Text) where
  -- The loop that sets the conditions.
  unfoldable pub apply_conditions :
      ℕ → ℤ → List MetaCondition → List MetaCondition → List MetaCondition
  apply_conditions time generation conds [] = conds
  apply_conditions time generation conds (c ∷ cs) =
      apply_conditions time generation
        (api.set_status_condition time conds (record c { observed_generation = generation })).0 cs

  module _ (time : ℕ) (parent_ref : ParentRef) (generation : ℤ)
      (conditions : List MetaCondition) where
    abbrev pub entry_from : List MetaCondition → RouteParentStatus
    entry_from conds = record {
      parent_ref = parent_ref;
      controller_name = controller;
      conditions = apply_conditions time generation conds conditions;
    }

    -- setOurRouteParentStatus; the first entry that is ours is replaced, unless it is equal, and
    -- without one an entry is appended.
    unfoldable pub set_our_route_parent_status :
        List RouteParentStatus → List RouteParentStatus × Bool
    unfolding apply_conditions parent_status_beq parent_ref_equal
    set_our_route_parent_status [] = (entry_from [] ∷ [], true)
    set_our_route_parent_status (entry ∷ entries) =
        let (rest, changed) = set_our_route_parent_status entries in
        if is_ours controller parent_ref entry
        then (if parent_status_beq entry (entry_from entry.conditions)
            then (entry ∷ entries, false)
            else (entry_from entry.conditions ∷ entries, true))
        else (entry ∷ rest, changed)

  module _ (kind : RouteKind) (parent_ref : ParentRef) (conditions : List MetaCondition) where
    -- The route as it was fetched again, with our status if getRouteStatus finds its status.
    abbrev pub reapplied : ℕ → RouteObject → RouteObject
    reapplied time latest =
        if has_route_status api.tls_route_is_alias kind
        then record latest {
          parents =
              (set_our_route_parent_status time parent_ref latest.generation conditions
                latest.parents).0;
        }
        else latest

    abbrev pub answered : Updated W RouteObject → (W × RouteObject) × Option ApiError
    answered (w, (route, e)) = ((w, route), e)

    abbrev pub after_refetch :
        RouteObject → Fetched W RouteObject → (W × RouteObject) × Option ApiError
    after_refetch route (w, inr e) = ((w, route), some e)
    after_refetch route (w, inl latest) =
        answered (api.update_route_status w kind (reapplied (api.now w) latest))

    abbrev pub after_status_update : Updated W RouteObject → (W × RouteObject) × Option ApiError
    after_status_update (w, (route, none)) = ((w, route), none)
    after_status_update (w, (route, some e)) =
        after_refetch route (api.get_route w kind route.namespace route.name)

    -- The function that writeRouteParentStatus retries.
    unfoldable pub attempt_status : W × RouteObject → (W × RouteObject) × Option ApiError
    unfolding set_our_route_parent_status
    attempt_status (w, route) = after_status_update (api.update_route_status w kind route)

    -- writeRouteParentStatus, for a client that is there; its error is only logged.
    unfoldable pub write_route_parent_status : W → RouteObject → W × RouteObject
    unfolding attempt_status set_our_route_parent_status
    write_route_parent_status w route =
        let (parents, changed) =
          set_our_route_parent_status (api.now w) parent_ref route.generation conditions
            route.parents in
        if changed
        then (api.retry_on_conflict attempt_status (w, record route { parents = parents })).0
        else (w, route)
