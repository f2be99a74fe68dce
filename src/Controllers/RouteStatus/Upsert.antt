-- ===== src/Controllers/RouteStatus/Upsert.antt =====
-- setOurRouteParentStatus of controllers/route_status.go, called once and again.
use k8s_ssh_gateway_controll.Prelude.{
  ℕ, ◌≡◌, refl, sym, ap, ◌∙◌, subst, Bool, true, false, not, ◌&&◌, Option, none, some, List, [],
  ◌∷◌, arith, if◌then◌else◌, if_both, All,
}
use k8s_ssh_gateway_controll.Prelude.Int.{ℤ}
use k8s_ssh_gateway_controll.Prelude.Eq.{◌==◌, eq_refl, int_eq, nat_eq}
use k8s_ssh_gateway_controll.Go.Text.{Text, text_eq}
use k8s_ssh_gateway_controll.Ssh.Flags.{kind_eq}
use k8s_ssh_gateway_controll.Controllers.Parents.{ParentRef}
use k8s_ssh_gateway_controll.Controllers.Objects.{MetaCondition, RouteParentStatus, Cluster}
use k8s_ssh_gateway_controll.Controllers.RouteStatus.{
  parent_ref_equal_iff, condition_eq, parent_status_beq, parent_status_beq_iff, entry_from,
  apply_conditions, set_our_route_parent_status, is_ours,
}

-- apiMeta.FindStatusCondition: the first condition of a type.
unfoldable pub find_status_condition : List MetaCondition → Text → Option MetaCondition
find_status_condition [] type_name = none
find_status_condition (c ∷ cs) type_name =
    if c.type_name == type_name then some c else find_status_condition cs type_name

-- The second condition says all that the first one says, but for its time.
abbrev pub says : MetaCondition → MetaCondition → Bool
says c d =
    d.status == c.status
    && d.observed_generation == c.observed_generation
    && d.reason == c.reason
    && d.message == c.message

abbrev pub says_if_any : MetaCondition → Option MetaCondition → Bool
says_if_any c none = false
says_if_any c (some d) = says c d

-- The conditions say what `c` says.
abbrev pub settled : List MetaCondition → MetaCondition → Bool
settled conds c = says_if_any c (find_status_condition conds c.type_name)

-- What the documentation of apiMeta.SetStatusCondition promises.
pub record Setter {W : Type 0} (api : Cluster W) : Type 0 where
  pub sets :
      (time : ℕ) (conds : List MetaCondition) (c : MetaCondition)
      → settled (api.set_status_condition time conds c).0 c ≡ true
  pub keeps :
      (time : ℕ) (conds : List MetaCondition) (c : MetaCondition) (type_name : Text)
      → (c.type_name == type_name) ≡ false
      → find_status_condition (api.set_status_condition time conds c).0 type_name
        ≡ find_status_condition conds type_name
  pub idles :
      (time : ℕ) (conds : List MetaCondition) (c : MetaCondition)
      → settled conds c ≡ true
      → api.set_status_condition time conds c ≡ (conds, false)

-- No condition of the list has this type.
abbrev pub lacks_type : Text → List MetaCondition → Bool
lacks_type type_name [] = true
lacks_type type_name (c ∷ cs) = not (c.type_name == type_name) && lacks_type type_name cs

abbrev pub distinct_types : List MetaCondition → Bool
distinct_types [] = true
distinct_types (c ∷ cs) = lacks_type c.type_name cs && distinct_types cs

abbrev pub at_generation : ℤ → MetaCondition → MetaCondition
at_generation generation c = record c { observed_generation = generation }

-- The conditions say what each of these says of this generation.
abbrev pub AllSettled : ℤ → List MetaCondition → List MetaCondition → Type 0
AllSettled generation conds cs =
    All (λ (c : MetaCondition). settled conds (at_generation generation c) ≡ true) cs

-- The first entry of a controller for a parent, and the entries that are not such.
abbrev pub ours : Text → ParentRef → List RouteParentStatus → Option RouteParentStatus
ours controller parent_ref [] = none
ours controller parent_ref (entry ∷ entries) =
    if is_ours controller parent_ref entry then some entry else ours controller parent_ref entries

abbrev pub foreign : Text → ParentRef → List RouteParentStatus → List RouteParentStatus
foreign controller parent_ref [] = []
foreign controller parent_ref (entry ∷ entries) =
    let rest = foreign controller parent_ref entries in
    if is_ours controller parent_ref entry then rest else entry ∷ rest

-- What a call leaves: the entries of others in their order, and an entry of this controller that
-- says each of the conditions of this generation.
pub record StatusSet (controller : Text) (parent_ref : ParentRef) (generation : ℤ)
    (conditions : List MetaCondition) (parents parents' : List RouteParentStatus) : Type 0 where
  pub others : foreign controller parent_ref parents' ≡ foreign controller parent_ref parents
  pub reported :
      (entry : RouteParentStatus) × (ours controller parent_ref parents' ≡ some entry)
      × AllSettled generation entry.conditions conditions

module _ {W : Type 0} (api : Cluster W) (setter : Setter api) (controller : Text)
    (generation : ℤ) where
  abbrev next : ℕ → List MetaCondition → MetaCondition → List MetaCondition
  next time conds c = (api.set_status_condition time conds (at_generation generation c)).0

  apply-keeps :
      (time : ℕ) (conds cs : List MetaCondition) (type_name : Text)
      → lacks_type type_name cs ≡ true
      → find_status_condition (apply_conditions api controller time generation conds cs) type_name
        ≡ find_status_condition conds type_name
  unfolding apply_conditions
  apply-keeps time conds [] type_name lacking = refl
  apply-keeps time conds (c ∷ cs) type_name lacking =
      apply-keeps time (next time conds c) cs type_name (ground arith)
      ∙ setter.keeps time conds (at_generation generation c) type_name (ground arith)

  apply-AllSettled :
      (time : ℕ) (conds cs : List MetaCondition)
      → distinct_types cs ≡ true
      → AllSettled generation (apply_conditions api controller time generation conds cs) cs
  unfolding apply_conditions
  apply-AllSettled time conds [] distinct = tt
  apply-AllSettled time conds (c ∷ cs) distinct = (
    ap (says_if_any (at_generation generation c))
          (apply-keeps time (next time conds c) cs c.type_name (ground arith))
        ∙ setter.sets time conds (at_generation generation c),
    apply-AllSettled time (next time conds c) cs (ground arith),
  )

  apply-idle :
      (time : ℕ) (conds cs : List MetaCondition)
      → AllSettled generation conds cs
      → apply_conditions api controller time generation conds cs ≡ conds
  unfolding apply_conditions
  apply-idle time conds [] all = refl
  apply-idle time conds (c ∷ cs) (one, all) =
      ap (λ (x : List MetaCondition × Bool). apply_conditions api controller time generation x.0 cs)
        (setter.idles time conds (at_generation generation c) one)
      ∙ apply-idle time conds cs all

  module _ (parent_ref : ParentRef) (conditions : List MetaCondition)
      (distinct : distinct_types conditions ≡ true) where
    abbrev entry_at : ℕ → List MetaCondition → RouteParentStatus
    entry_at time conds = entry_from api controller time parent_ref generation conditions conds

    abbrev upsert : ℕ → List RouteParentStatus → List RouteParentStatus × Bool
    upsert time parents =
        set_our_route_parent_status api controller time parent_ref generation conditions parents

    entry_at-ours :
        (time : ℕ) (conds : List MetaCondition)
        → is_ours controller parent_ref (entry_at time conds) ≡ true
    entry_at-ours time conds =
        ground (arith, eq_refl controller, parent_ref_equal_iff parent_ref parent_ref)

    -- An entry with the conditions of a call is not changed by another call.
    entry_at-again :
        (time time' : ℕ) (conds : List MetaCondition)
        → parent_status_beq (entry_at time conds) (entry_at time' (entry_at time conds).conditions)
          ≡ true
    entry_at-again time time' conds =
        (parent_status_beq_iff (entry_at time conds)
            (entry_at time' (entry_at time conds).conditions)).1
          (ap
            (λ (x : List MetaCondition). record {
              parent_ref = parent_ref;
              controller_name = controller;
              conditions = x;
            })
            (sym (
              apply-idle time' (entry_at time conds).conditions conditions
                (apply-AllSettled time conds conditions distinct))))

    unchanged :
        (time : ℕ) (entry : RouteParentStatus)
        → parent_status_beq entry (entry_at time entry.conditions) ≡ true
        → entry ≡ entry_at time entry.conditions
    unchanged time entry same =
        (parent_status_beq_iff entry (entry_at time entry.conditions)).0 same

    unchanged-again :
        (time time' : ℕ) (entry : RouteParentStatus)
        → parent_status_beq entry (entry_at time entry.conditions) ≡ true
        → parent_status_beq entry (entry_at time' entry.conditions) ≡ true
    unchanged-again time time' entry same =
        subst (λ (x : RouteParentStatus). parent_status_beq x (entry_at time' x.conditions) ≡ true)
          (sym (unchanged time entry same)) (entry_at-again time time' entry.conditions)

    -- Setting the status of a parent leaves the entries of other controllers and of other parents
    -- as they are and in their order, and the first entry of this controller for the parent then
    -- says each of the conditions, which have distinct types, with the route's generation.
    pub set_our_route_parent_status-StatusSet :
        (time : ℕ) (parents : List RouteParentStatus)
        → StatusSet controller parent_ref generation conditions parents (upsert time parents).0
    unfolding set_our_route_parent_status
    set_our_route_parent_status-StatusSet time [] = record {
      others = rw (entry_at-ours time []) refl;
      reported = (
        entry_at time [],
        rw (entry_at-ours time []) refl,
        apply-AllSettled time [] conditions distinct,
      );
    }
    set_our_route_parent_status-StatusSet time (entry ∷ entries) =
        if_both
          (λ (r : List RouteParentStatus × Bool).
            StatusSet controller parent_ref generation conditions (entry ∷ entries) r.0)
          (is_ours controller parent_ref entry) _ _
          (λ mine.
            if_both
              (λ (r : List RouteParentStatus × Bool).
                StatusSet controller parent_ref generation conditions (entry ∷ entries) r.0)
              (parent_status_beq entry (entry_at time entry.conditions)) _ _
              (λ same. record {
                others = refl;
                reported = (
                  entry,
                  rw mine refl,
                  subst (λ (x : RouteParentStatus). AllSettled generation x.conditions conditions)
                      (sym (unchanged time entry same))
                      (apply-AllSettled time entry.conditions conditions distinct),
                );
              })
              (λ differs. record {
                others = rw (entry_at-ours time entry.conditions, mine) refl;
                reported = (
                  entry_at time entry.conditions,
                  rw (entry_at-ours time entry.conditions) refl,
                  apply-AllSettled time entry.conditions conditions distinct,
                );
              }))
          (λ other.
            let rest = set_our_route_parent_status-StatusSet time entries in
            record {
              others = rw (other, rest.others) refl;
              reported = (rest.reported.0, rw other rest.reported.1, rest.reported.2);
            })

    -- Setting the same status again, at any time, changes nothing and reports no change.
    pub set_our_route_parent_status-twice :
        (time time' : ℕ) (parents : List RouteParentStatus)
        → upsert time' (upsert time parents).0 ≡ ((upsert time parents).0, false)
    unfolding set_our_route_parent_status
    set_our_route_parent_status-twice time time' [] =
        rw (entry_at-ours time [], entry_at-again time time' []) refl
    set_our_route_parent_status-twice time time' (entry ∷ entries) =
        if_both (λ (r : List RouteParentStatus × Bool). upsert time' r.0 ≡ (r.0, false))
          (is_ours controller parent_ref entry) _ _
          (λ mine.
            if_both (λ (r : List RouteParentStatus × Bool). upsert time' r.0 ≡ (r.0, false))
              (parent_status_beq entry (entry_at time entry.conditions)) _ _
              (λ same. rw (mine, unchanged-again time time' entry same) refl)
              (λ differs.
                rw (entry_at-ours time entry.conditions, entry_at-again time time' entry.conditions)
                  refl))
          (λ other. rw (other, set_our_route_parent_status-twice time time' entries) refl)
