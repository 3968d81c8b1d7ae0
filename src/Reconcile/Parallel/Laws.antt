-- ===== src/Reconcile/Parallel/Laws.antt =====
-- internal/common/reconcile/parallel.go: the primary CR behind a parallel group.
use mathlib.Core.List.{map-append}
use c5c3_forge.Prelude.{
  ℕ, ◌≡◌, ◌≢◌, refl, ◌∙◌, inl, inr, List, [], ◌∷◌, ◌++◌, map, String, some, All, Option-cases,
}
use c5c3_forge.Kube.Condition.{Condition, ConditionMeta, ConditionLaws, Agrees}
use c5c3_forge.Kube.Outcome.{Outcome}
use c5c3_forge.Conditions.{get_condition}
use c5c3_forge.Conditions.Laws.{get-set_self, get-set_ne}
use c5c3_forge.Reconcile.Parallel.{
  ConditionsOf, ParallelStep, Member, merge_condition, merge_members, run_member,
  run_parallel_group,
}

-- Reading a written slice gives it back, and writing what is read changes nothing.
pub record ConditionsOfLaws {T : Type 0} (c : ConditionsOf T) : Type 0 where
  pub read-write : (cr : T) (cs : List Condition) → c.read (c.write cr cs) ≡ cs
  pub write-read : (cr : T) → c.write cr (c.read cr) ≡ cr

-- A condition of the CR that says what `c` says.
abbrev pub Shows : ConditionMeta → List Condition → Condition → Type 0
Shows m cs c = (d : Condition) × (get_condition m cs c.type ≡ some d) × Agrees d c

module _ (m : ConditionMeta) (laws : ConditionLaws m) where
  merge_condition_ne :
      (dst src : List Condition) (s t : String)
      → t ≢ s
      → get_condition m (merge_condition m dst src s) t ≡ get_condition m dst t
  unfolding merge_condition
  merge_condition_ne dst src s t h = elim (Option-cases (get_condition m src s)) [
    | inl e ↦ rw (e, merge_condition) refl
    | inr (c, e) ↦
        rw (e, merge_condition) (get-set_ne m laws dst c t (λ p. h (p ∙ laws.find_type src s e)))
  ]

  merge_condition-Shows :
      (dst src : List Condition) (s : String) {c : Condition}
      → get_condition m src s ≡ some c
      → Shows m (merge_condition m dst src s) c
  unfolding merge_condition
  merge_condition-Shows dst src s {c} e = (
    record c { last_transition_time = m.transition_time dst c },
    rw (e, merge_condition) (get-set_self m laws dst c),
    record {
      type = refl;
      status = refl;
      observed_generation = refl;
      reason = refl;
      message = refl;
    },
  )

  module _ {T : Type 0} (conditions_of : ConditionsOf T)
      (lens : ConditionsOfLaws conditions_of) where
    open conditions_of use {read, write}

    -- A type that no member reports keeps its condition.
    pub merge_members_ne :
        (os : List (Member T)) (cr : T) (t : String)
        → All (λ o. t ≢ o.cond_type) os
        → get_condition m (read (merge_members m conditions_of cr os)) t
          ≡ get_condition m (read cr) t
    unfolding merge_members
    merge_members_ne [] cr t h = refl
    merge_members_ne (o ∷ os) cr t h =
        merge_members_ne os _ t h.1
        ∙ (rw lens.read-write (merge_condition_ne (read cr) (read o.copy) o.cond_type t h.0))

    merge_members-append :
        (before rest : List (Member T)) (cr : T)
        → merge_members m conditions_of cr (before ++ rest)
          ≡ merge_members m conditions_of (merge_members m conditions_of cr before) rest
    unfolding merge_members
    merge_members-append [] rest cr = refl
    merge_members-append (o ∷ before) rest cr = merge_members-append before rest _

    merge_members-Shows :
        (o : Member T) (after : List (Member T)) (cr : T) {c : Condition}
        → All (λ u. o.cond_type ≢ u.cond_type) after
        → get_condition m (read o.copy) o.cond_type ≡ some c
        → Shows m (read (merge_members m conditions_of cr (o ∷ after))) c
    unfolding merge_members
    merge_members-Shows o after cr {c} h e =
        let (d, at_o, agrees) = merge_condition-Shows (read cr) (read o.copy) o.cond_type e in
        let merged = merge_condition m (read cr) (read o.copy) o.cond_type in
        (
          d,
          rw (laws.find_type (read o.copy) o.cond_type e) (
              merge_members_ne after (write cr merged) o.cond_type h
              ∙ rw lens.read-write (rw (laws.find_type (read o.copy) o.cond_type e) at at_o)),
          agrees,
        )

All-map {ℓ κ} :
    {A : Type ℓ} {B : Type κ} (f : A → B) (P : B → Type 0) (xs : List A)
    → All (λ x. P (f x)) xs
    → All P (map f xs)
All-map f P [] h = tt
All-map f P (x ∷ xs) h = (h.0, All-map f P xs h.1)

-- Whatever the other members did, and whether or not one of them failed, the condition that a
-- member of the group set under its own type is merged into the primary CR, if no later member
-- has the same type.
pub run_parallel_group-Shows :
    (m : ConditionMeta) (laws : ConditionLaws m) {T : Type 0} (conditions_of : ConditionsOf T)
    (lens : ConditionsOfLaws conditions_of)
    (instrument : String → (T → T × Outcome) → T → T × Outcome) (finish : ParallelStep T → ℕ)
    (cr : T) (before : List (ParallelStep T)) (s : ParallelStep T) (after : List (ParallelStep T))
    {c : Condition}
    → All (λ u. s.condition_type ≢ u.condition_type) after
    → get_condition m (conditions_of.read (instrument s.name s.fn cr).0) s.condition_type ≡ some c
    → Shows m
        (conditions_of.read
          (run_parallel_group instrument finish m conditions_of cr (before ++ s ∷ after)).0)
        c
unfolding run_parallel_group run_member
run_parallel_group-Shows m laws conditions_of lens instrument finish cr before s after h e =
    let member = run_member instrument finish cr in
    rw (map-append, merge_members-append m laws conditions_of lens (map member before))
      (merge_members-Shows m laws conditions_of lens (member s) (map member after) _
        (All-map member _ after h) e)

-- A condition whose type no member of the group reports stays as it was.
pub run_parallel_group_ne :
    (m : ConditionMeta) (laws : ConditionLaws m) {T : Type 0} (conditions_of : ConditionsOf T)
    (lens : ConditionsOfLaws conditions_of)
    (instrument : String → (T → T × Outcome) → T → T × Outcome) (finish : ParallelStep T → ℕ)
    (cr : T) (steps : List (ParallelStep T)) (t : String)
    → All (λ u. t ≢ u.condition_type) steps
    → get_condition m
        (conditions_of.read (run_parallel_group instrument finish m conditions_of cr steps).0)
        t
      ≡ get_condition m (conditions_of.read cr) t
unfolding run_parallel_group run_member
run_parallel_group_ne m laws conditions_of lens instrument finish cr steps t h =
    merge_members_ne m laws conditions_of lens (map (run_member instrument finish cr) steps) cr t
      (All-map (run_member instrument finish cr) _ steps h)
