-- ===== src/Reconcile/Parallel/Failure.antt =====
-- internal/common/reconcile/parallel.go: the error of a parallel group.
use mathlib.Core.List.{Memᴰ}
use c5c3_forge.Prelude.{
  ℕ, ◌≤◌, ◌≡◌, refl, ◌⊎◌, inl, inr, List, [], ◌∷◌, map, Option, none, some, arith, All, Bool-cases,
  ltb, String,
}
use c5c3_forge.Kube.Error.{Error}
use c5c3_forge.Kube.Condition.{ConditionMeta}
use c5c3_forge.Kube.Outcome.{Outcome, returns, fails}
use c5c3_forge.Reconcile.Pipeline.{shortest_requeue}
use c5c3_forge.Reconcile.Parallel.{
  ConditionsOf, ParallelStep, Member, first_failure, with_member, results, to_outcome, run_member,
  run_parallel_group,
}

module _ {T : Type 0} where
  abbrev pub Succeeds : Member T → Type 0
  Succeeds o = o.err ≡ none

  -- Every member of the list that failed did so at `n` or later.
  abbrev pub NoneBefore : ℕ → List (Member T) → Type 0
  NoneBefore n = All (λ o. Succeeds o ⊎ (n ≤ o.finished))

  -- What is returned: the requeue that the results ask for where no member failed, else the error
  -- of the member that failed first.
  pub data Returned (os : List (Member T)) : Outcome → Type 0 where
    succeeded : All Succeeds os → Returned os (returns (shortest_requeue (map (λ o. o.result) os)))
    failed :
        (o : Member T) (e : Error)
        → Memᴰ o os
        → o.err ≡ some e
        → NoneBefore o.finished os
        → Returned os (fails e)

  data Earliest (os : List (Member T)) : Option (ℕ × Error) → Type 0 where
    absent : All Succeeds os → Earliest os none
    present :
        (o : Member T) (e : Error)
        → Memᴰ o os
        → o.err ≡ some e
        → NoneBefore o.finished os
        → Earliest os (some (o.finished, e))

  NoneBefore-mono : (n k : ℕ) (os : List (Member T)) → n ≤ k → NoneBefore k os → NoneBefore n os
  NoneBefore-mono n k [] h b = tt
  NoneBefore-mono n k (o ∷ os) h (inl s, b) = (inl s, NoneBefore-mono n k os h b)
  NoneBefore-mono n k (o ∷ os) h (inr l, b) = (inr (omega arith), NoneBefore-mono n k os h b)

  NoneBefore-of_Succeeds : (n : ℕ) (os : List (Member T)) → All Succeeds os → NoneBefore n os
  NoneBefore-of_Succeeds n [] h = tt
  NoneBefore-of_Succeeds n (o ∷ os) h = (inl h.0, NoneBefore-of_Succeeds n os h.1)

  Earliest-with_member :
      (o : Member T) (os : List (Member T)) (x : Option Error) (y : Option (ℕ × Error))
      → o.err ≡ x
      → Earliest os y
      → Earliest (o ∷ os) (with_member x o.finished y)
  Earliest-with_member o os none none e (absent s) = absent (e, s)
  Earliest-with_member o os none (some p) e (present q f m g b) =
      present q f (Memᴰ.tail m) g (inl e, b)
  Earliest-with_member o os (some f) none e (absent s) =
      present o f (Memᴰ.head refl) e (inr (omega arith), NoneBefore-of_Succeeds o.finished os s)
  Earliest-with_member o os (some f) (some p) e (present q g m k b) =
      elim (Bool-cases (ltb q.finished o.finished)) [
        | inl lower ↦ rw lower (present q g (Memᴰ.tail m) k (inr (ground arith), b))
        | inr above ↦ rw above (
            present o f (Memᴰ.head refl) e
              (inr (omega arith), NoneBefore-mono o.finished q.finished os (ground arith) b))
      ]

  first_failure-Earliest : (os : List (Member T)) → Earliest os (first_failure os)
  unfolding first_failure
  first_failure-Earliest [] = absent tt
  first_failure-Earliest (o ∷ os) =
      Earliest-with_member o os o.err (first_failure os) refl (first_failure-Earliest os)

  results-map : (os : List (Member T)) → All Succeeds os → results os ≡ map (λ o. o.result) os
  unfolding results
  results-map [] h = refl
  results-map (o ∷ os) h = ground (arith, results-map os h.1)

  Returned-to_outcome :
      (os : List (Member T)) (y : Option (ℕ × Error))
      → Earliest os y
      → Returned os (to_outcome y (results os))
  Returned-to_outcome os none (absent s) = rw (results-map os s) (succeeded s)
  Returned-to_outcome os (some p) (present o e m f b) = failed o e m f b

-- RunParallelGroup returns an error exactly when a member failed: the error of a member that
-- failed no later than any other failing member. Where none failed it returns what ShortestRequeue
-- chooses from the results of all members.
pub run_parallel_group-Returned :
    {T : Type 0} (instrument : String → (T → T × Outcome) → T → T × Outcome)
    (finish : ParallelStep T → ℕ) (m : ConditionMeta) (conditions_of : ConditionsOf T) (cr : T)
    (steps : List (ParallelStep T))
    → Returned
        (map (run_member instrument finish cr) steps)
        (run_parallel_group instrument finish m conditions_of cr steps).1
unfolding run_parallel_group
run_parallel_group-Returned instrument finish m conditions_of cr steps =
    let os = map (run_member instrument finish cr) steps in
    Returned-to_outcome os (first_failure os) (first_failure-Earliest os)
