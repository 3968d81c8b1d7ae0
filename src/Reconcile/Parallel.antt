-- ===== src/Reconcile/Parallel.antt =====
-- internal/common/reconcile/parallel.go: MergeCondition and RunParallelGroup. A CR is a value, so
-- DeepCopy is the value itself; `finish` says at which moment each goroutine returns, which
-- decides the error that errgroup keeps, and stands for every schedule.
pub mod Laws
pub mod Failure
use c5c3_forge.Prelude.{
  ℕ, Bool, true, false, List, [], ◌∷◌, ◌++◌, map, String, Option, none, some, ltb, if◌then◌else◌,
}
use c5c3_forge.Kube.Error.{Error}
use c5c3_forge.Kube.Condition.{Condition, ConditionMeta}
use c5c3_forge.Kube.Outcome.{Result, Outcome, returns, fails}
use c5c3_forge.Conditions.{set_condition, get_condition}
use c5c3_forge.Reconcile.Pipeline.{shortest_requeue}

-- conditionsOf: the CR's status conditions, read and written.
pub record ConditionsOf (T : Type 0) : Type 0 where
  pub read : T → List Condition
  pub write : T → List Condition → T

-- ParallelStep.
pub record ParallelStep (T : Type 0) : Type 0 where
  pub name : String
  pub condition_type : String
  pub fn : T → T × Outcome

-- The local type outcome, with the moment at which the goroutine returned.
pub record Member (T : Type 0) : Type 0 where
  pub result : Result
  pub copy : T
  pub cond_type : String
  pub err : Option Error
  pub finished : ℕ

-- MergeCondition.
unfoldable pub merge_condition :
    ConditionMeta → List Condition → List Condition → String → List Condition
merge_condition m dst src condition_type = elim (get_condition m src condition_type) [
  | none ↦ dst
  | some cond ↦ set_condition m dst cond
]

abbrev pub earlier : ℕ → Error → Option (ℕ × Error) → Option (ℕ × Error)
earlier n e none = some (n, e)
earlier n e (some (k, f)) = if ltb k n then some (k, f) else some (n, e)

abbrev pub with_member : Option Error → ℕ → Option (ℕ × Error) → Option (ℕ × Error)
with_member none n rest = rest
with_member (some e) n rest = earlier n e rest

abbrev pub to_outcome : Option (ℕ × Error) → List Result → Outcome
to_outcome none rs = returns (shortest_requeue rs)
to_outcome (some (n, e)) rs = fails e

module _ {T : Type 0} where
  -- The error of the member that failed first.
  unfoldable pub first_failure : List (Member T) → Option (ℕ × Error)
  first_failure [] = none
  first_failure (o ∷ os) = with_member o.err o.finished (first_failure os)

  abbrev add_result : Member T → List Result → List Result
  add_result o rs = elim o.err [ none ↦ o.result ∷ rs | some e ↦ rs ]

  -- The results of the members that did not fail.
  unfoldable pub results : List (Member T) → List Result
  results [] = []
  results (o ∷ os) = add_result o (results os)

  module _ (m : ConditionMeta) (conditions_of : ConditionsOf T) where
    open conditions_of use {read, write}

    -- The loop that merges the members' conditions into the primary CR.
    unfoldable pub merge_members : T → List (Member T) → T
    merge_members cr [] = cr
    merge_members cr (o ∷ os) =
        merge_members (write cr (merge_condition m (read cr) (read o.copy) o.cond_type)) os

  module _ (instrument : String → (T → T × Outcome) → T → T × Outcome)
      (finish : ParallelStep T → ℕ) where
    -- One goroutine of the group.
    unfoldable pub run_member : T → ParallelStep T → Member T
    run_member cr sub =
        let (copy, o) = instrument sub.name sub.fn cr in
        record {
          result = o.result;
          copy = copy;
          cond_type = sub.condition_type;
          err = o.error;
          finished = finish sub;
        }

    -- RunParallelGroup.
    unfoldable pub run_parallel_group :
        ConditionMeta → ConditionsOf T → T → List (ParallelStep T) → T × Outcome
    run_parallel_group m conditions_of cr steps =
        let outcomes = map (run_member cr) steps in
        (
          merge_members m conditions_of cr outcomes,
          to_outcome (first_failure outcomes) (results outcomes),
        )
