-- ===== src/Reconcile/Status.antt =====
-- internal/common/reconcile/status.go and skeleton.go: the aggregate Ready condition, the status
-- write that is skipped when nothing changed, and the early failure mark. `S` is the CR's status,
-- `W` the cluster.
pub mod Laws
pub mod Converged
use c5c3_forge.Prelude.{
  ℕ, Bool, true, false, List, [], ◌∷◌, String, Option, none, some, if◌then◌else◌,
}
use c5c3_forge.Kube.Error.{Error, message, wrap, join_with}
use c5c3_forge.Kube.Condition.{Condition, ConditionMeta, status_true, status_false}
use c5c3_forge.Kube.Outcome.{Outcome, zero_result}
use c5c3_forge.Conditions.{set_condition, all_true}
use c5c3_forge.Reconcile.Parallel.{ConditionsOf}

abbrev pub all_ready : ℕ → Condition
all_ready generation = record {
  type = "Ready";
  status = status_true;
  observed_generation = generation;
  last_transition_time = 0;
  reason = "AllReady";
  message = "All sub-conditions are ready";
}

abbrev pub not_all_ready : ℕ → Condition
not_all_ready generation = record {
  type = "Ready";
  status = status_false;
  observed_generation = generation;
  last_transition_time = 0;
  reason = "NotAllReady";
  message = "One or more sub-conditions are not ready";
}

module _ (m : ConditionMeta) where
  -- SetAggregateReady.
  unfoldable pub set_aggregate_ready : List Condition → ℕ → List String → List Condition
  set_aggregate_ready conds observed_generation sub_condition_types =
      if all_true m conds sub_condition_types
      then set_condition m conds (all_ready observed_generation)
      else set_condition m conds (not_all_ready observed_generation)

-- The test of equality.Semantic.DeepEqual on two statuses.
abbrev pub unchanged : {S : Type 0} → (S → S → Bool) → Option S → S → Bool
unchanged deep_equal none current = false
unchanged deep_equal (some before) current = deep_equal before current

abbrev pub written : {S W : Type 0} → S → Outcome → W × Option Error → S × W × Outcome
written current o (w, none) = (current, w, o)
written current o (w, some e) = (
  current,
  w,
  record { result = zero_result; error = some (join_with o.error (wrap "updating status: " e)) },
)

module _ {S W : Type 0} (deep_equal : S → S → Bool) (status_update : S → W → W × Option Error) where
  -- UpdateStatus: the status as `mutate` leaves it, the cluster, and what the pass returns.
  unfoldable pub update_status : Option S → S → (S → S) → Outcome → W → S × W × Outcome
  update_status before current mutate o w =
      let current' = mutate current in
      if unchanged deep_equal before current'
      then (current', w, o)
      else written current' o (status_update current' w)

-- Skeleton, for a CR whose status is `S` at generation `generation`.
pub record Skeleton (S : Type 0) : Type 0 where
  pub sub_condition_types : List String
  pub conditions : ConditionsOf S

module _ (m : ConditionMeta) {S : Type 0} (s : Skeleton S) where
  open s use {conditions}
  open conditions use {read, write}

  -- Skeleton.SetReady.
  unfoldable pub set_ready : ℕ → S → S
  set_ready generation obj =
      write obj (set_aggregate_ready m (read obj) generation s.sub_condition_types)

  -- Skeleton.MarkFailed.
  unfoldable pub mark_failed : ℕ → S → String → String → Error → S
  mark_failed generation obj condition_type reason err = write obj (
      set_condition m (read obj) (record {
        type = condition_type;
        status = status_false;
        observed_generation = generation;
        last_transition_time = 0;
        reason = reason;
        message = message err;
      }))

  -- Skeleton.UpdateStatus. A nil extraMutate is the identity.
  unfoldable pub skeleton_update_status :
      {W : Type 0} (deep_equal : S → S → Bool) (status_update : S → W → W × Option Error)
      → ℕ
      → Option S
      → S
      → (S → S)
      → Outcome
      → W
      → S × W × Outcome
  skeleton_update_status deep_equal status_update generation before current extra_mutate =
      update_status deep_equal status_update before current
        (λ obj. extra_mutate (set_ready generation obj))
