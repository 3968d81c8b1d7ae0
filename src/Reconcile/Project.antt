-- ===== src/Reconcile/Project.antt =====
-- internal/common/reconcile/project.go and finalizer.go: the projection of a child CR, the removal
-- of an orphaned child, and the finalizer of a CR. `W` is the cluster.
pub mod Laws
use c5c3_forge.Prelude.{
  ℕ, Bool, true, false, List, [], ◌∷◌, String, Option, none, some, ℤ, if◌then◌else◌,
}
use c5c3_forge.Kube.Text.{concat, quote}
use c5c3_forge.Kube.Error.{Error, Answer, ok, err, wrap, is_not_found, is_invalid}
use c5c3_forge.Kube.Condition.{Condition, ConditionMeta, Status, status_true, status_false}
use c5c3_forge.Kube.Outcome.{Outcome, done, returns, fails, requeue_in}
use c5c3_forge.Conditions.{set_condition, is_ready}

-- ChildProjectionParams, but for the child itself, which the client below builds and applies.
pub record ChildProjectionParams : Type 0 where
  pub condition_type : String
  pub ready_reason : String
  pub ready_message : String
  pub waiting_reason : String
  pub waiting_message : String
  pub rejected_reason : String
  pub rejected_message : Error → String
  pub error_reason : String
  pub error_message : Error → String
  pub wait_requeue : ℤ
  pub generation : ℕ
  pub unowned : Bool

-- Server-Side Apply of the child, with and without an owner reference (internal/common/apply):
-- the answer carries the status conditions that the server sent back.
pub record ChildClient (W : Type 0) : Type 0 where
  pub ensure_object : W → W × Answer (List Condition)
  pub ensure_unowned_object : W → W × Answer (List Condition)

module _ (p : ChildProjectionParams) where
  abbrev pub child_condition : Status → String → String → Condition
  child_condition status reason message = record {
    type = p.condition_type;
    status = status;
    observed_generation = p.generation;
    last_transition_time = 0;
    reason = reason;
    message = message;
  }

  abbrev pub failure_condition : Error → Condition
  failure_condition e =
      child_condition status_false (if is_invalid e then p.rejected_reason else p.error_reason)
        (if is_invalid e then p.rejected_message e else p.error_message e)

module _ (m : ConditionMeta) (p : ChildProjectionParams) where
  abbrev pub mirror :
      {W : Type 0} → List Condition → W × Answer (List Condition) → List Condition × W × Outcome
  mirror conds (w, err e) = (set_condition m conds (failure_condition p e), w, fails e)
  mirror conds (w, ok child) =
      if is_ready m child
      then (
        set_condition m conds (child_condition p status_true p.ready_reason p.ready_message),
        w,
        done,
      )
      else (
        set_condition m conds (child_condition p status_false p.waiting_reason p.waiting_message),
        w,
        returns (requeue_in p.wait_requeue),
      )

  -- ProjectChild: the owner's conditions, the cluster, and what the step returns.
  unfoldable pub project_child :
      {W : Type 0} → ChildClient W → List Condition → W → List Condition × W × Outcome
  project_child c conds w =
      mirror conds (if p.unowned then c.ensure_unowned_object w else c.ensure_object w)

-- The client's reads and deletes of one child. `Object` is the live child.
pub record OrphanClient (W Object : Type 0) : Type 0 where
  pub get : W → Answer Object
  pub delete : W → Object → W × Option Error

-- `noun` is the text of `%T key`, the child's Go type and its namespace and name.
abbrev pub deleted : {W : Type 0} → String → W × Option Error → W × Option Error
deleted noun (w, none) = (w, none)
deleted noun (w, some e) =
    if is_not_found e
    then (w, none)
    else (w, some (wrap (concat ("deleting orphaned " ∷ noun ∷ ": " ∷ [])) e))

module _ {W Object : Type 0} (c : OrphanClient W Object) (noun : String) where
  abbrev pub delete_live : (Object → Bool) → W → Answer Object → W × Option Error
  delete_live controls w (err e) =
      if is_not_found e
      then (w, none)
      else (w, some (wrap (concat ("getting " ∷ noun ∷ " for orphan cleanup: " ∷ [])) e))
  delete_live controls w (ok child) =
      if controls child then deleted noun (c.delete w child) else (w, none)

  -- DeleteOrphanedChildFunc.
  unfoldable pub delete_orphaned_child_func : (Object → Bool) → W → W × Option Error
  delete_orphaned_child_func controls w = delete_live controls w (c.get w)

-- The finalizers of an object (controllerutil), and the client's Update.
pub record FinalizerClient (W Object : Type 0) : Type 0 where
  pub contains_finalizer : Object → String → Bool
  pub add_finalizer : Object → String → Object
  pub update : W → Object → W × Option Error

abbrev finalizer_added :
    {W Object : Type 0} → String → Object → W × Option Error → Object × W × Answer Bool
finalizer_added finalizer obj (w, none) = (obj, w, ok true)
finalizer_added finalizer obj (w, some e) =
    (obj, w, err (wrap (concat ("adding finalizer " ∷ quote finalizer ∷ ": " ∷ [])) e))

-- EnsureFinalizer: the object in memory, the cluster, and whether the finalizer was added.
unfoldable pub ensure_finalizer :
    {W Object : Type 0} → FinalizerClient W Object → Object → String → W → Object × W × Answer Bool
ensure_finalizer c obj finalizer w =
    if c.contains_finalizer obj finalizer
    then (obj, w, ok false)
    else let obj' = c.add_finalizer obj finalizer in
      finalizer_added finalizer obj' (c.update w obj')
