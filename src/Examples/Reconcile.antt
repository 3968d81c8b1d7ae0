-- ===== src/Examples/Reconcile.antt =====
-- Pipelines, parallel groups, status updates and projections at work.
use c5c3_forge.Prelude.{
  ℕ, zero, suc, ◌==◌, refl, ◌↔◌, Bool, false, List, [], ◌∷◌, map, String, Option, none, some, pos,
}
use c5c3_forge.Kube.Error.{Error, ok, err, plain, api, conflict}
use c5c3_forge.Kube.Condition.{Condition, status_true, status_false}
use c5c3_forge.Kube.Outcome.{Result, Outcome, done, returns, fails, requeue_in}
use c5c3_forge.Conditions.Laws.{IsTrue}
use c5c3_forge.Reconcile.Pipeline.{Step, InstrumentFunc, shortest_requeue}
use c5c3_forge.Reconcile.Pipeline.Shortest.{Chosen, shortest_requeue-Chosen}
use c5c3_forge.Reconcile.Parallel.{ParallelStep, run_parallel_group, run_member}
use c5c3_forge.Reconcile.Parallel.Laws.{Shows, run_parallel_group-Shows}
use c5c3_forge.Reconcile.Parallel.Failure.{Returned, run_parallel_group-Returned}
use c5c3_forge.Reconcile.Status.{update_status}
use c5c3_forge.Reconcile.Status.Laws.{Updated, update_status-Updated}
use c5c3_forge.Reconcile.Project.{
  ChildProjectionParams, ChildClient, project_child, OrphanClient, delete_orphaned_child_func,
}
use c5c3_forge.Reconcile.Project.Laws.{
  applied, ChildReady, project_child_iff, Cleaned, delete_orphaned_child_func-Cleaned,
}
use c5c3_forge.Examples.Conditions.{
  meta, meta_laws, own_conditions, own_conditions_laws, cond, differs, put, find,
}

abbrev ready_cond : Condition
ready_cond = cond "DatabaseReady" status_true

abbrev api_cond : Condition
api_cond = cond "APIReady" status_false

abbrev stored : List Condition
stored = ready_cond ∷ api_cond ∷ []

abbrev bare : InstrumentFunc ℕ
bare name fn = fn

abbrev count : Step ℕ
count = record { name = "Count"; fn = λ n. (suc n, done) }

abbrev wait : Step ℕ
wait = record { name = ""; fn = λ n. (suc n, returns (requeue_in (pos 10))) }

abbrev waits : List Result
waits = requeue_in (pos 30) ∷ requeue_in (pos 0) ∷ requeue_in (pos 10) ∷ []

shortest_requeue-Chosen_example : Chosen (shortest_requeue waits) waits
shortest_requeue-Chosen_example = shortest_requeue-Chosen waits

-- Two members: one sets its condition, the other one fails.
abbrev as_is :
    String → (List Condition → List Condition × Outcome) → List Condition → List Condition × Outcome
as_is name fn = fn

abbrev database_member : ParallelStep (List Condition)
database_member = record {
  name = "Database";
  condition_type = "DatabaseReady";
  fn = λ cs. (put cs ready_cond, done);
}

abbrev api_member : ParallelStep (List Condition)
api_member = record {
  name = "API";
  condition_type = "APIReady";
  fn = λ cs. (put cs api_cond, fails (plain "no endpoint"));
}

abbrev at_once : ParallelStep (List Condition) → ℕ
at_once s = 0

abbrev members : List (ParallelStep (List Condition))
members = database_member ∷ api_member ∷ []

run_parallel_group-Shows_example :
    Shows meta (run_parallel_group as_is at_once meta own_conditions [] members).0 ready_cond
unfolding put find
run_parallel_group-Shows_example =
    run_parallel_group-Shows meta meta_laws own_conditions own_conditions_laws as_is at_once [] []
      database_member (api_member ∷ []) (differs refl, tt) refl

run_parallel_group-Returned_example :
    Returned
      (map (run_member as_is at_once []) members)
      (run_parallel_group as_is at_once meta own_conditions [] members).1
run_parallel_group-Returned_example =
    run_parallel_group-Returned as_is at_once meta own_conditions [] members

abbrev both : List String
both = "DatabaseReady" ∷ "APIReady" ∷ []

abbrev same_number : ℕ → ℕ → Bool
same_number m n = m == n

-- A write that fails from the second one on.
abbrev write_status : {S : Type 0} → S → ℕ → ℕ × Option Error
write_status s zero = (1, none)
write_status s (suc n) = (suc n, some (api conflict "conflict"))

update_status-Updated_example :
    Updated same_number write_status
      (some 4)
      5
      done
      1
      (update_status same_number write_status (some 4) 4 (λ n. suc n) done 1)
update_status-Updated_example =
    update_status-Updated same_number write_status (some 4) 4 (λ n. suc n) done 1

abbrev params : ChildProjectionParams
params = record {
  condition_type = "KeystoneReady";
  ready_reason = "Ready";
  ready_message = "ready";
  waiting_reason = "Waiting";
  waiting_message = "waiting";
  rejected_reason = "Rejected";
  rejected_message = λ e. "rejected";
  error_reason = "Error";
  error_message = λ e. "error";
  wait_requeue = pos 30;
  generation = 2;
  unowned = false;
}

abbrev child_client : ChildClient ℕ
child_client = record {
  ensure_object = λ w. (suc w, ok (cond "Ready" status_true ∷ []));
  ensure_unowned_object = λ w. (w, err (plain "not owned"));
}

project_child_iff_example :
    IsTrue meta (project_child meta params child_client stored 0).0 "KeystoneReady"
    ↔ ChildReady meta (applied params child_client 0)
project_child_iff_example = project_child_iff meta meta_laws params child_client stored 0

abbrev orphan_client : OrphanClient ℕ ℕ
orphan_client = record { get = λ w. ok w; delete = λ w n. (0, none) }

delete_orphaned_child_func-Cleaned_example :
    Cleaned orphan_client
      (λ n. n == 3)
      3
      (delete_orphaned_child_func orphan_client "Keystone" (λ n. n == 3) 3).0
delete_orphaned_child_func-Cleaned_example =
    delete_orphaned_child_func-Cleaned orphan_client "Keystone" (λ n. n == 3) 3
