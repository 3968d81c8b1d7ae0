-- ===== src/Keystone/Database/Aborting.antt =====
-- operators/keystone/internal/controller/reconcile_database.go, abortUpgrade: the Jobs of an
-- upgrade in a cluster whose Delete obeys its documentation.
use c5c3_forge.Prelude.{Bool, ◌≡◌, true, List, String, none, some, All}
use c5c3_forge.Kube.Error.{Error, ok, err, is_not_found}
use c5c3_forge.Kube.Outcome.{Outcome, requeue_now, returns}
use c5c3_forge.Job.{Job, JobApi}
use c5c3_forge.Keystone.State.{no_phase, Keystone, Env}
use c5c3_forge.Job.Migration.{PodTemplate}
use c5c3_forge.Keystone.Upgrade.Phases.{view}
use c5c3_forge.Keystone.Database.{upgrade_job_name, upgrade_job_suffixes}

-- There is no such Job, or it is being deleted; `terminating` says whether a Job's
-- DeletionTimestamp is set.
pub data IsLeaving {W T : Type 0} (api : JobApi W T) (terminating : Job T → Bool) (w : W)
    (namespace name : String) : Type 0 where
  missing :
      (e : Error)
      → api.get w namespace name ≡ err e
      → is_not_found e ≡ true
      → IsLeaving api terminating w namespace name
  leaving :
      (job : Job T)
      → api.get w namespace name ≡ ok job
      → terminating job ≡ true
      → IsLeaving api terminating w namespace name

-- A Delete that is accepted removes the Job or sets its DeletionTimestamp, which nothing unsets; and
-- a Delete that answers NotFound finds no Job. A Job whose deletion has begun stays so, or goes.
pub record DeleteLaws {W T : Type 0} (api : JobApi W T) (terminating : Job T → Bool) : Type 0 where
  pub deleted :
      (w : W) (namespace name : String)
      → (api.delete w namespace name).1 ≡ none
      → IsLeaving api terminating (api.delete w namespace name).0 namespace name
  pub absent :
      (w : W) (namespace name : String) (e : Error)
      → (api.delete w namespace name).1 ≡ some e
      → is_not_found e ≡ true
      → IsLeaving api terminating (api.delete w namespace name).0 namespace name
  pub stays :
      (w : W) (namespace name other : String)
      → IsLeaving api terminating w namespace other
      → IsLeaving api terminating (api.delete w namespace name).0 namespace other

module _ {W V M E C : Type 0} (env : Env W V M E C) {terminating : Job (PodTemplate V M E C) → Bool}
    (laws : DeleteLaws env.jobs terminating) (k : Keystone W) where
  -- No Job of the upgrade is left, or what is left of them is being deleted.
  pub AreLeaving : W → List String → Type 0
  AreLeaving w suffixes =
      All (λ s. IsLeaving env.jobs terminating w k.namespace (upgrade_job_name env k s)) suffixes

  module _ (s : String) (suffixes : List String) (w : W) where
    abbrev after : W
    after = (env.jobs.delete w k.namespace (upgrade_job_name env k s)).0

  -- How an abort ends.
  pub data Aborted (r : Keystone W × Outcome) : Type 0 where
    failed : (e : Error) → r.1.error ≡ some e → view r.0 ≡ view k → Aborted r
    cleaned :
        r.1 ≡ returns requeue_now
        → view r.0 ≡ record { installed = k.flow.installed_release; target = ""; phase = no_phase }
        → AreLeaving r.0.flow.cluster upgrade_job_suffixes
        → Aborted r
