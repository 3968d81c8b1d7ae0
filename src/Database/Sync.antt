-- ===== src/Database/Sync.antt =====
-- internal/common/database/flow.go, ReconcileSyncJobs.
pub mod Outcomes
pub mod Promotion
use c5c3_forge.Prelude.{
  ℕ, Bool, true, false, not, ◌&&◌, List, [], ◌∷◌, String, Option, none, some, ℤ, str_eq,
  if◌then◌else◌,
}
use c5c3_forge.Kube.Text.{concat}
use c5c3_forge.Kube.Error.{Error, message, wrap}
use c5c3_forge.Kube.Condition.{ConditionMeta, Status, status_true, status_false}
use c5c3_forge.Kube.Outcome.{Outcome, done, returns, fails, requeue_in}
use c5c3_forge.Job.{Job, JobApi, JobAnswer, run_job}
use c5c3_forge.Job.Migration.{PodTemplate}
use c5c3_forge.Database.Jobs.{JobSetParams, sync_job, schema_check_job}
use c5c3_forge.Database.Flow.{
  Flow, EventType, normal, warning, condition, set_flow_condition, emit, with_cluster,
}

-- SyncFlowParams, but for what the state of the pass holds. `has_recorder` and `tracks_release`
-- say that Recorder and InstalledRelease are not nil.
pub record SyncFlowParams (V M E : Type 0) : Type 0 where
  pub jobs : JobSetParams V M E
  pub has_recorder : Bool
  pub generation : ℕ
  pub condition_type : String
  pub requeue_after : ℤ
  pub tracks_release : Bool
  pub image_tag : String

-- RecordTerminal: the caller's hook; the identity where it is nil.
abbrev pub RecordTerminal : Type 0 → Type 0 → Type 0
RecordTerminal W T = String → Option (Job T) → Flow W → Flow W

module _ {W V M E C : Type 0} (m : ConditionMeta) (api : JobApi W (PodTemplate V M E C))
    (restricted : C) (record_terminal : RecordTerminal W (PodTemplate V M E C))
    (p : SyncFlowParams V M E) where
  abbrev pub report : Status → String → String → Flow W → Flow W
  report status reason msg =
      set_flow_condition m (condition p.condition_type p.generation status reason msg)

  abbrev pub emit_if : EventType → String → String → Flow W → Flow W
  emit_if type reason msg f = if p.has_recorder then emit type reason msg f else f

  -- `*p.InstalledRelease = p.ImageTag`, where releases are tracked.
  abbrev pub promote : Flow W → Flow W
  promote f =
      if p.tracks_release && not (str_eq p.image_tag "")
      then record f { installed_release = p.image_tag }
      else f

  abbrev pub synced : Flow W → Flow W × Outcome
  synced f = (
    emit_if normal "DatabaseSynced" "Database schema is up to date" (
        report status_true "DatabaseSynced" "Database schema is up to date (revision verified)"
          (promote f)),
    done,
  )

  abbrev pub job_fails : String → String → String → Error → Flow W → Flow W × Outcome
  job_fails reason text noun e f =
      let msg = concat (text ∷ " job failed: " ∷ message e ∷ []) in
      (
        emit_if warning reason msg (report status_false reason msg f),
        fails (wrap (concat ("running " ∷ noun ∷ ": " ∷ [])) e),
      )

  abbrev pub job_runs : String → String → Flow W → Flow W × Outcome
  job_runs reason msg f = (report status_false reason msg f, returns (requeue_in p.requeue_after))

  abbrev pub after_check : W × JobAnswer (PodTemplate V M E C) → Flow W → Flow W × Outcome
  after_check (w, a) f =
      let f' = record_terminal "schema-check" a.observed (with_cluster w f) in
      elim a.error [
        | some e ↦ job_fails "SchemaDriftDetected" "schema-check" "schema-check" e f'
        | none ↦
            if not a.done
            then job_runs "SchemaCheckInProgress" "schema-check job is running" f'
            else synced f'
      ]

  abbrev pub check_step : Option (List String) → Flow W → Flow W × Outcome
  check_step none f = synced f
  check_step (some command) f =
      after_check (run_job api f.cluster (schema_check_job restricted p.jobs command)) f

  abbrev pub after_sync : W × JobAnswer (PodTemplate V M E C) → Flow W → Flow W × Outcome
  after_sync (w, a) f =
      let f' = record_terminal "db-sync" a.observed (with_cluster w f) in
      elim a.error [
        | some e ↦ job_fails "DBSyncFailed" "db_sync" "db_sync" e f'
        | none ↦
            if not a.done
            then job_runs "DBSyncInProgress" "db_sync job is running" f'
            else check_step p.jobs.schema_check_command f'
      ]

  -- ReconcileSyncJobs.
  unfoldable pub reconcile_sync_jobs : Flow W → Flow W × Outcome
  reconcile_sync_jobs f = after_sync (run_job api f.cluster (sync_job restricted p.jobs)) f
