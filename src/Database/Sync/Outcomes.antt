-- ===== src/Database/Sync/Outcomes.antt =====
-- internal/common/database/flow.go, ReconcileSyncJobs: what it reports, by the Jobs in the cluster.
use c5c3_forge.Prelude.{
  ◌≡◌, ◌↔◌, refl, sym, ◌∙◌, inl, inr, Bool, true, false, not, List, [], ◌∷◌, String, Option, none,
  some, arith, Bool-cases, if◌then◌else◌,
}
use c5c3_forge.Kube.Text.{concat}
use c5c3_forge.Kube.Error.{Error, message}
use c5c3_forge.Kube.Condition.{
  ConditionMeta, ConditionLaws, Status, status_true, status_false, is_true,
}
use c5c3_forge.Kube.Outcome.{Outcome}
use c5c3_forge.Conditions.{holds, get_condition}
use c5c3_forge.Conditions.Laws.{holds-set_self}
use c5c3_forge.Job.{Job, JobApi, run_job}
use c5c3_forge.Job.Finish.{IsFinished, done_answer, finished_answer}
use c5c3_forge.Job.Migration.{PodTemplate}
use c5c3_forge.Database.Jobs.{sync_job, schema_check_job}
use c5c3_forge.Database.Flow.{Flow, EventType, condition, with_cluster}
use c5c3_forge.Database.Sync.{
  SyncFlowParams, RecordTerminal, reconcile_sync_jobs, synced, promote, check_step, job_fails,
  emit_if, report,
}

module _ {W V M E C : Type 0} (m : ConditionMeta) (laws : ConditionLaws m)
    (api : JobApi W (PodTemplate V M E C)) (restricted : C)
    (record_terminal : RecordTerminal W (PodTemplate V M E C)) (p : SyncFlowParams V M E) where
  -- The flow behind RunJob and the hook.
  abbrev pub ran : String → Job (PodTemplate V M E C) → Flow W → Flow W
  ran suffix job f =
      let (w, a) = run_job api f.cluster job in record_terminal suffix a.observed (with_cluster w f)

  abbrev pub db_sync : Job (PodTemplate V M E C)
  db_sync = sync_job restricted p.jobs

  -- The schema check, where there is one, has completed.
  pub Checked : Option (List String) → Flow W → Type 0
  Checked none f = Unit
  Checked (some command) f = IsFinished api f.cluster (schema_check_job restricted p.jobs command)

  -- The sync has completed, and then the schema check.
  pub record Verified (f : Flow W) : Type 0 where
    pub synced_job : IsFinished api f.cluster db_sync
    pub checked_job : Checked p.jobs.schema_check_command (ran "db-sync" db_sync f)

  -- Whether the condition of the pass is there and true.
  abbrev pub shown : Flow W → Bool
  shown f = holds (get_condition m f.conditions p.condition_type)

  -- The pass reports the schema as up to date.
  abbrev pub Reports : Flow W → Type 0
  Reports f = shown f ≡ true

  -- What the condition shows, for a report that is followed by an event.
  conditions-emit_if :
      (type : EventType) (reason msg : String) (f : Flow W)
      → (emit_if m api restricted record_terminal p type reason msg f).conditions ≡ f.conditions
  conditions-emit_if type reason msg f = elim (Bool-cases p.has_recorder) [
    | inl e ↦ rw e refl
    | inr e ↦ rw e refl
  ]

  shown-report :
      (status : Status) (reason msg : String) (f : Flow W)
      → shown (report m api restricted record_terminal p status reason msg f) ≡ is_true status
  shown-report status reason msg f =
      holds-set_self m laws f.conditions (condition p.condition_type p.generation status reason msg)

  shown-synced : (f : Flow W) → shown (synced m api restricted record_terminal p f).0 ≡ true
  shown-synced f = rw conditions-emit_if (
      shown-report status_true "DatabaseSynced" "Database schema is up to date (revision verified)"
        (promote m api restricted record_terminal p f))

  shown_fails :
      (reason text noun : String) (e : Error) (f : Flow W)
      → shown (job_fails m api restricted record_terminal p reason text noun e f).0 ≡ false
  shown_fails reason text noun e f =
      rw conditions-emit_if
        (shown-report status_false reason (concat (text ∷ " job failed: " ∷ message e ∷ [])) f)

  -- The branches behind RunJob.
  abbrev branch :
      Bool
      → Option Error
      → (Error → Flow W × Outcome)
      → Flow W × Outcome
      → Flow W × Outcome
      → Flow W × Outcome
  branch job_done error failed running finished = elim error [
    | some e ↦ failed e
    | none ↦ if not job_done then running else finished
  ]

  branch_iff :
      (job_done : Bool) (error : Option Error) (failed : Error → Flow W × Outcome)
      (running finished : Flow W × Outcome) {P Q : Type 0}
      → (job_done ≡ true → P)
      → (P → (job_done ≡ true) × (error ≡ none))
      → ((e : Error) → shown (failed e).0 ≡ false)
      → shown running.0 ≡ false
      → (shown finished.0 ≡ true) ↔ Q
      → (shown (branch job_done error failed running finished).0 ≡ true) ↔ (P × Q)
  branch_iff true none failed running finished to from fails runs iff =
      (λ h. (to refl, iff.0 h), λ (_, x). iff.1 x)
  branch_iff true (some e) failed running finished to from fails runs iff = (
    λ h. absurd (ground (arith, sym (fails e) ∙ h)),
    λ (q, _). absurd (ground (arith, (from q).1)),
  )
  branch_iff false none failed running finished to from fails runs iff =
      (λ h. absurd (ground (arith, sym runs ∙ h)), λ (q, _). absurd (ground (arith, (from q).0)))
  branch_iff false (some e) failed running finished to from fails runs iff = (
    λ h. absurd (ground (arith, sym (fails e) ∙ h)),
    λ (q, _). absurd (ground (arith, (from q).0)),
  )

  check_step_iff :
      (command : Option (List String)) (f : Flow W)
      → Reports (check_step m api restricted record_terminal p command f).0 ↔ Checked command f
  unfolding Checked
  check_step_iff none f = (λ h. tt, λ q. shown-synced f)
  check_step_iff (some command) f =
      let job = schema_check_job restricted p.jobs command in
      let f' = ran "schema-check" job f in
      let a = (run_job api f.cluster job).1 in
      let iff =
        branch_iff a.done a.error _ _ (synced m api restricted record_terminal p f') {Q = Unit}
          (done_answer api f.cluster job) (finished_answer api f.cluster job)
          (λ e. shown_fails "SchemaDriftDetected" "schema-check" "schema-check" e f')
          (shown-report status_false "SchemaCheckInProgress" "schema-check job is running" f')
          (λ h. tt, λ q. shown-synced f') in
      (λ h. (iff.0 h).0, λ q. iff.1 (q, tt))

  -- After a pass of ReconcileSyncJobs the condition is there and true exactly when the db_sync Job
  -- has completed under its current re-run key, and, where a schema check is configured, so has
  -- the schema-check Job in the cluster that the pass then has.
  pub reconcile_sync_jobs_iff :
      (f : Flow W)
      → Reports (reconcile_sync_jobs m api restricted record_terminal p f).0 ↔ Verified f
  unfolding reconcile_sync_jobs
  reconcile_sync_jobs_iff f =
      let f' = ran "db-sync" db_sync f in
      let a = (run_job api f.cluster db_sync).1 in
      let iff =
        branch_iff a.done a.error _ _
          (check_step m api restricted record_terminal p p.jobs.schema_check_command f')
          (done_answer api f.cluster db_sync) (finished_answer api f.cluster db_sync)
          (λ e. shown_fails "DBSyncFailed" "db_sync" "db_sync" e f')
          (shown-report status_false "DBSyncInProgress" "db_sync job is running" f')
          (check_step_iff p.jobs.schema_check_command f') in
      (
        λ h. record { synced_job = (iff.0 h).0; checked_job = (iff.0 h).1 },
        λ v. iff.1 (v.synced_job, v.checked_job),
      )
