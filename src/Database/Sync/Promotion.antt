-- ===== src/Database/Sync/Promotion.antt =====
-- internal/common/database/flow.go, ReconcileSyncJobs: the release that it records.
use c5c3_forge.Prelude.{
  ◌≡◌, ◌≢◌, refl, ◌∙◌, ◌⊎◌, inl, inr, List, String, Option, none, some, Bool-cases, Option-cases,
  str_eq-cases,
}
use c5c3_forge.Kube.Condition.{ConditionMeta}
use c5c3_forge.Kube.Error.{Error}
use c5c3_forge.Job.{Job, JobApi, JobAnswer, run_job}
use c5c3_forge.Job.Migration.{PodTemplate}
use c5c3_forge.Database.Jobs.{sync_job, schema_check_job}
use c5c3_forge.Database.Flow.{Flow, EventType, with_cluster}
use c5c3_forge.Database.Sync.{
  SyncFlowParams, RecordTerminal, reconcile_sync_jobs, synced, promote, emit_if, after_check,
  check_step, after_sync, job_fails,
}

module _ {W V M E C : Type 0} (m : ConditionMeta) (api : JobApi W (PodTemplate V M E C))
    (restricted : C) (record_terminal : RecordTerminal W (PodTemplate V M E C))
    (p : SyncFlowParams V M E)
    (keeps : (suffix : String) (observed : Option (Job (PodTemplate V M E C))) (f : Flow W)
      → (record_terminal suffix observed f).installed_release ≡ f.installed_release) where
  -- What the pass may record: the release that it found, or the tag that it ran with.
  unfoldable pub Records : String → String → Type 0
  Records old r = (r ≡ old) ⊎ ((p.image_tag ≢ "") × (r ≡ p.image_tag))

  installed-emit_if :
      (type : EventType) (reason msg : String) (f : Flow W)
      → (emit_if m api restricted record_terminal p type reason msg f).installed_release
        ≡ f.installed_release
  installed-emit_if type reason msg f = elim (Bool-cases p.has_recorder) [
    | inl e ↦ rw e refl
    | inr e ↦ rw e refl
  ]

  installed-promote :
      (old : String) (f : Flow W)
      → f.installed_release ≡ old
      → Records old (promote m api restricted record_terminal p f).installed_release
  unfolding Records
  installed-promote old f e = elim (Bool-cases p.tracks_release) [
    | inr t ↦ rw t (inl e)
    | inl t ↦ elim (str_eq-cases p.image_tag "") [
      | inl (b, _) ↦ rw (t, b) (inl e)
      | inr (b, ne) ↦ rw (t, b) (inr (ne, refl))
    ]
  ]

  installed-synced :
      (old : String) (f : Flow W)
      → f.installed_release ≡ old
      → Records old (synced m api restricted record_terminal p f).0.installed_release
  installed-synced old f e = rw installed-emit_if (installed-promote old f e)

  installed-job_fails :
      (reason text noun : String) (x : Error) (old : String) (f : Flow W)
      → f.installed_release ≡ old
      → Records old
          (job_fails m api restricted record_terminal p reason text noun x f).0.installed_release
  unfolding Records
  installed-job_fails reason text noun x old f e = inl (rw installed-emit_if e)

  installed-after_check :
      (old : String) (a : W × JobAnswer (PodTemplate V M E C)) (f : Flow W)
      → f.installed_release ≡ old
      → Records old (after_check m api restricted record_terminal p a f).0.installed_release
  unfolding Records
  installed-after_check old (w, a) f e =
      let same = keeps "schema-check" a.observed (with_cluster w f) ∙ e in
      elim (Option-cases a.error) [
        | inr (x, q) ↦
            rw q
              (installed-job_fails "SchemaDriftDetected" "schema-check" "schema-check" x old _ same)
        | inl q ↦ elim (Bool-cases a.done) [
          | inl d ↦ rw (q, d) (installed-synced old _ same)
          | inr d ↦ rw (q, d) (inl same)
        ]
      ]

  installed-check_step :
      (old : String) (command : Option (List String)) (f : Flow W)
      → f.installed_release ≡ old
      → Records old (check_step m api restricted record_terminal p command f).0.installed_release
  installed-check_step old none f e = installed-synced old f e
  installed-check_step old (some command) f e =
      installed-after_check old (run_job api f.cluster (schema_check_job restricted p.jobs command))
        f e

  installed-after_sync :
      (old : String) (a : W × JobAnswer (PodTemplate V M E C)) (f : Flow W)
      → f.installed_release ≡ old
      → Records old (after_sync m api restricted record_terminal p a f).0.installed_release
  unfolding Records
  installed-after_sync old (w, a) f e =
      let same = keeps "db-sync" a.observed (with_cluster w f) ∙ e in
      elim (Option-cases a.error) [
        | inr (x, q) ↦ rw q (installed-job_fails "DBSyncFailed" "db_sync" "db_sync" x old _ same)
        | inl q ↦ elim (Bool-cases a.done) [
          | inl d ↦ rw (q, d) (installed-check_step old p.jobs.schema_check_command _ same)
          | inr d ↦ rw (q, d) (inl same)
        ]
      ]

  -- A pass of ReconcileSyncJobs keeps the recorded release, or sets it to its tag, which is then
  -- not empty, where the metrics hook keeps it.
  pub reconcile_sync_jobs-Records :
      (f : Flow W)
      → Records f.installed_release
          (reconcile_sync_jobs m api restricted record_terminal p f).0.installed_release
  unfolding reconcile_sync_jobs
  reconcile_sync_jobs-Records f =
      installed-after_sync f.installed_release (run_job api f.cluster (sync_job restricted p.jobs))
        f refl
