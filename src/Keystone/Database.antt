-- ===== src/Keystone/Database.antt =====
-- operators/keystone/internal/controller/reconcile_database.go: one pass over the database of a
-- Keystone CR.
pub mod Laws
pub mod Aborting
use c5c3_forge.Prelude.{
  ℕ, Bool, true, false, not, List, [], ◌∷◌, String, Option, none, some, str_eq, if◌then◌else◌,
}
use c5c3_forge.Kube.Text.{concat}
use c5c3_forge.Kube.Error.{Error, plain, wrap, is_not_found}
use c5c3_forge.Kube.Outcome.{Outcome, returns, fails, requeue_now, stops}
use c5c3_forge.Job.Migration.{PodTemplate}
use c5c3_forge.Database.Flow.{Flow, EventType, normal, warning, with_cluster}
use c5c3_forge.Database.Provision.{ProvisionFlowParams, reconcile_provision}
use c5c3_forge.Database.Sync.{SyncFlowParams, reconcile_sync_jobs}
use c5c3_forge.Keystone.State.{
  UpgradePhase, no_phase, expanding, migrating, rolling_update, contracting, unknown_phase,
  Keystone, Env, JobInputs, requeue_database_wait, set_keystone_condition, emit_event, with_flow,
  record_db_job_terminal_state,
}
use c5c3_forge.Keystone.Jobs.{keystone_job_set_params}
use c5c3_forge.Keystone.Upgrade.{
  is_upgrade, initiate_upgrade, database_not_ready, reconcile_upgrade,
}

-- upgradeJobSuffixes.
abbrev pub upgrade_job_suffixes : List String
upgrade_job_suffixes = "db-expand" ∷ "db-migrate" ∷ "db-contract" ∷ []

module _ {W V M E C : Type 0} (env : Env W V M E C) where
  abbrev pub upgrade_job_name : Keystone W → String → String
  upgrade_job_name k suffix = concat (k.name ∷ "-" ∷ suffix ∷ [])

  abbrev delete_failed : Error → Bool
  delete_failed e = not (is_not_found e)

  -- The loop of deleteUpgradeJobs, which ends at the first error that is not NotFound.
  unfoldable pub delete_jobs : Keystone W → List String → W → W × Option Error
  delete_jobs k [] w = (w, none)
  delete_jobs k (suffix ∷ suffixes) w =
      let (w', failure) = env.jobs.delete w k.namespace (upgrade_job_name k suffix) in
      let rest = delete_jobs k suffixes w' in
      elim failure [
        | none ↦ rest
        | some e ↦
            if is_not_found e
            then rest
            else (w', some (wrap (concat ("deleting " ∷ upgrade_job_name k suffix ∷ ": " ∷ [])) e))
      ]

  -- deleteUpgradeJobs.
  abbrev pub delete_upgrade_jobs : Keystone W → W × Option Error
  delete_upgrade_jobs k = delete_jobs k upgrade_job_suffixes k.flow.cluster

  abbrev abort_message : Keystone W → String
  abort_message k = concat (
      "Upgrade " ∷ k.installed_release ∷ " → " ∷ k.target_release
      ∷ " aborted: spec.image.tag reverted to installed release " ∷ k.installed_release ∷ [])

  abbrev pub after_deletes : Keystone W → W × Option Error → Keystone W × Outcome
  after_deletes k (w, some e) =
      (with_flow k (with_cluster w k.flow), fails (wrap "deleting upgrade jobs during abort: " e))
  after_deletes k (w, none) = (
    emit_event normal "UpgradeAborted" (abort_message k)
        (record k { flow = with_cluster w k.flow; upgrade_phase = no_phase; target_release = "" }),
    returns requeue_now,
  )

  -- abortUpgrade.
  unfoldable pub abort_upgrade : Keystone W → Keystone W × Outcome
  abort_upgrade k = after_deletes k (delete_upgrade_jobs k)

  abbrev pub target_changed : Keystone W → Keystone W × Outcome
  target_changed k =
      let prefix = concat (
        "Image tag changed to " ∷ k.tag ∷ " during active upgrade " ∷ k.installed_release ∷ " → "
        ∷ k.target_release ∷ []) in
      (
        emit_event warning "UpgradeTargetChanged" prefix (
            database_not_ready env.meta "UpgradeTargetChanged"
              (concat (prefix ∷ "; complete or roll back the current upgrade first" ∷ [])) k),
        fails (
            plain (
              concat (
                "image tag changed during active upgrade: current upgrade targets "
                ∷ k.target_release ∷ " but spec.image.tag is " ∷ k.tag ∷ []))),
      )

  abbrev pub is_active : UpgradePhase → Bool
  is_active no_phase = false
  is_active expanding = true
  is_active migrating = true
  is_active rolling_update = true
  is_active contracting = true
  is_active (unknown_phase s) = true

  abbrev pub provision_params : Keystone W → ProvisionFlowParams
  provision_params k = record {
    instance_name = k.name;
    namespace = k.namespace;
    labels = [];
    database = k.database;
    generation = k.generation;
    condition_type = "DatabaseReady";
    requeue_after = requeue_database_wait;
  }

  module _ (inputs : JobInputs V M E) where
    abbrev pub sync_params : Keystone W → SyncFlowParams V M E
    sync_params k = record {
      jobs = keystone_job_set_params k inputs;
      has_recorder = true;
      generation = k.generation;
      condition_type = "DatabaseReady";
      requeue_after = requeue_database_wait;
      tracks_release = true;
      image_tag = k.tag;
    }

    abbrev pub keep_flow : Keystone W → Flow W × Outcome → Keystone W × Outcome
    keep_flow k (f, o) = (with_flow k f, o)

    unfoldable pub sync : Keystone W → Keystone W × Outcome
    sync k = keep_flow k (
        reconcile_sync_jobs env.meta env.jobs env.restricted
          (record_db_job_terminal_state env.patch) (sync_params k) k.flow)

    -- The steps behind a complete provisioning.
    unfoldable pub provisioned : Keystone W → Keystone W × Outcome
    provisioned k =
        if is_active k.upgrade_phase
        then if str_eq k.tag k.installed_release
          then abort_upgrade k
          else if not (str_eq k.tag k.target_release)
          then target_changed k
          else reconcile_upgrade env inputs k
        else if is_upgrade k
        then initiate_upgrade env.meta k
        else sync k

    abbrev pub after_provision : Keystone W → Flow W × Outcome → Keystone W × Outcome
    after_provision k (f, o) = if stops o then (with_flow k f, o) else provisioned (with_flow k f)

    -- reconcileDatabase.
    unfoldable pub reconcile_database : Keystone W → Keystone W × Outcome
    reconcile_database k =
        after_provision k (reconcile_provision env.meta env.mariadb (provision_params k) k.flow)
