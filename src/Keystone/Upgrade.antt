-- ===== src/Keystone/Upgrade.antt =====
-- operators/keystone/internal/controller/reconcile_upgrade.go: the phases of an upgrade.
pub mod Phases
pub mod Starting
pub mod Progress
use c5c3_forge.Prelude.{
  ℕ, Bool, true, false, not, List, [], ◌∷◌, String, Option, none, some, str_eq, if◌then◌else◌,
}
use c5c3_forge.Kube.Text.{concat, quote}
use c5c3_forge.Kube.Error.{Error, Answer, ok, err, message, plain, wrap}
use c5c3_forge.Kube.Condition.{ConditionMeta, Status, status_true, status_false}
use c5c3_forge.Kube.Outcome.{Outcome, done, returns, fails, requeue_in, requeue_now}
use c5c3_forge.Release.{Release, parse_release, is_sequential_upgrade, is_downgrade, is_patch_only}
use c5c3_forge.Job.{Job, JobAnswer, run_job}
use c5c3_forge.Job.Migration.{PodTemplate}
use c5c3_forge.Database.Flow.{EventType, normal, warning, with_cluster}
use c5c3_forge.Keystone.State.{
  UpgradePhase, no_phase, expanding, migrating, rolling_update, contracting, unknown_phase,
  Keystone, Env, JobInputs, requeue_upgrade_wait, set_keystone_condition, emit_event, with_flow,
  record_db_job_terminal_state,
}
use c5c3_forge.Keystone.Jobs.{build_expand_job, build_migrate_job, build_contract_job}

abbrev pub patch_differs : Answer Release → Answer Release → Bool
patch_differs (err e) to = true
patch_differs (ok from) (err e) = true
patch_differs (ok from) (ok to) = not (is_patch_only from to)

-- isUpgrade.
unfoldable pub is_upgrade : {W : Type 0} → Keystone W → Bool
is_upgrade k =
    if str_eq k.tag ""
    then false
    else if str_eq k.installed_release ""
    then false
    else if str_eq k.tag k.installed_release
    then false
    else patch_differs (parse_release k.installed_release) (parse_release k.tag)

-- "installed → target", as in the messages.
abbrev arrow : String → String → String
arrow from to = concat (from ∷ " → " ∷ to ∷ [])

module _ {W : Type 0} (m : ConditionMeta) where
  abbrev pub database_not_ready : String → String → Keystone W → Keystone W
  database_not_ready reason msg = set_keystone_condition m "DatabaseReady" status_false reason msg

  -- The condition, the Warning event and the error of a refused upgrade.
  abbrev pub refuse : String → String → String → Error → Keystone W → Keystone W × Outcome
  refuse reason msg event e k =
      (emit_event warning reason event (database_not_ready reason msg k), fails e)

  abbrev pub unparsed : String → String → Error → Keystone W → Keystone W × Outcome
  unparsed which tag e k =
      refuse "VersionParseError"
        (concat ("failed to parse " ∷ which ∷ " release " ∷ quote tag ∷ ": " ∷ message e ∷ []))
        (concat ("Failed to parse " ∷ which ∷ " release " ∷ quote tag ∷ ": " ∷ message e ∷ []))
        (wrap (concat ("parse " ∷ which ∷ " release " ∷ quote tag ∷ ": " ∷ [])) e) k

  abbrev pub start_expanding : Release → Release → Keystone W → Keystone W
  start_expanding from to k =
      emit_event normal "UpgradeInitiated"
        (concat ("Upgrade initiated: " ∷ arrow from.raw to.raw ∷ []))
        (database_not_ready "ExpandInProgress"
          (concat ("Upgrade detected: " ∷ arrow from.raw to.raw ∷ " (phase: Expanding)" ∷ []))
          (record k { target_release = k.tag; upgrade_phase = expanding }))

  abbrev pub refuse_downgrade : Release → Release → Keystone W → Keystone W × Outcome
  refuse_downgrade from to k =
      let msg =
        concat ("downgrade from " ∷ from.raw ∷ " to " ∷ to.raw ∷ " is not supported" ∷ []) in
      refuse "DowngradeNotSupported" msg
        (concat ("Downgrade from " ∷ from.raw ∷ " to " ∷ to.raw ∷ " is not supported" ∷ []))
        (plain msg) k

  abbrev pub refuse_path : Release → Release → Keystone W → Keystone W × Outcome
  refuse_path from to k =
      let msg = concat (
        "upgrade from " ∷ from.raw ∷ " to " ∷ to.raw
        ∷ " is not sequential; only sequential upgrades are supported" ∷ []) in
      refuse "UpgradePathInvalid" msg
        (concat ("Upgrade from " ∷ from.raw ∷ " to " ∷ to.raw ∷ " is not sequential" ∷ []))
        (plain msg) k

  abbrev pub by_path : Release → Release → Keystone W → Keystone W × Outcome
  by_path from to k =
      if is_downgrade from to
      then refuse_downgrade from to k
      else if not (is_sequential_upgrade from to)
      then refuse_path from to k
      else (start_expanding from to k, returns requeue_now)

  abbrev pub by_target : Release → Answer Release → Keystone W → Keystone W × Outcome
  by_target from (err e) k = unparsed "target" k.tag e k
  by_target from (ok to) k = by_path from to k

  abbrev pub by_installed : Answer Release → Keystone W → Keystone W × Outcome
  by_installed (err e) k = unparsed "installed" k.installed_release e k
  by_installed (ok from) k = by_target from (parse_release k.tag) k

  -- initiateUpgrade.
  unfoldable pub initiate_upgrade : Keystone W → Keystone W × Outcome
  initiate_upgrade k = by_installed (parse_release k.installed_release) k

  -- setUpgradePhaseRunning and setUpgradeJobFailed.
  unfoldable pub set_upgrade_phase_running : String → Keystone W → Keystone W
  set_upgrade_phase_running phase k =
      database_not_ready (concat (phase ∷ "InProgress" ∷ []))
        (concat (phase ∷ " phase running: " ∷ arrow k.installed_release k.target_release ∷ [])) k

  unfoldable pub set_upgrade_job_failed : String → String → Error → Keystone W → Keystone W
  set_upgrade_job_failed phase job_name e k =
      database_not_ready (concat (phase ∷ "Failed" ∷ []))
        (concat (phase ∷ " job " ∷ job_name ∷ " failed: " ∷ message e ∷ [])) k

  -- completeExpand, completeMigrate and completeContract.
  unfoldable pub complete_expand : Keystone W → Keystone W × Outcome
  complete_expand k =
      let path = arrow k.installed_release k.target_release in
      (
        emit_event normal "ExpandComplete" (concat ("Expand phase complete: " ∷ path ∷ [])) (
            database_not_ready "MigrateInProgress"
              (concat ("Expand complete, starting migrate: " ∷ path ∷ []))
              (record k { upgrade_phase = migrating })),
        returns requeue_now,
      )

  unfoldable pub complete_migrate : Keystone W → Keystone W × Outcome
  complete_migrate k =
      let path = arrow k.installed_release k.target_release in
      (
        emit_event normal "MigrateComplete" (concat ("Migrate phase complete: " ∷ path ∷ [])) (
            database_not_ready "UpgradeRollingUpdate"
              (concat ("Migrate complete, waiting for Deployment rollout: " ∷ path ∷ []))
              (record k { upgrade_phase = rolling_update })),
        returns requeue_now,
      )

  unfoldable pub complete_contract : Keystone W → Keystone W × Outcome
  complete_contract k =
      let path = arrow k.installed_release k.target_release in
      (
        emit_event normal "UpgradeComplete" (concat ("Upgrade complete: " ∷ path ∷ [])) (
            set_keystone_condition m "DatabaseReady" status_true "DatabaseSynced"
              (concat ("Database schema is up to date (upgraded " ∷ path ∷ ")" ∷ []))
              (record k {
                flow = record (k.flow) { installed_release = k.target_release };
                target_release = "";
                upgrade_phase = no_phase;
              })),
        done,
      )

  -- reconcileRollingUpdate.
  unfoldable pub reconcile_rolling_update : Keystone W → Keystone W × Outcome
  reconcile_rolling_update k = (
    database_not_ready "UpgradeRollingUpdate"
        (concat
          ("Waiting for Deployment rollout: " ∷ arrow k.installed_release k.target_release ∷ []))
        k,
    done,
  )

-- upgradePhaseStep. `lower_name` is strings.ToLower of the name.
pub record UpgradePhaseStep (W V M E C : Type 0) : Type 0 where
  pub name : String
  pub lower_name : String
  pub job_suffix : String
  pub build_job : Keystone W → JobInputs V M E → String → Job (PodTemplate V M E C)
  pub fail_reason : String
  pub on_complete : Keystone W → Keystone W × Outcome

module _ {W V M E C : Type 0} (env : Env W V M E C) (inputs : JobInputs V M E) where
  abbrev pub phase_fails :
      UpgradePhaseStep W V M E C → String → Error → Keystone W → Keystone W × Outcome
  phase_fails step job_name e k = (
    emit_event warning step.fail_reason
        (concat (step.name ∷ " job " ∷ job_name ∷ " failed: " ∷ message e ∷ []))
        (set_upgrade_job_failed env.meta step.name job_name e k),
    fails (wrap (concat ("running " ∷ step.lower_name ∷ " job: " ∷ [])) e),
  )

  abbrev pub after_phase_job :
      UpgradePhaseStep W V M E C
      → String
      → Keystone W
      → W × JobAnswer (PodTemplate V M E C)
      → Keystone W × Outcome
  after_phase_job step job_name k (w, a) =
      let k' = with_flow k (
        record_db_job_terminal_state env.patch step.job_suffix a.observed
          (with_cluster w k.flow)) in
      elim a.error [
        | some e ↦ phase_fails step job_name e k'
        | none ↦
            if not a.done
            then (
              set_upgrade_phase_running env.meta step.name k',
              returns (requeue_in requeue_upgrade_wait),
            )
            else step.on_complete k'
      ]

  -- runUpgradePhase: the Job runs with the image tag of the spec.
  unfoldable pub run_upgrade_phase : UpgradePhaseStep W V M E C → Keystone W → Keystone W × Outcome
  run_upgrade_phase step k =
      let phase_job = step.build_job k inputs k.tag in
      after_phase_job step phase_job.name k (run_job env.jobs k.flow.cluster phase_job)

  abbrev pub expand_step : UpgradePhaseStep W V M E C
  expand_step = record {
    name = "Expand";
    lower_name = "expand";
    job_suffix = "db-expand";
    build_job = build_expand_job env.restricted;
    fail_reason = "ExpandFailed";
    on_complete = complete_expand env.meta;
  }

  abbrev pub migrate_step : UpgradePhaseStep W V M E C
  migrate_step = record {
    name = "Migrate";
    lower_name = "migrate";
    job_suffix = "db-migrate";
    build_job = build_migrate_job env.restricted;
    fail_reason = "MigrateFailed";
    on_complete = complete_migrate env.meta;
  }

  abbrev pub contract_step : UpgradePhaseStep W V M E C
  contract_step = record {
    name = "Contract";
    lower_name = "contract";
    job_suffix = "db-contract";
    build_job = build_contract_job env.restricted;
    fail_reason = "ContractFailed";
    on_complete = complete_contract env.meta;
  }

  abbrev phase_text : UpgradePhase → String
  phase_text no_phase = ""
  phase_text expanding = "Expanding"
  phase_text migrating = "Migrating"
  phase_text rolling_update = "RollingUpdate"
  phase_text contracting = "Contracting"
  phase_text (unknown_phase s) = s

  abbrev pub dispatch : UpgradePhase → Keystone W → Keystone W × Outcome
  dispatch expanding k = run_upgrade_phase expand_step k
  dispatch migrating k = run_upgrade_phase migrate_step k
  dispatch rolling_update k = reconcile_rolling_update env.meta k
  dispatch contracting k = run_upgrade_phase contract_step k
  dispatch phase k =
      (k, fails (plain (concat ("unknown upgrade phase " ∷ quote (phase_text phase) ∷ []))))

  -- reconcileUpgrade.
  unfoldable pub reconcile_upgrade : Keystone W → Keystone W × Outcome
  reconcile_upgrade k = dispatch k.upgrade_phase k
