-- ===== src/Keystone/Upgrade/Progress.antt =====
-- operators/keystone/internal/controller/reconcile_upgrade.go: the phases and their Jobs.
use c5c3_forge.Prelude.{◌≡◌, refl, ap, ◌∙◌, inl, inr, Option-cases}
use c5c3_forge.Job.{Job, run_job}
use c5c3_forge.Job.Finish.{IsFinished, finished_answer, unfinished_answer}
use c5c3_forge.Job.Migration.{PodTemplate}
use c5c3_forge.Database.Flow.{with_cluster}
use c5c3_forge.Keystone.State.{
  UpgradePhase, no_phase, expanding, migrating, rolling_update, contracting, unknown_phase,
  Keystone, Env, JobInputs, with_flow, record_db_job_terminal_state,
}
use c5c3_forge.Keystone.Jobs.{build_expand_job, build_migrate_job, build_contract_job}
use c5c3_forge.Keystone.Upgrade.{
  UpgradePhaseStep, run_upgrade_phase, reconcile_upgrade, dispatch, expand_step, migrate_step,
  contract_step, complete_expand, complete_migrate, complete_contract, set_upgrade_phase_running,
  set_upgrade_job_failed,
}
use c5c3_forge.Keystone.Upgrade.Phases.{
  View, view, move_to, completed, installed-record_db_job_terminal_state,
}

module _ {W V M E C : Type 0} (env : Env W V M E C) (inputs : JobInputs V M E) where
  -- The Job of a phase, where it has one.
  pub data PhaseJob (k : Keystone W)
      : UpgradePhase → Job (PodTemplate V M E C) → (View → View) → Type 0 where
    expand_job :
        PhaseJob k expanding (build_expand_job env.restricted k inputs k.tag) (move_to migrating)
    migrate_job :
        PhaseJob k migrating
          (build_migrate_job env.restricted k inputs k.tag)
          (move_to rolling_update)
    contract_job :
        PhaseJob k contracting (build_contract_job env.restricted k inputs k.tag) completed

  module _ (step : UpgradePhaseStep W V M E C) (k : Keystone W) where
    abbrev phase_job : Job (PodTemplate V M E C)
    phase_job = step.build_job k inputs k.tag

    -- The CR behind the Job's record.
    abbrev recorded : Keystone W
    recorded =
        let (w, a) = run_job env.jobs k.flow.cluster phase_job in
        with_flow k (
          record_db_job_terminal_state env.patch step.job_suffix a.observed (with_cluster w k.flow))

    view-recorded : view recorded ≡ view k
    view-recorded =
        let (w, a) = run_job env.jobs k.flow.cluster phase_job in
        ap (λ i. record { installed = i; target = k.target_release; phase = k.upgrade_phase })
          (installed-record_db_job_terminal_state env.patch step.job_suffix a.observed
            (with_cluster w k.flow))

    run_upgrade_phase_finished :
        IsFinished env.jobs k.flow.cluster phase_job
        → run_upgrade_phase env inputs step k ≡ step.on_complete recorded
    unfolding run_upgrade_phase
    run_upgrade_phase_finished f =
        let (done, none_failed) = finished_answer env.jobs k.flow.cluster phase_job f in
        rw (none_failed, done) refl

    run_upgrade_phase_unfinished :
        ¬ IsFinished env.jobs k.flow.cluster phase_job
        → view (run_upgrade_phase env inputs step k).0 ≡ view k
    unfolding run_upgrade_phase set_upgrade_phase_running set_upgrade_job_failed
    run_upgrade_phase_unfinished n =
        let done = unfinished_answer env.jobs k.flow.cluster phase_job n in
        elim (Option-cases (run_job env.jobs k.flow.cluster phase_job).1.error) [
          | inl e ↦ rw (e, done) view-recorded
          | inr (x, e) ↦ rw e view-recorded
        ]

  dispatch_ends :
      (p : UpgradePhase) (k : Keystone W) (job : Job (PodTemplate V M E C)) (next : View → View)
      → PhaseJob k p job next
      → (IsFinished env.jobs k.flow.cluster job → view (dispatch env inputs p k).0 ≡ next (view k))
        × (¬ IsFinished env.jobs k.flow.cluster job → view (dispatch env inputs p k).0 ≡ view k)
  unfolding complete_expand complete_migrate complete_contract
  dispatch_ends expanding k job next expand_job = (
    λ f.
        ap (λ r. view r.0) (run_upgrade_phase_finished (expand_step env inputs) k f)
        ∙ ap (move_to migrating) (view-recorded (expand_step env inputs) k),
    run_upgrade_phase_unfinished (expand_step env inputs) k,
  )
  dispatch_ends migrating k job next migrate_job = (
    λ f.
        ap (λ r. view r.0) (run_upgrade_phase_finished (migrate_step env inputs) k f)
        ∙ ap (move_to rolling_update) (view-recorded (migrate_step env inputs) k),
    run_upgrade_phase_unfinished (migrate_step env inputs) k,
  )
  dispatch_ends contracting k job next contract_job = (
    λ f.
        ap (λ r. view r.0) (run_upgrade_phase_finished (contract_step env inputs) k f)
        ∙ ap completed (view-recorded (contract_step env inputs) k),
    run_upgrade_phase_unfinished (contract_step env inputs) k,
  )
  dispatch_ends no_phase k job next h = elim h [ ]
  dispatch_ends rolling_update k job next h = elim h [ ]
  dispatch_ends (unknown_phase _) k job next h = elim h [ ]

  -- A pass of reconcileUpgrade ends the phase Expanding, Migrating or Contracting when the Job of
  -- the phase, built for the tag of the spec, has completed under its current re-run key.
  pub reconcile_upgrade_ends :
      (k : Keystone W) (job : Job (PodTemplate V M E C)) (next : View → View)
      → PhaseJob k k.upgrade_phase job next
      → IsFinished env.jobs k.flow.cluster job
      → view (reconcile_upgrade env inputs k).0 ≡ next (view k)
  unfolding reconcile_upgrade
  reconcile_upgrade_ends k job next h = (dispatch_ends k.upgrade_phase k job next h).0

  -- While that Job has not completed under its current re-run key, a pass of reconcileUpgrade
  -- leaves installed release, target and phase as they are.
  pub reconcile_upgrade_waits :
      (k : Keystone W) (job : Job (PodTemplate V M E C)) (next : View → View)
      → PhaseJob k k.upgrade_phase job next
      → ¬ IsFinished env.jobs k.flow.cluster job
      → view (reconcile_upgrade env inputs k).0 ≡ view k
  unfolding reconcile_upgrade
  reconcile_upgrade_waits k job next h = (dispatch_ends k.upgrade_phase k job next h).1
