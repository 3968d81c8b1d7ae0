-- ===== src/Keystone/Upgrade/Phases.antt =====
-- operators/keystone/internal/controller/reconcile_upgrade.go: the moves of an upgrade, and the
-- handlers of the phases as moves.
use c5c3_forge.Prelude.{◌≡◌, ◌≢◌, refl, ap, inl, inr, String, Option, Bool-cases, Option-cases}
use c5c3_forge.Release.Transition.{Sequential, Minor}
use c5c3_forge.Job.{Job, run_job}
use c5c3_forge.Job.Terminal.{OwnerPatch, Recorded, record_job_terminal_state}
use c5c3_forge.Database.Flow.{Flow, with_cluster}
use c5c3_forge.Keystone.State.{
  UpgradePhase, no_phase, expanding, migrating, rolling_update, contracting, unknown_phase,
  Keystone, Env, JobInputs, with_flow, record_db_job_terminal_state, store_recorded,
}
use c5c3_forge.Keystone.Upgrade.{
  complete_expand, complete_migrate, complete_contract, reconcile_rolling_update, UpgradePhaseStep,
  run_upgrade_phase, dispatch, reconcile_upgrade, expand_step, migrate_step, contract_step,
  set_upgrade_phase_running, set_upgrade_job_failed,
}

-- What an upgrade is about: the installed release, the target, and the phase.
pub record View : Type 0 where
  pub installed : String
  pub target : String
  pub phase : UpgradePhase

abbrev pub view : {W : Type 0} → Keystone W → View
view k = record {
  installed = k.flow.installed_release;
  target = k.target_release;
  phase = k.upgrade_phase;
}

-- The phases in their order.
pub data Next : UpgradePhase → UpgradePhase → Type 0 where
  expanded : Next expanding migrating
  migrated : Next migrating rolling_update
  rolled_out : Next rolling_update contracting

abbrev pub move_to : UpgradePhase → View → View
move_to p v = record v { phase = p }

abbrev pub completed : View → View
completed v = record { installed = v.target; target = ""; phase = no_phase }

-- The moves, at the tag of the spec.
pub data Move (tag : String) (v w : View) : Type 0 where
  stays : w ≡ v → Move tag v w
  starts :
      v.phase ≡ no_phase
      → Sequential v.installed tag
      → w ≡ record { installed = v.installed; target = tag; phase = expanding }
      → Move tag v w
  advances : (p : UpgradePhase) → Next v.phase p → w ≡ record v { phase = p } → Move tag v w
  completes :
      v.phase ≡ contracting
      → w ≡ record { installed = v.target; target = ""; phase = no_phase }
      → Move tag v w
  aborts :
      v.phase ≢ no_phase
      → tag ≡ v.installed
      → w ≡ record { installed = v.installed; target = ""; phase = no_phase }
      → Move tag v w
  syncs :
      v.phase ≡ no_phase
      → tag ≢ ""
      → Minor v.installed tag
      → w ≡ record v { installed = tag }
      → Move tag v w

module _ {W : Type 0} where
  installed-store_recorded :
      (suffix : String) (f : Flow W) (r : Recorded W)
      → (store_recorded suffix f r).installed_release ≡ f.installed_release
  installed-store_recorded suffix f r = elim (Option-cases r.deferred) [
    | inl e ↦ rw e refl
    | inr (x, e) ↦ rw e refl
  ]

module _ {W T : Type 0} (patch : OwnerPatch W) where
  pub installed-record_db_job_terminal_state :
      (suffix : String) (observed : Option (Job T)) (f : Flow W)
      → (record_db_job_terminal_state patch suffix observed f).installed_release
        ≡ f.installed_release
  unfolding record_db_job_terminal_state
  installed-record_db_job_terminal_state suffix observed f =
      installed-store_recorded suffix f
        (record_job_terminal_state patch suffix f.owner observed f.cluster)

module _ {W V M E C : Type 0} (env : Env W V M E C) (inputs : JobInputs V M E) where
  -- A phase handler leaves the view alone, or completes the phase.
  run_upgrade_phase_cases :
      (P : View → Type 0) (step : UpgradePhaseStep W V M E C) (k : Keystone W)
      → P (view k)
      → ((k' : Keystone W) → view k' ≡ view k → P (view (step.on_complete k').0))
      → P (view (run_upgrade_phase env inputs step k).0)
  unfolding run_upgrade_phase set_upgrade_phase_running set_upgrade_job_failed
  run_upgrade_phase_cases P step k stay complete =
      let phase_job = step.build_job k inputs k.tag in
      let (w, a) = run_job env.jobs k.flow.cluster phase_job in
      let f =
        record_db_job_terminal_state env.patch step.job_suffix a.observed (with_cluster w k.flow) in
      let same : view (with_flow k f) ≡ view k =
        ap (λ i. record { installed = i; target = k.target_release; phase = k.upgrade_phase })
          (installed-record_db_job_terminal_state env.patch step.job_suffix a.observed
            (with_cluster w k.flow)) in
      elim (Option-cases a.error) [
        | inr (x, e) ↦ rw (e, same) stay
        | inl e ↦ elim (Bool-cases a.done) [
          | inl d ↦ rw (e, d) (complete (with_flow k f) same)
          | inr d ↦ rw (e, d, same) stay
        ]
      ]

  dispatch-Move :
      (p : UpgradePhase) (k : Keystone W)
      → k.upgrade_phase ≡ p
      → Move k.tag (view k) (view (dispatch env inputs p k).0)
  unfolding complete_expand complete_migrate complete_contract reconcile_rolling_update
  dispatch-Move no_phase k e = stays refl
  dispatch-Move (unknown_phase s) k e = stays refl
  dispatch-Move rolling_update k e = stays refl
  dispatch-Move expanding k e =
      run_upgrade_phase_cases (Move k.tag (view k)) (expand_step env inputs) k (stays refl)
        (λ k' same. advances migrating (rw e expanded) (ap (move_to migrating) same))
  dispatch-Move migrating k e =
      run_upgrade_phase_cases (Move k.tag (view k)) (migrate_step env inputs) k (stays refl)
        (λ k' same. advances rolling_update (rw e migrated) (ap (move_to rolling_update) same))
  dispatch-Move contracting k e =
      run_upgrade_phase_cases (Move k.tag (view k)) (contract_step env inputs) k (stays refl)
        (λ k' same. completes e (ap completed same))

  -- A pass of reconcileUpgrade stays, or makes the one move that its phase has.
  pub reconcile_upgrade-Move :
      (k : Keystone W) → Move k.tag (view k) (view (reconcile_upgrade env inputs k).0)
  unfolding reconcile_upgrade
  reconcile_upgrade-Move k = dispatch-Move k.upgrade_phase k refl
