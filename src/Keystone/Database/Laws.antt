-- ===== src/Keystone/Database/Laws.antt =====
-- operators/keystone/internal/controller/reconcile_database.go: a pass of reconcileDatabase as a
-- move of an upgrade.
use c5c3_forge.Prelude.{
  ◌≡◌, ◌≢◌, refl, ap, subst, ◌⊎◌, inl, inr, true, false, String, Option, none, some, arith,
  Bool-cases, str_eq, str_eq-cases,
}
use c5c3_forge.Kube.Error.{Error}
use c5c3_forge.Kube.Outcome.{Outcome, stops}
use c5c3_forge.Database.Flow.{Flow}
use c5c3_forge.Database.Provision.{reconcile_provision}
use c5c3_forge.Database.Provision.Gate.{installed-reconcile_provision}
use c5c3_forge.Database.Sync.Promotion.{Records, reconcile_sync_jobs-Records}
use c5c3_forge.Keystone.State.{
  UpgradePhase, no_phase, expanding, migrating, rolling_update, contracting, unknown_phase,
  Keystone, Env, JobInputs, with_flow, record_db_job_terminal_state,
}
use c5c3_forge.Keystone.Upgrade.{is_upgrade}
use c5c3_forge.Keystone.Upgrade.Phases.{
  View, view, Move, stays, aborts, syncs, reconcile_upgrade-Move,
  installed-record_db_job_terminal_state,
}
use c5c3_forge.Keystone.Upgrade.Starting.{initiate_upgrade-Move, is_upgrade-Minor}
use c5c3_forge.Keystone.Database.{
  provisioned, sync, reconcile_database, abort_upgrade, after_deletes, delete_upgrade_jobs,
  is_active, after_provision, provision_params, sync_params,
}

Move-from : {tag : String} {v v' w : View} → v ≡ v' → Move tag v w → Move tag v' w
Move-from {tag} {v} {v'} {w} e = subst (λ x. Move tag x w) e

module _ {W V M E C : Type 0} (env : Env W V M E C) (inputs : JobInputs V M E) where
  -- A sync pass may record the tag of the spec.
  RecordedRelease : Keystone W → String → Type 0
  RecordedRelease k r = (r ≡ k.flow.installed_release) ⊎ ((k.tag ≢ "") × (r ≡ k.tag))

  installed-sync : (k : Keystone W) → RecordedRelease k (sync env inputs k).0.flow.installed_release
  unfolding RecordedRelease sync Records
  installed-sync k =
      reconcile_sync_jobs-Records env.meta env.jobs env.restricted
        (record_db_job_terminal_state env.patch) (sync_params env inputs k)
        (installed-record_db_job_terminal_state env.patch) k.flow

  is_active-no_phase : (p : UpgradePhase) → is_active env p ≡ false → p ≡ no_phase
  is_active-no_phase no_phase h = refl
  is_active-no_phase expanding h = absurd (ground (arith, h))
  is_active-no_phase migrating h = absurd (ground (arith, h))
  is_active-no_phase rolling_update h = absurd (ground (arith, h))
  is_active-no_phase contracting h = absurd (ground (arith, h))
  is_active-no_phase (unknown_phase s) h = absurd (ground (arith, h))

  not-is_active-no_phase : (p : UpgradePhase) → is_active env p ≡ true → p ≢ no_phase
  not-is_active-no_phase p h e = ground (arith, ap (is_active env) e)

  after_deletes-Move :
      (k : Keystone W)
      → k.upgrade_phase ≢ no_phase
      → k.tag ≡ k.flow.installed_release
      → (r : W × Option Error) → Move k.tag (view k) (view (after_deletes env k r).0)
  after_deletes-Move k active e (w, none) = aborts active e refl
  after_deletes-Move k active e (w, some x) = stays refl

  recorded-Move :
      (k : Keystone W)
      → k.upgrade_phase ≡ no_phase
      → is_upgrade k ≡ false
      → (r : String) → RecordedRelease k r
      → Move k.tag
          (view k)
          (record { installed = r; target = k.target_release; phase = k.upgrade_phase })
  unfolding RecordedRelease
  recorded-Move k idle same r (inl e) = rw e (stays refl)
  recorded-Move k idle same r (inr (ne, e)) = rw e (syncs idle ne (is_upgrade-Minor k ne same) refl)

  provisioned-Move : (k : Keystone W) → Move k.tag (view k) (view (provisioned env inputs k).0)
  unfolding provisioned abort_upgrade sync
  provisioned-Move k = elim (Bool-cases (is_active env k.upgrade_phase)) [
    | inl a ↦ elim (str_eq-cases k.tag k.flow.installed_release) [
      | inl (b, e) ↦
          rw (a, b)
            (after_deletes-Move k (not-is_active-no_phase k.upgrade_phase a) e
              (delete_upgrade_jobs env k))
      | inr (b, _) ↦ elim (Bool-cases (str_eq k.tag k.target_release)) [
        | inl t ↦ rw (a, b, t) (reconcile_upgrade-Move env inputs k)
        | inr t ↦ rw (a, b, t) (stays refl)
      ]
    ]
    | inr a ↦
        let idle = is_active-no_phase k.upgrade_phase a in
        elim (Bool-cases (is_upgrade k)) [
          | inl u ↦ rw (a, u) (initiate_upgrade-Move env.meta k idle)
          | inr u ↦ rw (a, u) (recorded-Move k idle u _ (installed-sync k))
        ]
  ]

  after_provision-Move :
      (k : Keystone W) (r : Flow W × Outcome)
      → r.0.installed_release ≡ k.flow.installed_release
      → Move k.tag (view k) (view (after_provision env inputs k r).0)
  after_provision-Move k (f, o) e =
      let same : view (with_flow k f) ≡ view k =
        ap (λ i. record { installed = i; target = k.target_release; phase = k.upgrade_phase }) e in
      elim (Bool-cases (stops o)) [
        | inl s ↦ rw s (stays same)
        | inr s ↦ rw s (Move-from same (provisioned-Move (with_flow k f)))
      ]

  -- One pass of reconcileDatabase makes at most one move of the upgrade: it leaves installed
  -- release, target and phase as they are, or starts an upgrade from a release to the next one,
  -- or goes to the next phase, or completes the upgrade, or aborts it because the tag of the spec
  -- is the installed one again, or, with no upgrade active, records a tag that is no upgrade.
  pub reconcile_database-Move :
      (k : Keystone W) → Move k.tag (view k) (view (reconcile_database env inputs k).0)
  unfolding reconcile_database
  reconcile_database-Move k =
      after_provision-Move k
        (reconcile_provision env.meta env.mariadb (provision_params env k) k.flow)
        (installed-reconcile_provision env.meta env.mariadb (provision_params env k) k.flow)
