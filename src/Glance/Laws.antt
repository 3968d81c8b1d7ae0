-- ===== src/Glance/Laws.antt =====
-- operators/glance/internal/controller/reconcile_database.go: the release that a pass records.
use c5c3_forge.Prelude.{
  Option-cases, true, ap, ◌∙◌, ◌≡◌, ◌≢◌, refl, sym, subst, ◌⊎◌, inl, inr, String, Option, none,
  some, Bool-cases, str_eq-cases,
}
use c5c3_forge.Kube.Error.{Answer, ok, err}
use c5c3_forge.Kube.Outcome.{Outcome, stops}
use c5c3_forge.Release.{Release, parse_release, is_sequential_upgrade, is_downgrade, is_patch_only}
use c5c3_forge.Release.Transition.{Sequential, Minor, first, same_tag, patched}
use c5c3_forge.Database.Flow.{Flow}
use c5c3_forge.Database.Provision.{reconcile_provision}
use c5c3_forge.Database.Provision.Gate.{installed-reconcile_provision}
use c5c3_forge.Database.Sync.Promotion.{Records, reconcile_sync_jobs-Records}
use c5c3_forge.Keystone.State.{Env, record_db_job_terminal_state}
use c5c3_forge.Keystone.Upgrade.Phases.{installed-record_db_job_terminal_state}
use c5c3_forge.Glance.{
  Glance, release_problem, transition_problem, glance_sync_params, by_config, by_transition,
  after_glance_provision, reconcile_glance_database, glance_provision_params,
}

-- The two tags are one release of the line, or the second is the next one.
abbrev pub IsAllowed : String → String → Type 0
IsAllowed from to = Minor from to ⊎ Sequential from to

-- The release is kept, or it becomes the one of the spec, which may follow it.
pub data Tracks (from to : String) (r : String) : Type 0 where
  kept : r ≡ from → Tracks from to r
  recorded : IsAllowed from to → to ≢ "" → r ≡ to → Tracks from to r

module _ {W V M E C : Type 0} (env : Env W V M E C) where
  release_problem-IsAllowed :
      (from to : String) (a b : Answer Release)
      → parse_release from ≡ a
      → parse_release to ≡ b
      → release_problem env from to a b ≡ none
      → IsAllowed from to
  release_problem-IsAllowed from to (err e) b p q h = cc h
  release_problem-IsAllowed from to (ok a) (err e) p q h = cc h
  release_problem-IsAllowed from to (ok a) (ok b) p q h = elim (Bool-cases (is_patch_only a b)) [
    | inl x ↦ inl (patched a b p q x)
    | inr x ↦ elim (Bool-cases (is_sequential_upgrade a b)) [
      | inl y ↦
          inr
            (record { from_release = a; to_release = b; from_parsed = p; to_parsed = q; next = y })
      | inr y ↦ elim (Bool-cases (is_downgrade a b)) [
        | inl z ↦ cc (rw z at h)
        | inr z ↦ cc (rw (z, x, y) at h)
      ]
    ]
  ]

  transition_problem-IsAllowed :
      (from to : String) → transition_problem env from to ≡ none → IsAllowed from to
  unfolding transition_problem
  transition_problem-IsAllowed from to h = elim (str_eq-cases from "") [
    | inl (_, e) ↦ inl (first e)
    | inr (x, _) ↦ elim (str_eq-cases from to) [
      | inl (_, e) ↦ inl (same_tag (sym e))
      | inr (y, _) ↦ release_problem-IsAllowed from to _ _ refl refl (rw (x, y) at h)
    ]
  ]

  by_config-Tracks :
      (c : E) (config : String) (g : Glance W)
      → IsAllowed g.flow.installed_release g.openstack_release
      → Tracks g.flow.installed_release g.openstack_release
          (by_config env c config g).0.flow.installed_release
  unfolding Records
  by_config-Tracks c config g allowed = elim (str_eq-cases config "") [
    | inl (e, _) ↦ rw e (kept refl)
    | inr (e, _) ↦
        rw e
          (elim (reconcile_sync_jobs-Records env.meta env.jobs env.restricted
            (record_db_job_terminal_state env.patch) (glance_sync_params env c g config)
            (installed-record_db_job_terminal_state env.patch) g.flow) [
              | inl q ↦ kept q
              | inr (ne, q) ↦ recorded allowed ne q
            ])
  ]

  by_transition-Tracks :
      (c : E) (config : String) (problem : Option String) (g : Glance W)
      → transition_problem env g.flow.installed_release g.openstack_release ≡ problem
      → Tracks g.flow.installed_release g.openstack_release
          (by_transition env c config problem g).0.flow.installed_release
  by_transition-Tracks c config (some msg) g h = kept refl
  by_transition-Tracks c config none g h =
      by_config-Tracks c config g
        (transition_problem-IsAllowed g.flow.installed_release g.openstack_release h)

  after_glance_provision-Tracks :
      (c : E) (config : String) (g : Glance W) (r : Flow W × Outcome)
      → r.0.installed_release ≡ g.flow.installed_release
      → Tracks g.flow.installed_release g.openstack_release
          (after_glance_provision env c config g r).0.flow.installed_release
  after_glance_provision-Tracks c config g (f, o) e = elim (Bool-cases (stops o)) [
    | inl s ↦ rw s (kept e)
    | inr s ↦ rw s (
        subst
          (λ i.
            Tracks i g.openstack_release
              (by_transition env c config
                (transition_problem env f.installed_release g.openstack_release)
                (record g {
                  flow = f;
                  target_release = g.openstack_release;
                })).0.flow.installed_release)
          e
          (by_transition-Tracks c config _
            (record g { flow = f; target_release = g.openstack_release }) refl))
  ]

  -- A pass of Glance's reconcileDatabase keeps the recorded release, or sets it to the release of
  -- the spec, which then is the first one, the same one, a patch of it, or the next one of the line.
  pub reconcile_glance_database-Tracks :
      (c : E) (g : Glance W) (config : String)
      → Tracks g.flow.installed_release g.openstack_release
          (reconcile_glance_database env c g config).0.flow.installed_release
  unfolding reconcile_glance_database
  reconcile_glance_database-Tracks c g config =
      after_glance_provision-Tracks c config g
        (reconcile_provision env.meta env.mariadb (glance_provision_params env g) g.flow)
        (installed-reconcile_provision env.meta env.mariadb (glance_provision_params env g) g.flow)

  after_glance_provision-stops :
      (c : E) (config : String) (g : Glance W) (r : Flow W × Outcome) (msg : String)
      → r.0.installed_release ≡ g.flow.installed_release
      → transition_problem env g.flow.installed_release g.openstack_release ≡ some msg
      → stops (after_glance_provision env c config g r).1 ≡ true
  after_glance_provision-stops c config g (f, o) msg e h = elim (Bool-cases (stops o)) [
    | inl s ↦ rw (s, s) refl
    | inr s ↦
        let same : transition_problem env f.installed_release g.openstack_release ≡ some msg =
          ap (λ i. transition_problem env i g.openstack_release) e ∙ h in
        rw (s, same) refl
  ]

  -- Where the release of the spec may not follow the recorded one, a pass of Glance's
  -- reconcileDatabase stops the pipeline, so that no later step runs, and keeps the recorded
  -- release.
  pub reconcile_glance_database_rejects :
      (c : E) (g : Glance W) (config : String)
      → ¬ IsAllowed g.flow.installed_release g.openstack_release
      → (stops (reconcile_glance_database env c g config).1 ≡ true)
        × ((reconcile_glance_database env c g config).0.flow.installed_release
            ≡ g.flow.installed_release)
  unfolding reconcile_glance_database
  reconcile_glance_database_rejects c g config no_way =
      let r = reconcile_provision env.meta env.mariadb (glance_provision_params env g) g.flow in
      let e =
        installed-reconcile_provision env.meta env.mariadb (glance_provision_params env g) g.flow in
      (
        elim (Option-cases (transition_problem env g.flow.installed_release g.openstack_release)) [
          | inl q ↦ absurd (no_way (transition_problem-IsAllowed _ _ q))
          | inr (msg, q) ↦ after_glance_provision-stops c config g r msg e q
        ],
        kept_only no_way (after_glance_provision-Tracks c config g r e),
      )
    where
      kept_only : {from to r : String} → ¬ IsAllowed from to → Tracks from to r → r ≡ from
      kept_only never (kept q) = q
      kept_only never (recorded a ne q) = absurd (never a)
