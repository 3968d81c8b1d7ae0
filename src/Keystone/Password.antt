-- ===== src/Keystone/Password.antt =====
-- operators/keystone/internal/controller/reconcile_passwordrotation.go: the scheduled rotation of a
-- Keystone CR's admin password. A CronJob stages a password in a Secret of its own; the operator
-- commits it to the push source, the Secret that a PushSecret mirrors to OpenBao.
pub mod State
pub mod Teardown
pub mod Withheld
pub mod Disabled
use Prim.Native.String.{len}
use c5c3_forge.Prelude.{
  ℕ, Bool, true, false, not, ◌==◌, List, [], ◌∷◌, String, Option, none, some, ℤ, pos, negsuc, ltb,
  is_none, lookup, if◌then◌else◌,
}
use c5c3_forge.Kube.Text.{concat}
use c5c3_forge.Kube.Error.{Error, Answer, ok, err, plain, wrap, is_not_found}
use c5c3_forge.Kube.Condition.{ConditionMeta, status_true}
use c5c3_forge.Kube.Outcome.{Outcome, done, returns, fails, requeue_now}
use c5c3_forge.Conditions.{set_condition}
use c5c3_forge.Release.Atoi.{decimal}
use c5c3_forge.Database.Flow.{condition}
use c5c3_forge.Rotation.{Secret, SecretClient, CommitSpec, Commit, commit_staged}
use c5c3_forge.Keystone.Keys.Create.{KeysPass, age_observed}
use c5c3_forge.Keystone.Password.State.{
  PasswordRotationSpec, PasswordOwner, PasswordClient, normalized_admin_password_length, is_enabled,
  push_source_ready, password_spec, named,
}
use c5c3_forge.Keystone.Password.Teardown.{teardown_password_rotation}

module _ {W : Type 0} (m : ConditionMeta) (client : PasswordClient W) (k : PasswordOwner) where
  abbrev pub in_cluster : W → KeysPass W → KeysPass W
  in_cluster w p = record p { cluster = w }

  abbrev pub report_rotation : String → String → KeysPass W → KeysPass W
  report_rotation reason message p = record p {
    conditions =
        set_condition m p.conditions
          (condition "PasswordRotationReady" k.generation status_true reason message);
  }

  abbrev pub configured : KeysPass W → KeysPass W × Outcome
  configured p = (
    report_rotation "PasswordRotationConfigured" "Admin password rotation CronJob is configured" p,
    done,
  )

  abbrev pub after_push_secret : KeysPass W → W × Option Error → KeysPass W × Outcome
  after_push_secret p (w, some e) =
      (in_cluster w p, fails (wrap "ensuring admin password pushsecret: " e))
  after_push_secret p (w, none) = configured (in_cluster w p)

  module _ (min : ℕ) where
    -- Steps 8 and 9.
    abbrev pub push : Secret → KeysPass W → KeysPass W × Outcome
    push push_source p =
        if push_source_ready push_source min
        then after_push_secret p
            (client.ensure_push_secret p.cluster (named k "-admin-password-backup"))
        else configured p

    abbrev pub after_cron_job : Secret → KeysPass W → W × Option Error → KeysPass W × Outcome
    after_cron_job push_source p (w, some e) =
        (in_cluster w p, fails (wrap "ensuring admin password rotation cronjob: " e))
    after_cron_job push_source p (w, none) = push push_source (in_cluster w p)

    abbrev pub after_script : Secret → KeysPass W → W × Answer String → KeysPass W × Outcome
    after_script push_source p (w, err e) =
        (in_cluster w p, fails (wrap "creating admin password rotate script ConfigMap: " e))
    after_script push_source p (w, ok script) =
        after_cron_job push_source (in_cluster w p) (client.ensure_cron_job w script)

    abbrev pub after_rbac : Secret → KeysPass W → W × Option Error → KeysPass W × Outcome
    after_rbac push_source p (w, some e) =
        (in_cluster w p, fails (wrap "ensuring admin password rotation RBAC: " e))
    after_rbac push_source p (w, none) =
        after_script push_source (in_cluster w p)
          (client.ensure_script w (named k "-admin-password-rotate-script"))

    abbrev pub after_commit : KeysPass W → Commit W × Answer Bool → KeysPass W × Outcome
    after_commit p (c, err e) = (
      record p { events = c.events; cluster = c.cluster },
      fails (wrap "applying admin password rotation output: " e),
    )
    after_commit p (c, ok true) = (
      report_rotation "AdminPasswordRotated" "rotation applied; staging secret cleared"
          (record p { events = c.events; cluster = c.cluster }),
      returns requeue_now,
    )
    after_commit p (c, ok false) =
        after_rbac c.target (record p { events = c.events; cluster = c.cluster })
          (client.ensure_rbac c.cluster (named k "-admin-password-rotate"))

    abbrev pub staged : Secret → Secret → KeysPass W → Commit W
    staged push_source staging p = record {
      staging = staging;
      target = push_source;
      events = p.events;
      cluster = p.cluster;
    }

    -- observeRotationAge and applyAdminPasswordRotation.
    abbrev pub apply_admin_password_rotation : Secret → Secret → KeysPass W → KeysPass W × Outcome
    apply_admin_password_rotation push_source staging p =
        after_commit (age_observed client.secrets push_source staging p)
          (commit_staged client.secrets (password_spec min) (staged push_source staging p))

    -- ensureStagingSecret.
    abbrev pub after_staging : Secret → KeysPass W → W × Answer Secret → KeysPass W × Outcome
    after_staging push_source p (w, err e) = (
      in_cluster w p,
      fails (
          wrap
            (concat ("ensuring staging secret " ∷ named k "-admin-password-rotation" ∷ ": " ∷ []))
            e),
    )
    after_staging push_source p (w, ok staging) =
        apply_admin_password_rotation push_source staging (in_cluster w p)

    -- ensureAdminPasswordPushSourceSecret.
    abbrev pub after_push_source : KeysPass W → W × Answer Secret → KeysPass W × Outcome
    after_push_source p (w, err e) = (
      in_cluster w p,
      fails (
          wrap
            (concat (
              "ensuring admin password push-source secret "
              ∷ named k "-admin-password-next"
              ∷ ": "
              ∷ []))
            e),
    )
    after_push_source p (w, ok push_source) =
        after_staging push_source (in_cluster w p)
          (client.ensure_staging w (named k "-admin-password-rotation") "admin-password")

  abbrev pub after_teardown : KeysPass W → W × Option Error → KeysPass W × Outcome
  after_teardown p (w, some e) = (in_cluster w p, fails e)
  after_teardown p (w, none) = (
    report_rotation "RotationDisabled"
        "Scheduled admin password rotation is disabled; Model B resources removed" (in_cluster w p),
    done,
  )

  -- reconcilePasswordRotation.
  unfoldable pub reconcile_password_rotation : KeysPass W → KeysPass W × Outcome
  reconcile_password_rotation p =
      if not (is_enabled k.password_rotation)
      then after_teardown p (teardown_password_rotation client k p.cluster)
      else after_push_source (normalized_admin_password_length k.password_rotation) p
          (client.ensure_push_source p.cluster (named k "-admin-password-next"))
