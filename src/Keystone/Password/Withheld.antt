-- ===== src/Keystone/Password/Withheld.antt =====
-- operators/keystone/internal/controller/reconcile_passwordrotation.go: the gate of the PushSecret,
-- which overwrites what the running service uses.
use c5c3_forge.Prelude.{
  ℕ, ◌≡◌, refl, ap, ◌∙◌, Bool, true, false, String, Option, none, some, if_cases,
}
use c5c3_forge.Kube.Error.{Error, Answer, ok, err}
use c5c3_forge.Kube.Condition.{ConditionMeta}
use c5c3_forge.Kube.Outcome.{Outcome}
use c5c3_forge.Rotation.{Secret, Commit, commit_staged}
use c5c3_forge.Rotation.Guard.{Guarded, commit_staged-P}
use c5c3_forge.Rotation.Target.{commit_staged-Kept}
use c5c3_forge.Keystone.Keys.Create.{KeysPass, age_observed}
use c5c3_forge.Keystone.Password.State.{
  PasswordOwner, PasswordClient, password_spec, push_source_ready, named, is_enabled,
  normalized_admin_password_length,
}
use c5c3_forge.Keystone.Password.{
  push, after_cron_job, after_script, after_rbac, after_commit, staged,
  apply_admin_password_rotation, after_staging, after_push_source, reconcile_password_rotation,
}

-- A property of the cluster that every write of a pass with an enabled rotation leaves true, but
-- for that of the PushSecret.
pub record PasswordGuarded {W : Type 0} (client : PasswordClient W) (min : ℕ) (P : W → Type 0)
    : Type 0 where
  pub commit : Guarded client.secrets (password_spec min) (λ _. Unit) P
  pub ensure_push_source : (w : W) (n : String) → P w → P (client.ensure_push_source w n).0
  pub ensure_staging : (w : W) (n l : String) → P w → P (client.ensure_staging w n l).0
  pub ensure_rbac : (w : W) (n : String) → P w → P (client.ensure_rbac w n).0
  pub ensure_script : (w : W) (n : String) → P w → P (client.ensure_script w n).0
  pub ensure_cron_job : (w : W) (n : String) → P w → P (client.ensure_cron_job w n).0

module _ {W : Type 0} (m : ConditionMeta) (client : PasswordClient W) (k : PasswordOwner) where
  module _ (min : ℕ) {P : W → Type 0} (guarded : PasswordGuarded client min P) where
    push-P :
        (s : Secret) (p : KeysPass W)
        → push_source_ready s min ≡ false
        → P p.cluster
        → P (push m client k min s p).0.cluster
    push-P s p unready h =
        if_cases {A = KeysPass W × Outcome} (λ r. P r.0.cluster) (push_source_ready s min)
          (λ b. absurd (cc (b, unready))) (λ _. h)

    after_cron_job-P :
        (s : Secret) (p : KeysPass W) (r : W × Option Error)
        → push_source_ready s min ≡ false
        → P r.0
        → P (after_cron_job m client k min s p r).0.cluster
    after_cron_job-P s p (w, some e) unready h = h
    after_cron_job-P s p (w, none) unready h = push-P s (record p { cluster = w }) unready h

    after_script-P :
        (s : Secret) (p : KeysPass W) (r : W × Answer String)
        → push_source_ready s min ≡ false
        → P r.0
        → P (after_script m client k min s p r).0.cluster
    after_script-P s p (w, err e) unready h = h
    after_script-P s p (w, ok script) unready h =
        after_cron_job-P s (record p { cluster = w }) _ unready (guarded.ensure_cron_job w script h)

    after_rbac-P :
        (s : Secret) (p : KeysPass W) (r : W × Option Error)
        → push_source_ready s min ≡ false
        → P r.0
        → P (after_rbac m client k min s p r).0.cluster
    after_rbac-P s p (w, some e) unready h = h
    after_rbac-P s p (w, none) unready h =
        after_script-P s (record p { cluster = w }) _ unready (guarded.ensure_script w _ h)

    after_commit-P :
        (p : KeysPass W) (r : Commit W × Answer Bool)
        → (r.1 ≡ ok false → push_source_ready r.0.target min ≡ false)
        → P r.0.cluster
        → P (after_commit m client k min p r).0.cluster
    after_commit-P p (c, err e) unready h = h
    after_commit-P p (c, ok true) unready h = h
    after_commit-P p (c, ok false) unready h =
        after_rbac-P c.target (record p { events = c.events; cluster = c.cluster }) _ (unready refl)
          (guarded.ensure_rbac c.cluster _ h)

    apply_admin_password_rotation-P :
        (s staging : Secret) (p : KeysPass W)
        → push_source_ready s min ≡ false
        → P p.cluster
        → P (apply_admin_password_rotation m client k min s staging p).0.cluster
    apply_admin_password_rotation-P s staging p unready h =
        after_commit-P (age_observed client.secrets s staging p)
          (commit_staged client.secrets (password_spec min) (staged m client k min s staging p))
          (λ e.
            ap (λ t. push_source_ready t min)
              (commit_staged-Kept client.secrets (password_spec min) s
                (staged m client k min s staging p) refl e)
            ∙ unready)
          (commit_staged-P guarded.commit (staged m client k min s staging p) tt h)

    after_staging-P :
        (s : Secret) (p : KeysPass W) (r : W × Answer Secret)
        → push_source_ready s min ≡ false
        → P r.0
        → P (after_staging m client k min s p r).0.cluster
    after_staging-P s p (w, err e) unready h = h
    after_staging-P s p (w, ok staging) unready h =
        apply_admin_password_rotation-P s staging (record p { cluster = w }) unready h

    after_push_source-P :
        (p : KeysPass W) (r : W × Answer Secret)
        → ((s : Secret) → r.1 ≡ ok s → push_source_ready s min ≡ false)
        → P r.0
        → P (after_push_source m client k min p r).0.cluster
    after_push_source-P p (w, err e) unready h = h
    after_push_source-P p (w, ok s) unready h =
        after_staging-P s (record p { cluster = w }) _ (unready s refl)
          (guarded.ensure_staging w _ _ h)

  -- The push source as a pass finds it.
  abbrev pub push_source_answer : KeysPass W → Answer Secret
  push_source_answer p = (client.ensure_push_source p.cluster (named k "-admin-password-next")).1

  -- With the rotation enabled, where the push source holds no password of the minimum length when
  -- the pass ensures it, the pass writes no PushSecret: whatever the commit of a staged password
  -- and the steps that configure the CronJob leave true of the cluster, the pass leaves true, also
  -- where the PushSecret's write would not. The commit itself Updates a Secret only with a
  -- payload that holds a password of the minimum length, or with none.
  pub reconcile_password_rotation-Withheld :
      {P : W → Type 0}
      → PasswordGuarded client (normalized_admin_password_length k.password_rotation) P
      → (p : KeysPass W) → is_enabled k.password_rotation ≡ true
      → ((s : Secret)
          → push_source_answer p ≡ ok s
          → push_source_ready s (normalized_admin_password_length k.password_rotation) ≡ false)
      → P p.cluster
      → P (reconcile_password_rotation m client k p).0.cluster
  unfolding reconcile_password_rotation
  reconcile_password_rotation-Withheld guarded p on unready h = rw on (
      after_push_source-P (normalized_admin_password_length k.password_rotation) guarded p
        (client.ensure_push_source p.cluster (named k "-admin-password-next")) unready
        (guarded.ensure_push_source p.cluster _ h))
