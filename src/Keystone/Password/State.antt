-- ===== src/Keystone/Password/State.antt =====
-- operators/keystone/internal/controller/reconcile_passwordrotation.go: what the rotation of the
-- admin password reads of the CR, its client, and the check of a staged password.
use Prim.Native.String.{len}
use c5c3_forge.Prelude.{
  ℕ, Bool, false, ◌==◌, List, [], ◌∷◌, String, Option, none, some, ℤ, pos, negsuc, ltb, is_none,
  lookup, if◌then◌else◌,
}
use c5c3_forge.Kube.Text.{concat}
use c5c3_forge.Kube.Error.{Error, Answer, plain}
use c5c3_forge.Release.Atoi.{decimal}
use c5c3_forge.Rotation.{Secret, SecretClient, CommitSpec}

-- PasswordRotationSpec, but for what only the CronJob reads.
pub record PasswordRotationSpec : Type 0 where
  pub enabled : Bool
  pub password_length : ℤ

-- Of the Keystone CR: its name, namespace, generation and spec.passwordRotation.
pub record PasswordOwner : Type 0 where
  pub name : String
  pub namespace : String
  pub generation : ℕ
  pub password_rotation : Option PasswordRotationSpec

-- The kinds of the objects that a teardown deletes, and such an object, in the CR's namespace.
pub data PasswordKind : Type 0 where
  cron_job secret role_binding role service_account push_secret : PasswordKind

pub record PasswordObject : Type 0 where
  pub kind : PasswordKind
  pub name : String

-- The client. The functions named ensure_* ensure objects that are built from the CR: the push source's
-- labels and owner (controllerutil.CreateOrUpdate), the staging Secret's, the RBAC, the script's
-- ConfigMap, the CronJob and the PushSecret; `prune_scripts` is PruneImmutableConfigMaps.
pub record PasswordClient (W : Type 0) : Type 0 where
  pub secrets : SecretClient W
  pub ensure_push_source : W → String → W × Answer Secret
  pub ensure_staging : W → String → String → W × Answer Secret
  pub ensure_rbac : W → String → W × Option Error
  pub ensure_script : W → String → W × Answer String
  pub ensure_cron_job : W → String → W × Option Error
  pub ensure_push_secret : W → String → W × Option Error
  pub delete : W → PasswordObject → W × Option Error
  pub prune_scripts : W → String → W × Option Error

-- normalizedAdminPasswordLength.
abbrev length_or_default : ℤ → ℕ
length_or_default (pos n) = if n == 0 then 32 else if ltb n 24 then 24 else n
length_or_default (negsuc n) = 24

abbrev pub normalized_admin_password_length : Option PasswordRotationSpec → ℕ
normalized_admin_password_length none = 32
normalized_admin_password_length (some r) = length_or_default r.password_length

-- `pr == nil || !pr.Enabled` is false.
abbrev pub is_enabled : Option PasswordRotationSpec → Bool
is_enabled none = false
is_enabled (some r) = r.enabled

abbrev password_error : ℕ → Option String → Option Error
password_error min none =
    some (plain "admin password missing: staging secret has no non-empty \"password\" value")
password_error min (some password) =
    if len password == 0
    then some (plain "admin password missing: staging secret has no non-empty \"password\" value")
    else if ltb (len password) min
    then some (
        plain (
          concat (
            "admin password too short: got "
            ∷ decimal (len password)
            ∷ ", want >= "
            ∷ decimal min
            ∷ [])))
    else none

-- validateAdminPasswordRotationOutput.
unfoldable pub validate_admin_password : List (String × String) → ℕ → Option Error
validate_admin_password payload min = password_error min (lookup "password" payload)

-- adminPasswordPushSourceReady, for a Secret that is not nil.
abbrev pub push_source_ready : Secret → ℕ → Bool
push_source_ready push_source min = is_none (validate_admin_password push_source.payload min)

-- The CommitSpec of applyAdminPasswordRotation.
abbrev pub password_spec : ℕ → CommitSpec
password_spec min = record {
  target_noun = "push-source secret";
  validate = λ payload. validate_admin_password payload min;
  clear_staging_on_reject = false;
  annotation_invalid_reason = "AdminPasswordRotationAnnotationInvalid";
  rejected_reason = "AdminPasswordRotationRejected";
  applied_reason = "AdminPasswordRotated";
  applied_message =
      λ name payload. concat ("admin password rotation applied from staging secret " ∷ name ∷ []);
}

abbrev pub named : PasswordOwner → String → String
named k suffix = concat (k.name ∷ suffix ∷ [])
