-- ===== src/Keystone/Deletion/State.antt =====
-- operators/keystone/internal/controller: what the deletion of a Keystone CR reads and writes
-- (keystone_controller.go, reconcile_secrets.go, requeue_intervals.go).
use c5c3_forge.Prelude.{
  ℕ, Bool, false, List, [], ◌∷◌, String, Option, none, some, ℤ, pos, lt_int, has, str_eq,
  if◌then◌else◌,
}
use c5c3_forge.Kube.Text.{concat}
use c5c3_forge.Kube.Error.{Error}
use c5c3_forge.Kube.Condition.{Condition}
use c5c3_forge.Database.Flow.{Event}
use c5c3_forge.Database.Finalize.{Found, ResourceClient}
use c5c3_forge.HealthCheck.{ProbeCache}

-- Of the Keystone CR: its name, namespace and generation, and time.Since(DeletionTimestamp), where
-- the timestamp is set.
pub record DeletionOwner : Type 0 where
  pub name : String
  pub namespace : String
  pub generation : ℕ
  pub deleting_for : Option ℤ

-- The client; `update` is an Update of the CR with these finalizers.
pub record DeletionClient (W : Type 0) : Type 0 where
  pub resources : ResourceClient W
  pub update : W → List String → W × Option Error

-- What a pass reads and writes, with the caches of the health probes and of the rendered
-- configurations, which the CRs share.
pub record DeletionPass (W : Type 0) : Type 0 where
  pub finalizers : List String
  pub conditions : List Condition
  pub events : List Event
  pub probes : ProbeCache
  pub renders : List (String × String)
  pub cluster : W

-- keystoneFinalizer, keystoneOpenBaoFinalizer and esoPushSecretFinalizer.
abbrev pub keystone_finalizer : String
keystone_finalizer = "keystone.openstack.c5c3.io/finalizer"

abbrev pub keystone_open_bao_finalizer : String
keystone_open_bao_finalizer = "keystone.openstack.c5c3.io/openbao-finalizer"

abbrev pub eso_push_secret_finalizer : String
eso_push_secret_finalizer = "pushsecret.externalsecrets.io/finalizer"

-- OpenBaoAdoptionWaitTimeout.
abbrev pub open_bao_adoption_wait_timeout : ℤ
open_bao_adoption_wait_timeout = pos 600_000_000_000

-- controllerutil.RemoveFinalizer.
unfoldable pub remove_finalizer : String → List String → List String
remove_finalizer f [] = []
remove_finalizer f (g ∷ gs) =
    let rest = remove_finalizer f gs in if str_eq f g then rest else g ∷ rest

-- adoptionDeadlinePassed.
abbrev pub deadline_passed : Option ℤ → Bool
deadline_passed none = false
deadline_passed (some elapsed) = lt_int open_bao_adoption_wait_timeout elapsed

-- openBaoBackupPushSecretNames.
abbrev pub backup_names : String → List String
backup_names name =
    concat (name ∷ "-fernet-keys-backup" ∷ []) ∷ concat (name ∷ "-credential-keys-backup" ∷ []) ∷ []

-- hasESOFinalizer.
abbrev pub has_eso_finalizer : Found → Bool
has_eso_finalizer found = has eso_push_secret_finalizer found.finalizers
