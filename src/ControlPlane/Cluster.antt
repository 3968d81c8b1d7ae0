-- ===== src/ControlPlane/Cluster.antt =====
-- The objects of the cluster that the teardown reads and deletes, the client that it uses, and
-- the test of ownership (operators/c5c3/internal/controller/reconcile_namespaces.go).
use c5c3_forge.Prelude.{Bool, ◌&&◌, ◌||◌, List, [], ◌∷◌, String, Option, str_eq, lookup}
use c5c3_forge.Kube.Text.{concat}
use c5c3_forge.Kube.Error.{Error, Answer, is_not_found, is_no_match}
use c5c3_forge.Job.{or_empty}
use c5c3_forge.ControlPlane.State.{ControlPlane}

-- The Go types of the objects.
pub data Kind : Type 0 where
  application_credential service endpoint user project domain role role_assignment : Kind
  keystone horizon push_secret namespace_kind maria_db memcached external_secret : Kind
  vault_dynamic_secret certificate service_account secret secret_store : Kind

-- fmt's %T of an object of the kind. No Go type ships for a Memcached and a Certificate.
abbrev pub kind_name : Kind → String
kind_name application_credential = "*v1alpha1.ApplicationCredential"
kind_name service = "*v1alpha1.Service"
kind_name endpoint = "*v1alpha1.Endpoint"
kind_name user = "*v1alpha1.User"
kind_name project = "*v1alpha1.Project"
kind_name domain = "*v1alpha1.Domain"
kind_name role = "*v1alpha1.Role"
kind_name role_assignment = "*v1alpha1.RoleAssignment"
kind_name keystone = "*v1alpha1.Keystone"
kind_name horizon = "*v1alpha1.Horizon"
kind_name push_secret = "*v1alpha1.PushSecret"
kind_name namespace_kind = "*v1.Namespace"
kind_name maria_db = "*v1alpha1.MariaDB"
kind_name memcached = "*unstructured.Unstructured"
kind_name external_secret = "*v1.ExternalSecret"
kind_name vault_dynamic_secret = "*v1alpha1.VaultDynamicSecret"
kind_name certificate = "*unstructured.Unstructured"
kind_name service_account = "*v1.ServiceAccount"
kind_name secret = "*v1.Secret"
kind_name secret_store = "*v1.SecretStore"

-- A live object: `owner` is the UID of its controller reference, `deleting` says that its
-- deletion timestamp is set, and `remote_keys` are the remote keys of a PushSecret's data.
pub record Object : Type 0 where
  pub kind : Kind
  pub name : String
  pub namespace : String
  pub owner : Option String
  pub labels : List (String × String)
  pub deleting : Bool
  pub finalizers : List String
  pub management_policy : String
  pub remote_keys : List String

-- The client. A Get and a Delete name the kind, the namespace and the name; `delete_background`
-- is a Delete with background propagation. `update_owner` is the Update of the ControlPlane itself
-- with these finalizers.
pub record Client (W : Type 0) : Type 0 where
  pub get : W → Kind → String → String → Answer Object
  pub list : W → Kind → String → Answer (List Object)
  pub delete : W → Object → W × Option Error
  pub delete_background : W → Object → W × Option Error
  pub update : W → Object → W × Option Error
  pub update_owner : W → List String → W × Option Error
  -- metav1.IsControlledBy, for the UID of the owner.
  pub is_controlled_by : Object → String → Bool
  -- controllerutil.
  pub contains_finalizer : List String → String → Bool
  pub remove_finalizer : List String → String → List String

-- apierrors.IsNotFound(err) || meta.IsNoMatchError(err).
abbrev pub is_absent : Error → Bool
is_absent e = is_not_found e || is_no_match e

-- client.ObjectKey as a text.
abbrev pub object_key : String → String → String
object_key namespace name = concat (namespace ∷ "/" ∷ name ∷ [])

abbrev pub label_of : String → Object → String
label_of key obj = or_empty (lookup key obj.labels)

abbrev control_plane_name_label : String
control_plane_name_label = "c5c3.io/controlplane-name"

abbrev control_plane_namespace_label : String
control_plane_namespace_label = "c5c3.io/controlplane-namespace"

-- isControlPlaneChild.
unfoldable pub is_control_plane_child : {W : Type 0} → Client W → Object → ControlPlane → Bool
is_control_plane_child c obj cp =
    c.is_controlled_by obj cp.uid
    || (str_eq (label_of control_plane_name_label obj) cp.name
        && str_eq (label_of control_plane_namespace_label obj) cp.namespace)
