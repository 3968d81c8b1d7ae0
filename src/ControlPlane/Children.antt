-- ===== src/ControlPlane/Children.antt =====
-- operators/c5c3/internal/controller/reconcile_delete.go: the K-ORC CRs that a teardown names, by
-- the spec and by the ownership of what is in the cluster.
pub mod Keys
pub mod Declared
pub mod Merged
use text.Mathlib.Text.{starts_with}
use c5c3_forge.Prelude.{
  has, Bool, not, ◌&&◌, none, some, Option, List, [], ◌∷◌, ◌++◌, String, map, str_eq, if◌then◌else◌,
}
use c5c3_forge.Kube.Text.{concat}
use c5c3_forge.Kube.Error.{Answer, ok, err, wrap, is_no_match, ◌>>=◌}
use c5c3_forge.ControlPlane.State.{
  ControlPlane, ServiceAccount, CatalogEntry, KeystoneService, is_external_keystone,
}
use c5c3_forge.ControlPlane.Cluster.{
  Kind, application_credential, service, endpoint, user, project, domain, role, role_assignment,
  kind_name, Object, Client, is_control_plane_child,
}
use c5c3_forge.ControlPlane.Names.{
  SlugTools, admin_app_credential_name, admin_user_ref, admin_domain_ref, keystone_service_name,
  keystone_endpoint_name, keystone_endpoint_import_name, catalog_entry_name_prefix,
  catalog_entry_service_name, catalog_entry_endpoint_name, service_account_child_prefix,
  service_account_user_ref, service_account_user_probe_ref, service_account_project_ref,
  service_account_project_probe_ref, service_account_domain_ref, service_account_role_import_ref,
  service_account_role_assignment_ref,
}

-- orcChildObject: `kind` stands for newObj.
pub record OrcChild : Type 0 where
  pub kind : Kind
  pub name : String

abbrev pub child : Kind → String → OrcChild
child kind name = record { kind = kind; name = name }

-- key.
abbrev pub child_key : OrcChild → String
child_key c = concat (kind_name c.kind ∷ "/" ∷ c.name ∷ [])

-- `append` in a loop.
unfoldable pub each {ℓ} : {A : Type ℓ} → (A → List OrcChild) → List A → List OrcChild
each f [] = []
each f (a ∷ xs) = f a ++ each f xs

module _ (tools : SlugTools) (cp : ControlPlane) where
  -- The children of one role of an account.
  abbrev pub role_children : ServiceAccount → String → List OrcChild
  role_children sa r =
      child role_assignment (service_account_role_assignment_ref tools cp sa r)
      ∷ child role (service_account_role_import_ref tools cp r)
      ∷ []

  abbrev pub own_domain : ServiceAccount → List OrcChild
  own_domain sa =
      if not (str_eq (service_account_domain_ref cp sa) (admin_domain_ref cp))
      then child domain (service_account_domain_ref cp sa) ∷ []
      else []

  unfoldable pub account_children : ServiceAccount → List OrcChild
  account_children sa =
      (child user (service_account_user_ref cp sa)
        ∷ child user (service_account_user_probe_ref cp sa)
        ∷ child project (service_account_project_ref cp sa)
        ∷ child project (service_account_project_probe_ref cp sa)
        ∷ [])
      ++ each (role_children sa) sa.roles
      ++ own_domain sa

  abbrev pub entry_children : CatalogEntry → List OrcChild
  entry_children entry =
      child service (catalog_entry_service_name cp entry.type)
      ∷ map (λ i. child endpoint (catalog_entry_endpoint_name cp entry.type i)) entry.interfaces

  abbrev pub managed_entries : Option KeystoneService → List CatalogEntry
  managed_entries none = []
  managed_entries (some k) = k.managed_entries

  -- externalManagedCatalogEntries.
  abbrev pub external_managed_catalog_entries : List CatalogEntry
  external_managed_catalog_entries = managed_entries cp.keystone

  abbrev pub external_children : List OrcChild
  external_children =
      map (λ i. child endpoint (keystone_endpoint_import_name cp i))
        ("public" ∷ "internal" ∷ "admin" ∷ [])
      ++ each entry_children external_managed_catalog_entries

  -- orcChildObjects, with the one row of managedCatalogRows.
  unfoldable pub orc_child_objects : List OrcChild
  orc_child_objects =
      (child application_credential (admin_app_credential_name cp)
        ∷ child service (keystone_service_name cp)
        ∷ child endpoint (keystone_endpoint_name cp)
        ∷ child user (admin_user_ref cp)
        ∷ child domain (admin_domain_ref cp)
        ∷ [])
      ++ each account_children cp.service_accounts
      ++ (if is_external_keystone cp then external_children else [])

-- The closure `merge` of orcTeardownChildren: what it appends, for the keys seen so far.
unfoldable pub merge : List String → List OrcChild → List OrcChild
merge seen [] = []
merge seen (c ∷ cs) =
    let rest = merge seen cs in
    let later = merge (child_key c ∷ seen) cs in if has (child_key c) seen then rest else c ∷ later

module _ {W : Type 0} (c : Client W) (cp : ControlPlane) where
  -- ownsServiceAccountChild.
  unfoldable pub owns_service_account_child : Object → Bool
  owns_service_account_child obj =
      is_control_plane_child c obj cp && starts_with obj.name (service_account_child_prefix cp)

  -- ownsCatalogEntry.
  unfoldable pub owns_catalog_entry : Object → Bool
  owns_catalog_entry obj =
      c.is_controlled_by obj cp.uid && starts_with obj.name (catalog_entry_name_prefix cp)

  -- The loop over the items of a list.
  unfoldable pub owned_items : (Object → Bool) → Kind → List Object → List OrcChild
  owned_items owns kind [] = []
  owned_items owns kind (obj ∷ objs) =
      let rest = owned_items owns kind objs in if owns obj then child kind obj.name ∷ rest else rest

  abbrev listed : (Object → Bool) → Kind → String → Answer (List Object) → Answer (List OrcChild)
  listed owns kind noun (ok objs) = ok (owned_items owns kind objs)
  listed owns kind noun (err e) =
      if is_no_match e
      then ok []
      else err (wrap (concat ("listing " ∷ noun ∷ " for teardown: " ∷ [])) e)

  -- One of the switches over a list of a kind; `out` holds what the ones before it found.
  abbrev pub then_list :
      W → (Object → Bool) → Kind → String → List OrcChild → Answer (List OrcChild)
  then_list w owns kind noun out =
      listed owns kind noun (c.list w kind cp.namespace) >>= λ found. ok (out ++ found)

  -- ownedServiceAccountChildren.
  unfoldable pub owned_service_account_children : W → Answer (List OrcChild)
  owned_service_account_children w =
      then_list w owns_service_account_child user "service-account Users" []
      >>= then_list w owns_service_account_child project "service-account Projects"
      >>= then_list w owns_service_account_child role_assignment "service-account RoleAssignments"
      >>= then_list w owns_service_account_child role "service-account Roles"

  -- ownedCatalogEntryChildren.
  unfoldable pub owned_catalog_entry_children : W → Answer (List OrcChild)
  owned_catalog_entry_children w =
      then_list w owns_catalog_entry endpoint "catalog entry Endpoints" []
      >>= then_list w owns_catalog_entry service "catalog entry Services"

  -- orcTeardownChildren: `merge` runs over the lists one after the other, with one map of keys.
  unfoldable pub orc_teardown_children : SlugTools → W → Answer (List OrcChild)
  orc_teardown_children tools w = owned_service_account_children w >>= λ accounts.
      (if is_external_keystone cp then owned_catalog_entry_children w else ok []) >>= λ entries.
      ok (merge [] (orc_child_objects tools cp ++ accounts ++ entries))
