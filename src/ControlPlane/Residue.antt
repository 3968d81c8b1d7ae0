-- ===== src/ControlPlane/Residue.antt =====
-- operators/c5c3/internal/controller/reconcile_delete.go, sweepExternalNamespaceResidue, and the
-- backing services that it names (reconcile_infrastructure.go and helpers.go).
use c5c3_forge.Prelude.{
  has, not, List, [], ◌∷◌, ◌++◌, String, Option, none, some, str_eq, if◌then◌else◌,
}
use c5c3_forge.Kube.Text.{concat}
use c5c3_forge.Kube.Error.{Answer, ok, err}
use c5c3_forge.Database.Provision.{DatabaseSpec}
use c5c3_forge.ControlPlane.State.{
  ControlPlane, KeystoneService, HorizonService, Infrastructure, CacheSpec, ServiceAccount,
  keystone_namespace, horizon_namespace,
}
use c5c3_forge.ControlPlane.Cluster.{
  Kind, maria_db, memcached, external_secret, vault_dynamic_secret, certificate, service_account,
  secret, secret_store, Object, Client, is_control_plane_child,
}
use c5c3_forge.ControlPlane.Names.{
  admin_password_secret_name, db_credential_secret_name, db_credential_client_cert_name,
  service_account_delivery_namespace, service_account_source_secret_name,
  service_account_credentials_secret_name,
}

-- infraInstance, as far as the teardown reads it.
pub record Instance : Type 0 where
  pub kind : String
  pub namespace : String
  pub name : String

-- key of the map `seen`.
abbrev pub instance_key : Instance → String
instance_key i = concat (i.kind ∷ "/" ∷ i.namespace ∷ "/" ∷ i.name ∷ [])

abbrev database_ref : Option DatabaseSpec → Option String
database_ref none = none
database_ref (some db) = db.cluster_ref

abbrev cache_ref : Option CacheSpec → Option String
cache_ref none = none
cache_ref (some cache) = cache.cluster_ref

-- What a service has of its own, or else the shared block.
abbrev own_or {ℓ} : {A : Type ℓ} → Option A → Option A → Option A
own_or (some a) shared = some a
own_or none shared = shared

abbrev dedicated_database : Option KeystoneService → Option DatabaseSpec
dedicated_database none = none
dedicated_database (some k) = k.database

abbrev dedicated_keystone_cache : Option KeystoneService → Option CacheSpec
dedicated_keystone_cache none = none
dedicated_keystone_cache (some k) = k.cache

abbrev shared_database : Option Infrastructure → Option DatabaseSpec
shared_database none = none
shared_database (some i) = some i.database

abbrev shared_cache : Option Infrastructure → Option CacheSpec
shared_cache none = none
shared_cache (some i) = some i.cache

-- One call of addDatabase or addCache: the instance, where the block names a cluster.
abbrev instance_of : String → String → Option String → List Instance
instance_of kind namespace none = []
instance_of kind namespace (some name) =
    record { kind = kind; namespace = namespace; name = name } ∷ []

-- claim, for each instance in turn.
unfoldable pub claimed : List String → List Instance → List Instance
claimed seen [] = []
claimed seen (i ∷ is) =
    let rest = claimed seen is in
    let later = claimed (instance_key i ∷ seen) is in
    if has (instance_key i) seen then rest else i ∷ later

module _ (cp : ControlPlane) where
  -- effectiveKeystoneDatabase, effectiveKeystoneCache and effectiveHorizonCache.
  abbrev effective_keystone_database : Option DatabaseSpec
  effective_keystone_database =
      own_or (dedicated_database cp.keystone) (shared_database cp.infrastructure)

  abbrev effective_keystone_cache : Option CacheSpec
  effective_keystone_cache =
      own_or (dedicated_keystone_cache cp.keystone) (shared_cache cp.infrastructure)

  abbrev horizon_instances : Option HorizonService → List Instance
  horizon_instances none = []
  horizon_instances (some h) =
      instance_of "Memcached" (horizon_namespace cp)
        (cache_ref (own_or h.cache (shared_cache cp.infrastructure)))

  -- managedInfraInstances.
  unfoldable pub managed_infra_instances : List Instance
  managed_infra_instances = claimed [] (
      instance_of "MariaDB" (keystone_namespace cp) (database_ref effective_keystone_database)
      ++ instance_of "Memcached" (keystone_namespace cp) (cache_ref effective_keystone_cache)
      ++ horizon_instances cp.horizon)

  -- The switch over the kind of an instance in the namespace.
  abbrev instance_object : String → Instance → List (Kind × String)
  instance_object namespace i =
      if not (str_eq i.namespace namespace)
      then []
      else if str_eq i.kind "MariaDB"
      then (maria_db, i.name) ∷ []
      else if str_eq i.kind "Memcached"
      then (memcached, i.name) ∷ []
      else []

  unfoldable pub instance_objects : String → List Instance → List (Kind × String)
  instance_objects namespace [] = []
  instance_objects namespace (i ∷ is) = instance_object namespace i ++ instance_objects namespace is

  abbrev account_residue : String → ServiceAccount → List (Kind × String)
  account_residue namespace sa =
      if not (str_eq (service_account_delivery_namespace cp sa) namespace)
      then []
      else (secret, service_account_source_secret_name cp sa)
        ∷ (external_secret, service_account_credentials_secret_name cp sa)
        ∷ []

  unfoldable pub accounts_residue : String → List ServiceAccount → List (Kind × String)
  accounts_residue namespace [] = []
  accounts_residue namespace (sa ∷ sas) =
      account_residue namespace sa ++ accounts_residue namespace sas

  -- The credential material, which follows the Keystone service.
  abbrev credential_residue : List (Kind × String)
  credential_residue =
      (external_secret, admin_password_secret_name cp)
      ∷ (external_secret, db_credential_secret_name cp)
      ∷ (vault_dynamic_secret, db_credential_secret_name cp)
      ∷ (certificate, db_credential_client_cert_name cp)
      ∷ (service_account, "keystone-db-creds")
      ∷ []

  -- The tenant-store trio.
  abbrev pub tenant_store : List (Kind × String)
  tenant_store =
      (secret_store, "openbao-tenant-store")
      ∷ (certificate, "eso-tenant-client-tls")
      ∷ (service_account, "eso-tenant-auth")
      ∷ []

  -- `objs`, in the order in which the sweep deletes them.
  unfoldable pub residue_objects : String → List (Kind × String)
  residue_objects namespace =
      instance_objects namespace managed_infra_instances
      ++ (if str_eq (keystone_namespace cp) namespace then credential_residue else [])
      ++ accounts_residue namespace cp.service_accounts
      ++ tenant_store

  module _ {W : Type 0} (c : Client W) where
    abbrev pub sweep_object : W → Answer Object → W
    sweep_object w (err e) = w
    sweep_object w (ok obj) =
        if not (is_control_plane_child c obj cp) then w else (c.delete w obj).0

    unfoldable pub sweep_objects : String → List (Kind × String) → W → W
    sweep_objects namespace [] w = w
    sweep_objects namespace (o ∷ os) w =
        sweep_objects namespace os (sweep_object w (c.get w o.0 namespace o.1))

    -- sweepExternalNamespaceResidue: errors are logged and the sweep goes on.
    unfoldable pub sweep_external_namespace_residue : String → W → W
    sweep_external_namespace_residue namespace w =
        sweep_objects namespace (residue_objects namespace) w
