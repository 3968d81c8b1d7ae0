-- ===== src/ControlPlane/State.antt =====
-- The ControlPlane CR, as far as the teardown reads it
-- (operators/c5c3/api/v1alpha1/controlplane_types.go), and where its services are placed.
use c5c3_forge.Prelude.{
  ℕ, Bool, false, not, ◌&&◌, List, [], ◌∷◌, String, Option, none, some, map, str_eq, if◌then◌else◌,
  has,
}
use c5c3_forge.Database.Provision.{DatabaseSpec}

-- ServiceNamespaceSpec.
pub record ServiceNamespace : Type 0 where
  pub name : String
  pub lifecycle : String

-- CacheSpec, as far as the enumeration of the backing services reads it.
pub record CacheSpec : Type 0 where
  pub cluster_ref : Option String

-- ExternalCatalogEntrySpec: the service type, and the interfaces of its endpoints.
pub record CatalogEntry : Type 0 where
  pub type : String
  pub interfaces : List String

-- ServiceAccountSpec, as far as the names of its children depend on it.
pub record ServiceAccount : Type 0 where
  pub name : String
  pub domain_name : String
  pub target_namespace : String
  pub roles : List String

-- services.keystone: the mode, external.catalog.managedEntries (empty where a level is absent),
-- the namespace, and the two classes of dedicatedBackingServices.
pub record KeystoneService : Type 0 where
  pub mode : String
  pub managed_entries : List CatalogEntry
  pub placement : Option ServiceNamespace
  pub database : Option DatabaseSpec
  pub cache : Option CacheSpec

-- services.horizon.
pub record HorizonService : Type 0 where
  pub placement : Option ServiceNamespace
  pub cache : Option CacheSpec

-- spec.infrastructure.
pub record Infrastructure : Type 0 where
  pub database : DatabaseSpec
  pub cache : CacheSpec

pub record ControlPlane : Type 0 where
  pub name : String
  pub namespace : String
  pub uid : String
  pub generation : ℕ
  pub keystone : Option KeystoneService
  pub horizon : Option HorizonService
  pub infrastructure : Option Infrastructure
  pub admin_domain_name : String
  pub service_accounts : List ServiceAccount

abbrev is_external : Option KeystoneService → Bool
is_external none = false
is_external (some k) = str_eq k.mode "External"

-- IsExternalKeystone.
abbrev pub is_external_keystone : ControlPlane → Bool
is_external_keystone cp = is_external cp.keystone

abbrev keystone_block : Option KeystoneService → Option ServiceNamespace
keystone_block none = none
keystone_block (some k) = k.placement

abbrev horizon_block : Option HorizonService → Option ServiceNamespace
horizon_block none = none
horizon_block (some h) = h.placement

abbrev resolved_namespace : Option ServiceNamespace → String → String
resolved_namespace none own = own
resolved_namespace (some ns) own = if not (str_eq ns.name "") then ns.name else own

-- KeystoneNamespace.
abbrev pub keystone_namespace : ControlPlane → String
keystone_namespace cp = resolved_namespace (keystone_block cp.keystone) cp.namespace

-- HorizonNamespace.
abbrev pub horizon_namespace : ControlPlane → String
horizon_namespace cp = resolved_namespace (horizon_block cp.horizon) cp.namespace

abbrev placed_apart : String → ServiceNamespace → List String → Bool
placed_apart own ns seen =
    not (str_eq ns.name "") && not (str_eq ns.name own) && not (has ns.name seen)

-- The loop of DedicatedServiceNamespaces.
unfoldable pub dedicated_loop :
    String → List (Option ServiceNamespace) → List String → List ServiceNamespace
dedicated_loop own [] seen = []
dedicated_loop own (none ∷ blocks) seen = dedicated_loop own blocks seen
dedicated_loop own (some ns ∷ blocks) seen =
    let rest = dedicated_loop own blocks seen in
    let later = dedicated_loop own blocks (ns.name ∷ seen) in
    if placed_apart own ns seen then ns ∷ later else rest

-- DedicatedServiceNamespaces.
unfoldable pub dedicated_service_namespaces : ControlPlane → List ServiceNamespace
dedicated_service_namespaces cp =
    dedicated_loop cp.namespace (keystone_block cp.keystone ∷ horizon_block cp.horizon ∷ []) []

-- controlPlaneNamespaces.
abbrev pub control_plane_namespaces : ControlPlane → List String
control_plane_namespaces cp = cp.namespace ∷ map (λ ns. ns.name) (dedicated_service_namespaces cp)
