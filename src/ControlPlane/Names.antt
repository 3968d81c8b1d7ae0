-- ===== src/ControlPlane/Names.antt =====
-- The names of a ControlPlane's children: operators/c5c3/internal/controller/
-- reconcile_serviceaccounts.go, reconcile_catalog_external.go, korc_imports.go and the constants
-- of the other steps.
use Prim.Native.String.{len, slice}
use c5c3_forge.Prelude.{has}
use c5c3_forge.Prelude.{not, ◌&&◌, [], ◌∷◌, String, ltb, str_eq, if◌then◌else◌}
use c5c3_forge.Kube.Text.{concat}
use c5c3_forge.ControlPlane.State.{ControlPlane, ServiceAccount, control_plane_namespaces}

-- What the slug of a role takes from Go's libraries: strings.ToLower, the replacement of every
-- run of characters outside [a-z0-9] by "-", strings.Trim of "-", and SHA-256 in hexadecimal.
pub record SlugTools : Type 0 where
  pub to_lower : String → String
  pub dash_runs : String → String
  pub trim_dashes : String → String
  pub sha256_hex : String → String

-- cmp.Or of two texts.
abbrev pub or_text : String → String → String
or_text s default = if not (str_eq s "") then s else default

module _ (cp : ControlPlane) where
  abbrev named : String → String
  named suffix = concat (cp.name ∷ suffix ∷ [])

  abbrev pub admin_app_credential_name : String
  admin_app_credential_name = named "-admin-app-credential"

  abbrev pub admin_user_ref : String
  admin_user_ref = named "-user-admin"

  abbrev pub admin_domain_ref : String
  admin_domain_ref = named "-domain-default"

  abbrev pub admin_domain : String
  admin_domain = or_text cp.admin_domain_name "Default"

  abbrev pub keystone_name : String
  keystone_name = named "-keystone"

  abbrev pub horizon_name : String
  horizon_name = named "-horizon"

  abbrev pub keystone_service_name : String
  keystone_service_name = named "-identity-service"

  abbrev pub keystone_endpoint_name : String
  keystone_endpoint_name = named "-identity-endpoint"

  abbrev pub keystone_endpoint_import_name : String → String
  keystone_endpoint_import_name iface = concat (keystone_endpoint_name ∷ "-" ∷ iface ∷ [])

  abbrev pub admin_password_secret_name : String
  admin_password_secret_name = concat (keystone_name ∷ "-admin-credentials" ∷ [])

  abbrev pub db_credential_secret_name : String
  db_credential_secret_name = concat (keystone_name ∷ "-db-credentials" ∷ [])

  abbrev pub db_credential_client_cert_name : String
  db_credential_client_cert_name = concat (keystone_name ∷ "-db-openbao-client" ∷ [])

  abbrev pub catalog_entry_name_prefix : String
  catalog_entry_name_prefix = named "-catalog-"

  abbrev pub catalog_entry_service_name : String → String
  catalog_entry_service_name type = concat (catalog_entry_name_prefix ∷ type ∷ [])

  abbrev pub catalog_entry_endpoint_name : String → String → String
  catalog_entry_endpoint_name type iface =
      concat (catalog_entry_service_name type ∷ "-" ∷ iface ∷ [])

  abbrev pub service_account_child_prefix : String
  service_account_child_prefix = named "-service-account-"

  abbrev of_account : String → ServiceAccount → String
  of_account middle sa = concat (service_account_child_prefix ∷ middle ∷ sa.name ∷ [])

  abbrev pub service_account_user_ref : ServiceAccount → String
  service_account_user_ref = of_account "user-"

  abbrev pub service_account_user_probe_ref : ServiceAccount → String
  service_account_user_probe_ref = of_account "user-probe-"

  abbrev pub service_account_project_ref : ServiceAccount → String
  service_account_project_ref = of_account "project-"

  abbrev pub service_account_project_probe_ref : ServiceAccount → String
  service_account_project_probe_ref = of_account "project-probe-"

  abbrev pub service_account_domain_name : ServiceAccount → String
  service_account_domain_name sa = or_text sa.domain_name admin_domain

  abbrev pub service_account_domain_ref : ServiceAccount → String
  service_account_domain_ref sa =
      if str_eq (service_account_domain_name sa) admin_domain
      then admin_domain_ref
      else of_account "domain-" sa

  abbrev pub service_account_source_secret_name : ServiceAccount → String
  service_account_source_secret_name sa =
      concat (service_account_child_prefix ∷ sa.name ∷ "-source" ∷ [])

  abbrev pub service_account_credentials_secret_name : ServiceAccount → String
  service_account_credentials_secret_name sa =
      concat (service_account_child_prefix ∷ sa.name ∷ "-credentials" ∷ [])

  -- serviceAccountDeliveryNamespace.
  unfoldable pub service_account_delivery_namespace : ServiceAccount → String
  service_account_delivery_namespace sa =
      if not (str_eq sa.target_namespace "")
        && not (has sa.target_namespace (control_plane_namespaces cp))
      then cp.namespace
      else or_text sa.target_namespace cp.namespace

module _ (tools : SlugTools) where
  abbrev truncated : String → String
  truncated base = if ltb 16 (len base) then slice base 0 16 else base

  -- serviceAccountRoleSlug.
  unfoldable pub service_account_role_slug : String → String
  service_account_role_slug role = concat (
      truncated (tools.trim_dashes (tools.dash_runs (tools.to_lower role)))
      ∷ "-"
      ∷ slice (tools.sha256_hex role) 0 8
      ∷ [])

  abbrev pub service_account_role_import_ref : ControlPlane → String → String
  service_account_role_import_ref cp role =
      concat (service_account_child_prefix cp ∷ "role-" ∷ service_account_role_slug role ∷ [])

  abbrev pub service_account_role_assignment_ref : ControlPlane → ServiceAccount → String → String
  service_account_role_assignment_ref cp sa role =
      concat (
        service_account_child_prefix cp
        ∷ sa.name
        ∷ "-assign-"
        ∷ service_account_role_slug role
        ∷ [])
