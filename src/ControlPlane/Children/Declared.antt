-- ===== src/ControlPlane/Children/Declared.antt =====
-- operators/c5c3/internal/controller/reconcile_delete.go: the K-ORC CRs of a ControlPlane, one by one, and
-- the list that orcChildObjects makes of them.
use c5c3_forge.Prelude.{
  ◌≡◌, ◌≢◌, refl, inl, inr, subst, true, List, [], ◌∷◌, String, some, map, Member,
  append-Member_left, append-Member_right, map-Member, str_eq_ne,
}
use c5c3_forge.ControlPlane.State.{
  ControlPlane, ServiceAccount, CatalogEntry, KeystoneService, is_external_keystone,
}
use c5c3_forge.ControlPlane.Cluster.{
  application_credential, service, endpoint, user, project, domain, role, role_assignment,
}
use c5c3_forge.ControlPlane.Names.{
  SlugTools, admin_app_credential_name, admin_user_ref, admin_domain_ref, keystone_service_name,
  keystone_endpoint_name, keystone_endpoint_import_name, catalog_entry_service_name,
  catalog_entry_endpoint_name, service_account_user_ref, service_account_user_probe_ref,
  service_account_project_ref, service_account_project_probe_ref, service_account_domain_ref,
  service_account_role_import_ref, service_account_role_assignment_ref,
}
use c5c3_forge.ControlPlane.Children.{
  OrcChild, child, each, role_children, own_domain, account_children, entry_children,
  external_managed_catalog_entries, external_children, orc_child_objects,
}
use c5c3_forge.ControlPlane.Children.Keys.{korc_kind}

-- The CRs of a declared service account.
pub data AccountChild (slug : SlugTools) (cp : ControlPlane) (sa : ServiceAccount)
    : OrcChild → Type 0 where
  account_user : AccountChild slug cp sa (child user (service_account_user_ref cp sa))
  account_user_probe : AccountChild slug cp sa (child user (service_account_user_probe_ref cp sa))
  account_project : AccountChild slug cp sa (child project (service_account_project_ref cp sa))
  account_project_probe :
      AccountChild slug cp sa (child project (service_account_project_probe_ref cp sa))
  account_role :
      (r : String)
      → Member r sa.roles
      → AccountChild slug cp sa (child role (service_account_role_import_ref slug cp r))
  account_assignment :
      (r : String)
      → Member r sa.roles
      → AccountChild slug cp sa
          (child role_assignment (service_account_role_assignment_ref slug cp sa r))
  -- A domain of its own.
  account_domain :
      service_account_domain_ref cp sa ≢ admin_domain_ref cp
      → AccountChild slug cp sa (child domain (service_account_domain_ref cp sa))

-- The CRs that a ControlPlane declares: the admin's, the identity service's, those of each service
-- account, and with an external Keystone the imported endpoints and the managed catalog entries.
pub data DeclaredChild (slug : SlugTools) (cp : ControlPlane) : OrcChild → Type 0 where
  admin_credential :
      DeclaredChild slug cp (child application_credential (admin_app_credential_name cp))
  identity_service : DeclaredChild slug cp (child service (keystone_service_name cp))
  identity_endpoint : DeclaredChild slug cp (child endpoint (keystone_endpoint_name cp))
  admin_user : DeclaredChild slug cp (child user (admin_user_ref cp))
  admin_domain : DeclaredChild slug cp (child domain (admin_domain_ref cp))
  of_account :
      (sa : ServiceAccount) (d : OrcChild)
      → Member sa cp.service_accounts
      → AccountChild slug cp sa d
      → DeclaredChild slug cp d
  imported_endpoint :
      (i : String)
      → is_external_keystone cp ≡ true
      → Member i ("public" ∷ "internal" ∷ "admin" ∷ [])
      → DeclaredChild slug cp (child endpoint (keystone_endpoint_import_name cp i))
  entry_service :
      (k : KeystoneService) (e : CatalogEntry)
      → is_external_keystone cp ≡ true
      → cp.keystone ≡ some k
      → Member e k.managed_entries
      → DeclaredChild slug cp (child service (catalog_entry_service_name cp e.type))
  entry_endpoint :
      (k : KeystoneService) (e : CatalogEntry) (i : String)
      → is_external_keystone cp ≡ true
      → cp.keystone ≡ some k
      → Member e k.managed_entries
      → Member i e.interfaces
      → DeclaredChild slug cp (child endpoint (catalog_entry_endpoint_name cp e.type i))

each-Member :
    {A : Type 0} (f : A → List OrcChild) (a : A) (d : OrcChild) (xs : List A)
    → Member a xs
    → Member d (f a)
    → Member d (each f xs)
unfolding each
each-Member f a d [] h k = absurd h
each-Member f a d (x ∷ xs) (inl e) k =
    append-Member_left d (f x) (each f xs) (subst (λ y. Member d (f y)) e k)
each-Member f a d (x ∷ xs) (inr h) k =
    append-Member_right d (f x) (each f xs) (each-Member f a d xs h k)

module _ (slug : SlugTools) (cp : ControlPlane) where
  account_children-Member :
      (sa : ServiceAccount) (d : OrcChild)
      → AccountChild slug cp sa d
      → Member d (account_children slug cp sa)
  unfolding account_children
  account_children-Member sa _ account_user = inl refl
  account_children-Member sa _ account_user_probe = inr (inl refl)
  account_children-Member sa _ account_project = inr (inr (inl refl))
  account_children-Member sa _ account_project_probe = inr (inr (inr (inl refl)))
  account_children-Member sa _ (account_assignment r h) = inr (
      inr (
        inr (
          inr (
            append-Member_left _ (each (role_children slug cp sa) sa.roles) (own_domain slug cp sa)
              (each-Member (role_children slug cp sa) r _ sa.roles h (inl refl))))))
  account_children-Member sa _ (account_role r h) = inr (
      inr (
        inr (
          inr (
            append-Member_left _ (each (role_children slug cp sa) sa.roles) (own_domain slug cp sa)
              (each-Member (role_children slug cp sa) r _ sa.roles h (inr (inl refl)))))))
  account_children-Member sa _ (account_domain h) = inr (
      inr (
        inr (
          inr (
            append-Member_right _ (each (role_children slug cp sa) sa.roles) (own_domain slug cp sa)
              (rw (str_eq_ne h) (inl refl))))))

  -- An external child is in the list of an external Keystone.
  external :
      (d : OrcChild)
      → is_external_keystone cp ≡ true
      → Member d (external_children slug cp)
      → Member d (orc_child_objects slug cp)
  unfolding orc_child_objects
  external d e h = inr (
      inr (
        inr (
          inr (
            inr (
              append-Member_right d (each (account_children slug cp) cp.service_accounts) _
                (rw e h))))))

  entry-Member :
      (k : KeystoneService) (e : CatalogEntry) (d : OrcChild)
      → cp.keystone ≡ some k
      → Member e k.managed_entries
      → Member d (entry_children slug cp e)
      → Member d (external_children slug cp)
  entry-Member k e d q h m = inr (
      inr (
        inr (
          each-Member (entry_children slug cp) e d (external_managed_catalog_entries slug cp)
            (rw q h) m)))

  pub orc_child_objects-Member :
      (d : OrcChild) → DeclaredChild slug cp d → Member d (orc_child_objects slug cp)
  unfolding orc_child_objects
  orc_child_objects-Member _ admin_credential = inl refl
  orc_child_objects-Member _ identity_service = inr (inl refl)
  orc_child_objects-Member _ identity_endpoint = inr (inr (inl refl))
  orc_child_objects-Member _ admin_user = inr (inr (inr (inl refl)))
  orc_child_objects-Member _ admin_domain = inr (inr (inr (inr (inl refl))))
  orc_child_objects-Member _ (of_account sa d h a) = inr (
      inr (
        inr (
          inr (
            inr (
              append-Member_left d (each (account_children slug cp) cp.service_accounts) _ (
                each-Member (account_children slug cp) sa d cp.service_accounts h
                  (account_children-Member sa d a)))))))
  orc_child_objects-Member _ (imported_endpoint i e h) = external _ e (
      append-Member_left _
        (map (λ i. child endpoint (keystone_endpoint_import_name cp i))
          ("public" ∷ "internal" ∷ "admin" ∷ []))
        (each (entry_children slug cp) (external_managed_catalog_entries slug cp))
        (map-Member (λ i. child endpoint (keystone_endpoint_import_name cp i)) i
          ("public" ∷ "internal" ∷ "admin" ∷ []) h))
  orc_child_objects-Member _ (entry_service k e x q h) =
      external _ x (entry-Member k e _ q h (inl refl))
  orc_child_objects-Member _ (entry_endpoint k e i x q h m) = external _ x (
      entry-Member k e _ q h (
        inr (
          map-Member (λ i. child endpoint (catalog_entry_endpoint_name cp e.type i)) i e.interfaces
            m)))

  account-korc_kind :
      (sa : ServiceAccount) (d : OrcChild)
      → AccountChild slug cp sa d
      → korc_kind d.kind ≡ some d.kind
  account-korc_kind sa _ account_user = refl
  account-korc_kind sa _ account_user_probe = refl
  account-korc_kind sa _ account_project = refl
  account-korc_kind sa _ account_project_probe = refl
  account-korc_kind sa _ (account_role r h) = refl
  account-korc_kind sa _ (account_assignment r h) = refl
  account-korc_kind sa _ (account_domain h) = refl

  -- All of them are of K-ORC's kinds.
  pub declared-korc_kind : (d : OrcChild) → DeclaredChild slug cp d → korc_kind d.kind ≡ some d.kind
  declared-korc_kind _ admin_credential = refl
  declared-korc_kind _ identity_service = refl
  declared-korc_kind _ identity_endpoint = refl
  declared-korc_kind _ admin_user = refl
  declared-korc_kind _ admin_domain = refl
  declared-korc_kind _ (of_account sa d h a) = account-korc_kind sa d a
  declared-korc_kind _ (imported_endpoint i e h) = refl
  declared-korc_kind _ (entry_service k e x q h) = refl
  declared-korc_kind _ (entry_endpoint k e i x q h m) = refl
