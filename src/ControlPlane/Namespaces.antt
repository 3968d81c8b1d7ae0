-- ===== src/ControlPlane/Namespaces.antt =====
-- operators/c5c3/internal/controller/reconcile_delete.go: the teardown of what a ControlPlane
-- placed in namespaces of its own.
pub mod Frame
use c5c3_forge.Prelude.{
  Bool, true, false, not, List, [], ◌∷◌, ◌++◌, String, Option, none, some, str_eq, length,
  if◌then◌else◌,
}
use c5c3_forge.Kube.Text.{concat, quote, list_text}
use c5c3_forge.Kube.Error.{Error, Answer, ok, err, wrap, is_not_found}
use c5c3_forge.Release.Atoi.{decimal}
use c5c3_forge.Database.Flow.{warning}
use c5c3_forge.ControlPlane.State.{
  ServiceNamespace, ControlPlane, keystone_namespace, horizon_namespace,
  dedicated_service_namespaces,
}
use c5c3_forge.ControlPlane.Cluster.{
  Kind, keystone, horizon, namespace_kind, kind_name, Object, Client, is_absent, object_key,
  is_control_plane_child,
}
use c5c3_forge.ControlPlane.Names.{keystone_name, horizon_name}
use c5c3_forge.ControlPlane.Pass.{Tools, Pass, is_stalled, with_objects, announce, holds_back}
use c5c3_forge.ControlPlane.Residue.{sweep_external_namespace_residue}

abbrev if_listed : Bool → Kind × String → List (Kind × String)
if_listed true ch = ch ∷ []
if_listed false ch = []

-- crossNamespaceServiceChildren: the kinds and names.
unfoldable pub cross_namespace_service_children : ControlPlane → String → List (Kind × String)
cross_namespace_service_children cp namespace =
    if_listed (str_eq (keystone_namespace cp) namespace) (keystone, keystone_name cp)
    ++ if_listed (str_eq (horizon_namespace cp) namespace) (horizon, horizon_name cp)

module _ {W : Type 0} (c : Client W) (cp : ControlPlane) (namespace : String) where
  abbrev told : Kind × String → String
  told ch = concat (kind_name ch.0 ∷ " " ∷ object_key namespace ch.1 ∷ [])

  -- The child stays in the list of those that remain, whether it was being deleted or is now.
  abbrev pub service_child_deleted : Kind × String → W × Option Error → W × Answer (List String)
  service_child_deleted ch (w, none) = (w, ok (object_key namespace ch.1 ∷ []))
  service_child_deleted ch (w, some e) =
      if is_not_found e
      then (w, ok (object_key namespace ch.1 ∷ []))
      else (w, err (wrap (concat ("deleting " ∷ told ch ∷ ": " ∷ [])) e))

  abbrev pub service_child_read : Kind × String → W → Answer Object → W × Answer (List String)
  service_child_read ch w (err e) = if is_absent e then (w, ok []) else (
    w,
    err (wrap (concat ("getting " ∷ told ch ∷ " for cross-namespace teardown: " ∷ [])) e),
  )
  service_child_read ch w (ok obj) =
      if not (is_control_plane_child c obj cp)
      then (w, ok [])
      else service_child_deleted ch
          (if not obj.deleting then c.delete_background w obj else (w, none))

  abbrev pub delete_service_child : Kind × String → W → W × Answer (List String)
  delete_service_child ch w = service_child_read ch w (c.get w ch.0 namespace ch.1)

  -- The loop of deleteServiceChildrenIn.
  unfoldable pub delete_service_children :
      List (Kind × String) → List String → W → W × Answer (List String)
  delete_service_children [] remaining w = (w, ok remaining)
  delete_service_children (ch ∷ chs) remaining w =
      let (w', a) = delete_service_child ch w in
      elim a [
        | err e ↦ (w', err e)
        | ok found ↦ delete_service_children chs (remaining ++ found) w'
      ]

  -- deleteServiceChildrenIn.
  unfoldable pub delete_service_children_in : W → W × Answer (List String)
  delete_service_children_in w =
      delete_service_children (cross_namespace_service_children cp namespace) [] w

module _ {W : Type 0} (tools : Tools W) where
  abbrev namespace_deleted : String → Pass W → W × Option Error → Pass W × Option Error
  namespace_deleted name p (w, none) = (with_objects w p, none)
  namespace_deleted name p (w, some e) = if is_not_found e then (with_objects w p, none) else (
    with_objects w p,
    some (wrap (concat ("deleting managed service namespace " ∷ quote name ∷ ": " ∷ [])) e),
  )

  abbrev namespace_read : String → Pass W → Answer Object → Pass W × Option Error
  namespace_read name p (err e) = if is_not_found e then (p, none) else (
    p,
    some (
        wrap (concat ("getting managed service namespace " ∷ quote name ∷ " for teardown: " ∷ []))
          e),
  )
  namespace_read name p (ok ns) =
      if ns.deleting
      then (p, none)
      else if not (is_control_plane_child tools.client ns p.cp)
      then (
        announce warning "NamespaceNotOwned"
            (concat (
              "namespace "
              ∷ quote name
              ∷ " does not carry this ControlPlane's ownership labels, so it was NOT deleted even though "
              ∷ "its lifecycle is Managed; the operator never destroys a namespace it did not create"
              ∷ []))
            p,
        none,
      )
      else namespace_deleted name p (tools.client.delete p.cluster ns)

  -- deleteManagedNamespace. A namespace is an object in no namespace.
  unfoldable pub delete_managed_namespace : String → Pass W → Pass W × Option Error
  delete_managed_namespace name p =
      namespace_read name p (tools.client.get p.cluster namespace_kind "" name)

  abbrev pub nothing_stuck : Pass W × Option Error → Pass W × Answer (List String)
  nothing_stuck (p, none) = (p, ok [])
  nothing_stuck (p, some e) = (p, err e)

  abbrev pub after_service_children :
      ServiceNamespace → Pass W → W × Answer (List String) → Pass W × Answer (List String)
  after_service_children ns p (w, err e) = (with_objects w p, err e)
  after_service_children ns p (w, ok (s ∷ ss)) = (with_objects w p, ok (s ∷ ss))
  after_service_children ns p (w, ok []) =
      if str_eq ns.lifecycle "External"
      then (with_objects (sweep_external_namespace_residue p.cp tools.client ns.name w) p, ok [])
      else nothing_stuck (delete_managed_namespace ns.name (with_objects w p))

  -- One turn of the loop of teardownDedicatedNamespaces: the children that hold it up.
  abbrev pub teardown_namespace : ServiceNamespace → Pass W → Pass W × Answer (List String)
  teardown_namespace ns p =
      after_service_children ns p (delete_service_children_in tools.client p.cp ns.name p.cluster)

  unfoldable pub teardown_namespaces :
      List ServiceNamespace → List String → Pass W → Pass W × Answer (List String)
  teardown_namespaces [] stuck p = (p, ok stuck)
  teardown_namespaces (ns ∷ rest) stuck p =
      let (p', a) = teardown_namespace ns p in
      elim a [ err e ↦ (p', err e) | ok found ↦ teardown_namespaces rest (stuck ++ found) p' ]

  abbrev pub by_stuck : Pass W × Answer (List String) → Pass W × Answer Bool
  by_stuck (p, err e) = (p, err e)
  by_stuck (p, ok []) = (p, ok true)
  by_stuck (p, ok (s ∷ ss)) =
      if not (is_stalled tools)
      then (
        holds_back tools.meta "NamespacesReady" "FinalizingNamespaces"
            (concat (
              "waiting for "
              ∷ decimal (length (s ∷ ss))
              ∷ " cross-namespace child(ren) to finish their teardown before releasing the ControlPlane: "
              ∷ list_text (s ∷ ss)
              ∷ []))
            p,
        ok false,
      )
      else (
        announce warning "NamespaceTeardownStalled"
            (concat (
              "cross-namespace child(ren) "
              ∷ list_text (s ∷ ss)
              ∷ " stayed present longer than 5m0s; releasing the ControlPlane anyway. "
              ∷ "They carry no owner reference, so nothing will garbage-collect them — remove them by hand"
              ∷ []))
            p,
        ok true,
      )

  -- teardownDedicatedNamespaces: whether the sweep is complete.
  unfoldable pub teardown_dedicated_namespaces : Pass W → Pass W × Answer Bool
  teardown_dedicated_namespaces p =
      by_stuck (teardown_namespaces (dedicated_service_namespaces p.cp) [] p)
