-- ===== src/ControlPlane/Namespaces/Frame.antt =====
-- operators/c5c3/internal/controller/reconcile_delete.go: what the teardown of namespaces leaves
-- as it is, and the objects that it deletes.
use c5c3_forge.Prelude.{
  ◌≡◌, inl, inr, Bool, true, false, not, List, [], ◌∷◌, ◌++◌, String, Option, none, some,
  Bool-cases, if_cases, if◌then◌else◌, str_eq, arith,
}
use c5c3_forge.Kube.Error.{Error, Answer, ok, err, is_not_found}
use c5c3_forge.ControlPlane.State.{ControlPlane, ServiceNamespace, dedicated_service_namespaces}
use c5c3_forge.ControlPlane.Cluster.{Kind, Object, Client, is_absent, is_control_plane_child}
use c5c3_forge.ControlPlane.Pass.{Tools, Pass, is_stalled, with_objects}
use c5c3_forge.ControlPlane.Residue.{
  residue_objects, sweep_object, sweep_objects, sweep_external_namespace_residue,
}
use c5c3_forge.ControlPlane.Namespaces.{
  cross_namespace_service_children, service_child_deleted, service_child_read, delete_service_child,
  delete_service_children, delete_service_children_in, namespace_deleted, namespace_read,
  delete_managed_namespace, nothing_stuck, after_service_children, teardown_namespace,
  teardown_namespaces, by_stuck, teardown_dedicated_namespaces,
}

-- A property of the cluster that the deletion of a child of the ControlPlane does not break.
pub record DeletesOwned {W : Type 0} (c : Client W) (cp : ControlPlane) (P : W → Type 0)
    : Type 0 where
  pub delete :
      (w : W) (obj : Object) → is_control_plane_child c obj cp ≡ true → P w → P (c.delete w obj).0
  pub delete_background :
      (w : W) (obj : Object)
      → is_control_plane_child c obj cp ≡ true
      → P w
      → P (c.delete_background w obj).0

module _ {W : Type 0} {c : Client W} {cp : ControlPlane} {P : W → Type 0}
    (owned : DeletesOwned c cp P) where
  -- Both branches of a conditional that ends a function.
  either :
      {A : Type 0} (b : Bool) (x y : W × A)
      → (b ≡ true → P x.0)
      → (b ≡ false → P y.0)
      → P (if b then x else y).0
  either {A} b x y = if_cases {A = W × A} (λ r. P r.0) b

  sweep_object-P : (w : W) (a : Answer Object) → P w → P (sweep_object cp c w a)
  sweep_object-P w (err e) h = h
  sweep_object-P w (ok obj) h = elim (Bool-cases (is_control_plane_child c obj cp)) [
    | inl e ↦ rw e (owned.delete w obj e h)
    | inr e ↦ rw e h
  ]

  sweep_objects-P :
      (namespace : String) (os : List (Kind × String)) (w : W)
      → P w
      → P (sweep_objects cp c namespace os w)
  unfolding sweep_objects
  sweep_objects-P namespace [] w h = h
  sweep_objects-P namespace (o ∷ os) w h =
      sweep_objects-P namespace os _ (sweep_object-P w (c.get w o.0 namespace o.1) h)

  service_child_deleted-P :
      (namespace : String) (ch : Kind × String) (r : W × Option Error)
      → P r.0
      → P (service_child_deleted c cp namespace ch r).0
  service_child_deleted-P namespace ch (w, none) h = h
  service_child_deleted-P namespace ch (w, some e) h = either (is_not_found e) _ _ (λ _. h) (λ _. h)

  service_child_read-P :
      (namespace : String) (ch : Kind × String) (w : W) (a : Answer Object)
      → P w
      → P (service_child_read c cp namespace ch w a).0
  service_child_read-P namespace ch w (err e) h = either (is_absent e) _ _ (λ _. h) (λ _. h)
  service_child_read-P namespace ch w (ok obj) h =
      elim (Bool-cases (is_control_plane_child c obj cp)) [
        | inr e ↦ rw e h
        | inl e ↦ rw e (
            service_child_deleted-P namespace ch _
              (either (not obj.deleting) _ _ (λ _. owned.delete_background w obj e h) (λ _. h)))
      ]

  next_child :
      {A B : Type 0} (f : A → W → W × Answer B) (r : W × Answer A)
      → P r.0
      → ((a : A) (w : W) → P w → P (f a w).0)
      → P (elim r.1 as (λ _. W × Answer B) [ err e ↦ (r.0, err e) | ok a ↦ f a r.0 ]).0
  next_child f (w, err e) h k = h
  next_child f (w, ok a) h k = k a w h

  delete_service_children-P :
      (namespace : String) (chs : List (Kind × String)) (remaining : List String) (w : W)
      → P w
      → P (delete_service_children c cp namespace chs remaining w).0
  unfolding delete_service_children
  delete_service_children-P namespace [] remaining w h = h
  delete_service_children-P namespace (ch ∷ chs) remaining w h =
      next_child (λ found. delete_service_children c cp namespace chs (remaining ++ found))
        (delete_service_child c cp namespace ch w)
        (service_child_read-P namespace ch w (c.get w ch.0 namespace ch.1) h)
        (λ found. delete_service_children-P namespace chs (remaining ++ found))

module _ {W : Type 0} (tools : Tools W) {cp : ControlPlane} {P : W → Type 0} (fs : List String)
    (owned : DeletesOwned tools.client cp P) where
  -- What a pass keeps: the ControlPlane, its finalizers in memory, and the property.
  abbrev pub Keeps : Pass W → Type 0
  Keeps p = (p.cp ≡ cp) × (p.finalizers ≡ fs) × P p.cluster

  namespace_deleted-Keeps :
      (name : String) (p : Pass W) (r : W × Option Error)
      → (p.cp ≡ cp) × (p.finalizers ≡ fs) × P r.0
      → Keeps (namespace_deleted tools name p r).0
  namespace_deleted-Keeps name p (w, none) h = h
  namespace_deleted-Keeps name p (w, some e) h =
      if_cases {A = Pass W × Option Error} (λ r. Keeps r.0) (is_not_found e) (λ _. h) (λ _. h)

  namespace_read-Keeps :
      (name : String) (p : Pass W) (a : Answer Object)
      → Keeps p
      → Keeps (namespace_read tools name p a).0
  namespace_read-Keeps name p (err e) h =
      if_cases {A = Pass W × Option Error} (λ r. Keeps r.0) (is_not_found e) (λ _. h) (λ _. h)
  namespace_read-Keeps name p (ok ns) h =
      if_cases {A = Pass W × Option Error} (λ r. Keeps r.0) ns.deleting (λ _. h)
        (λ _.
          if_cases {A = Pass W × Option Error} (λ r. Keeps r.0)
            (not (is_control_plane_child tools.client ns p.cp)) (λ _. h)
            (λ e.
              namespace_deleted-Keeps name p _
                (h.0, h.1, owned.delete p.cluster ns (child_of e h.0) h.2)))
    where
      child_of :
          not (is_control_plane_child tools.client ns p.cp) ≡ false
          → p.cp ≡ cp
          → is_control_plane_child tools.client ns cp ≡ true
      child_of e q = rw⁻¹ q (ground arith)

  nothing_stuck-Keeps : (r : Pass W × Option Error) → Keeps r.0 → Keeps (nothing_stuck tools r).0
  nothing_stuck-Keeps (p, none) h = h
  nothing_stuck-Keeps (p, some e) h = h

  after_service_children-Keeps :
      (ns : ServiceNamespace) (p : Pass W) (r : W × Answer (List String))
      → (p.cp ≡ cp) × (p.finalizers ≡ fs) × P r.0
      → Keeps (after_service_children tools ns p r).0
  unfolding delete_managed_namespace sweep_external_namespace_residue
  after_service_children-Keeps ns p (w, err e) h = h
  after_service_children-Keeps ns p (w, ok (s ∷ ss)) h = h
  after_service_children-Keeps ns p (w, ok []) h =
      if_cases {A = Pass W × Answer (List String)} (λ r. Keeps r.0) (str_eq ns.lifecycle "External")
        (λ _. (h.0, h.1, rw h.0 (sweep_objects-P owned ns.name (residue_objects cp ns.name) w h.2)))
        (λ _. nothing_stuck-Keeps _ (namespace_read-Keeps ns.name (with_objects w p) _ h))

  teardown_namespace-Keeps :
      (ns : ServiceNamespace) (p : Pass W) → Keeps p → Keeps (teardown_namespace tools ns p).0
  unfolding delete_service_children_in
  teardown_namespace-Keeps ns p h = after_service_children-Keeps ns p _ (
    h.0,
    h.1,
    rw h.0 (
        delete_service_children-P owned ns.name (cross_namespace_service_children cp ns.name) []
          p.cluster h.2),
  )

  next_namespace :
      (f : List String → Pass W → Pass W × Answer (List String)) (r : Pass W × Answer (List String))
      → Keeps r.0
      → ((found : List String) (p : Pass W) → Keeps p → Keeps (f found p).0)
      → Keeps
          (elim r.1 as (λ _. Pass W × Answer (List String)) [
            | err e ↦ (r.0, err e)
            | ok found ↦ f found r.0
          ]).0
  next_namespace f (p, err e) h k = h
  next_namespace f (p, ok found) h k = k found p h

  teardown_namespaces-Keeps :
      (nss : List ServiceNamespace) (stuck : List String) (p : Pass W)
      → Keeps p
      → Keeps (teardown_namespaces tools nss stuck p).0
  unfolding teardown_namespaces
  teardown_namespaces-Keeps [] stuck p h = h
  teardown_namespaces-Keeps (ns ∷ nss) stuck p h =
      next_namespace (λ found. teardown_namespaces tools nss (stuck ++ found))
        (teardown_namespace tools ns p) (teardown_namespace-Keeps ns p h)
        (λ found. teardown_namespaces-Keeps nss (stuck ++ found))

  by_stuck-Keeps : (r : Pass W × Answer (List String)) → Keeps r.0 → Keeps (by_stuck tools r).0
  by_stuck-Keeps (p, err e) h = h
  by_stuck-Keeps (p, ok []) h = h
  by_stuck-Keeps (p, ok (s ∷ ss)) h =
      if_cases {A = Pass W × Answer Bool} (λ r. Keeps r.0) (not (is_stalled tools)) (λ _. h)
        (λ _. h)

  -- What the deletion of a child of the ControlPlane leaves true, the teardown of its namespaces
  -- leaves true: it deletes no namespace, no service child and no other object that the
  -- ControlPlane does not own. It also keeps the ControlPlane and its finalizers.
  pub teardown_dedicated_namespaces-Keeps :
      (p : Pass W) → Keeps p → Keeps (teardown_dedicated_namespaces tools p).0
  unfolding teardown_dedicated_namespaces
  teardown_dedicated_namespaces-Keeps p h =
      by_stuck-Keeps _ (teardown_namespaces-Keeps (dedicated_service_namespaces p.cp) [] p h)
