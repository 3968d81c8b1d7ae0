-- ===== src/ControlPlane/Teardown/Clear.antt =====
-- operators/c5c3/internal/controller/reconcile_namespaces.go: what a complete sweep of the namespaces
-- of a ControlPlane has found in them.
use c5c3_forge.Prelude.{
  ◌≡◌, refl, subst, ap, ◌∙◌, inl, inr, true, false, List, [], ◌∷◌, ◌++◌, String, Option, none, some,
  Bool-cases, All,
}
use c5c3_forge.Kube.Error.{Error, Answer, ok, err, is_not_found, on_answer}
use c5c3_forge.ControlPlane.State.{ControlPlane, ServiceNamespace}
use c5c3_forge.ControlPlane.Cluster.{Kind, Object, Client, is_absent, is_control_plane_child}
use c5c3_forge.ControlPlane.Pass.{Tools, Pass}
use c5c3_forge.ControlPlane.Namespaces.{
  cross_namespace_service_children, service_child_deleted, service_child_read, delete_service_child,
  delete_service_children, delete_service_children_in, after_service_children, teardown_namespace,
  teardown_namespaces,
}
use c5c3_forge.ControlPlane.Teardown.Drained.{append_nil}

module _ {W : Type 0} (c : Client W) (cp : ControlPlane) where
  -- What a child of the ControlPlane answers when nothing waits for it: it is absent, or it is not the
  -- ControlPlane's.
  abbrev pub ChildClear : Answer Object → Type 0
  ChildClear (ok obj) = is_control_plane_child c obj cp ≡ false
  ChildClear (err e) = is_absent e ≡ true

  module _ (namespace : String) where
    service_child_deleted_ne :
        (ch : Kind × String) (r : W × Option Error)
        → (service_child_deleted c cp namespace ch r).1 ≡ ok []
        → ⊥
    service_child_deleted_ne ch (w, none) h = cc h
    service_child_deleted_ne ch (w, some e) h = elim (Bool-cases (is_not_found e)) [
      | inl b ↦ cc (rw b at h)
      | inr b ↦ cc (rw b at h)
    ]

    service_child_read-ChildClear :
        (ch : Kind × String) (w : W) (a : Answer Object)
        → (service_child_read c cp namespace ch w a).1 ≡ ok []
        → ((service_child_read c cp namespace ch w a).0 ≡ w) × ChildClear a
    service_child_read-ChildClear ch w (err e) h = elim (Bool-cases (is_absent e)) [
      | inl b ↦ rw b (refl, refl)
      | inr b ↦ absurd (cc (rw b at h))
    ]
    service_child_read-ChildClear ch w (ok obj) h =
        elim (Bool-cases (is_control_plane_child c obj cp)) [
          | inl b ↦ absurd (service_child_deleted_ne ch _ (rw b at h))
          | inr b ↦ rw b (refl, refl)
        ]

    abbrev pub ServiceClear : List (Kind × String) → W → Type 0
    ServiceClear chs w = All (λ ch. ChildClear (c.get w ch.0 namespace ch.1)) chs

    delete_service_children-ServiceClear :
        (chs : List (Kind × String)) (remaining : List String) (w : W)
        → (delete_service_children c cp namespace chs remaining w).1 ≡ ok []
        → (remaining ≡ []) × ServiceClear chs w
    unfolding delete_service_children
    delete_service_children-ServiceClear [] remaining w = λ h. (cc h, tt)
    delete_service_children-ServiceClear (ch ∷ chs) remaining w =
        on_answer (λ r. r.1 ≡ ok [] → (remaining ≡ []) × ServiceClear (ch ∷ chs) w)
          (λ found.
            delete_service_children c cp namespace chs (remaining ++ found)
              (delete_service_child c cp namespace ch w).0)
          (λ e. ((delete_service_child c cp namespace ch w).0, err e))
          (delete_service_child c cp namespace ch w).1
          (λ found turn h.
            let (both, rest) =
              delete_service_children-ServiceClear chs (remaining ++ found)
                (delete_service_child c cp namespace ch w).0 h in
            let (old, new) = append_nil remaining found both in
            let (same, clear) =
              service_child_read-ChildClear ch w (c.get w ch.0 namespace ch.1) (turn ∙ ap ok new) in
            (old, (clear, subst (ServiceClear chs) same rest)))
          (λ e h. absurd (cc h))

module _ {W : Type 0} (tools : Tools W) where
  -- In every namespace, when its turn comes, no child that the ControlPlane owns is left.
  unfoldable pub NamespacesClear : List ServiceNamespace → Pass W → Type 0
  NamespacesClear [] p = Unit
  NamespacesClear (ns ∷ rest) p =
      ServiceClear tools.client p.cp ns.name (cross_namespace_service_children p.cp ns.name)
        p.cluster
      × NamespacesClear rest (teardown_namespace tools ns p).0

  after_service_children_nil :
      (ns : ServiceNamespace) (p : Pass W) (r : W × Answer (List String))
      → (after_service_children tools ns p r).1 ≡ ok []
      → r.1 ≡ ok []
  after_service_children_nil ns p (w, err e) h = absurd (cc h)
  after_service_children_nil ns p (w, ok []) h = refl
  after_service_children_nil ns p (w, ok (s ∷ ss)) h = absurd (cc h)

  pub teardown_namespaces-NamespacesClear :
      (nss : List ServiceNamespace) (stuck : List String) (p : Pass W)
      → (teardown_namespaces tools nss stuck p).1 ≡ ok []
      → (stuck ≡ []) × NamespacesClear nss p
  unfolding teardown_namespaces NamespacesClear delete_service_children_in
  teardown_namespaces-NamespacesClear [] stuck p = λ h. (cc h, tt)
  teardown_namespaces-NamespacesClear (ns ∷ rest) stuck p =
      on_answer (λ r. r.1 ≡ ok [] → (stuck ≡ []) × NamespacesClear (ns ∷ rest) p)
        (λ found. teardown_namespaces tools rest (stuck ++ found) (teardown_namespace tools ns p).0)
        (λ e. ((teardown_namespace tools ns p).0, err e)) (teardown_namespace tools ns p).1
        (λ found turn h.
          let (both, later) =
            teardown_namespaces-NamespacesClear rest (stuck ++ found)
              (teardown_namespace tools ns p).0 h in
          let (old, new) = append_nil stuck found both in
          let (_, clear) =
            delete_service_children-ServiceClear tools.client p.cp ns.name
              (cross_namespace_service_children p.cp ns.name) [] p.cluster
              (after_service_children_nil ns p _ (turn ∙ ap ok new)) in
          (old, (clear, later)))
        (λ e h. absurd (cc h))
