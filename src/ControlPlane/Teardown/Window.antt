-- ===== src/ControlPlane/Teardown/Window.antt =====
-- operators/c5c3/internal/controller/reconcile_delete.go: the passes within the stall window.
use c5c3_forge.Prelude.{
  ◌≡◌, refl, Bool, true, false, not, List, [], ◌∷◌, String, Option, none, some, if_cases,
}
use c5c3_forge.Kube.Error.{Error, Answer, ok, err}
use c5c3_forge.Kube.Outcome.{Outcome}
use c5c3_forge.ControlPlane.Cluster.{Object}
use c5c3_forge.ControlPlane.Pass.{
  Tools, Pass, control_plane_orc_finalizer, is_stalled, with_objects,
}
use c5c3_forge.ControlPlane.Namespaces.{teardown_dedicated_namespaces}
use c5c3_forge.ControlPlane.Namespaces.Frame.{teardown_dedicated_namespaces-Keeps}
use c5c3_forge.ControlPlane.Orc.Gentle.{
  Gentle, delete_orc_resources-P, delete_owned_push_secrets-P, gentle-DeletesOwned,
  force_remove_korc_finalizers-P,
}
use c5c3_forge.ControlPlane.Teardown.{
  none_managed, release_finalizer, finalizer_written, after_namespaces, after_imports, not_drained,
  by_remaining, after_push, after_orc, reconcile_delete, announce_complete,
}

module _ {W : Type 0} (tools : Tools W) {P : W → Type 0} (gentle : Gentle tools.client P) where
  finalizer_written-P :
      (what : String) (p : Pass W) (r : W × Option Error)
      → P r.0
      → P (finalizer_written tools what p r).0.cluster
  finalizer_written-P what p (w, none) h = h
  finalizer_written-P what p (w, some e) h = h

  release_finalizer-P :
      (what : String) (p : Pass W) → P p.cluster → P (release_finalizer tools what p).0.cluster
  release_finalizer-P what p h =
      let fs = tools.client.remove_finalizer p.finalizers control_plane_orc_finalizer in
      finalizer_written-P what (record p { finalizers = fs }) _ (gentle.update_owner p.cluster fs h)

  after_namespaces-P :
      (r : Pass W × Answer Bool) → P r.0.cluster → P (after_namespaces tools r).0.cluster
  after_namespaces-P (p, err e) h = h
  after_namespaces-P (p, ok false) h = h
  after_namespaces-P (p, ok true) h =
      release_finalizer-P "removing finalizer: " (announce_complete tools p) h

  after_imports-P :
      (remaining : List Object) (p : Pass W) (r : W × Option Error)
      → P r.0
      → P (after_imports tools remaining p r).0.cluster
  after_imports-P remaining p (w, some e) h = h
  after_imports-P remaining p (w, none) h = h

  not_drained-P :
      (remaining push : List Object) (p : Pass W)
      → is_stalled tools ≡ false
      → P p.cluster
      → P (not_drained tools remaining push p).0.cluster
  not_drained-P [] push p s h = rw s h
  not_drained-P (obj ∷ remaining) push p s h =
      if_cases {A = Pass W × Outcome} (λ r. P r.0.cluster) (none_managed (obj ∷ remaining))
        (λ un.
          after_imports-P (obj ∷ remaining) p _
            (force_remove_korc_finalizers-P gentle (obj ∷ remaining) p.cluster un h))
        (λ _. rw s h)

  by_remaining-P :
      (remaining push : List Object) (p : Pass W)
      → is_stalled tools ≡ false
      → P p.cluster
      → P (by_remaining tools remaining push p).0.cluster
  by_remaining-P [] [] p s h =
      after_namespaces-P (teardown_dedicated_namespaces tools p)
        (teardown_dedicated_namespaces-Keeps tools p.finalizers (gentle-DeletesOwned gentle p.cp) p
          (refl, refl, h)).2
  by_remaining-P [] (ps ∷ push) p s h = not_drained-P [] (ps ∷ push) p s h
  by_remaining-P (obj ∷ remaining) push p s h = not_drained-P (obj ∷ remaining) push p s h

  after_push-P :
      (r : List Object × Bool) (p : Pass W) (a : W × Answer (List Object))
      → is_stalled tools ≡ false
      → P a.0
      → P (after_push tools r p a).0.cluster
  after_push-P (remaining, live) p (w, err e) s h = h
  after_push-P (remaining, true) p (w, ok push) s h = by_remaining-P remaining push _ s h
  after_push-P (remaining, false) p (w, ok push) s h = by_remaining-P remaining push _ s h

  after_orc-P :
      (p : Pass W) (r : W × Answer (List Object × Bool))
      → is_stalled tools ≡ false
      → P r.0
      → P (after_orc tools p r).0.cluster
  after_orc-P p (w, err e) s h = h
  after_orc-P p (w, ok r) s h =
      after_push-P r (with_objects w p) _ s (delete_owned_push_secrets-P gentle p.cp w h)

  -- Until the stall timeout has passed, a pass changes the cluster only by deletions, by taking
  -- K-ORC's finalizers from unmanaged imports, and by writing the ControlPlane: what these three
  -- leave true is true after the pass. So no managed CR loses the finalizer that revokes it.
  pub reconcile_delete-Gentle :
      (p : Pass W) → is_stalled tools ≡ false → P p.cluster → P (reconcile_delete tools p).0.cluster
  unfolding reconcile_delete
  reconcile_delete-Gentle p s h =
      if_cases {A = Pass W × Outcome} (λ r. P r.0.cluster)
        (not (tools.client.contains_finalizer p.finalizers control_plane_orc_finalizer)) (λ _. h)
        (λ _. after_orc-P p _ s (delete_orc_resources-P gentle p.cp tools.slug p.cluster h))
