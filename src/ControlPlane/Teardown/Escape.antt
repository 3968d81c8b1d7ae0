-- ===== src/ControlPlane/Teardown/Escape.antt =====
-- operators/c5c3/internal/controller/reconcile_delete.go: the passes past the stall timeout.
use c5c3_forge.Prelude.{
  ap, ◌∙◌, ◌≡◌, ◌≢◌, refl, inl, inr, Bool, true, false, List, [], ◌∷◌, String, Option, none, some,
  Bool-cases,
}
use c5c3_forge.Kube.Error.{Error, Answer, ok, err}
use c5c3_forge.Kube.Outcome.{Outcome}
use c5c3_forge.ControlPlane.Cluster.{Object, Client}
use c5c3_forge.ControlPlane.Orc.{delete_orc_resources}
use c5c3_forge.ControlPlane.Pass.{
  Tools, Pass, control_plane_orc_finalizer, is_stalled, with_objects,
}
use c5c3_forge.ControlPlane.Namespaces.{by_stuck, teardown_dedicated_namespaces}
use c5c3_forge.ControlPlane.Teardown.{
  only_unmanaged_left, release_finalizer, finalizer_written, after_namespaces, after_imports,
  after_escape, not_drained, by_remaining, after_push, reconcile_delete,
}

-- What controllerutil documents of RemoveFinalizer, and the API server of an Update: `stored` are the
-- ControlPlane's finalizers in the cluster, and an Update without an error stores those it is given.
pub record RemoveLaws {W : Type 0} (c : Client W) (stored : W → List String) : Type 0 where
  pub contains-remove :
      (fs : List String) (f : String) → c.contains_finalizer (c.remove_finalizer fs f) f ≡ false
  pub updated :
      (w : W) (fs : List String)
      → (c.update_owner w fs).1 ≡ none
      → stored (c.update_owner w fs).0 ≡ fs

module _ {W : Type 0} (tools : Tools W) {stored : W → List String}
    (laws : RemoveLaws tools.client stored) where
  abbrev holds_finalizer : List String → Bool
  holds_finalizer fs = tools.client.contains_finalizer fs control_plane_orc_finalizer

  -- The finalizer is kept in memory, to which an Update has not been made; or it is released in the
  -- cluster too.
  abbrev pub Ends : Bool → Pass W → Type 0
  Ends true p = tools.client.contains_finalizer p.finalizers control_plane_orc_finalizer ≡ true
  Ends false p =
      (tools.client.contains_finalizer p.finalizers control_plane_orc_finalizer ≡ false)
      × (tools.client.contains_finalizer (stored p.cluster) control_plane_orc_finalizer ≡ false)

  -- Where the pass ends without an error, it ends as `b` says.
  abbrev EndsWith : Bool → Pass W × Outcome → Type 0
  EndsWith b r = r.1.error ≡ none → Ends b r.0

  written_ends :
      (what : String) (q : Pass W) (r : W × Option Error)
      → holds_finalizer q.finalizers ≡ false
      → (r.1 ≡ none → stored r.0 ≡ q.finalizers)
      → EndsWith false (finalizer_written tools what q r)
  written_ends what q (w, none) gone persisted h =
      (gone, ap holds_finalizer (persisted refl) ∙ gone)
  written_ends what q (w, some e) gone persisted h = absurd (cc h)

  release_finalizer-EndsWith :
      (what : String) (p : Pass W) → EndsWith false (release_finalizer tools what p)
  release_finalizer-EndsWith what p =
      written_ends what
        (record p {
          finalizers = tools.client.remove_finalizer p.finalizers control_plane_orc_finalizer;
        })
        (tools.client.update_owner p.cluster
          (tools.client.remove_finalizer p.finalizers control_plane_orc_finalizer))
        (laws.contains-remove p.finalizers control_plane_orc_finalizer)
        (laws.updated p.cluster
          (tools.client.remove_finalizer p.finalizers control_plane_orc_finalizer))

  after_namespaces-EndsWith :
      (r : Pass W × Answer Bool) → r.1 ≢ ok false → EndsWith false (after_namespaces tools r)
  after_namespaces-EndsWith (p, err e) ne h = cc h
  after_namespaces-EndsWith (p, ok false) ne h = absurd (ne refl)
  after_namespaces-EndsWith (p, ok true) ne h = release_finalizer-EndsWith _ _ h

  -- Past the timeout the sweep of the namespaces does not wait.
  by_stuck_ne :
      is_stalled tools ≡ true
      → (r : Pass W × Answer (List String)) → (by_stuck tools r).1 ≢ ok false
  by_stuck_ne s (p, err e) h = cc h
  by_stuck_ne s (p, ok []) h = cc h
  by_stuck_ne s (p, ok (x ∷ xs)) h = cc (rw s at h)

  after_escape-EndsWith : (r : Pass W × Option Error) → EndsWith false (after_escape tools r)
  after_escape-EndsWith (p, some e) h = cc h
  after_escape-EndsWith (p, none) h = release_finalizer-EndsWith _ p h

  after_imports-EndsWith :
      (remaining : List Object) (p : Pass W) (r : W × Option Error)
      → holds_finalizer p.finalizers ≡ true
      → EndsWith true (after_imports tools remaining p r)
  after_imports-EndsWith remaining p (w, some e) before h = before
  after_imports-EndsWith remaining p (w, none) before h = before

  not_drained-EndsWith :
      (remaining push : List Object) (p : Pass W)
      → is_stalled tools ≡ true
      → holds_finalizer p.finalizers ≡ true
      → EndsWith (only_unmanaged_left remaining) (not_drained tools remaining push p)
  not_drained-EndsWith remaining push p s before =
      elim (Bool-cases (only_unmanaged_left remaining)) [
        | inl u ↦ rw u (after_imports-EndsWith remaining p _ before)
        | inr u ↦ rw (u, s) (after_escape-EndsWith _)
      ]

  by_remaining-EndsWith :
      (remaining push : List Object) (p : Pass W)
      → is_stalled tools ≡ true
      → holds_finalizer p.finalizers ≡ true
      → EndsWith (only_unmanaged_left remaining) (by_remaining tools remaining push p)
  unfolding teardown_dedicated_namespaces
  by_remaining-EndsWith [] [] p s before =
      after_namespaces-EndsWith (teardown_dedicated_namespaces tools p) (by_stuck_ne s _)
  by_remaining-EndsWith [] (ps ∷ push) p s before = not_drained-EndsWith [] (ps ∷ push) p s before
  by_remaining-EndsWith (obj ∷ remaining) push p s before =
      not_drained-EndsWith (obj ∷ remaining) push p s before

  after_push-EndsWith :
      (remaining : List Object) (live : Bool) (p : Pass W) (r : W × Answer (List Object))
      → is_stalled tools ≡ true
      → holds_finalizer p.finalizers ≡ true
      → EndsWith (only_unmanaged_left remaining) (after_push tools (remaining, live) p r)
  after_push-EndsWith remaining live p (w, err e) s before = λ h. cc h
  after_push-EndsWith remaining true p (w, ok push) s before =
      by_remaining-EndsWith remaining push _ s before
  after_push-EndsWith remaining false p (w, ok push) s before =
      by_remaining-EndsWith remaining push _ s before

  -- Where controllerutil obeys its documentation, and an Update of the ControlPlane without an error
  -- stores the finalizers that it is given, a pass past the stall timeout that ends without an error
  -- releases the finalizer, in memory and in the cluster, unless the K-ORC CRs that remain are all
  -- unmanaged imports; then it keeps the finalizer in memory.
  pub reconcile_delete_escapes :
      (p : Pass W) (w : W) (remaining : List Object) (live : Bool)
      → tools.client.contains_finalizer p.finalizers control_plane_orc_finalizer ≡ true
      → is_stalled tools ≡ true
      → delete_orc_resources tools.client p.cp tools.slug p.cluster ≡ (w, ok (remaining, live))
      → (reconcile_delete tools p).1.error ≡ none
      → Ends (only_unmanaged_left remaining) (reconcile_delete tools p).0
  unfolding reconcile_delete
  reconcile_delete_escapes p w remaining live before s orc =
      rw (before, orc) (after_push-EndsWith remaining live (with_objects w p) _ s before)
