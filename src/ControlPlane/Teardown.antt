-- ===== src/ControlPlane/Teardown.antt =====
-- operators/c5c3/internal/controller/reconcile_delete.go, reconcileDelete: one pass over a
-- ControlPlane that is being deleted.
pub mod Drained
pub mod Clear
pub mod Release
pub mod Window
pub mod Escape
use c5c3_forge.Prelude.{
  Bool, true, false, not, List, [], ◌∷◌, ◌++◌, String, Option, none, some, map, length,
  if◌then◌else◌,
}
use c5c3_forge.Kube.Text.{concat, quote, list_text}
use c5c3_forge.Kube.Error.{Error, Answer, ok, err, wrap, is_not_found}
use c5c3_forge.Kube.Outcome.{Outcome, done, returns, fails, requeue_in}
use c5c3_forge.Release.Atoi.{decimal}
use c5c3_forge.Database.Flow.{normal, warning}
use c5c3_forge.ControlPlane.Cluster.{Object, Client}
use c5c3_forge.ControlPlane.Orc.{
  delete_orc_resources, delete_owned_push_secrets, is_managed_orc_child,
  force_remove_korc_finalizers,
}
use c5c3_forge.ControlPlane.Namespaces.{teardown_dedicated_namespaces}
use c5c3_forge.ControlPlane.Pass.{
  Tools, Pass, korc_requeue_after, namespace_requeue_after, control_plane_orc_finalizer, is_stalled,
  with_objects, announce, holds_back,
}

-- obj.GetName() of each object.
abbrev pub names : List Object → List String
names = map (λ obj. obj.name)

-- The loop that appends to `orphaned`.
unfoldable pub orphaned : List Object → List String
orphaned [] = []
orphaned (obj ∷ objs) =
    let rest = orphaned objs in if is_managed_orc_child obj then obj.name ∷ rest else rest

-- The loop that clears onlyUnmanagedLeft.
unfoldable pub none_managed : List Object → Bool
none_managed [] = true
none_managed (obj ∷ objs) =
    let rest = none_managed objs in if is_managed_orc_child obj then false else rest

-- onlyUnmanagedLeft.
abbrev pub only_unmanaged_left : List Object → Bool
only_unmanaged_left [] = false
only_unmanaged_left (obj ∷ objs) = none_managed (obj ∷ objs)

unfoldable pub stuck_keys : List Object → List String
stuck_keys [] = []
stuck_keys (ps ∷ rest) = ps.remote_keys ++ stuck_keys rest

-- The loop that clears the finalizers of the PushSecrets.
unfoldable pub release_push_secrets : {W : Type 0} → Client W → List Object → W → W × Option Error
release_push_secrets c [] w = (w, none)
release_push_secrets c (ps ∷ rest) w =
    let (w', failure) = c.update w (record ps { finalizers = [] }) in
    let later = release_push_secrets c rest w' in
    elim failure [
      | none ↦ later
      | some e ↦
          if not (is_not_found e)
          then (
            w',
            some (
                wrap
                  (concat
                    ("force-removing finalizers from PushSecret " ∷ quote ps.name ∷ ": " ∷ []))
                  e),
          )
          else later
    ]

module _ {W : Type 0} (tools : Tools W) where
  abbrev pub finalizer_written : String → Pass W → W × Option Error → Pass W × Outcome
  finalizer_written what p (w, none) = (with_objects w p, done)
  finalizer_written what p (w, some e) = (with_objects w p, fails (wrap what e))

  -- controllerutil.RemoveFinalizer and r.Update.
  abbrev pub release_finalizer : String → Pass W → Pass W × Outcome
  release_finalizer what p =
      let fs = tools.client.remove_finalizer p.finalizers control_plane_orc_finalizer in
      finalizer_written what (record p { finalizers = fs }) (tools.client.update_owner p.cluster fs)

  abbrev pub announce_complete : Pass W → Pass W
  announce_complete =
      announce normal "ORCTeardownComplete"
        "No remaining K-ORC CRs; releasing the ControlPlane finalizer"

  -- Nothing remains of the K-ORC CRs and the PushSecrets.
  abbrev pub after_namespaces : Pass W × Answer Bool → Pass W × Outcome
  after_namespaces (p, err e) = (p, fails e)
  after_namespaces (p, ok false) = (p, returns (requeue_in namespace_requeue_after))
  after_namespaces (p, ok true) = release_finalizer "removing finalizer: " (announce_complete p)

  abbrev pub after_imports : List Object → Pass W → W × Option Error → Pass W × Outcome
  after_imports remaining p (w, some e) = (with_objects w p, fails e)
  after_imports remaining p (w, none) = (
    announce normal "ORCImportsReleased"
        (concat (
          "released the K-ORC finalizers of the remaining unmanaged import CR(s) "
          ∷ list_text (names remaining)
          ∷ ": an import's deletion is "
          ∷ "CR-only, and its finalizer cannot authenticate once the admin application credential is revoked"
          ∷ []))
        (with_objects w p),
    returns (requeue_in korc_requeue_after),
  )

  -- Only unmanaged imports remain.
  abbrev pub release_imports : List Object → Pass W → Pass W × Outcome
  release_imports remaining p =
      after_imports remaining p (force_remove_korc_finalizers tools.client remaining p.cluster)

  -- Within the stall window.
  abbrev pub wait_for_teardown : List Object → List Object → Pass W → Pass W × Outcome
  wait_for_teardown remaining push p = (
    holds_back tools.meta "KORCReady" "FinalizingORC"
        (concat (
          "waiting for "
          ∷ decimal (length remaining)
          ∷ " K-ORC CR(s) and "
          ∷ decimal (length push)
          ∷ " PushSecret(s) to finish their teardown before releasing the ControlPlane"
          ∷ []))
        p,
    returns (requeue_in korc_requeue_after),
  )

  abbrev warn_orphaned : List String → Pass W → Pass W
  warn_orphaned [] p = p
  warn_orphaned (n ∷ ns) p =
      announce warning "ORCResourcesOrphaned"
        (concat (
          "the OpenStack resources behind the managed K-ORC CRs "
          ∷ list_text (n ∷ ns)
          ∷ " were NOT deleted: their finalizers were "
          ∷ "force-removed before K-ORC could revoke the admin application credential or remove the "
          ∷ "spec.services.keystone.external.catalog.managedEntries rows it registered. Nothing in "
          ∷ "Kubernetes names them any more — remove them from Keystone by hand"
          ∷ []))
        p

  abbrev warn_stalled : List Object → Pass W → Pass W
  warn_stalled remaining p = warn_orphaned (orphaned remaining) (
      announce warning "ORCTeardownStalled"
        (concat (
          "K-ORC CRs "
          ∷ list_text (names remaining)
          ∷ " stayed Terminating longer than 5m0s (K-ORC may be unable to reach Keystone to revoke); "
          ∷ "force-removed their K-ORC finalizers and releasing the ControlPlane"
          ∷ []))
        p)

  abbrev pub after_strip : List Object → Pass W → W × Option Error → Pass W × Option Error
  after_strip remaining p (w, some e) = (with_objects w p, some e)
  after_strip remaining p (w, none) = (warn_stalled remaining (with_objects w p), none)

  -- The K-ORC part of the stall escape.
  abbrev pub escape_orc : List Object → Pass W → Pass W × Option Error
  escape_orc [] p = (p, none)
  escape_orc (obj ∷ objs) p =
      after_strip (obj ∷ objs) p (force_remove_korc_finalizers tools.client (obj ∷ objs) p.cluster)

  abbrev pub after_push_release : List Object → Pass W → W × Option Error → Pass W × Option Error
  after_push_release push p (w, some e) = (with_objects w p, some e)
  after_push_release push p (w, none) = (
    announce warning "OpenBaoCleanupStalled"
        (concat (
          "ESO could not delete the mirrored OpenBao data behind "
          ∷ decimal (length push)
          ∷ " PushSecret(s) within 5m0s; the OpenBao path(s) "
          ∷ list_text (stuck_keys push)
          ∷ " may still hold the revoked credential — delete them by hand"
          ∷ []))
        (with_objects w p),
    none,
  )

  -- The PushSecret part of the stall escape.
  abbrev pub escape_push : List Object → Pass W × Option Error → Pass W × Option Error
  escape_push push (p, some e) = (p, some e)
  escape_push [] (p, none) = (p, none)
  escape_push (ps ∷ rest) (p, none) =
      after_push_release (ps ∷ rest) p (release_push_secrets tools.client (ps ∷ rest) p.cluster)

  abbrev pub after_escape : Pass W × Option Error → Pass W × Outcome
  after_escape (p, some e) = (p, fails e)
  after_escape (p, none) = release_finalizer "removing finalizer after force-remove: " p

  -- Past the stall timeout.
  abbrev pub escape : List Object → List Object → Pass W → Pass W × Outcome
  escape remaining push p = after_escape (escape_push push (escape_orc remaining p))

  abbrev pub not_drained : List Object → List Object → Pass W → Pass W × Outcome
  not_drained remaining push p =
      if only_unmanaged_left remaining
      then release_imports remaining p
      else if not (is_stalled tools)
      then wait_for_teardown remaining push p
      else escape remaining push p

  abbrev pub by_remaining : List Object → List Object → Pass W → Pass W × Outcome
  by_remaining [] [] p = after_namespaces (teardown_dedicated_namespaces tools p)
  by_remaining [] (ps ∷ push) p = not_drained [] (ps ∷ push) p
  by_remaining (obj ∷ remaining) push p = not_drained (obj ∷ remaining) push p

  abbrev announce_once : Bool → Pass W → Pass W
  announce_once live p =
      if live
      then announce normal "FinalizingORC"
          "Deleting owned K-ORC CRs before releasing the ControlPlane so K-ORC can revoke against a reachable Keystone"
          p
      else p

  abbrev pub after_push : List Object × Bool → Pass W → W × Answer (List Object) → Pass W × Outcome
  after_push (remaining, live) p (w, err e) = (with_objects w p, fails e)
  after_push (remaining, live) p (w, ok push) =
      by_remaining remaining push (announce_once live (with_objects w p))

  abbrev pub after_orc : Pass W → W × Answer (List Object × Bool) → Pass W × Outcome
  after_orc p (w, err e) = (with_objects w p, fails e)
  after_orc p (w, ok r) =
      after_push r (with_objects w p) (delete_owned_push_secrets tools.client p.cp w)

  -- reconcileDelete.
  unfoldable pub reconcile_delete : Pass W → Pass W × Outcome
  reconcile_delete p =
      if not (tools.client.contains_finalizer p.finalizers control_plane_orc_finalizer)
      then (p, done)
      else after_orc p (delete_orc_resources tools.client p.cp tools.slug p.cluster)
