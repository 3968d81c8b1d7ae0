-- ===== src/ControlPlane/Teardown/Release.antt =====
-- operators/c5c3/internal/controller/reconcile_delete.go: when a pass gives up the finalizer.
use c5c3_forge.Prelude.{
  ap, subst, String, ◌≡◌, refl, ◌⊎◌, inl, inr, Bool, true, false, List, [], ◌∷◌, Option, none, some,
  Bool-cases, if_cases,
}
use c5c3_forge.Kube.Error.{Error, Answer, ok, err}
use c5c3_forge.Kube.Outcome.{Outcome}
use c5c3_forge.ControlPlane.State.{
  ControlPlane, dedicated_service_namespaces, control_plane_namespaces,
}
use c5c3_forge.ControlPlane.Cluster.{Object}
use c5c3_forge.ControlPlane.Orc.{delete_orc_resources, delete_owned_push_secrets}
use c5c3_forge.ControlPlane.Pass.{
  Tools, Pass, control_plane_orc_finalizer, is_stalled, with_objects,
}
use c5c3_forge.ControlPlane.Namespaces.{
  teardown_dedicated_namespaces, teardown_namespaces, by_stuck,
}
use c5c3_forge.ControlPlane.Namespaces.Frame.{DeletesOwned, teardown_dedicated_namespaces-Keeps}
use c5c3_forge.ControlPlane.Teardown.Drained.{
  OrcDrained, delete_orc_resources-OrcDrained, NoKind, PushesGone, sweep_push_secrets-PushesGone,
}
use c5c3_forge.ControlPlane.Teardown.Clear.{NamespacesClear, teardown_namespaces-NamespacesClear}
use c5c3_forge.ControlPlane.Teardown.{
  only_unmanaged_left, after_namespaces, after_imports, not_drained, by_remaining, after_push,
  after_orc, reconcile_delete,
}

module _ {W : Type 0} (tools : Tools W) where
  -- The grounds on which a pass may give up the finalizer.
  pub data Grounds (p : Pass W) : Type 0 where
    -- No K-ORC CR that the teardown names is there after the deletions; every owned PushSecret is not
    -- found after its deletion, or a List answers that PushSecrets are not installed; and then, in
    -- every dedicated namespace no owned child is left, unless the stall timeout has passed.
    drained :
        (w w' : W) (q : Pass W)
        → OrcDrained tools.client p.cp p.cluster w tools.slug
        → NoKind tools.client p.cp (control_plane_namespaces p.cp) w
          ⊎ PushesGone tools.client p.cp (control_plane_namespaces p.cp) w
        → (delete_owned_push_secrets tools.client p.cp w).0 ≡ w'
        → q.cp ≡ p.cp
        → q.cluster ≡ w'
        → (is_stalled tools ≡ true) ⊎ NamespacesClear tools (dedicated_service_namespaces p.cp) q
        → Grounds p
    -- The stall timeout has passed, and a managed CR or only PushSecrets remain.
    stalled :
        (w : W) (remaining : List Object) (live : Bool)
        → delete_orc_resources tools.client p.cp tools.slug p.cluster ≡ (w, ok (remaining, live))
        → only_unmanaged_left remaining ≡ false
        → is_stalled tools ≡ true
        → Grounds p

  -- The finalizers in memory are those before the pass, or there are grounds to change them.
  abbrev Justified : Pass W → Pass W × Outcome → Type 0
  Justified p r = (r.0.finalizers ≡ p.finalizers) ⊎ Grounds p

  after_namespaces-Justified :
      (p : Pass W) (r : Pass W × Answer Bool)
      → r.0.finalizers ≡ p.finalizers
      → (r.1 ≡ ok true → Grounds p)
      → Justified p (after_namespaces tools r)
  after_namespaces-Justified p (q, err e) same grounds = inl same
  after_namespaces-Justified p (q, ok false) same grounds = inl same
  after_namespaces-Justified p (q, ok true) same grounds = inr (grounds refl)

  after_imports-Justified :
      (p q : Pass W) (remaining : List Object) (r : W × Option Error)
      → q.finalizers ≡ p.finalizers
      → Justified p (after_imports tools remaining q r)
  after_imports-Justified p q remaining (w, some e) same = inl same
  after_imports-Justified p q remaining (w, none) same = inl same

  not_drained-Justified :
      (p q : Pass W) (remaining push : List Object)
      → q.finalizers ≡ p.finalizers
      → (only_unmanaged_left remaining ≡ false → is_stalled tools ≡ true → Grounds p)
      → Justified p (not_drained tools remaining push q)
  not_drained-Justified p q remaining push same grounds =
      if_cases {A = Pass W × Outcome} (Justified p) (only_unmanaged_left remaining)
        (λ _. after_imports-Justified p q remaining _ same)
        (λ u. elim (Bool-cases (is_stalled tools)) [
          | inl s ↦ inr (grounds u s)
          | inr s ↦ rw s (inl same)
        ])

  abbrev no_demand : {cp : ControlPlane} → DeletesOwned tools.client cp (λ _. Unit)
  no_demand = record { delete = λ w obj h u. u; delete_background = λ w obj h u. u }

  by_stuck-true :
      (r : Pass W × Answer (List String))
      → (by_stuck tools r).1 ≡ ok true
      → (is_stalled tools ≡ true) ⊎ (r.1 ≡ ok [])
  by_stuck-true (q, err e) h = absurd (cc h)
  by_stuck-true (q, ok []) h = inr refl
  by_stuck-true (q, ok (s ∷ ss)) h = elim (Bool-cases (is_stalled tools)) [
    | inl b ↦ inl b
    | inr b ↦ absurd (cc (rw b at h))
  ]

  -- The namespaces of a pass are clear, where the sweep is complete.
  torn_down :
      (cp : ControlPlane) (q : Pass W)
      → q.cp ≡ cp
      → (teardown_dedicated_namespaces tools q).1 ≡ ok true
      → (is_stalled tools ≡ true) ⊎ NamespacesClear tools (dedicated_service_namespaces cp) q
  unfolding teardown_dedicated_namespaces
  torn_down cp q e h =
      elim (by_stuck-true (teardown_namespaces tools (dedicated_service_namespaces q.cp) [] q) h) [
        | inl late ↦ inl late
        | inr none_stuck ↦ inr (
            subst (λ x. NamespacesClear tools (dedicated_service_namespaces x) q) e
              (teardown_namespaces-NamespacesClear tools (dedicated_service_namespaces q.cp) [] q
                none_stuck).1)
      ]

  -- The PushSecrets are gone, where none remains.
  pushes_gone :
      (cp : ControlPlane) (w w' : W)
      → delete_owned_push_secrets tools.client cp w ≡ (w', ok [])
      → NoKind tools.client cp (control_plane_namespaces cp) w
        ⊎ PushesGone tools.client cp (control_plane_namespaces cp) w
  unfolding delete_owned_push_secrets
  pushes_gone cp w w' h =
      elim (sweep_push_secrets-PushesGone tools.client cp (control_plane_namespaces cp) [] w
        (ap (λ r. r.1) h)) [ inl missing ↦ inl missing | inr (_, gone) ↦ inr gone ]

  by_remaining-Justified :
      (p q : Pass W) (w w' : W) (live : Bool) (remaining push : List Object)
      → delete_orc_resources tools.client p.cp tools.slug p.cluster ≡ (w, ok (remaining, live))
      → delete_owned_push_secrets tools.client p.cp w ≡ (w', ok push)
      → q.cp ≡ p.cp
      → q.finalizers ≡ p.finalizers
      → q.cluster ≡ w'
      → Justified p (by_remaining tools remaining push q)
  by_remaining-Justified p q w w' live [] [] orc psh cp fs cl =
      after_namespaces-Justified p (teardown_dedicated_namespaces tools q)
        (teardown_dedicated_namespaces-Keeps tools p.finalizers no_demand q (cp, fs, tt)).1
        (λ done.
          drained w w' q
            (delete_orc_resources-OrcDrained tools.client p.cp tools.slug p.cluster w live orc)
            (pushes_gone p.cp w w' psh) (ap (λ r. r.0) psh) cp cl (torn_down p.cp q cp done))
  by_remaining-Justified p q w w' live [] (ps ∷ push) orc psh cp fs cl =
      not_drained-Justified p q [] (ps ∷ push) fs (stalled w [] live orc)
  by_remaining-Justified p q w w' live (obj ∷ remaining) push orc psh cp fs cl =
      not_drained-Justified p q (obj ∷ remaining) push fs (stalled w (obj ∷ remaining) live orc)

  after_push-Justified :
      (p : Pass W) (w : W) (live : Bool) (remaining : List Object) (r : W × Answer (List Object))
      → delete_orc_resources tools.client p.cp tools.slug p.cluster ≡ (w, ok (remaining, live))
      → delete_owned_push_secrets tools.client p.cp w ≡ r
      → Justified p (after_push tools (remaining, live) (with_objects w p) r)
  after_push-Justified p w live remaining (w', err e) orc psh = inl refl
  after_push-Justified p w true remaining (w', ok push) orc psh =
      by_remaining-Justified p _ w w' true remaining push orc psh refl refl refl
  after_push-Justified p w false remaining (w', ok push) orc psh =
      by_remaining-Justified p _ w w' false remaining push orc psh refl refl refl

  after_orc-Justified :
      (p : Pass W) (r : W × Answer (List Object × Bool))
      → delete_orc_resources tools.client p.cp tools.slug p.cluster ≡ r
      → Justified p (after_orc tools p r)
  after_orc-Justified p (w, err e) orc = inl refl
  after_orc-Justified p (w, ok (remaining, live)) orc =
      after_push-Justified p w live remaining _ orc refl

  -- A pass that finds the finalizer on the ControlPlane and leaves it without, in memory, has grounds
  -- for it. Either a Get answers that each K-ORC CR that the teardown names is absent, after all the
  -- deletions; each owned PushSecret that it listed was not found after its own deletion, unless a
  -- List answered that PushSecrets are not installed; and each service child in a dedicated namespace
  -- was absent or not owned when the turn of its namespace came, unless the stall timeout has passed.
  -- Or the stall timeout has passed and the K-ORC CRs that remain are not just unmanaged imports.
  pub reconcile_delete-Grounds :
      (p : Pass W)
      → tools.client.contains_finalizer p.finalizers control_plane_orc_finalizer ≡ true
      → tools.client.contains_finalizer
          (reconcile_delete tools p).0.finalizers
          control_plane_orc_finalizer
        ≡ false
      → Grounds p
  unfolding reconcile_delete
  reconcile_delete-Grounds p before after =
      elim (after_orc-Justified p (delete_orc_resources tools.client p.cp tools.slug p.cluster)
        refl) [ inl same ↦ absurd (kept same) | inr grounds ↦ grounds ]
    where
      kept :
          (after_orc tools p
              (delete_orc_resources tools.client p.cp tools.slug p.cluster)).0.finalizers
            ≡ p.finalizers
          → ⊥
      kept same = cc (before, same, rw before at after)
