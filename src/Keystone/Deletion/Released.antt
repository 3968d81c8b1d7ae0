-- ===== src/Keystone/Deletion/Released.antt =====
-- operators/keystone/internal/controller/keystone_controller.go: what is left when the finalizer of the
-- database of a Keystone CR is released.
use c5c3_forge.Prelude.{
  ap, ◌∙◌, ◌≡◌, refl, Bool, true, false, Bool-cases, inl, inr, List, [], ◌∷◌, String, Option, none,
  some, All, has, str_eq, lookup,
}
use c5c3_forge.Kube.Error.{Error, Answer, ok, err}
use c5c3_forge.Kube.Condition.{ConditionMeta}
use c5c3_forge.HealthCheck.Fresh.{lookup-evict_gone}
use c5c3_forge.Database.Finalize.{
  ResourceKind, database, user, grant, resource_ctors, finalize_resources, has_live_resources,
}
use c5c3_forge.Database.Finalize.Settled.{Settled, FinalizeLaws, delete_kinds-Settled}
use c5c3_forge.Keystone.Deletion.State.{
  DeletionOwner, DeletionClient, DeletionPass, keystone_finalizer, remove_finalizer,
}
use c5c3_forge.Keystone.Deletion.{without_finalizer}
use c5c3_forge.Keystone.Deletion.Mariadb.{
  resources_finalized, owner_key, database_updated, after_resources, finalize_database, after_live,
  reconcile_delete,
}

has-remove_finalizer : (f : String) (fs : List String) → has f (remove_finalizer f fs) ≡ false
unfolding has remove_finalizer
has-remove_finalizer f [] = refl
has-remove_finalizer f (g ∷ gs) = elim (Bool-cases (str_eq f g)) [
  | inl e ↦ rw e (has-remove_finalizer f gs)
  | inr e ↦ rw (e, e) (has-remove_finalizer f gs)
]

module _ {W : Type 0} (m : ConditionMeta) (client : DeletionClient W) (k : DeletionOwner) where
  -- `stored` are the CR's finalizers in the cluster. An Update without an error stores those that it
  -- is given, and does not bring a MariaDB resource back.
  pub record OwnerLaws (stored : W → List String) : Type 0 where
    pub updated :
        (w : W) (fs : List String)
        → (client.update w fs).1 ≡ none
        → stored (client.update w fs).0 ≡ fs
    pub keeps :
        (w : W) (fs : List String) (kind : ResourceKind)
        → Settled client.resources k.namespace k.name w kind
        → Settled client.resources k.namespace k.name (client.update w fs).0 kind

  -- The Database, the User and the Grant are gone or being deleted.
  abbrev pub NoneLive : W → Type 0
  NoneLive w =
      Settled client.resources k.namespace k.name w database
      × Settled client.resources k.namespace k.name w user
      × Settled client.resources k.namespace k.name w grant

  -- None of them is live, the CR in the cluster does not carry the finalizer, and no probe is cached
  -- for the CR.
  abbrev pub Released : (W → List String) → DeletionPass W → Type 0
  Released stored p =
      NoneLive p.cluster
      × (has keystone_finalizer (stored p.cluster) ≡ false)
      × (lookup (owner_key m client k) p.probes ≡ none)

  module _ {stored : W → List String} (laws : FinalizeLaws client.resources k.namespace k.name)
      (owner : OwnerLaws stored) where
    none_live :
        (w : W) → All (Settled client.resources k.namespace k.name w) resource_ctors → NoneLive w
    none_live w (d, (u, (g, _))) = (d, u, g)

    database_updated-Released :
        (p : DeletionPass W) (r : W × Option Error)
        → NoneLive r.0
        → (r.1 ≡ none → has keystone_finalizer (stored r.0) ≡ false)
        → (database_updated m client k p r).1.error ≡ none
        → Released stored (database_updated m client k p r).0
    database_updated-Released p (w, some e) h f x = absurd (cc x)
    database_updated-Released p (w, none) h f x =
        (h, f refl, lookup-evict_gone m p.probes (owner_key m client k))

    -- What the Update stores has no finalizer.
    released_stored :
        (w : W) (fs : List String)
        → (client.update w (remove_finalizer keystone_finalizer fs)).1 ≡ none
        → has keystone_finalizer
            (stored (client.update w (remove_finalizer keystone_finalizer fs)).0)
          ≡ false
    released_stored w fs e =
        ap (has keystone_finalizer) (owner.updated w (remove_finalizer keystone_finalizer fs) e)
        ∙ has-remove_finalizer keystone_finalizer fs

    after_resources-Released :
        (p : DeletionPass W) (r : W × Option Error)
        → (r.1 ≡ none → NoneLive r.0)
        → (after_resources m client k p r).1.error ≡ none
        → Released stored (after_resources m client k p r).0
    after_resources-Released p (w, some e) h x = absurd (cc x)
    after_resources-Released p (w, none) h x =
        let (d, u, g) = h refl in
        database_updated-Released
          (without_finalizer m client k keystone_finalizer (resources_finalized m client k w p))
          (client.update w (remove_finalizer keystone_finalizer p.finalizers))
          (owner.keeps w _ _ d, owner.keeps w _ _ u, owner.keeps w _ _ g)
          (released_stored w p.finalizers) x

    finalize_database-Released :
        (p : DeletionPass W)
        → (finalize_database m client k p).1.error ≡ none
        → Released stored (finalize_database m client k p).0
    finalize_database-Released p =
        after_resources-Released p
          (finalize_resources client.resources k.namespace k.name p.cluster)
          (λ e. none_live _ (
            delete_kinds-Settled client.resources k.namespace k.name laws resource_ctors p.cluster
              e))

    after_live-Released :
        (p : DeletionPass W) (a : Answer Bool)
        → (after_live m client k p a).1.error ≡ none
        → Released stored (after_live m client k p a).0
    after_live-Released p (err e) x = absurd (cc x)
    after_live-Released p (ok false) x = finalize_database-Released p x
    after_live-Released p (ok true) x = finalize_database-Released (record p { events = _ }) x

    -- When a pass of reconcileDelete over a CR that carries its finalizer returns no error, then a Get
    -- finds each of the CR's Database, User and Grant gone or being deleted, the CR in the cluster
    -- does not carry the finalizer any more, and the cache of the health probes has no entry for it.
    -- A Get finds an object gone or being deleted after a Delete that is accepted or answers
    -- NotFound; an Update without an error stores the finalizers that it is given; and neither brings
    -- a resource back.
    pub reconcile_delete-Released :
        (p : DeletionPass W)
        → has keystone_finalizer p.finalizers ≡ true
        → (reconcile_delete m client k p).1.error ≡ none
        → Released stored (reconcile_delete m client k p).0
    unfolding reconcile_delete
    reconcile_delete-Released p there x = rw there (
        after_live-Released p (has_live_resources client.resources k.namespace k.name p.cluster)
          (rw there at x))
