-- ===== src/Keystone/Deletion/Mariadb.antt =====
-- operators/keystone/internal/controller/keystone_controller.go, reconcileDelete: the finalizer of the
-- database of a Keystone CR. The metrics that it deletes are not modelled.
use c5c3_forge.Prelude.{
  Bool, true, false, not, has, String, Option, none, some, [], ◌∷◌, if◌then◌else◌,
}
use c5c3_forge.Kube.Text.{concat}
use c5c3_forge.Kube.Error.{Error, Answer, ok, err, wrap}
use c5c3_forge.Kube.Condition.{ConditionMeta}
use c5c3_forge.Kube.Outcome.{Outcome, done, fails}
use c5c3_forge.Database.Flow.{normal}
use c5c3_forge.Database.Finalize.{finalize_resources, has_live_resources}
use c5c3_forge.HealthCheck.{evict}
use c5c3_forge.Rotation.{without}
use c5c3_forge.Keystone.Deletion.State.{
  DeletionOwner, DeletionClient, DeletionPass, keystone_finalizer, remove_finalizer,
}
use c5c3_forge.Keystone.Deletion.{tell_owner, with_resources, without_finalizer}

module _ {W : Type 0} (m : ConditionMeta) (client : DeletionClient W) (k : DeletionOwner) where
  -- client.ObjectKeyFromObject, as one text.
  abbrev pub owner_key : String
  owner_key = concat (k.namespace ∷ "/" ∷ k.name ∷ [])

  abbrev pub database_updated : DeletionPass W → W × Option Error → DeletionPass W × Outcome
  database_updated p (w, some e) =
      (with_resources m client k w p, fails (wrap "removing finalizer: " e))
  database_updated p (w, none) = (
    record p {
      cluster = w;
      probes = evict p.probes owner_key;
      renders = without owner_key p.renders;
    },
    done,
  )

  abbrev pub release_database : DeletionPass W → DeletionPass W × Outcome
  release_database p =
      database_updated (without_finalizer m client k keystone_finalizer p)
        (client.update p.cluster (remove_finalizer keystone_finalizer p.finalizers))

  abbrev pub resources_finalized : W → DeletionPass W → DeletionPass W
  resources_finalized w p =
      tell_owner m client k normal "DatabaseFinalized"
        "MariaDB Database, User, and Grant marked for deletion; releasing finalizer"
        (with_resources m client k w p)

  abbrev pub after_resources : DeletionPass W → W × Option Error → DeletionPass W × Outcome
  after_resources p (w, some e) = (with_resources m client k w p, fails e)
  after_resources p (w, none) = release_database (resources_finalized w p)

  abbrev pub finalize_database : DeletionPass W → DeletionPass W × Outcome
  finalize_database p =
      after_resources p (finalize_resources client.resources k.namespace k.name p.cluster)

  abbrev pub after_live : DeletionPass W → Answer Bool → DeletionPass W × Outcome
  after_live p (err e) = (p, fails e)
  after_live p (ok false) = finalize_database p
  after_live p (ok true) = finalize_database (
      tell_owner m client k normal "FinalizingDatabase"
        "Cleaning up MariaDB Database, User, and Grant before removing Keystone" p)

  -- reconcileDelete.
  unfoldable pub reconcile_delete : DeletionPass W → DeletionPass W × Outcome
  reconcile_delete p =
      if not (has keystone_finalizer p.finalizers)
      then (p, done)
      else after_live p (has_live_resources client.resources k.namespace k.name p.cluster)
