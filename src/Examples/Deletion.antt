-- ===== src/Examples/Deletion.antt =====
-- The deletion of a Keystone CR: its database, and a backup that ESO has not adopted yet.
use c5c3_forge.Prelude.{
  String, List, ◌≡◌, refl, Bool, true, false, inl, [], ◌∷◌, none, some, pos, has,
}
use c5c3_forge.Kube.Error.{ok}
use c5c3_forge.Database.Finalize.{Found, delete_kinds, live_kinds}
use c5c3_forge.Database.Finalize.Settled.{FinalizeLaws}
use c5c3_forge.Keystone.Deletion.State.{
  DeletionOwner, DeletionClient, DeletionPass, keystone_finalizer, keystone_open_bao_finalizer,
}
use c5c3_forge.Keystone.Deletion.{reconcile_delete_open_bao}
use c5c3_forge.Keystone.Deletion.Mariadb.{reconcile_delete}
use c5c3_forge.Keystone.Deletion.Released.{OwnerLaws, Released, reconcile_delete-Released}
use c5c3_forge.Keystone.Deletion.Unadopted.{Untouched, reconcile_delete_open_bao-Untouched}
use c5c3_forge.Examples.Conditions.{meta}

-- A cluster: whether its objects are being deleted, and the finalizers of the CR.
record World : Type 0 where
  deleting : Bool
  carried_by : List String

abbrev found : Bool → Found
found deleting = record { terminating = deleting; finalizers = [] }

abbrev client : DeletionClient World
client = record {
  resources = record {
    get = λ w kind namespace name. ok (found w.deleting);
    delete = λ w kind namespace name. (record w { deleting = true }, none);
  };
  update = λ w fs. (record w { carried_by = fs }, none);
}

abbrev owner : DeletionOwner
owner = record {
  name = "keystone";
  namespace = "openstack";
  generation = 2;
  deleting_for = some (pos 5_000_000_000);
}

abbrev deletion : DeletionPass World
deletion = record {
  finalizers = keystone_finalizer ∷ keystone_open_bao_finalizer ∷ [];
  conditions = [];
  events = [];
  probes = [];
  renders = [];
  cluster = record {
    deleting = false;
    carried_by = keystone_finalizer ∷ keystone_open_bao_finalizer ∷ [];
  };
}

laws : FinalizeLaws client.resources "openstack" "keystone"
laws = record { deleted = λ w kind h. refl; delete_keeps = λ w kind other h. refl }

carried : has keystone_finalizer deletion.finalizers ≡ true
unfolding has
carried = refl

finalized : (reconcile_delete meta client owner deletion).1.error ≡ none
unfolding reconcile_delete has live_kinds delete_kinds
finalized = refl

owner_laws : OwnerLaws meta client owner (λ w. w.carried_by)
owner_laws = record { updated = λ w fs e. refl; keeps = λ w fs kind h. h }

reconcile_delete-Released_example :
    Released meta client owner (λ w. w.carried_by) (reconcile_delete meta client owner deletion).0
reconcile_delete-Released_example =
    reconcile_delete-Released meta client owner laws owner_laws deletion carried finalized

unowned : has "pushsecret.externalsecrets.io/finalizer" [] ≡ false
unfolding has
unowned = refl

reconcile_delete_open_bao-Untouched_example :
    Untouched meta client owner deletion (reconcile_delete_open_bao meta client owner deletion).0
reconcile_delete_open_bao-Untouched_example =
    reconcile_delete_open_bao-Untouched meta client owner refl deletion (inl (refl, unowned))
