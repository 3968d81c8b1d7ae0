-- ===== src/Keystone/Deletion/Unadopted.antt =====
-- operators/keystone/internal/controller/reconcile_secrets.go: the wait for the adoption of a backup.
use c5c3_forge.Prelude.{
  ◌≡◌, refl, Bool, true, false, not, ◌⊎◌, inl, inr, List, [], ◌∷◌, String, if_cases, has,
}
use c5c3_forge.Kube.Error.{Answer, ok, err, is_not_found}
use c5c3_forge.Kube.Condition.{ConditionMeta}
use c5c3_forge.Kube.Outcome.{Outcome}
use c5c3_forge.Database.Finalize.{push_secret, Found}
use c5c3_forge.Keystone.Deletion.State.{
  DeletionOwner, DeletionClient, DeletionPass, keystone_open_bao_finalizer, deadline_passed,
  backup_names, has_eso_finalizer,
}
use c5c3_forge.Keystone.Deletion.{
  Adoption, adopted, unadopted, timed_out, unread, adoption_or, check_adoption, by_adoption,
  finalize_open_bao_secrets, has_live_backups, after_finalize, after_announcement,
  reconcile_delete_open_bao,
}

-- Get answers a PushSecret that is not being deleted and that ESO has not adopted.
abbrev pub AwaitsAdoption : Answer Found → Type 0
AwaitsAdoption (ok found) = (found.terminating ≡ false) × (has_eso_finalizer found ≡ false)
AwaitsAdoption (err e) = ⊥

-- Pass 0 ends the call: it waits, or it met an error.
abbrev Blocks : Adoption → Type 0
Blocks adopted = ⊥
Blocks (timed_out name) = ⊥
Blocks (unadopted name) = Unit
Blocks (unread e) = Unit

module _ {W : Type 0} (m : ConditionMeta) (client : DeletionClient W) (k : DeletionOwner) where
  -- One of the PushSecrets awaits its adoption.
  abbrev pub SomeAwaits : W → List String → Type 0
  SomeAwaits w [] = ⊥
  SomeAwaits w (name ∷ names) =
      AwaitsAdoption (client.resources.get w push_secret k.namespace name) ⊎ SomeAwaits w names

  -- Neither the cluster nor the finalizers differ.
  abbrev pub Untouched : DeletionPass W → DeletionPass W → Type 0
  Untouched p q = (q.cluster ≡ p.cluster) × (q.finalizers ≡ p.finalizers)

  module _ (early : deadline_passed k.deleting_for ≡ false) where
    adoption_or-Blocks :
        (name : String) (rest : Adoption) (a : Answer Found)
        → AwaitsAdoption a
        → Blocks (adoption_or m client k name rest a)
    adoption_or-Blocks name rest (ok found) (alive, free) = rw (alive, free, early) tt
    adoption_or-Blocks name rest (err e) h = absurd h

    adoption_or_goes_on :
        (name : String) (rest : Adoption) (a : Answer Found)
        → Blocks rest
        → Blocks (adoption_or m client k name rest a)
    adoption_or_goes_on name rest (err e) h =
        if_cases {A = Adoption} Blocks (is_not_found e) (λ _. h) (λ _. tt)
    adoption_or_goes_on name rest (ok found) h =
        if_cases {A = Adoption} Blocks found.terminating (λ _. h)
          (λ _.
            if_cases {A = Adoption} Blocks (not (has_eso_finalizer found))
              (λ _.
                if_cases {A = Adoption} Blocks (deadline_passed k.deleting_for)
                  (λ late. absurd (cc (late, early))) (λ _. tt))
              (λ _. h))

    check_adoption-Blocks :
        (w : W) (names : List String)
        → SomeAwaits w names
        → Blocks (check_adoption m client k w names)
    unfolding check_adoption
    check_adoption-Blocks w [] h = absurd h
    check_adoption-Blocks w (name ∷ names) (inl h) =
        adoption_or-Blocks name (check_adoption m client k w names) _ h
    check_adoption-Blocks w (name ∷ names) (inr h) =
        adoption_or_goes_on name (check_adoption m client k w names) _
          (check_adoption-Blocks w names h)

    by_adoption-Untouched :
        (p : DeletionPass W) (a : Adoption)
        → Blocks a
        → Untouched p (after_finalize m client k (by_adoption m client k p a)).0
    by_adoption-Untouched p (unadopted name) h = (refl, refl)
    by_adoption-Untouched p (unread e) h = (refl, refl)
    by_adoption-Untouched p adopted h = absurd h
    by_adoption-Untouched p (timed_out name) h = absurd h

    finalize-Untouched :
        (p : DeletionPass W)
        → SomeAwaits p.cluster (backup_names k.name)
        → Untouched p (after_finalize m client k (finalize_open_bao_secrets m client k p)).0
    unfolding finalize_open_bao_secrets
    finalize-Untouched p h =
        by_adoption-Untouched p (check_adoption m client k p.cluster (backup_names k.name))
          (check_adoption-Blocks p.cluster (backup_names k.name) h)

    after_announcement-Untouched :
        (p : DeletionPass W) (a : Answer Bool)
        → SomeAwaits p.cluster (backup_names k.name)
        → Untouched p (after_announcement m client k p a).0
    after_announcement-Untouched p (err e) h = (refl, refl)
    after_announcement-Untouched p (ok false) h = finalize-Untouched p h
    after_announcement-Untouched p (ok true) h = finalize-Untouched (record p { events = _ }) h

    -- As long as one of the backup PushSecrets is there, not being deleted and not adopted by ESO, and the
    -- CR has not been deleting for longer than OpenBaoAdoptionWaitTimeout, a pass of
    -- reconcileDeleteOpenBao writes nothing to the cluster and keeps the CR's finalizers: no backup
    -- is deleted before ESO can purge what it mirrors.
    pub reconcile_delete_open_bao-Untouched :
        (p : DeletionPass W)
        → SomeAwaits p.cluster (backup_names k.name)
        → Untouched p (reconcile_delete_open_bao m client k p).0
    unfolding reconcile_delete_open_bao
    reconcile_delete_open_bao-Untouched p h =
        if_cases {A = DeletionPass W × Outcome} (λ r. Untouched p r.0)
          (not (has keystone_open_bao_finalizer p.finalizers)) (λ _. (refl, refl))
          (λ _.
            after_announcement-Untouched p
              (has_live_backups m client k p.cluster (backup_names k.name)) h)
