-- ===== src/Keystone/Deletion.antt =====
-- operators/keystone/internal/controller: a Keystone CR that is being deleted. Its two finalizers: that of
-- the database (keystone_controller.go, reconcileDelete), and that of the backups of the keys in
-- OpenBao (reconcileDeleteOpenBao, and finalizeOpenBaoSecrets of reconcile_secrets.go).
pub mod State
pub mod Mariadb
pub mod Unadopted
pub mod Released
use c5c3_forge.Prelude.{
  ℕ, Bool, true, false, not, List, [], ◌∷◌, ◌++◌, String, Option, none, some, ℤ, pos, lt_int, has,
  str_eq, if◌then◌else◌,
}
use c5c3_forge.Kube.Text.{concat, quote}
use c5c3_forge.Kube.Error.{Error, Answer, ok, err, wrap, is_not_found, ignore_not_found}
use c5c3_forge.Kube.Condition.{Condition, ConditionMeta, status_false}
use c5c3_forge.Kube.Outcome.{Outcome, done, returns, fails, requeue_in}
use c5c3_forge.Conditions.{set_condition}
use c5c3_forge.Database.Flow.{EventType, Event, normal, warning, condition}
use c5c3_forge.Database.Finalize.{
  push_secret, Found, ResourceClient, finalize_resources, has_live_resources,
}
use c5c3_forge.HealthCheck.{ProbeCache, evict}
use c5c3_forge.Rotation.{without}
use c5c3_forge.Keystone.Keys.Create.{requeue_secret_polling}
use c5c3_forge.Keystone.Deletion.State.{
  DeletionOwner, DeletionClient, DeletionPass, keystone_finalizer, keystone_open_bao_finalizer,
  eso_push_secret_finalizer, open_bao_adoption_wait_timeout, remove_finalizer, deadline_passed,
  backup_names, has_eso_finalizer,
}

-- How Pass 0 ends: every PushSecret is adopted; or one is not, before or after the deadline; or an
-- error.
pub data Adoption : Type 0 where
  adopted : Adoption
  unadopted timed_out : String → Adoption
  unread : Error → Adoption

module _ {W : Type 0} (m : ConditionMeta) (client : DeletionClient W) (k : DeletionOwner) where
  abbrev about_backup : String → String → String → String
  about_backup before name after = concat (before ∷ k.namespace ∷ "/" ∷ name ∷ after ∷ [])

  abbrev pub tell_owner : EventType → String → String → DeletionPass W → DeletionPass W
  tell_owner type reason message p = record p {
    events = p.events ++ record { type = type; reason = reason; message = message } ∷ [];
  }

  abbrev pub with_resources : W → DeletionPass W → DeletionPass W
  with_resources w p = record p { cluster = w }

  abbrev pub secrets_unready : String → String → DeletionPass W → DeletionPass W
  secrets_unready reason message p = record p {
    conditions =
        set_condition m p.conditions
          (condition "SecretsReady" k.generation status_false reason message);
  }

  abbrev pub adoption_or : String → Adoption → Answer Found → Adoption
  adoption_or name rest (err e) =
      if is_not_found e
      then rest
      else unread (wrap (about_backup "getting PushSecret " name " for adoption check: ") e)
  adoption_or name rest (ok found) =
      if found.terminating
      then rest
      else if not (has_eso_finalizer found)
      then if deadline_passed k.deleting_for then timed_out name else unadopted name
      else rest

  -- The loop of Pass 0.
  unfoldable pub check_adoption : W → List String → Adoption
  check_adoption w [] = adopted
  check_adoption w (name ∷ names) =
      adoption_or name (check_adoption w names)
        (client.resources.get w push_secret k.namespace name)

  -- The loop of Pass 1.
  unfoldable pub delete_backups : List String → W → W × Option Error
  delete_backups [] w = (w, none)
  delete_backups (name ∷ names) w =
      let (w', a) = client.resources.delete w push_secret k.namespace name in
      elim (ignore_not_found a) [
        | none ↦ delete_backups names w'
        | some e ↦ (w', some (wrap (about_backup "deleting PushSecret " name ": ") e))
      ]

  abbrev pub present_or : String → Answer (Option String) → Answer Found → Answer (Option String)
  present_or name rest (ok found) = ok (some name)
  present_or name rest (err e) =
      if is_not_found e then rest else err (wrap (about_backup "getting PushSecret " name ": ") e)

  -- The loop of Pass 2: the first PushSecret that is still there.
  unfoldable pub first_present : W → List String → Answer (Option String)
  first_present w [] = ok none
  first_present w (name ∷ names) =
      present_or name (first_present w names) (client.resources.get w push_secret k.namespace name)

  abbrev pub by_present : DeletionPass W → Answer (Option String) → DeletionPass W × Answer Bool
  by_present p (err e) = (p, err e)
  by_present p (ok none) = (p, ok true)
  by_present p (ok (some name)) = (
    secrets_unready "OpenBaoFinalizerBlocked"
        (concat (
          "Waiting for PushSecret "
          ∷ quote name
          ∷ " to be garbage-collected before releasing openbao-finalizer"
          ∷ []))
        p,
    ok false,
  )

  abbrev pub after_backups : DeletionPass W → W × Option Error → DeletionPass W × Answer Bool
  after_backups p (w, some e) = (with_resources w p, err e)
  after_backups p (w, none) =
      by_present (with_resources w p) (first_present w (backup_names k.name))

  abbrev pub delete_then_check : DeletionPass W → DeletionPass W × Answer Bool
  delete_then_check p = after_backups p (delete_backups (backup_names k.name) p.cluster)

  abbrev pub by_adoption : DeletionPass W → Adoption → DeletionPass W × Answer Bool
  by_adoption p (unread e) = (p, err e)
  by_adoption p (unadopted name) = (
    secrets_unready "WaitingForESOAdoption"
        (concat (
          "Waiting for ESO to adopt PushSecret "
          ∷ quote name
          ∷ " (cleanup finalizer not yet installed)"
          ∷ []))
        p,
    ok false,
  )
  by_adoption p (timed_out name) = delete_then_check (
      tell_owner warning "ESOAdoptionTimedOut"
        (concat (
          "PushSecret "
          ∷ quote name
          ∷ " not adopted by ESO within 10m0s of deletion; force-deleting to release the openbao-finalizer (the OpenBao kv-v2 path may be orphaned only if ESO is not running)"
          ∷ []))
        p)
  by_adoption p adopted = delete_then_check p

  -- finalizeOpenBaoSecrets.
  unfoldable pub finalize_open_bao_secrets : DeletionPass W → DeletionPass W × Answer Bool
  finalize_open_bao_secrets p = by_adoption p (check_adoption p.cluster (backup_names k.name))

  abbrev pub announced_or : String → Answer Bool → Answer Found → Answer Bool
  announced_or name rest (err e) =
      if is_not_found e then rest else err (wrap (about_backup "checking PushSecret " name ": ") e)
  announced_or name rest (ok found) =
      if found.terminating then rest else if has_eso_finalizer found then ok true else rest

  -- hasLiveOpenBaoBackupPushSecrets.
  unfoldable pub has_live_backups : W → List String → Answer Bool
  has_live_backups w [] = ok false
  has_live_backups w (name ∷ names) =
      announced_or name (has_live_backups w names)
        (client.resources.get w push_secret k.namespace name)

  abbrev pub open_bao_updated : DeletionPass W → W × Option Error → DeletionPass W × Outcome
  open_bao_updated p (w, some e) =
      (with_resources w p, fails (wrap "removing openbao finalizer: " e))
  open_bao_updated p (w, none) = (with_resources w p, done)

  abbrev pub without_finalizer : String → DeletionPass W → DeletionPass W
  without_finalizer f p = record p { finalizers = remove_finalizer f p.finalizers }

  abbrev pub release_open_bao : DeletionPass W → DeletionPass W × Outcome
  release_open_bao p =
      open_bao_updated (without_finalizer keystone_open_bao_finalizer p)
        (client.update p.cluster (remove_finalizer keystone_open_bao_finalizer p.finalizers))

  abbrev pub after_finalize : DeletionPass W × Answer Bool → DeletionPass W × Outcome
  after_finalize (p, err e) = (p, fails e)
  after_finalize (p, ok false) = (p, returns (requeue_in requeue_secret_polling))
  after_finalize (p, ok true) = release_open_bao (
      tell_owner normal "OpenBaoSecretsFinalized"
        "OpenBao backup PushSecrets deleted; releasing openbao-finalizer" p)

  abbrev pub after_announcement : DeletionPass W → Answer Bool → DeletionPass W × Outcome
  after_announcement p (err e) = (p, fails e)
  after_announcement p (ok false) = after_finalize (finalize_open_bao_secrets p)
  after_announcement p (ok true) = after_finalize (
      finalize_open_bao_secrets (
        tell_owner normal "FinalizingOpenBaoSecrets"
          "Cleaning up OpenBao backup PushSecrets before removing Keystone" p))

  -- reconcileDeleteOpenBao.
  unfoldable pub reconcile_delete_open_bao : DeletionPass W → DeletionPass W × Outcome
  reconcile_delete_open_bao p =
      if not (has keystone_open_bao_finalizer p.finalizers)
      then (p, done)
      else after_announcement p (has_live_backups p.cluster (backup_names k.name))
