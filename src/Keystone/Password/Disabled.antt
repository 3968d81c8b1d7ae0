-- ===== src/Keystone/Password/Disabled.antt =====
-- operators/keystone/internal/controller/reconcile_passwordrotation.go: the rotation switched off.
use c5c3_forge.Prelude.{
  on_failure, ◌≡◌, refl, false, List, [], ◌∷◌, String, Option, none, some, All,
}
use c5c3_forge.Kube.Error.{Error, ignore_not_found}
use c5c3_forge.Kube.Condition.{ConditionMeta, ConditionLaws}
use c5c3_forge.Conditions.Laws.{IsTrue, holds-set_self}
use c5c3_forge.Keystone.Keys.Create.{KeysPass}
use c5c3_forge.Keystone.Password.State.{
  PasswordOwner, cron_job, secret, role_binding, role, service_account, push_secret, PasswordObject,
  PasswordClient, is_enabled, named,
}
use c5c3_forge.Keystone.Password.Teardown.{
  delete_objects, to_delete, rotation_cron_job, pruned, after_objects, after_cron_job_delete,
  teardown_password_rotation,
}
use c5c3_forge.Keystone.Password.{after_teardown, reconcile_password_rotation}

-- What a deletion and the pruning do to an object that is gone, or on its way: a Delete that answers
-- no error, or NotFound, has it gone; and no other call brings it back.
pub record TeardownLaws {W : Type 0} (client : PasswordClient W)
    (Gone : W → PasswordObject → Type 0) : Type 0 where
  pub deleted :
      (w : W) (obj : PasswordObject)
      → ignore_not_found (client.delete w obj).1 ≡ none
      → Gone (client.delete w obj).0 obj
  pub delete_keeps :
      (w : W) (obj other : PasswordObject) → Gone w other → Gone (client.delete w obj).0 other
  pub prune_keeps :
      (w : W) (base : String) (obj : PasswordObject)
      → Gone w obj
      → Gone (client.prune_scripts w base).0 obj

module _ {W : Type 0} (m : ConditionMeta) (client : PasswordClient W) (k : PasswordOwner)
    {Gone : W → PasswordObject → Type 0} (laws : TeardownLaws client Gone) where
  -- What a loop over the objects leaves.
  abbrev Swept : List PasswordObject → W × Option Error → Type 0
  Swept objs r = r.1 ≡ none → All (Gone r.0) objs

  carried_over :
      (objs : List PasswordObject) {w v : W}
      → ((obj : PasswordObject) → Gone w obj → Gone v obj)
      → All (Gone w) objs
      → All (Gone v) objs
  carried_over [] step h = h
  carried_over (obj ∷ objs) step (h, hs) = (step obj h, carried_over objs step hs)

  delete_objects_keeps :
      (objs : List PasswordObject) (w : W) (obj : PasswordObject)
      → Gone w obj
      → Gone (delete_objects client k objs w).0 obj
  unfolding delete_objects
  delete_objects_keeps [] w obj h = h
  delete_objects_keeps (o ∷ objs) w obj h =
      on_failure (λ r. Gone r.0 obj) (delete_objects client k objs (client.delete w o).0) _
        (ignore_not_found (client.delete w o).1)
        (λ _. delete_objects_keeps objs (client.delete w o).0 obj (laws.delete_keeps w o obj h))
        (λ e. laws.delete_keeps w o obj h)

  delete_objects-Swept :
      (objs : List PasswordObject) (w : W) → Swept objs (delete_objects client k objs w)
  unfolding delete_objects
  delete_objects-Swept [] w = λ _. tt
  delete_objects-Swept (o ∷ objs) w =
      on_failure (Swept (o ∷ objs)) (delete_objects client k objs (client.delete w o).0) _
        (ignore_not_found (client.delete w o).1)
        (λ a e. (
          delete_objects_keeps objs (client.delete w o).0 o (laws.deleted w o a),
          delete_objects-Swept objs (client.delete w o).0 e,
        ))
        (λ x e. absurd (cc e))

  pruned-Swept :
      (objs : List PasswordObject) (r : W × Option Error)
      → All (Gone r.0) objs
      → Swept objs (pruned client k r)
  pruned-Swept objs (w, none) h = λ _. h
  pruned-Swept objs (w, some e) h = λ x. absurd (cc x)

  after_objects-Swept :
      (objs : List PasswordObject) (r : W × Option Error)
      → Swept objs r
      → Swept objs (after_objects client k r)
  after_objects-Swept objs (w, some e) h = λ x. absurd (cc x)
  after_objects-Swept objs (w, none) h =
      pruned-Swept objs (client.prune_scripts w _)
        (carried_over objs (laws.prune_keeps w _) (h refl))

  -- The objects of the rotation, but for the script's ConfigMaps.
  abbrev pub rotation_objects : List PasswordObject
  rotation_objects =
      record { kind = cron_job; name = named k "-admin-password-rotate" }
      ∷ record { kind = secret; name = named k "-admin-password-rotation" }
      ∷ record { kind = secret; name = named k "-admin-password-next" }
      ∷ record { kind = role_binding; name = named k "-admin-password-rotate" }
      ∷ record { kind = role; name = named k "-admin-password-rotate" }
      ∷ record { kind = service_account; name = named k "-admin-password-rotate" }
      ∷ record { kind = push_secret; name = named k "-admin-password-backup" }
      ∷ []

  after_cron_job_delete-Swept :
      (w : W) (a : Option Error)
      → (a ≡ none → Gone w (rotation_cron_job client k))
      → Swept rotation_objects (after_cron_job_delete client k w a)
  after_cron_job_delete-Swept w (some e) h = λ x. absurd (cc x)
  after_cron_job_delete-Swept w none h =
      after_objects-Swept rotation_objects (delete_objects client k (to_delete client k) w) (λ e. (
        delete_objects_keeps (to_delete client k) w (rotation_cron_job client k) (h refl),
        delete_objects-Swept (to_delete client k) w e,
      ))

  teardown_password_rotation-Swept :
      (w : W) → Swept rotation_objects (teardown_password_rotation client k w)
  unfolding teardown_password_rotation
  teardown_password_rotation-Swept w =
      after_cron_job_delete-Swept (client.delete w (rotation_cron_job client k)).0 _
        (laws.deleted w (rotation_cron_job client k))

  -- Everything of the rotation is gone, and its condition is true.
  abbrev pub Removed : KeysPass W → Type 0
  Removed p = All (Gone p.cluster) rotation_objects × IsTrue m p.conditions "PasswordRotationReady"

  module _ (conditions : ConditionLaws m) where
    after_teardown-Removed :
        (p : KeysPass W) (r : W × Option Error)
        → Swept rotation_objects r
        → (after_teardown m client k p r).1.error ≡ none
        → Removed (after_teardown m client k p r).0
    after_teardown-Removed p (w, some e) h x = absurd (cc x)
    after_teardown-Removed p (w, none) h x = (h refl, holds-set_self m conditions p.conditions _)

    -- Where passwordRotation is nil or switched off, a pass of reconcilePasswordRotation that returns no
    -- error leaves nothing of the rotation behind, its CronJob, both of its Secrets, its RBAC and its
    -- PushSecret, whether or not they were there, and reports PasswordRotationReady as True.
    -- A Delete without an error, or with NotFound, has the object gone, and nothing brings it back.
    pub reconcile_password_rotation-Removed :
        (p : KeysPass W)
        → is_enabled k.password_rotation ≡ false
        → (reconcile_password_rotation m client k p).1.error ≡ none
        → Removed (reconcile_password_rotation m client k p).0
    unfolding reconcile_password_rotation
    reconcile_password_rotation-Removed p off h = rw off (
        after_teardown-Removed p (teardown_password_rotation client k p.cluster)
          (teardown_password_rotation-Swept p.cluster) (rw off at h))
