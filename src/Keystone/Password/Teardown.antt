-- ===== src/Keystone/Password/Teardown.antt =====
-- operators/keystone/internal/controller/reconcile_passwordrotation.go: teardownPasswordRotation.
use c5c3_forge.Prelude.{List, [], ◌∷◌, String, Option, none, some}
use c5c3_forge.Kube.Text.{concat}
use c5c3_forge.Kube.Error.{Error, wrap, ignore_not_found}
use c5c3_forge.Keystone.Password.State.{
  PasswordOwner, PasswordKind, cron_job, secret, role_binding, role, service_account, push_secret,
  PasswordObject, PasswordClient, named,
}

abbrev kind_text : PasswordKind → String
kind_text cron_job = "*v1.CronJob"
kind_text secret = "*v1.Secret"
kind_text role_binding = "*v1.RoleBinding"
kind_text role = "*v1.Role"
kind_text service_account = "*v1.ServiceAccount"
kind_text push_secret = "*v1alpha1.PushSecret"

module _ {W : Type 0} (client : PasswordClient W) (k : PasswordOwner) where
  -- The loop of teardownPasswordRotation.
  unfoldable pub delete_objects : List PasswordObject → W → W × Option Error
  delete_objects [] w = (w, none)
  delete_objects (obj ∷ objs) w =
      let (w', a) = client.delete w obj in
      elim (ignore_not_found a) [
        | none ↦ delete_objects objs w'
        | some e ↦ (
          w',
          some (wrap (concat ("deleting " ∷ kind_text obj.kind ∷ " " ∷ obj.name ∷ ": " ∷ [])) e),
        )
      ]

  -- toDelete.
  abbrev pub to_delete : List PasswordObject
  to_delete =
      record { kind = secret; name = named k "-admin-password-rotation" }
      ∷ record { kind = secret; name = named k "-admin-password-next" }
      ∷ record { kind = role_binding; name = named k "-admin-password-rotate" }
      ∷ record { kind = role; name = named k "-admin-password-rotate" }
      ∷ record { kind = service_account; name = named k "-admin-password-rotate" }
      ∷ record { kind = push_secret; name = named k "-admin-password-backup" }
      ∷ []

  abbrev pub rotation_cron_job : PasswordObject
  rotation_cron_job = record { kind = cron_job; name = named k "-admin-password-rotate" }

  abbrev pub pruned : W × Option Error → W × Option Error
  pruned (w, none) = (w, none)
  pruned (w, some e) = (w, some (wrap "pruning admin password rotate script ConfigMaps: " e))

  abbrev pub after_objects : W × Option Error → W × Option Error
  after_objects (w, some e) = (w, some e)
  after_objects (w, none) =
      pruned (client.prune_scripts w (named k "-admin-password-rotate-script"))

  -- job.DeleteCronJob, and what follows it.
  abbrev pub after_cron_job_delete : W → Option Error → W × Option Error
  after_cron_job_delete w (some e) = (
    w,
    some (
        wrap "deleting admin password rotation CronJob: " (
          wrap
            (concat (
              "deleting CronJob "
              ∷ k.namespace
              ∷ "/"
              ∷ named k "-admin-password-rotate"
              ∷ ": "
              ∷ []))
            e)),
  )
  after_cron_job_delete w none = after_objects (delete_objects to_delete w)

  -- teardownPasswordRotation.
  unfoldable pub teardown_password_rotation : W → W × Option Error
  teardown_password_rotation w =
      let r = client.delete w rotation_cron_job in after_cron_job_delete r.0 (ignore_not_found r.1)
