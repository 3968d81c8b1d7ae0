-- ===== src/Keystone/Keys.antt =====
-- operators/keystone/internal/controller: the Fernet and the credential keys of a Keystone CR
-- (reconcile_fernet.go, reconcile_credential.go), with the commit of a staged rotation
-- (rotation_staging.go). The two flavours run the same steps with other names.
pub mod Create
pub mod Format
pub mod Valid
use c5c3_forge.Prelude.{
  ℕ, zero, suc, ◌+◌, Bool, true, false, List, [], ◌∷◌, ◌++◌, String, Option, none, some, ℤ, pos,
  negsuc, ltb, insert, length, if◌then◌else◌,
}
use c5c3_forge.Kube.Text.{concat}
use c5c3_forge.Kube.Error.{Error, Answer, ok, err, wrap, is_not_found}
use c5c3_forge.Kube.Condition.{Condition, ConditionMeta, Status, status_true, status_false}
use c5c3_forge.Kube.Outcome.{Outcome, done, returns, fails, requeue_in}
use c5c3_forge.Conditions.{set_condition}
use c5c3_forge.Release.Atoi.{decimal}
use c5c3_forge.Database.Flow.{EventType, Event, normal, condition}
use c5c3_forge.Rotation.{Secret, SecretClient, CommitSpec, Commit, commit_staged, observe_age}
use c5c3_forge.Keystone.Keys.Format.{Decoder, validate_rotation_output}
use c5c3_forge.Keystone.Keys.Create.{
  Flavour, KeysOwner, KeysClient, KeysPass, normalized_max_active_keys, requeue_secret_polling,
  create_keys_secret, age_observed,
}

module _ {W : Type 0} (m : ConditionMeta) (client : KeysClient W) (decoder : Decoder)
    (k : KeysOwner) (f : Flavour) where
  abbrev pub with_store : W → KeysPass W → KeysPass W
  with_store w p = record p { cluster = w }

  abbrev pub report_keys : Status → String → String → KeysPass W → KeysPass W
  report_keys status reason message p = record p {
    conditions =
        set_condition m p.conditions
          (condition (concat (f.title ∷ "KeysReady" ∷ [])) k.generation status reason message);
  }

  -- `<keystone>-fernet-keys` and `<keystone>-fernet-keys-rotation`.
  abbrev pub keys_secret_name : String
  keys_secret_name = concat (k.name ∷ "-" ∷ f.kind ∷ "-keys" ∷ [])

  abbrev pub staging_secret_name : String
  staging_secret_name = concat (k.name ∷ "-" ∷ f.kind ∷ "-keys-rotation" ∷ [])

  abbrev pub phrase : String → String → String
  phrase before after = concat (before ∷ f.kind ∷ after ∷ [])

  -- The CommitSpec of applyRotationOutput.
  abbrev pub rotation_spec : CommitSpec
  rotation_spec = record {
    target_noun = "main secret";
    validate = λ payload.
        validate_rotation_output decoder payload 3
          (normalized_max_active_keys f.max_active_keys + 1);
    clear_staging_on_reject = true;
    annotation_invalid_reason = "RotationAnnotationInvalid";
    rejected_reason = "RotationRejected";
    applied_reason = concat (f.title ∷ "KeysRotated" ∷ []);
    applied_message = λ name payload. concat (
        "rotation applied from staging secret "
        ∷ name
        ∷ " ("
        ∷ decimal (length payload)
        ∷ " active keys)"
        ∷ []);
  }

  abbrev pub after_push_secret : KeysPass W → W × Option Error → KeysPass W × Outcome
  after_push_secret p (w, some e) =
      (with_store w p, fails (wrap (phrase "ensuring " " keys pushsecret: ") e))
  after_push_secret p (w, none) = (
    report_keys status_true (concat (f.title ∷ "KeysAvailable" ∷ []))
        (concat (f.title ∷ " keys Secret exists and rotation CronJob is configured" ∷ []))
        (with_store w p),
    done,
  )

  abbrev pub after_cron_job : KeysPass W → W × Option Error → KeysPass W × Outcome
  after_cron_job p (w, some e) =
      (with_store w p, fails (wrap (phrase "ensuring " " rotation cronjob: ") e))
  after_cron_job p (w, none) =
      after_push_secret (with_store w p)
        (client.ensure_push_secret w (concat (keys_secret_name ∷ "-backup" ∷ [])))

  abbrev pub after_script : KeysPass W → W × Answer String → KeysPass W × Outcome
  after_script p (w, err e) =
      (with_store w p, fails (wrap (phrase "creating " " rotate script ConfigMap: ") e))
  after_script p (w, ok script) = after_cron_job (with_store w p) (client.ensure_cron_job w script)

  abbrev pub after_rbac : KeysPass W → W × Option Error → KeysPass W × Outcome
  after_rbac p (w, some e) =
      (with_store w p, fails (wrap (phrase "ensuring " " rotation RBAC: ") e))
  after_rbac p (w, none) =
      after_script (with_store w p)
        (client.ensure_script w (phrase (concat (k.name ∷ "-" ∷ [])) "-rotate-script"))

  -- Steps 4 to 8.
  abbrev pub configure : KeysPass W → KeysPass W × Outcome
  configure p =
      after_rbac p (client.ensure_rbac p.cluster (phrase (concat (k.name ∷ "-" ∷ [])) "-rotate"))

  abbrev pub after_commit : KeysPass W → Commit W × Answer Bool → KeysPass W × Outcome
  after_commit p (c, err e) = (
    record p { events = c.events; cluster = c.cluster },
    fails (wrap (phrase "applying " " rotation output: ") e),
  )
  after_commit p (c, ok false) = configure (record p { events = c.events; cluster = c.cluster })
  after_commit p (c, ok true) = (
    report_keys status_true (concat (f.title ∷ "KeysRotated" ∷ []))
        "rotation applied; staging secret cleared"
        (record p { events = c.events; cluster = c.cluster }),
    returns (requeue_in requeue_secret_polling),
  )

  abbrev pub to_commit : Secret → Secret → KeysPass W → Commit W
  to_commit existing staging p = record {
    staging = staging;
    target = existing;
    events = p.events;
    cluster = p.cluster;
  }

  -- observeRotationAge and applyRotationOutput.
  abbrev pub apply_rotation : Secret → Secret → KeysPass W → KeysPass W × Outcome
  apply_rotation existing staging p =
      after_commit (age_observed client.secrets existing staging p)
        (commit_staged client.secrets rotation_spec (to_commit existing staging p))

  -- ensureStagingSecret, with rotation.EnsureStagingSecret.
  abbrev pub after_staging : Secret → KeysPass W → W × Answer Secret → KeysPass W × Outcome
  after_staging existing p (w, err e) = (
    with_store w p,
    fails (wrap (concat ("ensuring staging secret " ∷ staging_secret_name ∷ ": " ∷ [])) e),
  )
  after_staging existing p (w, ok staging) = apply_rotation existing staging (with_store w p)

  abbrev pub after_creation : KeysPass W → W × Option Error → KeysPass W × Outcome
  after_creation p (w, some e) =
      (with_store w p, fails (wrap (phrase "creating " " keys secret: ") e))
  after_creation p (w, none) = (
    report_keys status_false "GeneratingKeys"
        (concat ("Initial " ∷ f.noun ∷ " keys have been generated" ∷ []))
        (record p {
          events =
              p.events
              ++ record {
                type = normal;
                reason = concat (f.title ∷ "KeysGenerated" ∷ []);
                message =
                    concat ("Initial " ∷ f.noun ∷ " encryption keys have been generated" ∷ []);
              }
                ∷ [];
          cluster = w;
        }),
    returns (requeue_in requeue_secret_polling),
  )

  abbrev pub by_existing : KeysPass W → Answer Secret → KeysPass W × Outcome
  by_existing p (err e) =
      if is_not_found e
      then after_creation p (
          create_keys_secret client keys_secret_name (normalized_max_active_keys f.max_active_keys)
            p.cluster)
      else (p, fails (wrap (phrase "getting " " keys secret: ") e))
  by_existing p (ok existing) =
      after_staging existing p
        (client.ensure_staging p.cluster staging_secret_name (concat (f.kind ∷ "-keys" ∷ [])))

  -- The steps of the two flavours.
  unfoldable pub reconcile_keys : KeysPass W → KeysPass W × Outcome
  reconcile_keys p = by_existing p (client.get_secret p.cluster k.namespace keys_secret_name)

-- The two flavours.
abbrev pub fernet_keys : ℤ → Flavour
fernet_keys n = record { kind = "fernet"; title = "Fernet"; noun = "Fernet"; max_active_keys = n }

abbrev pub credential_keys : ℤ → Flavour
credential_keys n = record {
  kind = "credential";
  title = "Credential";
  noun = "credential";
  max_active_keys = n;
}

module _ {W : Type 0} (m : ConditionMeta) (client : KeysClient W) (decoder : Decoder)
    (k : KeysOwner) (max_active_keys : ℤ) where
  -- reconcileFernetKeys.
  abbrev reconcile_fernet_keys : KeysPass W → KeysPass W × Outcome
  reconcile_fernet_keys = reconcile_keys m client decoder k (fernet_keys max_active_keys)

  -- reconcileCredentialKeys.
  abbrev reconcile_credential_keys : KeysPass W → KeysPass W × Outcome
  reconcile_credential_keys = reconcile_keys m client decoder k (credential_keys max_active_keys)
