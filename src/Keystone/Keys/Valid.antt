-- ===== src/Keystone/Keys/Valid.antt =====
-- operators/keystone/internal/controller/reconcile_fernet.go and reconcile_credential.go: what a
-- pass over the keys of a Keystone CR writes.
use c5c3_forge.Prelude.{
  ◌≡◌, refl, ℕ, zero, suc, ◌+◌, Bool, true, false, List, [], String, Option, none, some, if_cases,
  insert,
}
use c5c3_forge.Kube.Error.{Error, Answer, ok, err, is_not_found}
use c5c3_forge.Kube.Condition.{ConditionMeta}
use c5c3_forge.Kube.Outcome.{Outcome}
use c5c3_forge.Release.Atoi.{decimal}
use c5c3_forge.Rotation.{Secret, Commit, commit_staged}
use c5c3_forge.Rotation.Guard.{Guarded, commit_staged-P}
use c5c3_forge.Keystone.Keys.Format.{Decoder}
use c5c3_forge.Keystone.Keys.Create.{
  Flavour, KeysOwner, KeysClient, KeysPass, generated, generate_fernet_key, generate_keys,
  age_observed, keys_created, create_owned_keys, with_keys, create_keys_secret,
}
use c5c3_forge.Keystone.Keys.{
  staging_secret_name, rotation_spec, after_push_secret, after_cron_job, after_script, after_rbac,
  after_commit, apply_rotation, after_staging, after_creation, by_existing, reconcile_keys,
  to_commit,
}

-- A property of the cluster that every write of a pass leaves true, of which the only Updates of a
-- Secret are those of the commit: with a valid set of keys, or, of the staging Secret, with none. The
-- staging Secret that is ensured has the name that was asked for.
pub record KeysGuarded {W : Type 0} (m : ConditionMeta) (client : KeysClient W) (decoder : Decoder)
    (k : KeysOwner) (f : Flavour) (P : W → Type 0) : Type 0 where
  pub commit :
      Guarded client.secrets
        (rotation_spec m client decoder k f)
        (λ n. n ≡ staging_secret_name m client decoder k f)
        P
  pub staging_name :
      (w : W) (n l : String) (s : Secret) → (client.ensure_staging w n l).1 ≡ ok s → s.name ≡ n
  pub create_secret : (w : W) (s : Secret) → P w → P (client.create_secret w s).0
  pub random_key : (w : W) → P w → P (client.random_key w).0
  pub ensure_staging : (w : W) (n l : String) → P w → P (client.ensure_staging w n l).0
  pub ensure_rbac : (w : W) (n : String) → P w → P (client.ensure_rbac w n).0
  pub ensure_script : (w : W) (n : String) → P w → P (client.ensure_script w n).0
  pub ensure_cron_job : (w : W) (n : String) → P w → P (client.ensure_cron_job w n).0
  pub ensure_push_secret : (w : W) (n : String) → P w → P (client.ensure_push_secret w n).0

module _ {W : Type 0} (m : ConditionMeta) (client : KeysClient W) (decoder : Decoder)
    (k : KeysOwner) (f : Flavour) {P : W → Type 0}
    (guarded : KeysGuarded m client decoder k f P) where
  generated-P : (r : W × Answer String) → P r.0 → P (generated client r).0
  generated-P (w, ok key) h = h
  generated-P (w, err e) h = h

  next_key :
      {B : Type 0} (g : String → W → W × Answer B) (r : W × Answer String)
      → P r.0
      → ((key : String) (w : W) → P w → P (g key w).0)
      → P (elim r.1 as (λ _. W × Answer B) [ err e ↦ (r.0, err e) | ok key ↦ g key r.0 ]).0
  next_key g (w, err e) h j = h
  next_key g (w, ok key) h j = j key w h

  generate_keys-P :
      (n i : ℕ) (payload : List (String × String)) (w : W)
      → P w
      → P (generate_keys client n i payload w).0
  unfolding generate_keys
  generate_keys-P zero i payload w h = h
  generate_keys-P (suc n) i payload w h =
      next_key (λ key. generate_keys client n (i + 1) (insert (decimal i) key payload))
        (generate_fernet_key client w) (generated-P _ (guarded.random_key w h))
        (λ key. generate_keys-P n (i + 1) (insert (decimal i) key payload))

  keys_created-P : (name : String) (r : W × Option Error) → P r.0 → P (keys_created client name r).0
  keys_created-P name (w, none) h = h
  keys_created-P name (w, some e) h = h

  create_owned_keys-P :
      (name : String) (w : W) (a : Answer Secret) → P w → P (create_owned_keys client name w a).0
  create_owned_keys-P name w (ok s) h = keys_created-P name _ (guarded.create_secret w s h)
  create_owned_keys-P name w (err e) h = h

  with_keys-P :
      (name : String) (r : W × Answer (List (String × String)))
      → P r.0
      → P (with_keys client name r).0
  with_keys-P name (w, err e) h = h
  with_keys-P name (w, ok payload) h = create_owned_keys-P name w _ h

  create_keys_secret-P :
      (name : String) (n : ℕ) (w : W) → P w → P (create_keys_secret client name n w).0
  unfolding create_keys_secret
  create_keys_secret-P name n w h = with_keys-P name _ (generate_keys-P n 0 [] w h)

  after_push_secret-P :
      (p : KeysPass W) (r : W × Option Error)
      → P r.0
      → P (after_push_secret m client decoder k f p r).0.cluster
  after_push_secret-P p (w, some e) h = h
  after_push_secret-P p (w, none) h = h

  after_cron_job-P :
      (p : KeysPass W) (r : W × Option Error)
      → P r.0
      → P (after_cron_job m client decoder k f p r).0.cluster
  after_cron_job-P p (w, some e) h = h
  after_cron_job-P p (w, none) h =
      after_push_secret-P (record p { cluster = w }) _ (guarded.ensure_push_secret w _ h)

  after_script-P :
      (p : KeysPass W) (r : W × Answer String)
      → P r.0
      → P (after_script m client decoder k f p r).0.cluster
  after_script-P p (w, err e) h = h
  after_script-P p (w, ok script) h =
      after_cron_job-P (record p { cluster = w }) _ (guarded.ensure_cron_job w script h)

  after_rbac-P :
      (p : KeysPass W) (r : W × Option Error)
      → P r.0
      → P (after_rbac m client decoder k f p r).0.cluster
  after_rbac-P p (w, some e) h = h
  after_rbac-P p (w, none) h =
      after_script-P (record p { cluster = w }) _ (guarded.ensure_script w _ h)

  after_commit-P :
      (p : KeysPass W) (r : Commit W × Answer Bool)
      → P r.0.cluster
      → P (after_commit m client decoder k f p r).0.cluster
  after_commit-P p (c, err e) h = h
  after_commit-P p (c, ok true) h = h
  after_commit-P p (c, ok false) h =
      after_rbac-P (record p { events = c.events; cluster = c.cluster }) _
        (guarded.ensure_rbac c.cluster _ h)

  apply_rotation-P :
      (existing staging : Secret) (p : KeysPass W)
      → staging.name ≡ staging_secret_name m client decoder k f
      → P p.cluster
      → P (apply_rotation m client decoder k f existing staging p).0.cluster
  apply_rotation-P existing staging p named h =
      after_commit-P (age_observed client.secrets existing staging p)
        (commit_staged client.secrets (rotation_spec m client decoder k f)
          (to_commit m client decoder k f existing staging p))
        (commit_staged-P guarded.commit (to_commit m client decoder k f existing staging p) named h)

  after_staging-P :
      (existing : Secret) (p : KeysPass W) (r : W × Answer Secret)
      → ((s : Secret) → r.1 ≡ ok s → s.name ≡ staging_secret_name m client decoder k f)
      → P r.0
      → P (after_staging m client decoder k f existing p r).0.cluster
  after_staging-P existing p (w, err e) named h = h
  after_staging-P existing p (w, ok staging) named h =
      apply_rotation-P existing staging (record p { cluster = w }) (named staging refl) h

  after_creation-P :
      (p : KeysPass W) (r : W × Option Error)
      → P r.0
      → P (after_creation m client decoder k f p r).0.cluster
  after_creation-P p (w, some e) h = h
  after_creation-P p (w, none) h = h

  by_existing-P :
      (p : KeysPass W) (a : Answer Secret)
      → P p.cluster
      → P (by_existing m client decoder k f p a).0.cluster
  by_existing-P p (err e) h =
      if_cases {A = KeysPass W × Outcome} (λ r. P r.0.cluster) (is_not_found e)
        (λ _. after_creation-P p _ (create_keys_secret-P _ _ p.cluster h)) (λ _. h)
  by_existing-P p (ok existing) h =
      after_staging-P existing p _ (guarded.staging_name p.cluster _ _)
        (guarded.ensure_staging p.cluster _ _ h)

  -- What the initial creation of a key Secret, the Update of a Secret with a set of keys that the
  -- validation accepts, the Update of the staging Secret with no keys, its deletion, and the steps
  -- that configure the CronJob leave true of the cluster, a pass over the Fernet or credential keys
  -- leaves true: no Secret but the staging one is emptied or deleted, and none is overwritten with a
  -- set of keys that was not accepted. The staging Secret that is ensured has the name that was
  -- asked for.
  pub reconcile_keys-Guarded :
      (p : KeysPass W) → P p.cluster → P (reconcile_keys m client decoder k f p).0.cluster
  unfolding reconcile_keys
  reconcile_keys-Guarded p h = by_existing-P p _ h
