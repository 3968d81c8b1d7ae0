-- ===== src/Keystone/Keys/Create.antt =====
-- operators/keystone/internal/controller: the initial creation of the Fernet or the credential keys
-- of a Keystone CR (createKeysSecret of reconcile_fernet.go), and the client of the key steps.
use c5c3_forge.Prelude.{
  ℕ, zero, suc, ◌+◌, ◌++◌, List, [], ◌∷◌, String, Option, none, some, ℤ, pos, negsuc, ltb, insert,
  if◌then◌else◌,
}
use c5c3_forge.Kube.Text.{concat}
use c5c3_forge.Kube.Error.{Error, Answer, ok, err, wrap}
use c5c3_forge.Kube.Condition.{Condition}
use c5c3_forge.Release.Atoi.{decimal}
use c5c3_forge.Database.Flow.{Event}
use c5c3_forge.Rotation.{Secret, SecretClient, observe_age}

-- The names of a flavour, and spec.fernet.maxActiveKeys or spec.credentialKeys.maxActiveKeys.
pub record Flavour : Type 0 where
  -- "fernet" or "credential", and as it begins a reason: "Fernet" or "Credential".
  pub kind : String
  pub title : String
  -- As it begins a message: "Fernet" or "Credential"; and inside one: "Fernet" or "credential".
  pub noun : String
  pub max_active_keys : ℤ

-- Of the Keystone CR: its name, namespace and generation.
pub record KeysOwner : Type 0 where
  pub name : String
  pub namespace : String
  pub generation : ℕ

-- The client. `random_key` is 32 random bytes in base64url; `owned` is SetControllerReference; the
-- last five ensure objects that are built from the CR: the staging Secret's labels and owner
-- (controllerutil.CreateOrUpdate), the RBAC, the script's ConfigMap, the CronJob and the PushSecret.
pub record KeysClient (W : Type 0) : Type 0 where
  pub secrets : SecretClient W
  pub get_secret : W → String → String → Answer Secret
  pub create_secret : W → Secret → W × Option Error
  pub owned : Secret → Answer Secret
  pub random_key : W → W × Answer String
  pub ensure_staging : W → String → String → W × Answer Secret
  pub ensure_rbac : W → String → W × Option Error
  pub ensure_script : W → String → W × Answer String
  pub ensure_cron_job : W → String → W × Option Error
  pub ensure_push_secret : W → String → W × Option Error

-- What a pass reads and writes; `ages` are the times that the age gauge was set to.
pub record KeysPass (W : Type 0) : Type 0 where
  pub conditions : List Condition
  pub events : List Event
  pub ages : List ℕ
  pub cluster : W

-- normalizedFernetMaxActiveKeys and normalizedCredentialMaxActiveKeys: max(n, 3).
abbrev pub normalized_max_active_keys : ℤ → ℕ
normalized_max_active_keys (pos n) = if ltb n 3 then 3 else n
normalized_max_active_keys (negsuc n) = 3

-- RequeueSecretPolling.
abbrev pub requeue_secret_polling : ℤ
requeue_secret_polling = pos 15_000_000_000

abbrev add_age : Option ℕ → List ℕ → List ℕ
add_age none ages = ages
add_age (some t) ages = ages ++ t ∷ []

-- observeRotationAge, for the Secret in use and the staging Secret.
abbrev pub age_observed : {W : Type 0} → SecretClient W → Secret → Secret → KeysPass W → KeysPass W
age_observed c existing staging p = record p {
  ages = add_age (observe_age c (some existing) (some staging)) p.ages;
}

module _ {W : Type 0} (client : KeysClient W) where
  abbrev pub generated : W × Answer String → W × Answer String
  generated (w, ok key) = (w, ok key)
  generated (w, err e) = (w, err (wrap "generating fernet key: " e))

  -- generateFernetKey.
  abbrev pub generate_fernet_key : W → W × Answer String
  generate_fernet_key w = generated (client.random_key w)

  -- The loop of createKeysSecret: `i` is its counter, and the first argument the turns left.
  unfoldable pub generate_keys :
      ℕ → ℕ → List (String × String) → W → W × Answer (List (String × String))
  generate_keys zero i payload w = (w, ok payload)
  generate_keys (suc n) i payload w =
      let (w', a) = generate_fernet_key w in
      elim a [
        | err e ↦ (w', err e)
        | ok key ↦ generate_keys n (i + 1) (insert (decimal i) key payload) w'
      ]

  abbrev pub keys_created : String → W × Option Error → W × Option Error
  keys_created name (w, none) = (w, none)
  keys_created name (w, some e) =
      (w, some (wrap (concat ("creating keys secret " ∷ name ∷ ": " ∷ [])) e))

  abbrev pub create_owned_keys : String → W → Answer Secret → W × Option Error
  create_owned_keys name w (ok s) = keys_created name (client.create_secret w s)
  create_owned_keys name w (err e) =
      (w, some (wrap (concat ("setting owner reference on keys secret " ∷ name ∷ ": " ∷ [])) e))

  abbrev pub with_keys : String → W × Answer (List (String × String)) → W × Option Error
  with_keys name (w, err e) = (w, some e)
  with_keys name (w, ok payload) =
      create_owned_keys name w
        (client.owned (record { name = name; annotations = []; payload = payload }))

  -- createKeysSecret.
  unfoldable pub create_keys_secret : String → ℕ → W → W × Option Error
  create_keys_secret name num_keys w = with_keys name (generate_keys num_keys 0 [] w)
