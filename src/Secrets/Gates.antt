-- ===== src/Secrets/Gates.antt =====
-- internal/common/secrets/gate.go: the credentials that a gate lets through.
use c5c3_forge.Prelude.{
  ℕ, ◌≡◌, ◌≢◌, ◌↔◌, refl, ap, ◌⊎◌, inl, inr, Bool, true, false, List, [], ◌∷◌, String, arith, All,
  Bool-cases, is_none, lookup,
}
use c5c3_forge.Kube.Error.{Error, Answer, ok, err, is_not_found}
use c5c3_forge.Kube.Condition.{Condition, ConditionMeta, ConditionLaws, status_false}
use c5c3_forge.Conditions.Laws.{HasStatus, set_condition-HasStatus}
use c5c3_forge.Secrets.{
  SecretsClient, GateState, gate_ready, gate_external_secret_missing,
  gate_external_secret_not_synced, gate_secret_keys_missing, CredentialGateSpec, has_keys,
  secret_answer, attribute, after_secret, is_secret_ready, wait_for_external_secret,
  gate_synced_secret, gated, gate_credential, gate_credentials, blocked, gate_message,
}

-- The Secret has a value for the key.
abbrev pub Has : List (String × String) → String → Type 0
Has values k = is_none (lookup k values) ≡ false

has_keys_iff :
    (values : List (String × String)) (ks : List String)
    → (has_keys values ks ≡ true) ↔ All (Has values) ks
unfolding has_keys
has_keys_iff values [] = (λ h. tt, λ h. refl)
has_keys_iff values (k ∷ ks) = (
  λ h. ground (arith, (has_keys_iff values ks).0),
  λ h. ground (arith, (has_keys_iff values ks).1 h.1),
)

-- The answer is a Secret that has every key.
abbrev pub HasKeys : List String → Answer (List (String × String)) → Type 0
HasKeys ks (ok values) = All (Has values) ks
HasKeys ks (err e) = ⊥

-- An answer that is a Boolean, or an error.
Answer-cases : (a : Answer Bool) → (a ≡ ok true) ⊎ ((a ≡ ok false) ⊎ ((e : Error) × (a ≡ err e)))
Answer-cases (ok true) = inl refl
Answer-cases (ok false) = inr (inl refl)
Answer-cases (err e) = inr (inr (e, refl))

module _ {W : Type 0} (c : SecretsClient W) (w : W) where
  -- The Secret of a credential is there, with all of its keys.
  abbrev pub Usable : CredentialGateSpec → Type 0
  Usable spec = HasKeys spec.expected_keys (c.get_secret w spec.namespace spec.name)

  secret_answer_iff :
      (ns n : String) (ks : List String) (a : Answer (List (String × String)))
      → (secret_answer c ns n ks a ≡ ok true) ↔ HasKeys ks a
  secret_answer_iff ns n ks (ok values) =
      (λ h. (has_keys_iff values ks).0 (cc h), λ h. ap ok ((has_keys_iff values ks).1 h))
  secret_answer_iff ns n ks (err e) = (
    λ h. elim (Bool-cases (is_not_found e)) [ inl x ↦ cc (rw x at h) | inr x ↦ cc (rw x at h) ],
    λ h. absurd h,
  )

  attribute-ne : (x : Answer (Bool × Bool)) → attribute c x ≢ ok gate_ready
  attribute-ne (err e) h = cc
  attribute-ne (ok (false, ready)) h = cc
  attribute-ne (ok (true, true)) h = cc
  attribute-ne (ok (true, false)) h = cc

  after_secret_iff :
      (x : Answer (Bool × Bool)) (a : Answer Bool)
      → (after_secret c x a ≡ ok gate_ready) ↔ (a ≡ ok true)
  after_secret_iff x (err e) = (λ h. cc h, λ h. cc h)
  after_secret_iff x (ok true) = (λ h. refl, λ h. refl)
  after_secret_iff x (ok false) = (λ h. absurd (attribute-ne x h), λ h. cc h)

  gate_synced_secret_iff :
      (spec : CredentialGateSpec)
      → (gate_synced_secret c w spec.namespace spec.name spec.expected_keys ≡ ok gate_ready)
        ↔ Usable spec
  unfolding gate_synced_secret is_secret_ready
  gate_synced_secret_iff spec =
      let secret =
        secret_answer_iff spec.namespace spec.name spec.expected_keys
          (c.get_secret w spec.namespace spec.name) in
      let after =
        after_secret_iff (wait_for_external_secret c w spec.namespace spec.name)
          (is_secret_ready c w spec.namespace spec.name spec.expected_keys) in
      (λ h. secret.0 (after.0 h), λ u. after.1 (secret.1 u))

  module _ (m : ConditionMeta) (g : ℕ) (t : String) where
    gated_iff :
        (spec : CredentialGateSpec) (conds : List Condition) (a : Answer GateState)
        → ((gated c m g t spec conds a).1 ≡ ok true) ↔ (a ≡ ok gate_ready)
    gated_iff spec conds (err e) = (λ h. cc h, λ h. cc h)
    gated_iff spec conds (ok gate_ready) = (λ h. refl, λ h. refl)
    gated_iff spec conds (ok gate_external_secret_missing) = (λ h. cc h, λ h. cc h)
    gated_iff spec conds (ok gate_external_secret_not_synced) = (λ h. cc h, λ h. cc h)
    gated_iff spec conds (ok gate_secret_keys_missing) = (λ h. cc h, λ h. cc h)

    gate_credential_iff :
        (spec : CredentialGateSpec) (conds : List Condition)
        → ((gate_credential c m g t w spec conds).1 ≡ ok true) ↔ Usable spec
    unfolding gate_credential
    gate_credential_iff spec conds =
        let state = gate_synced_secret c w spec.namespace spec.name spec.expected_keys in
        let gate = gated_iff spec conds state in
        let synced = gate_synced_secret_iff spec in
        (λ h. synced.0 (gate.0 h), λ u. gate.1 (synced.1 u))

    -- GateCredentials lets the pass go on exactly when every credential's Secret is there with all
    -- of its expected keys, whatever the state of the ExternalSecrets.
    pub gate_credentials_iff :
        (specs : List CredentialGateSpec) (conds : List Condition)
        → ((gate_credentials c m g t w specs conds).1 ≡ ok true) ↔ All Usable specs
    unfolding gate_credentials
    gate_credentials_iff [] conds = (λ h. tt, λ h. refl)
    gate_credentials_iff (spec ∷ specs) conds =
        let one = gate_credential_iff spec conds in
        let rest = gate_credentials_iff specs (gate_credential c m g t w spec conds).0 in
        elim (Answer-cases (gate_credential c m g t w spec conds).1) [
          | inl q ↦ rw q (λ h. (one.0 q, rest.0 h), λ u. rest.1 u.1)
          | inr (inl q) ↦ rw q (λ h. cc h, λ u. cc (one.1 u.0, q))
          | inr (inr (e, q)) ↦ rw q (λ h. cc h, λ u. cc (one.1 u.0, q))
        ]

    gated_blocks :
        (laws : ConditionLaws m) (spec : CredentialGateSpec) (conds : List Condition)
        (a : Answer GateState)
        → (gated c m g t spec conds a).1 ≡ ok false
        → HasStatus m (gated c m g t spec conds a).0 t status_false
    gated_blocks laws spec conds (err e) h = cc h
    gated_blocks laws spec conds (ok gate_ready) h = cc h
    gated_blocks laws spec conds (ok gate_external_secret_missing) h =
        set_condition-HasStatus m laws conds
          (blocked c m g t spec.reason (gate_message c m g t spec gate_external_secret_missing))
    gated_blocks laws spec conds (ok gate_external_secret_not_synced) h =
        set_condition-HasStatus m laws conds (blocked c m g t spec.reason spec.waiting_msg)
    gated_blocks laws spec conds (ok gate_secret_keys_missing) h =
        set_condition-HasStatus m laws conds
          (blocked c m g t spec.reason (gate_message c m g t spec gate_secret_keys_missing))

    gate_credential_blocks :
        (laws : ConditionLaws m) (spec : CredentialGateSpec) (conds : List Condition)
        → (gate_credential c m g t w spec conds).1 ≡ ok false
        → HasStatus m (gate_credential c m g t w spec conds).0 t status_false
    unfolding gate_credential
    gate_credential_blocks laws spec conds h =
        gated_blocks laws spec conds
          (gate_synced_secret c w spec.namespace spec.name spec.expected_keys) h

    -- Where the condition helpers obey their documentation, a gate that answers false without an
    -- error has set the condition of its type to False.
    pub gate_credentials_blocks :
        (laws : ConditionLaws m) (specs : List CredentialGateSpec) (conds : List Condition)
        → (gate_credentials c m g t w specs conds).1 ≡ ok false
        → HasStatus m (gate_credentials c m g t w specs conds).0 t status_false
    unfolding gate_credentials
    gate_credentials_blocks laws [] conds h = cc h
    gate_credentials_blocks laws (spec ∷ specs) conds h =
        elim (Answer-cases (gate_credential c m g t w spec conds).1) [
          | inl q ↦ rw q (
              gate_credentials_blocks laws specs (gate_credential c m g t w spec conds).0
                (rw q at h))
          | inr (inl q) ↦ rw q (gate_credential_blocks laws spec conds q)
          | inr (inr (e, q)) ↦ cc (rw q at h)
        ]
