-- ===== src/Secrets.antt =====
-- internal/common/secrets: what a step waits for before it uses a Secret that the External Secrets
-- Operator materializes. `W` is the cluster, which these functions only read.
pub mod Gates
use c5c3_forge.Prelude.{
  ℕ, Bool, true, false, not, ◌&&◌, List, [], ◌∷◌, String, Option, none, some, str_eq, is_none,
  if◌then◌else◌, lookup,
}
use c5c3_forge.Kube.Text.{concat, quote}
use c5c3_forge.Kube.Error.{Error, Answer, ok, err, plain, wrap, is_not_found}
use c5c3_forge.Kube.Condition.{Condition, ConditionMeta, Status, status_false, is_true}
use c5c3_forge.Conditions.{set_condition}

-- A status condition of an ExternalSecret or of a store.
pub record EsoCondition : Type 0 where
  pub type : String
  pub status : Status

-- client.Get of a Secret (its data), an ExternalSecret, a ClusterSecretStore and a SecretStore
-- (their status conditions), by namespace and name.
pub record SecretsClient (W : Type 0) : Type 0 where
  pub get_secret : W → String → String → Answer (List (String × String))
  pub get_external_secret : W → String → String → Answer (List EsoCondition)
  pub get_cluster_store : W → String → Answer (List EsoCondition)
  pub get_store : W → String → String → Answer (List EsoCondition)

-- SecretStoreRefSpec, with its kind a Go string.
pub record SecretStoreRefSpec : Type 0 where
  pub kind : String
  pub name : String

abbrev pub secret_store_kind_cluster : String
secret_store_kind_cluster = "ClusterSecretStore"

abbrev pub secret_store_kind_namespaced : String
secret_store_kind_namespaced = "SecretStore"

-- GateState.
pub data GateState : Type 0 where
  gate_ready gate_external_secret_missing gate_external_secret_not_synced gate_secret_keys_missing :
      GateState

-- CredentialGateSpec.
pub record CredentialGateSpec : Type 0 where
  pub namespace : String
  pub name : String
  pub reason : String
  pub noun : String
  pub waiting_msg : String
  pub expected_keys : List String

-- The loop over the conditions: a condition of type Ready with status True.
unfoldable pub any_ready : List EsoCondition → Bool
any_ready [] = false
any_ready (c ∷ cs) =
    let rest = any_ready cs in if str_eq c.type "Ready" && is_true c.status then true else rest

-- The loop over the expected keys.
unfoldable pub has_keys : List (String × String) → List String → Bool
has_keys values [] = true
has_keys values (k ∷ ks) =
    let rest = has_keys values ks in if is_none (lookup k values) then false else rest

-- EffectiveStoreRef. A nil reference is `none`.
abbrev pub effective_store_ref : Option SecretStoreRefSpec → SecretStoreRefSpec
effective_store_ref none = record {
  kind = secret_store_kind_cluster;
  name = "openbao-cluster-store";
}
effective_store_ref (some ref) = record {
  kind = if str_eq ref.kind "" then secret_store_kind_cluster else ref.kind;
  name = ref.name;
}

module _ {W : Type 0} (c : SecretsClient W) where
  -- What a store's Get answers.
  abbrev pub store_answer : String → Answer (List EsoCondition) → Answer Bool
  store_answer what (ok conditions) = ok (any_ready conditions)
  store_answer what (err e) =
      if is_not_found e then ok false else err (wrap (concat ("getting " ∷ what ∷ ": " ∷ [])) e)

  -- IsClusterSecretStoreReady.
  abbrev pub is_cluster_secret_store_ready : W → String → Answer Bool
  is_cluster_secret_store_ready w name =
      store_answer (concat ("ClusterSecretStore " ∷ name ∷ [])) (c.get_cluster_store w name)

  -- IsSecretStoreReady.
  abbrev pub is_secret_store_ready : W → String → String → Answer Bool
  is_secret_store_ready w name namespace =
      store_answer (concat ("SecretStore " ∷ namespace ∷ "/" ∷ name ∷ []))
        (c.get_store w namespace name)

  -- IsStoreRefReady.
  unfoldable pub is_store_ref_ready : W → SecretStoreRefSpec → String → Answer Bool
  is_store_ref_ready w ref namespace =
      if str_eq ref.kind secret_store_kind_cluster
      then is_cluster_secret_store_ready w ref.name
      else if str_eq ref.kind secret_store_kind_namespaced
      then is_secret_store_ready w ref.name namespace
      else err (
          plain (
            concat (
              "unknown secret store kind " ∷ quote ref.kind ∷ " for store " ∷ quote ref.name ∷ [])))

  abbrev external_secret_answer :
      String → String → Answer (List EsoCondition) → Answer (Bool × Bool)
  external_secret_answer namespace name (ok conditions) = ok (true, any_ready conditions)
  external_secret_answer namespace name (err e) =
      if is_not_found e
      then ok (false, false)
      else err (wrap (concat ("getting ExternalSecret " ∷ namespace ∷ "/" ∷ name ∷ ": " ∷ [])) e)

  -- WaitForExternalSecret: whether it exists, and whether it is ready.
  unfoldable pub wait_for_external_secret : W → String → String → Answer (Bool × Bool)
  wait_for_external_secret w namespace name =
      external_secret_answer namespace name (c.get_external_secret w namespace name)

  abbrev pub secret_answer :
      String → String → List String → Answer (List (String × String)) → Answer Bool
  secret_answer namespace name expected_keys (ok values) = ok (has_keys values expected_keys)
  secret_answer namespace name expected_keys (err e) =
      if is_not_found e
      then ok false
      else err (wrap (concat ("getting Secret " ∷ namespace ∷ "/" ∷ name ∷ ": " ∷ [])) e)

  -- IsSecretReady.
  unfoldable pub is_secret_ready : W → String → String → List String → Answer Bool
  is_secret_ready w namespace name expected_keys =
      secret_answer namespace name expected_keys (c.get_secret w namespace name)

  abbrev pub attribute : Answer (Bool × Bool) → Answer GateState
  attribute (err e) = err e
  attribute (ok (false, ready)) = ok gate_external_secret_missing
  attribute (ok (true, true)) = ok gate_secret_keys_missing
  attribute (ok (true, false)) = ok gate_external_secret_not_synced

  abbrev pub after_secret : Answer (Bool × Bool) → Answer Bool → Answer GateState
  after_secret external (err e) = err e
  after_secret external (ok true) = ok gate_ready
  after_secret external (ok false) = attribute external

  -- GateSyncedSecret.
  unfoldable pub gate_synced_secret : W → String → String → List String → Answer GateState
  gate_synced_secret w namespace name expected_keys =
      after_secret (wait_for_external_secret w namespace name)
        (is_secret_ready w namespace name expected_keys)

  module _ (m : ConditionMeta) (generation : ℕ) (condition_type : String) where
    abbrev pub blocked : String → String → Condition
    blocked reason message = record {
      type = condition_type;
      status = status_false;
      observed_generation = generation;
      last_transition_time = 0;
      reason = reason;
      message = message;
    }

    abbrev pub store_gated :
        SecretStoreRefSpec → List Condition → Answer Bool → List Condition × Answer Bool
    store_gated ref conds (err e) = (conds, err e)
    store_gated ref conds (ok true) = (conds, ok true)
    store_gated ref conds (ok false) = (
      set_condition m conds (
          blocked "SecretStoreNotReady" (
            concat (
              ref.kind
              ∷ " "
              ∷ quote ref.name
              ∷ " is not ready; upstream secret backend unreachable"
              ∷ []))),
      ok false,
    )

    -- GateStoreReady.
    unfoldable pub gate_store_ready :
        W → SecretStoreRefSpec → String → List Condition → List Condition × Answer Bool
    gate_store_ready w ref namespace conds =
        store_gated ref conds (is_store_ref_ready w ref namespace)

    abbrev pub gate_message : CredentialGateSpec → GateState → String
    gate_message spec gate_external_secret_missing =
        concat (
          spec.noun ∷ " ExternalSecret " ∷ spec.namespace ∷ "/" ∷ spec.name ∷ " not found yet" ∷ [])
    gate_message spec gate_secret_keys_missing =
        concat (spec.noun ∷ " Secret exists but is missing expected keys" ∷ [])
    gate_message spec gate_external_secret_not_synced = spec.waiting_msg
    gate_message spec gate_ready = spec.waiting_msg

    abbrev pub is_gate_ready : GateState → Bool
    is_gate_ready gate_ready = true
    is_gate_ready gate_external_secret_missing = false
    is_gate_ready gate_external_secret_not_synced = false
    is_gate_ready gate_secret_keys_missing = false

    abbrev pub gated :
        CredentialGateSpec → List Condition → Answer GateState → List Condition × Answer Bool
    gated spec conds (err e) = (conds, err e)
    gated spec conds (ok state) =
        if is_gate_ready state
        then (conds, ok true)
        else (set_condition m conds (blocked spec.reason (gate_message spec state)), ok false)

    -- GateCredential.
    unfoldable pub gate_credential :
        W → CredentialGateSpec → List Condition → List Condition × Answer Bool
    gate_credential w spec conds =
        gated spec conds (gate_synced_secret w spec.namespace spec.name spec.expected_keys)

    abbrev pub next_credential :
        List Condition → Answer Bool → List Condition × Answer Bool → List Condition × Answer Bool
    next_credential conds (err e) rest = (conds, err e)
    next_credential conds (ok true) rest = rest
    next_credential conds (ok false) rest = (conds, ok false)

    -- GateCredentials: the loop ends at the first credential that is not ready, or at an error.
    unfoldable pub gate_credentials :
        W → List CredentialGateSpec → List Condition → List Condition × Answer Bool
    gate_credentials w [] conds = (conds, ok true)
    gate_credentials w (spec ∷ specs) conds =
        let (conds', a) = gate_credential w spec conds in
        next_credential conds' a (gate_credentials w specs conds')
