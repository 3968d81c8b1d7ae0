-- ===== src/Database/Provision.antt =====
-- internal/common/database/flow.go, ReconcileProvision, and database.go, which it calls.
pub mod Gate
use c5c3_forge.Prelude.{
  ℕ, Bool, true, false, not, List, [], ◌∷◌, String, Option, none, some, ℤ, str_eq, if◌then◌else◌,
}
use c5c3_forge.Kube.Text.{concat, quote}
use c5c3_forge.Kube.Error.{Error, Answer, ok, err, wrap, is_not_found, ◌>>=◌}
use c5c3_forge.Kube.Condition.{Condition, ConditionMeta, Status, status_false}
use c5c3_forge.Kube.Outcome.{Outcome, done, returns, fails, requeue_in}
use c5c3_forge.Conditions.{is_ready}
use c5c3_forge.Database.Flow.{Flow, condition, set_flow_condition, with_cluster}

-- DatabaseSpec, as far as the operators' flows and webhooks read it. An absent clusterRef is
-- `none`, an absent host is "".
pub record DatabaseSpec : Type 0 where
  pub cluster_ref : Option String
  pub credentials_mode : String
  pub host : String
  pub database : String
  pub secret_ref : String

abbrev pub credentials_mode_dynamic : String
credentials_mode_dynamic = "Dynamic"

-- ProvisionParams.
pub record ProvisionParams : Type 0 where
  pub name : String
  pub namespace : String
  pub labels : List (String × String)
  pub cluster_ref : String
  pub database_name : String
  pub password_secret_name : String

-- The MariaDB resources in the cluster. An apply answers with the status conditions that the
-- server sent back; what is applied is built from the parameters (builders.go).
pub record MariaDbApi (W : Type 0) : Type 0 where
  pub get_cluster : W → String → String → Answer (List Condition)
  pub apply_database : W → ProvisionParams → W × Answer (List Condition)
  pub apply_user : W → ProvisionParams → W × Answer (List Condition)
  pub apply_grant : W → ProvisionParams → W × Answer (List Condition)

-- ProvisionFlowParams, but for what the state of the pass holds.
pub record ProvisionFlowParams : Type 0 where
  pub instance_name : String
  pub namespace : String
  pub labels : List (String × String)
  pub database : DatabaseSpec
  pub generation : ℕ
  pub condition_type : String
  pub requeue_after : ℤ

module _ {W : Type 0} (m : ConditionMeta) (api : MariaDbApi W) where
  abbrev pub cluster_answer : String → String → Answer (List Condition) → Answer Bool
  cluster_answer namespace name (ok conditions) = ok (is_ready m conditions)
  cluster_answer namespace name (err e) =
      if is_not_found e
      then ok false
      else err (wrap (concat ("getting MariaDB " ∷ namespace ∷ "/" ∷ name ∷ ": " ∷ [])) e)

  -- IsClusterReady, for the cluster named by the spec's clusterRef.
  unfoldable pub is_cluster_ready : W → String → String → Answer Bool
  is_cluster_ready w namespace name =
      cluster_answer namespace name (api.get_cluster w namespace name)

  abbrev pub readiness : W × Answer (List Condition) → W × Answer Bool
  readiness (w, ok conditions) = (w, ok (is_ready m conditions))
  readiness (w, err e) = (w, err e)

  -- EnsureDatabase.
  unfoldable pub ensure_database : W → ProvisionParams → W × Answer Bool
  ensure_database w pp = readiness (api.apply_database w pp)

  abbrev pub then_grant : ProvisionParams → W × Answer Bool → W × Answer Bool
  then_grant pp (w, err e) = (w, err e)
  then_grant pp (w, ok false) = (w, ok false)
  then_grant pp (w, ok true) = readiness (api.apply_grant w pp)

  -- EnsureDatabaseUser: the grant waits for the user to be ready.
  unfoldable pub ensure_database_user : W → ProvisionParams → W × Answer Bool
  ensure_database_user w pp = then_grant pp (readiness (api.apply_user w pp))

module _ {W : Type 0} (m : ConditionMeta) (api : MariaDbApi W) (p : ProvisionFlowParams) where
  abbrev pub waits : String → String → Flow W → Flow W × Outcome
  waits reason message f = (
    set_flow_condition m (condition p.condition_type p.generation status_false reason message) f,
    returns (requeue_in p.requeue_after),
  )

  abbrev pub after_user : Flow W → W × Answer Bool → Flow W × Outcome
  after_user f (w, err e) = (with_cluster w f, fails (wrap "ensuring database user: " e))
  after_user f (w, ok false) =
      waits "WaitingForDatabase" "MariaDB User or Grant CR is not ready" (with_cluster w f)
  after_user f (w, ok true) = (with_cluster w f, done)

  abbrev pub user_step : ProvisionParams → Flow W → Flow W × Outcome
  user_step pp f =
      if not (str_eq p.database.credentials_mode credentials_mode_dynamic)
      then after_user f (ensure_database_user m api f.cluster pp)
      else (f, done)

  abbrev pub after_database : ProvisionParams → Flow W → W × Answer Bool → Flow W × Outcome
  after_database pp f (w, err e) = (with_cluster w f, fails (wrap "ensuring Database: " e))
  after_database pp f (w, ok false) =
      waits "WaitingForDatabase" "MariaDB Database CR is not ready" (with_cluster w f)
  after_database pp f (w, ok true) = user_step pp (with_cluster w f)

  abbrev pub provision_params : String → ProvisionParams
  provision_params cluster = record {
    name = p.instance_name;
    namespace = p.namespace;
    labels = p.labels;
    cluster_ref = cluster;
    database_name = p.database.database;
    password_secret_name = p.database.secret_ref;
  }

  abbrev pub after_gate : String → Flow W → Answer Bool → Flow W × Outcome
  after_gate cluster f (err e) = (f, fails (wrap "checking MariaDB cluster readiness: " e))
  after_gate cluster f (ok false) =
      waits "ClusterNotReady" (concat ("MariaDB cluster " ∷ quote cluster ∷ " is not ready" ∷ [])) f
  after_gate cluster f (ok true) =
      after_database (provision_params cluster) f
        (ensure_database m api f.cluster (provision_params cluster))

  abbrev pub by_mode : Option String → Flow W → Flow W × Outcome
  by_mode none f = (f, done)
  by_mode (some cluster) f =
      after_gate cluster f (is_cluster_ready m api f.cluster p.namespace cluster)

  -- ReconcileProvision.
  unfoldable pub reconcile_provision : Flow W → Flow W × Outcome
  reconcile_provision f = by_mode p.database.cluster_ref f
