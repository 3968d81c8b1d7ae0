-- ===== src/Keystone/State.antt =====
-- The Keystone CR, as far as the database and deployment steps read and write it
-- (operators/keystone/api/v1alpha1/keystone_types.go), and what the operator works with.
use c5c3_forge.Prelude.{ℕ, [], ◌∷◌, ◌++◌, String, Option, none, some, ℤ, pos}
use c5c3_forge.Kube.Text.{concat}
use c5c3_forge.Kube.Error.{Error, message}
use c5c3_forge.Kube.Condition.{ConditionMeta, Status}
use c5c3_forge.Job.{Job, JobApi}
use c5c3_forge.Job.Terminal.{OwnerPatch, Recorded, record_job_terminal_state}
use c5c3_forge.Job.Migration.{PodTemplate, Volume, VolumeMount}
use c5c3_forge.Database.Flow.{Flow, EventType, warning, condition, set_flow_condition, emit}
use c5c3_forge.Database.Provision.{DatabaseSpec, MariaDbApi}

-- UpgradePhase, a Go string with four named values; "" means that no upgrade is active.
pub data UpgradePhase : Type 0 where
  no_phase expanding migrating rolling_update contracting : UpgradePhase
  unknown_phase : String → UpgradePhase

pub record Keystone (W : Type 0) : Type 0 where
  pub flow : Flow W
  pub open flow use *
  pub name : String
  pub namespace : String
  pub generation : ℕ
  pub repository : String
  pub tag : String
  pub digest : String
  pub database : DatabaseSpec
  -- spec.gateway.hostname, where spec.gateway is set.
  pub gateway : Option String
  pub public_endpoint : String
  pub target_release : String
  pub upgrade_phase : UpgradePhase
  pub endpoint : String

-- The reconciler's clients, and deployment.RestrictedSecurityContext().
pub record Env (W V M E C : Type 0) : Type 0 where
  pub meta : ConditionMeta
  pub jobs : JobApi W (PodTemplate V M E C)
  pub mariadb : MariaDbApi W
  pub patch : OwnerPatch W
  pub restricted : C

-- What the CR's spec adds to every database Job: the connection variable, the volumes of the
-- database TLS keypair and of the per-domain config where they are on, and the priority class.
pub record JobInputs (V M E : Type 0) : Type 0 where
  pub config_map_name : String
  pub connection_env : E
  pub db_tls : Option (Volume V × VolumeMount M)
  pub domains : Option (Volume V × VolumeMount M)
  pub priority_class_name : String

-- RequeueDatabaseWait, RequeueUpgradeWait and RequeueDeploymentPolling.
abbrev pub requeue_database_wait : ℤ
requeue_database_wait = pos 30_000_000_000

abbrev pub requeue_upgrade_wait : ℤ
requeue_upgrade_wait = pos 30_000_000_000

abbrev pub requeue_deployment_polling : ℤ
requeue_deployment_polling = pos 10_000_000_000

module _ {W : Type 0} where
  -- conditions.SetCondition on the CR, at its generation.
  abbrev pub set_keystone_condition :
      ConditionMeta → String → Status → String → String → Keystone W → Keystone W
  set_keystone_condition m type status reason msg k = record k {
    flow = set_flow_condition m (condition type k.generation status reason msg) k.flow;
  }

  abbrev pub emit_event : EventType → String → String → Keystone W → Keystone W
  emit_event type reason msg k = record k { flow = emit type reason msg k.flow }

  abbrev pub with_flow : Keystone W → Flow W → Keystone W
  with_flow k f = record k { flow = f }

  -- The deferral event of RecordJobTerminalState.
  abbrev report_deferred : String → Option Error → Flow W → Flow W
  report_deferred job_suffix none f = f
  report_deferred job_suffix (some e) f =
      emit warning "DBSyncMetricEmissionDeferred"
        (concat (
          "Patching last-observed "
          ∷ job_suffix
          ∷ " Job UID failed; metric emission deferred to the next reconcile: "
          ∷ message e
          ∷ []))
        f

  abbrev pub store_recorded : String → Flow W → Recorded W → Flow W
  store_recorded job_suffix f r =
      report_deferred job_suffix r.deferred
        (record f { owner = r.owner; cluster = r.cluster; metrics = f.metrics ++ r.emissions })

  -- recordDBJobTerminalState.
  unfoldable pub record_db_job_terminal_state :
      {T : Type 0} → OwnerPatch W → String → Option (Job T) → Flow W → Flow W
  record_db_job_terminal_state patch job_suffix observed f =
      store_recorded job_suffix f
        (record_job_terminal_state patch job_suffix f.owner observed f.cluster)
