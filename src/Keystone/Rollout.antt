-- ===== src/Keystone/Rollout.antt =====
-- operators/keystone/internal/controller/reconcile_deployment.go, reconcileDeployment: the rollout
-- that moves an upgrade from RollingUpdate to Contracting.
pub mod Laws
use c5c3_forge.Prelude.{
  Bool, true, false, not, [], ◌∷◌, String, Option, none, some, str_eq, if◌then◌else◌,
}
use c5c3_forge.Kube.Text.{concat}
use c5c3_forge.Kube.Error.{Error, Answer, ok, err, wrap}
use c5c3_forge.Kube.Condition.{ConditionMeta, status_true, status_false}
use c5c3_forge.Kube.Outcome.{Outcome, done, returns, fails, requeue_in, requeue_now}
use c5c3_forge.Database.Flow.{normal, with_cluster}
use c5c3_forge.Keystone.State.{
  UpgradePhase, rolling_update, contracting, Keystone, requeue_deployment_polling,
  set_keystone_condition, emit_event, with_flow,
}

-- internal/common/deployment on the Deployment, Service and PodDisruptionBudget that are built for
-- the CR: whether the Deployment is ready, or an error.
pub record WorkloadApi (W : Type 0) : Type 0 where
  pub ensure_deployment : W → Keystone W → W × Answer Bool
  pub ensure_service : W → Keystone W → W × Option Error
  pub ensure_pdb : W → Keystone W → W × Option Error

abbrev with_path : {W : Type 0} → Keystone W → Option String → String
with_path k none =
    concat ("http://" ∷ k.name ∷ "." ∷ k.namespace ∷ ".svc.cluster.local:5000/v3" ∷ [])
with_path k (some hostname) =
    if not (str_eq k.public_endpoint "")
    then k.public_endpoint
    else concat ("https://" ∷ hostname ∷ "/v3" ∷ [])

-- keystoneStatusEndpoint.
abbrev pub keystone_status_endpoint : {W : Type 0} → Keystone W → String
keystone_status_endpoint k = with_path k k.gateway

module _ {W : Type 0} (m : ConditionMeta) (api : WorkloadApi W) where
  abbrev pub deployment_ready : Keystone W → Keystone W
  deployment_ready =
      set_keystone_condition m "DeploymentReady" status_true "DeploymentReady"
        "Keystone API deployment is available"

  abbrev pub contract_next : Keystone W → Keystone W
  contract_next k = deployment_ready (
      emit_event normal "DeploymentRolloutComplete"
        (concat (
          "Deployment rollout complete during upgrade " ∷ k.installed_release ∷ " → "
          ∷ k.target_release ∷ []))
        (record k { upgrade_phase = contracting }))

  abbrev pub is_rolling : UpgradePhase → Bool
  is_rolling rolling_update = true
  is_rolling _ = false

  abbrev pub by_readiness : Bool → Keystone W → Keystone W × Outcome
  by_readiness false k = (
    set_keystone_condition m "DeploymentReady" status_false "WaitingForDeployment"
        "Keystone API deployment is not yet available" k,
    returns (requeue_in requeue_deployment_polling),
  )
  by_readiness true k =
      if is_rolling k.upgrade_phase
      then (contract_next k, returns requeue_now)
      else (deployment_ready (record k { endpoint = keystone_status_endpoint k }), done)

  abbrev pub after_pdb : Bool → Keystone W → W × Option Error → Keystone W × Outcome
  after_pdb ready k (w, some e) =
      (with_flow k (with_cluster w k.flow), fails (wrap "ensuring PodDisruptionBudget: " e))
  after_pdb ready k (w, none) = by_readiness ready (with_flow k (with_cluster w k.flow))

  abbrev pub after_service : Bool → Keystone W → W × Option Error → Keystone W × Outcome
  after_service ready k (w, some e) =
      (with_flow k (with_cluster w k.flow), fails (wrap "ensuring Service: " e))
  after_service ready k (w, none) =
      after_pdb ready (with_flow k (with_cluster w k.flow)) (api.ensure_pdb w k)

  abbrev pub after_deployment : Keystone W → W × Answer Bool → Keystone W × Outcome
  after_deployment k (w, err e) =
      (with_flow k (with_cluster w k.flow), fails (wrap "ensuring Deployment: " e))
  after_deployment k (w, ok ready) =
      after_service ready (with_flow k (with_cluster w k.flow)) (api.ensure_service w k)

  -- reconcileDeployment.
  unfoldable pub reconcile_deployment : Keystone W → Keystone W × Outcome
  reconcile_deployment k = after_deployment k (api.ensure_deployment k.flow.cluster k)
