-- ===== src/Keystone/Rollout/Laws.antt =====
-- operators/keystone/internal/controller/reconcile_deployment.go: a pass of reconcileDeployment
-- as a move of an upgrade.
use c5c3_forge.Prelude.{◌≡◌, refl, Bool, true, false, Option, none, some}
use c5c3_forge.Kube.Error.{Error, Answer, ok, err}
use c5c3_forge.Kube.Condition.{ConditionMeta}
use c5c3_forge.Database.Flow.{with_cluster}
use c5c3_forge.Keystone.State.{
  UpgradePhase, no_phase, expanding, migrating, rolling_update, contracting, unknown_phase,
  Keystone, with_flow,
}
use c5c3_forge.Keystone.Upgrade.Phases.{view, Move, stays, advances, rolled_out}
use c5c3_forge.Keystone.Rollout.{
  WorkloadApi, reconcile_deployment, by_readiness, after_pdb, after_service, after_deployment,
}

module _ {W : Type 0} (m : ConditionMeta) (api : WorkloadApi W) where
  by_readiness-Move :
      (ready : Bool) (k : Keystone W) → Move k.tag (view k) (view (by_readiness m api ready k).0)
  by_readiness-Move false k = stays refl
  by_readiness-Move true k = rolling k.upgrade_phase k refl
    where
      rolling :
          (p : UpgradePhase) (k : Keystone W)
          → k.upgrade_phase ≡ p
          → Move k.tag (view k) (view (by_readiness m api true k).0)
      rolling no_phase k e = rw e (stays refl)
      rolling expanding k e = rw e (stays refl)
      rolling migrating k e = rw e (stays refl)
      rolling contracting k e = rw e (stays refl)
      rolling (unknown_phase s) k e = rw e (stays refl)
      rolling rolling_update k e = rw e (advances contracting rolled_out refl)

  after_pdb-Move :
      (ready : Bool) (k : Keystone W) (r : W × Option Error)
      → Move k.tag (view k) (view (after_pdb m api ready k r).0)
  after_pdb-Move ready k (w, some e) = stays refl
  after_pdb-Move ready k (w, none) = by_readiness-Move ready (with_flow k (with_cluster w k.flow))

  after_service-Move :
      (ready : Bool) (k : Keystone W) (r : W × Option Error)
      → Move k.tag (view k) (view (after_service m api ready k r).0)
  after_service-Move ready k (w, some e) = stays refl
  after_service-Move ready k (w, none) =
      after_pdb-Move ready (with_flow k (with_cluster w k.flow)) (api.ensure_pdb w k)

  after_deployment-Move :
      (k : Keystone W) (r : W × Answer Bool)
      → Move k.tag (view k) (view (after_deployment m api k r).0)
  after_deployment-Move k (w, err e) = stays refl
  after_deployment-Move k (w, ok ready) =
      after_service-Move ready (with_flow k (with_cluster w k.flow)) (api.ensure_service w k)

  -- One pass of reconcileDeployment makes at most the move from RollingUpdate to Contracting.
  pub reconcile_deployment-Move :
      (k : Keystone W) → Move k.tag (view k) (view (reconcile_deployment m api k).0)
  unfolding reconcile_deployment
  reconcile_deployment-Move k = after_deployment-Move k (api.ensure_deployment k.flow.cluster k)
