-- ===== src/Reconcile/Status/Converged.antt =====
-- internal/common/reconcile/skeleton.go, Skeleton.UpdateStatus: a pass that follows one with the
-- same status.
use c5c3_forge.Prelude.{ℕ, ◌≡◌, ◌≢◌, refl, sym, ◌∙◌, Bool, true, ap, Option, some, arith, All}
use c5c3_forge.Kube.Error.{Error}
use c5c3_forge.Kube.Condition.{ConditionMeta, ConditionLaws}
use c5c3_forge.Kube.Outcome.{Outcome}
use c5c3_forge.Reconcile.Parallel.Laws.{ConditionsOfLaws}
use c5c3_forge.Reconcile.Status.{
  set_aggregate_ready, update_status, Skeleton, set_ready, skeleton_update_status,
}
use c5c3_forge.Reconcile.Status.Laws.{set_aggregate_ready_idem}

module _ (m : ConditionMeta) (laws : ConditionLaws m) {S : Type 0} (sk : Skeleton S)
    (lens : ConditionsOfLaws sk.conditions)
    (no_ready : All (λ t. t ≢ "Ready") sk.sub_condition_types) (stamp : S → S)
    (stamp_idem : (s : S) → stamp (stamp s) ≡ stamp s)
    (read-stamp : (s : S) → sk.conditions.read (stamp s) ≡ sk.conditions.read s) where
  read-set_ready :
      (g : ℕ) (s : S)
      → sk.conditions.read (set_ready m sk g s)
        ≡ set_aggregate_ready m (sk.conditions.read s) g sk.sub_condition_types
  unfolding set_ready
  read-set_ready g s = lens.read-write s _

  set_ready_settles :
      (g : ℕ) (s : S) → let s1 = stamp (set_ready m sk g s) in set_ready m sk g s1 ≡ s1
  unfolding set_ready
  set_ready_settles g s =
      let s1 = stamp (set_ready m sk g s) in
      let types = sk.sub_condition_types in
      let e : sk.conditions.read s1 ≡ set_aggregate_ready m (sk.conditions.read s) g types =
        read-stamp (set_ready m sk g s) ∙ read-set_ready g s in
      ap (sk.conditions.write s1) (
        ap (λ c. set_aggregate_ready m c g types) e
        ∙ set_aggregate_ready_idem m laws (sk.conditions.read s) g types no_ready
        ∙ sym e)
      ∙ lens.write-read s1

  -- The hook that Skeleton.UpdateStatus runs leaves its own result alone.
  mutate_idem :
      (g : ℕ) (s : S)
      → stamp (set_ready m sk g (stamp (set_ready m sk g s))) ≡ stamp (set_ready m sk g s)
  mutate_idem g s = ap stamp (set_ready_settles g s) ∙ stamp_idem (set_ready m sk g s)

  module _ {W : Type 0} (deep_equal : S → S → Bool)
      (deep_equal_refl : (s : S) → deep_equal s s ≡ true)
      (status_update : S → W → W × Option Error) where
    status-skeleton_update_status :
        (g : ℕ) (before : Option S) (s : S) (o : Outcome) (w : W)
        → (skeleton_update_status m sk deep_equal status_update g before s stamp o w).0
          ≡ stamp (set_ready m sk g s)
    unfolding skeleton_update_status update_status
    status-skeleton_update_status g before s o w = ground arith

    -- Where Ready is not itself a sub-condition type, the CR's extra hook is idempotent and leaves the
    -- conditions alone, the conditions read back as they were written, the condition helpers obey
    -- their documentation, and DeepEqual holds of a status and itself: a pass of UpdateStatus that
    -- starts from the status that the one before it computed, at the same generation, leaves that
    -- status as it is, writes nothing to the cluster, and keeps its own outcome.
    pub skeleton_update_status_converges :
        (g : ℕ) (before : Option S) (s : S) (o o' : Outcome) (w w' : W)
        → let s1 = (skeleton_update_status m sk deep_equal status_update g before s stamp o w).0 in
          skeleton_update_status m sk deep_equal status_update g (some s1) s1 stamp o' w'
          ≡ (s1, w', o')
    skeleton_update_status_converges g before s o o' w w' =
        rw (status-skeleton_update_status g before s o w) (
          unfold skeleton_update_status update_status in rw (mutate_idem g s, deep_equal_refl) refl)
