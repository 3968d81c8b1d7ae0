-- ===== src/Keystone/History.antt =====
-- The life of a Keystone CR: edits of the tag, changes of the cluster, and passes of
-- reconcileDatabase and reconcileDeployment, in any order.
use c5c3_forge.Prelude.{◌≡◌, refl, sym, subst, ◌⊎◌, inl, inr, String}
use c5c3_forge.Kube.Condition.{ConditionMeta}
use c5c3_forge.Database.Flow.{with_cluster}
use c5c3_forge.Keystone.State.{
  UpgradePhase, no_phase, expanding, migrating, rolling_update, contracting, Keystone, Env,
  JobInputs, with_flow,
}
use c5c3_forge.Release.Transition.{Sequential, Minor}
use c5c3_forge.Keystone.Upgrade.Phases.{
  View, view, Move, stays, starts, advances, completes, aborts, syncs, Next, expanded, migrated,
  rolled_out,
}
use c5c3_forge.Keystone.Database.{reconcile_database}
use c5c3_forge.Keystone.Database.Laws.{reconcile_database-Move}
use c5c3_forge.Keystone.Rollout.Laws.{reconcile_deployment-Move}
use c5c3_forge.Keystone.Rollout.{WorkloadApi, reconcile_deployment}

-- The phases that an upgrade goes through.
pub data Active : UpgradePhase → Type 0 where
  in_expanding : Active expanding
  in_migrating : Active migrating
  in_rolling_update : Active rolling_update
  in_contracting : Active contracting

-- No upgrade and no target, or an upgrade to the next release.
pub data IsConsistent (v : View) : Type 0 where
  idle : v.phase ≡ no_phase → v.target ≡ "" → IsConsistent v
  upgrading : Active v.phase → Sequential v.installed v.target → IsConsistent v

-- What may happen to a CR. The clients answer as they like in every pass.
pub data Step (W V M E C : Type 0) : Keystone W → Keystone W → Type 0 where
  edits_tag : {k : Keystone W} (tag : String) → Step W V M E C k (record k { tag = tag })
  changes_cluster :
      {k : Keystone W} (w : W) → Step W V M E C k (with_flow k (with_cluster w k.flow))
  reconciles_database :
      {k : Keystone W} (env : Env W V M E C) (inputs : JobInputs V M E)
      → Step W V M E C k (reconcile_database env inputs k).0
  reconciles_deployment :
      {k : Keystone W} (m : ConditionMeta) (api : WorkloadApi W)
      → Step W V M E C k (reconcile_deployment m api k).0

-- Any number of steps.
pub data Steps (W V M E C : Type 0) : Keystone W → Keystone W → Type 0 where
  no_step : {k : Keystone W} → Steps W V M E C k k
  then_step : {k l n : Keystone W} → Steps W V M E C k l → Step W V M E C l n → Steps W V M E C k n

-- The recorded releases in a row: each is the next release of the one before, or no upgrade of it.
pub data Upgrades : String → String → Type 0 where
  unchanged : {r : String} → Upgrades r r
  upgraded : {r s t : String} → Upgrades r s → Sequential s t ⊎ Minor s t → Upgrades r t

Active-Next : {p q : UpgradePhase} → Next p q → Active q
Active-Next expanded = in_migrating
Active-Next migrated = in_rolling_update
Active-Next rolled_out = in_contracting

not-Next-no_phase : {p q : UpgradePhase} → p ≡ no_phase → ¬ Next p q
not-Next-no_phase e expanded = cc
not-Next-no_phase e migrated = cc
not-Next-no_phase e rolled_out = cc

not-Active-no_phase : {p : UpgradePhase} → p ≡ no_phase → ¬ Active p
not-Active-no_phase e in_expanding = cc
not-Active-no_phase e in_migrating = cc
not-Active-no_phase e in_rolling_update = cc
not-Active-no_phase e in_contracting = cc

Move-IsConsistent : {tag : String} {v w : View} → Move tag v w → IsConsistent v → IsConsistent w
Move-IsConsistent (stays e) c = rw e c
Move-IsConsistent (starts i s e) c = rw e (upgrading in_expanding s)
Move-IsConsistent (advances p n e) (idle i t) = absurd (not-Next-no_phase i n)
Move-IsConsistent (advances p n e) (upgrading a s) = rw e (upgrading (Active-Next n) s)
Move-IsConsistent (completes i e) c = rw e (idle refl refl)
Move-IsConsistent (aborts n t e) c = rw e (idle refl refl)
Move-IsConsistent (syncs i ne s e) (idle q t) = rw e (idle q t)
Move-IsConsistent (syncs i ne s e) (upgrading a q) = absurd (not-Active-no_phase i a)

apart : {p : UpgradePhase} → p ≡ contracting → ¬ (p ≡ no_phase)
apart i q = cc

-- What a move does to the recorded release.
Move-Upgrades :
    {tag r : String} {v w : View}
    → Move tag v w
    → IsConsistent v
    → Upgrades r v.installed
    → Upgrades r w.installed
Move-Upgrades (stays e) c u = rw e u
Move-Upgrades (starts i s e) c u = rw e u
Move-Upgrades (advances p n e) c u = rw e u
Move-Upgrades (completes i e) (idle q t) u = absurd (apart i q)
Move-Upgrades (completes i e) (upgrading a s) u = rw e (upgraded u (inl s))
Move-Upgrades (aborts n t e) c u = rw e u
Move-Upgrades (syncs i ne s e) c u = rw e (upgraded u (inr s))

module _ {W V M E C : Type 0} where
  Step-Move :
      {k l : Keystone W} → Step W V M E C k l → (view l ≡ view k) ⊎ Move k.tag (view k) (view l)
  Step-Move (edits_tag tag) = inl refl
  Step-Move (changes_cluster w) = inl refl
  Step-Move (reconciles_database {k = k} env inputs) = inr (reconcile_database-Move env inputs k)
  Step-Move (reconciles_deployment {k = k} m api) = inr (reconcile_deployment-Move m api k)

  Step-IsConsistent :
      {k l : Keystone W} → Step W V M E C k l → IsConsistent (view k) → IsConsistent (view l)
  Step-IsConsistent s c = elim (Step-Move s) [ inl e ↦ rw e c | inr q ↦ Move-IsConsistent q c ]

  Step-Upgrades :
      {r : String} {k l : Keystone W}
      → Step W V M E C k l
      → IsConsistent (view k)
      → Upgrades r k.flow.installed_release
      → Upgrades r l.flow.installed_release
  Step-Upgrades {r} s c u = elim (Step-Move s) [
    | inl e ↦ subst (λ v. Upgrades r v.installed) (sym e) u
    | inr q ↦ Move-Upgrades q c u
  ]

  -- From a consistent CR, every sequence of tag edits, cluster changes and passes ends in a
  -- consistent CR: either no upgrade is active and no target is set, or the phase is one of the
  -- four and the target is the release after the installed one.
  pub Steps-IsConsistent :
      {k l : Keystone W} → Steps W V M E C k l → IsConsistent (view k) → IsConsistent (view l)
  Steps-IsConsistent no_step c = c
  Steps-IsConsistent (then_step s t) c = Step-IsConsistent t (Steps-IsConsistent s c)

  -- From a consistent CR, whatever tags are set and however the cluster answers, the recorded
  -- release gets to its value through steps that are each the next release of the one before, or
  -- no upgrade of it: the first record, the same tag, or a patch of the same release.
  pub Steps-Upgrades :
      {k l : Keystone W}
      → Steps W V M E C k l
      → IsConsistent (view k)
      → Upgrades k.flow.installed_release l.flow.installed_release
  Steps-Upgrades no_step c = unchanged
  Steps-Upgrades (then_step s t) c = Step-Upgrades t (Steps-IsConsistent s c) (Steps-Upgrades s c)
