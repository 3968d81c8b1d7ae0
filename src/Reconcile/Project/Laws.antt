-- ===== src/Reconcile/Project/Laws.antt =====
-- internal/common/reconcile/project.go and finalizer.go: children that are ready or controlled,
-- and finalizers.
use c5c3_forge.Prelude.{
  ◌≡◌, refl, inl, inr, Bool, true, false, List, String, Option, none, some, arith, Bool-cases,
  if◌then◌else◌, ◌↔◌,
}
use c5c3_forge.Kube.Error.{Error, Answer, ok, err, is_not_found}
use c5c3_forge.Kube.Condition.{Condition, ConditionMeta, ConditionLaws, status_true, status_false}
use c5c3_forge.Conditions.{is_ready}
use c5c3_forge.Conditions.Laws.{holds-set_self, IsTrue}
use c5c3_forge.Reconcile.Project.{
  ChildProjectionParams, ChildClient, child_condition, failure_condition, mirror, project_child,
  OrphanClient, delete_live, deleted, delete_orphaned_child_func, FinalizerClient, ensure_finalizer,
}

-- The answer of the apply that the projection makes.
abbrev pub applied :
    {W : Type 0} → ChildProjectionParams → ChildClient W → W → Answer (List Condition)
applied p c w = (if p.unowned then c.ensure_unowned_object w else c.ensure_object w).1

-- The child was applied, and the server reports it ready.
pub data ChildReady (m : ConditionMeta) : Answer (List Condition) → Type 0 where
  ready : {child : List Condition} → is_ready m child ≡ true → ChildReady m (ok child)

ChildReady-ok :
    (m : ConditionMeta) {child : List Condition} → ChildReady m (ok child) → is_ready m child ≡ true
ChildReady-ok m (ready h) = h

ChildReady-err : (m : ConditionMeta) {e : Error} → ¬ ChildReady m (err e)
ChildReady-err m {e} r = go (err e) r refl
  where
    go : (a : Answer (List Condition)) → ChildReady m a → a ≡ err e → ⊥
    go a (ready h) p = cc

module _ (m : ConditionMeta) (laws : ConditionLaws m) (p : ChildProjectionParams) where
  mirror_iff :
      {W : Type 0} (conds : List Condition) (w : W) (a : Answer (List Condition))
      → IsTrue m (mirror m p conds (w, a)).0 p.condition_type ↔ ChildReady m a
  mirror_iff conds w (err e) = (
    λ h. cc (holds-set_self m laws conds (failure_condition p e)),
    λ r. absurd (ChildReady-err m r),
  )
  mirror_iff {W} conds w (ok child) =
      let yes_c = child_condition p status_true p.ready_reason p.ready_message in
      let no_c = child_condition p status_false p.waiting_reason p.waiting_message in
      elim (Bool-cases (is_ready m child)) [
        | inl e ↦ rw e (λ h. ready e, λ r. holds-set_self m laws conds yes_c)
        | inr e ↦ rw e (λ h. cc (holds-set_self m laws conds no_c), λ r. cc (ChildReady-ok m r))
      ]

-- ProjectChild reports the owner's readiness condition as True exactly when the apply succeeded
-- and the child that the server sent back is Ready.
pub project_child_iff :
    (m : ConditionMeta) (laws : ConditionLaws m) (p : ChildProjectionParams) {W : Type 0}
    (c : ChildClient W) (conds : List Condition) (w : W)
    → IsTrue m (project_child m p c conds w).0 p.condition_type ↔ ChildReady m (applied p c w)
unfolding project_child
project_child_iff m laws p c conds w =
    let (w', a) = if p.unowned then c.ensure_unowned_object w else c.ensure_object w in
    mirror_iff m laws p conds w' a

-- What the cleanup does to the cluster: nothing, or one delete of a live child that is controlled.
pub data Cleaned {W Object : Type 0} (c : OrphanClient W Object) (controls : Object → Bool) (w : W)
    : W → Type 0 where
  untouched : Cleaned c controls w w
  removed :
      (child : Object)
      → c.get w ≡ ok child
      → controls child ≡ true
      → Cleaned c controls w (c.delete w child).0

module _ {W Object : Type 0} (c : OrphanClient W Object) (noun : String)
    (controls : Object → Bool) where
  deleted_world : (r : W × Option Error) → (deleted noun r).0 ≡ r.0
  deleted_world (w, none) = refl
  deleted_world (w, some e) = ground arith

  delete_live-Cleaned :
      (w : W) (a : Answer Object)
      → c.get w ≡ a
      → Cleaned c controls w (delete_live c noun controls w a).0
  delete_live-Cleaned w (err e) h = elim (Bool-cases (is_not_found e)) [
    | inl x ↦ rw x untouched
    | inr x ↦ rw x untouched
  ]
  delete_live-Cleaned w (ok child) h = elim (Bool-cases (controls child)) [
    | inl x ↦ rw x (rw (deleted_world (c.delete w child)) (removed child h x))
    | inr x ↦ rw x untouched
  ]

  -- DeleteOrphanedChildFunc never touches an object that the owner does not control: it leaves
  -- the cluster alone, or deletes the live child that passed the ownership test.
  pub delete_orphaned_child_func-Cleaned :
      (w : W) → Cleaned c controls w (delete_orphaned_child_func c noun controls w).0
  unfolding delete_orphaned_child_func
  delete_orphaned_child_func-Cleaned w = delete_live-Cleaned w (c.get w) refl

-- Adding a finalizer makes the object carry it.
pub record FinalizerLaws {W Object : Type 0} (c : FinalizerClient W Object) : Type 0 where
  pub contains-add :
      (obj : Object) (f : String) → c.contains_finalizer (c.add_finalizer obj f) f ≡ true

module _ {W Object : Type 0} (c : FinalizerClient W Object) (laws : FinalizerLaws c) where
  -- After EnsureFinalizer the object in memory carries the finalizer, whether or not the Update
  -- succeeded, and a second call neither writes to the cluster nor asks for another pass.
  pub ensure_finalizer_idem :
      (obj : Object) (f : String) (w w' : W)
      → let obj' = (ensure_finalizer c obj f w).0 in
        (c.contains_finalizer obj' f ≡ true) × (ensure_finalizer c obj' f w' ≡ (obj', w', ok false))
  unfolding ensure_finalizer
  ensure_finalizer_idem obj f w w' = ground (arith, laws.contains-add obj f)
