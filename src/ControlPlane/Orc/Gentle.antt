-- ===== src/ControlPlane/Orc/Gentle.antt =====
-- operators/c5c3/internal/controller/reconcile_delete.go: what the deletion of the K-ORC CRs and the
-- PushSecrets, and the removal of finalizers from imports, leave true of the cluster.
use c5c3_forge.Prelude.{
  ◌≡◌, Bool, true, false, not, ◌||◌, List, [], ◌∷◌, ◌++◌, String, Option, none, some, if_cases,
  if◌then◌else◌, arith,
}
use c5c3_forge.Kube.Error.{Error, Answer, ok, err, is_not_found, is_no_match}
use c5c3_forge.ControlPlane.State.{ControlPlane, control_plane_namespaces}
use c5c3_forge.ControlPlane.Cluster.{Object, Client, is_absent, is_control_plane_child, push_secret}
use c5c3_forge.ControlPlane.Names.{SlugTools}
use c5c3_forge.ControlPlane.Children.{OrcChild}
use c5c3_forge.ControlPlane.Orc.{
  child_deleted, child_observed, delete_child, delete_children, after_pass_1, by_children,
  rechecked, delete_push_secret, delete_push_secrets, sweep_push_secrets, delete_orc_resources,
  delete_owned_push_secrets, is_managed_orc_child, has_korc_finalizer, stripped, update_answered,
  force_remove_korc_finalizers,
}
use c5c3_forge.ControlPlane.Namespaces.Frame.{DeletesOwned}
use c5c3_forge.ControlPlane.Teardown.{none_managed}

-- A property of the cluster that deletions, the removal of K-ORC's finalizers from an unmanaged
-- import, and the Update of the ControlPlane do not break.
pub record Gentle {W : Type 0} (c : Client W) (P : W → Type 0) : Type 0 where
  pub delete : (w : W) (obj : Object) → P w → P (c.delete w obj).0
  pub delete_background : (w : W) (obj : Object) → P w → P (c.delete_background w obj).0
  pub strip :
      (w : W) (obj : Object)
      → is_managed_orc_child obj ≡ false
      → P w
      → P (c.update w (stripped obj)).0
  pub update_owner : (w : W) (fs : List String) → P w → P (c.update_owner w fs).0

module _ {W : Type 0} {c : Client W} {P : W → Type 0} (gentle : Gentle c P) where
  branch : {A : Type 0} (b : Bool) (x y : W × A) → P x.0 → P y.0 → P (if b then x else y).0
  branch {A} b x y hx hy = if_cases {A = W × A} (λ r. P r.0) b (λ _. hx) (λ _. hy)

  next :
      {A B : Type 0} (f : A → W → W × Answer B) (r : W × Answer A)
      → P r.0
      → ((a : A) (w : W) → P w → P (f a w).0)
      → P (elim r.1 as (λ _. W × Answer B) [ err e ↦ (r.0, err e) | ok a ↦ f a r.0 ]).0
  next f (w, err e) h k = h
  next f (w, ok a) h k = k a w h

  either_answer :
      {A B : Type 0} (f : A → W × B) (g : Error → W × B) (a : Answer A)
      → ((e : Error) → P (g e).0)
      → ((x : A) → P (f x).0)
      → P (elim a as (λ _. W × B) [ err e ↦ g e | ok x ↦ f x ]).0
  either_answer f g (err e) hg hf = hg e
  either_answer f g (ok x) hg hf = hf x

  unmanaged_both :
      (obj : Object) (objs : List Object)
      → none_managed (obj ∷ objs) ≡ true
      → (is_managed_orc_child obj ≡ false) × (none_managed objs ≡ true)
  unfolding none_managed
  unmanaged_both obj objs h = ground arith

  module _ (cp : ControlPlane) where
    child_deleted-P :
        (ch : OrcChild) (live : Bool) (r : W × Option Error)
        → P r.0
        → P (child_deleted c cp ch live r).0
    child_deleted-P ch live (w, none) h = h
    child_deleted-P ch live (w, some e) h = branch (is_absent e) _ _ h h

    child_observed-P :
        (ch : OrcChild) (w : W) (a : Answer Object) → P w → P (child_observed c cp ch w a).0
    child_observed-P ch w (ok obj) h = child_deleted-P ch _ _ (gentle.delete w obj h)
    child_observed-P ch w (err e) h = branch (is_absent e) _ _ h h

    delete_children-P :
        (chs : List OrcChild) (live : Bool) (w : W) → P w → P (delete_children c cp chs live w).0
    unfolding delete_children
    delete_children-P [] live w h = h
    delete_children-P (ch ∷ chs) live w h =
        next (λ l. delete_children c cp chs (live || l)) (delete_child c cp ch w)
          (child_observed-P ch w _ h) (λ l. delete_children-P chs (live || l))

    after_pass_1-P :
        (chs : List OrcChild) (r : W × Answer Bool) → P r.0 → P (after_pass_1 c cp chs r).0
    after_pass_1-P chs (w, err e) h = h
    after_pass_1-P chs (w, ok live) h = h

    by_children-P : (w : W) (a : Answer (List OrcChild)) → P w → P (by_children c cp w a).0
    by_children-P w (err e) h = h
    by_children-P w (ok chs) h = after_pass_1-P chs _ (delete_children-P chs false w h)

    pub delete_orc_resources-P :
        (slug : SlugTools) (w : W) → P w → P (delete_orc_resources c cp slug w).0
    unfolding delete_orc_resources
    delete_orc_resources-P slug w = by_children-P w _

    rechecked-P : (ps : Object) (r : W × Option Error) → P r.0 → P (rechecked c cp ps r).0
    rechecked-P ps (w, none) h = h
    rechecked-P ps (w, some e) h = branch (is_not_found e) _ _ h h

    delete_push_secret-P : (ps : Object) (w : W) → P w → P (delete_push_secret c cp ps w).0
    delete_push_secret-P ps w h =
        branch (not (is_control_plane_child c ps cp)) _ _ h
          (rechecked-P ps _ (branch (not ps.deleting) _ _ (gentle.delete w ps h) h))

    delete_push_secrets-P :
        (items remaining : List Object) (w : W)
        → P w
        → P (delete_push_secrets c cp items remaining w).0
    unfolding delete_push_secrets
    delete_push_secrets-P [] remaining w h = h
    delete_push_secrets-P (ps ∷ rest) remaining w h =
        next (λ found. delete_push_secrets c cp rest (remaining ++ found))
          (delete_push_secret c cp ps w) (delete_push_secret-P ps w h)
          (λ found. delete_push_secrets-P rest (remaining ++ found))

    sweep_push_secrets-P :
        (namespaces : List String) (remaining : List Object) (w : W)
        → P w
        → P (sweep_push_secrets c cp namespaces remaining w).0
    unfolding sweep_push_secrets
    sweep_push_secrets-P [] remaining w h = h
    sweep_push_secrets-P (ns ∷ namespaces) remaining w h =
        either_answer
          (λ items.
            elim (delete_push_secrets c cp items remaining w).1 as (λ _. W × Answer (List Object)) [
              | err e ↦ ((delete_push_secrets c cp items remaining w).0, err e)
              | ok found ↦
                  sweep_push_secrets c cp namespaces found
                    (delete_push_secrets c cp items remaining w).0
            ])
          _ (c.list w push_secret ns) (λ e. branch (is_no_match e) _ _ h h)
          (λ items.
            next (sweep_push_secrets c cp namespaces) (delete_push_secrets c cp items remaining w)
              (delete_push_secrets-P items remaining w h) (sweep_push_secrets-P namespaces))

    pub delete_owned_push_secrets-P : (w : W) → P w → P (delete_owned_push_secrets c cp w).0
    unfolding delete_owned_push_secrets
    delete_owned_push_secrets-P w h = sweep_push_secrets-P (control_plane_namespaces cp) [] w h

    pub gentle-DeletesOwned : DeletesOwned c cp P
    gentle-DeletesOwned = record {
      delete = λ w obj _. gentle.delete w obj;
      delete_background = λ w obj _. gentle.delete_background w obj;
    }

  update_answered-P :
      (obj : Object) (rest r : W × Option Error)
      → P rest.0
      → P r.0
      → P (update_answered obj rest r).0
  update_answered-P obj rest (w, none) hr h = hr
  update_answered-P obj rest (w, some e) hr h = branch (is_not_found e) _ _ hr h

  pub force_remove_korc_finalizers-P :
      (objs : List Object) (w : W)
      → none_managed objs ≡ true
      → P w
      → P (force_remove_korc_finalizers c objs w).0
  unfolding force_remove_korc_finalizers
  force_remove_korc_finalizers-P [] w un h = h
  force_remove_korc_finalizers-P (obj ∷ objs) w un h =
      let (here, rest) = unmanaged_both obj objs un in
      let written = gentle.strip w obj here h in
      branch (not (has_korc_finalizer obj.finalizers)) _ _
        (force_remove_korc_finalizers-P objs w rest h)
        (update_answered-P obj _ _ (force_remove_korc_finalizers-P objs _ rest written) written)
