-- ===== src/ControlPlane/Orc.antt =====
-- operators/c5c3/internal/controller/reconcile_delete.go: the deletion of the K-ORC CRs and the
-- PushSecrets that a ControlPlane owns, and the forced removal of K-ORC's finalizers.
pub mod Gentle
use text.Mathlib.Text.{starts_with}
use c5c3_forge.Prelude.{
  Bool, true, false, not, ◌||◌, List, [], ◌∷◌, ◌++◌, String, Option, none, some, str_eq,
  if◌then◌else◌,
}
use c5c3_forge.Kube.Text.{concat, quote}
use c5c3_forge.Kube.Error.{Error, Answer, ok, err, wrap, is_not_found, is_no_match}
use c5c3_forge.ControlPlane.State.{ControlPlane, control_plane_namespaces}
use c5c3_forge.ControlPlane.Cluster.{
  Kind, application_credential, service, endpoint, user, project, domain, role, role_assignment,
  push_secret, kind_name, Object, Client, is_absent, object_key, is_control_plane_child,
}
use c5c3_forge.ControlPlane.Names.{SlugTools}
use c5c3_forge.ControlPlane.Children.{OrcChild, orc_teardown_children}

-- The text of `%T %s` for an object of the kind and its key.
abbrev noun : Kind → String → String → String
noun kind namespace name = concat (kind_name kind ∷ " " ∷ object_key namespace name ∷ [])

abbrev failed : String → String → Error → Error
failed verb what e = wrap (concat (verb ∷ " " ∷ what ∷ ": " ∷ [])) e

module _ {W : Type 0} (c : Client W) (cp : ControlPlane) where
  abbrev child_noun : OrcChild → String
  child_noun ch = noun ch.kind cp.namespace ch.name

  abbrev pub child_deleted : OrcChild → Bool → W × Option Error → W × Answer Bool
  child_deleted ch live (w, none) = (w, ok live)
  child_deleted ch live (w, some e) =
      if is_absent e then (w, ok live) else (w, err (failed "deleting" (child_noun ch) e))

  abbrev pub child_observed : OrcChild → W → Answer Object → W × Answer Bool
  child_observed ch w (ok obj) = child_deleted ch (not obj.deleting) (c.delete w obj)
  child_observed ch w (err e) =
      if is_absent e then (w, ok false) else (w, err (failed "getting" (child_noun ch) e))

  -- One turn of pass 1: the answer says that the CR was live.
  abbrev pub delete_child : OrcChild → W → W × Answer Bool
  delete_child ch w = child_observed ch w (c.get w ch.kind cp.namespace ch.name)

  -- Pass 1 of deleteORCResources: it ends at the first error.
  unfoldable pub delete_children : List OrcChild → Bool → W → W × Answer Bool
  delete_children [] live w = (w, ok live)
  delete_children (ch ∷ chs) live w =
      let (w', a) = delete_child ch w in
      elim a [ err e ↦ (w', err e) | ok l ↦ delete_children chs (live || l) w' ]

  abbrev pub gathered : OrcChild → Answer Object → Answer (List Object) → Answer (List Object)
  gathered ch (ok obj) (ok rest) = ok (obj ∷ rest)
  gathered ch (ok obj) (err e) = err e
  gathered ch (err e) rest =
      if is_absent e then rest else err (failed "re-checking" (child_noun ch) e)

  -- Pass 2: the CRs that are still there.
  unfoldable pub remaining_children : List OrcChild → W → Answer (List Object)
  remaining_children [] w = ok []
  remaining_children (ch ∷ chs) w =
      let rest = remaining_children chs w in gathered ch (c.get w ch.kind cp.namespace ch.name) rest

  abbrev pub with_live : Bool → Answer (List Object) → Answer (List Object × Bool)
  with_live live (ok remaining) = ok (remaining, live)
  with_live live (err e) = err e

  abbrev pub after_pass_1 : List OrcChild → W × Answer Bool → W × Answer (List Object × Bool)
  after_pass_1 chs (w, err e) = (w, err e)
  after_pass_1 chs (w, ok live) = (w, with_live live (remaining_children chs w))

  abbrev pub by_children : W → Answer (List OrcChild) → W × Answer (List Object × Bool)
  by_children w (err e) = (w, err e)
  by_children w (ok chs) = after_pass_1 chs (delete_children chs false w)

  -- deleteORCResources: the CRs that remain, and whether one of them was live before.
  unfoldable pub delete_orc_resources : SlugTools → W → W × Answer (List Object × Bool)
  delete_orc_resources tools w = by_children w (orc_teardown_children c cp tools w)

  abbrev pub present : String → Answer Object → Answer (List Object)
  present name (ok current) = ok (current ∷ [])
  present name (err e) =
      if is_not_found e
      then ok []
      else err (wrap (concat ("re-checking PushSecret " ∷ quote name ∷ ": " ∷ [])) e)

  abbrev pub rechecked : Object → W × Option Error → W × Answer (List Object)
  rechecked ps (w, none) = (w, present ps.name (c.get w push_secret ps.namespace ps.name))
  rechecked ps (w, some e) =
      if is_not_found e
      then (w, present ps.name (c.get w push_secret ps.namespace ps.name))
      else (w, err (wrap (concat ("deleting PushSecret " ∷ quote ps.name ∷ ": " ∷ [])) e))

  -- One turn of the inner loop of deleteOwnedPushSecrets.
  abbrev pub delete_push_secret : Object → W → W × Answer (List Object)
  delete_push_secret ps w =
      if not (is_control_plane_child c ps cp)
      then (w, ok [])
      else rechecked ps (if not ps.deleting then c.delete w ps else (w, none))

  unfoldable pub delete_push_secrets : List Object → List Object → W → W × Answer (List Object)
  delete_push_secrets [] remaining w = (w, ok remaining)
  delete_push_secrets (ps ∷ rest) remaining w =
      let (w', a) = delete_push_secret ps w in
      elim a [ err e ↦ (w', err e) | ok found ↦ delete_push_secrets rest (remaining ++ found) w' ]

  -- The outer loop. An absent CRD ends it with nothing to wait for.
  unfoldable pub sweep_push_secrets : List String → List Object → W → W × Answer (List Object)
  sweep_push_secrets [] remaining w = (w, ok remaining)
  sweep_push_secrets (ns ∷ namespaces) remaining w = elim (c.list w push_secret ns) [
    | err e ↦ if is_no_match e then (w, ok []) else (
      w,
      err (
          wrap
            (concat ("listing owned PushSecrets in namespace " ∷ quote ns ∷ " for teardown: " ∷ []))
            e),
    )
    | ok items ↦
        let (w', a) = delete_push_secrets items remaining w in
        elim a [ err e ↦ (w', err e) | ok found ↦ sweep_push_secrets namespaces found w' ]
  ]

  -- deleteOwnedPushSecrets.
  unfoldable pub delete_owned_push_secrets : W → W × Answer (List Object)
  delete_owned_push_secrets w = sweep_push_secrets (control_plane_namespaces cp) [] w

-- The policy that every K-ORC kind has.
abbrev not_unmanaged : Object → Bool
not_unmanaged obj = not (str_eq obj.management_policy "unmanaged")

-- isManagedORCChild.
unfoldable pub is_managed_orc_child : Object → Bool
is_managed_orc_child obj = elim obj.kind [
  | application_credential ↦ not_unmanaged obj
  | service ↦ not_unmanaged obj
  | endpoint ↦ not_unmanaged obj
  | user ↦ not_unmanaged obj
  | domain ↦ not_unmanaged obj
  | project ↦ not_unmanaged obj
  | role_assignment ↦ not_unmanaged obj
  | role ↦ not_unmanaged obj
  | _ ↦ true
]

-- The loop over an object's finalizers: those that are not K-ORC's.
unfoldable pub kept_finalizers : List String → List String
kept_finalizers [] = []
kept_finalizers (f ∷ fs) =
    let rest = kept_finalizers fs in
    if starts_with f "openstack.k-orc.cloud/" then rest else f ∷ rest

unfoldable pub has_korc_finalizer : List String → Bool
has_korc_finalizer [] = false
has_korc_finalizer (f ∷ fs) = starts_with f "openstack.k-orc.cloud/" || has_korc_finalizer fs

-- The object that the loop of forceRemoveKORCFinalizers writes.
abbrev pub stripped : Object → Object
stripped obj = record obj { finalizers = kept_finalizers obj.finalizers }

-- What follows an Update: `rest` is the rest of the loop.
abbrev pub update_answered :
    {W : Type 0} → Object → W × Option Error → W × Option Error → W × Option Error
update_answered obj rest (w, none) = rest
update_answered obj rest (w, some e) = if is_not_found e then rest else (
  w,
  some (failed "force-removing K-ORC finalizers from" (noun obj.kind obj.namespace obj.name) e),
)

-- forceRemoveKORCFinalizers.
unfoldable pub force_remove_korc_finalizers :
    {W : Type 0} → Client W → List Object → W → W × Option Error
force_remove_korc_finalizers c [] w = (w, none)
force_remove_korc_finalizers c (obj ∷ objs) w =
    let skipped = force_remove_korc_finalizers c objs w in
    let updated = c.update w (stripped obj) in
    let rest = force_remove_korc_finalizers c objs updated.0 in
    if not (has_korc_finalizer obj.finalizers) then skipped else update_answered obj rest updated
