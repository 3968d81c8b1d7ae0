-- ===== src/ControlPlane/Teardown/Drained.antt =====
-- operators/c5c3/internal/controller/reconcile_delete.go: what is not there any more, by the answers of
-- the API server, when the sweeps of a deletion pass find nothing left.
use c5c3_forge.Prelude.{
  ◌≡◌, refl, subst, ap, ◌∙◌, ◌⊎◌, inl, inr, Bool, true, false, List, [], ◌∷◌, ◌++◌, String, Option,
  none, some, Bool-cases, All,
}
use c5c3_forge.Kube.Error.{Error, Answer, ok, err, is_not_found, is_no_match, on_answer}
use c5c3_forge.ControlPlane.State.{ControlPlane}
use c5c3_forge.ControlPlane.Cluster.{push_secret, Object, Client, is_absent, is_control_plane_child}
use c5c3_forge.ControlPlane.Names.{SlugTools}
use c5c3_forge.ControlPlane.Children.{OrcChild, orc_teardown_children}
use c5c3_forge.ControlPlane.Orc.{
  delete_children, gathered, remaining_children, with_live, after_pass_1, by_children,
  delete_orc_resources, present, rechecked, delete_push_secret, delete_push_secrets,
  sweep_push_secrets,
}

-- A Get answers that the object, or its kind, is not there.
abbrev pub Absent : Answer Object → Type 0
Absent (ok obj) = ⊥
Absent (err e) = is_absent e ≡ true

-- A Get answers that the object is not there.
abbrev pub NotFound : Answer Object → Type 0
NotFound (ok obj) = ⊥
NotFound (err e) = is_not_found e ≡ true

Answer-cases : {A : Type 0} (a : Answer A) → ((x : A) × (a ≡ ok x)) ⊎ ((e : Error) × (a ≡ err e))
Answer-cases (ok x) = inl (x, refl)
Answer-cases (err e) = inr (e, refl)

pub append_nil : {A : Type 0} (xs ys : List A) → xs ++ ys ≡ [] → (xs ≡ []) × (ys ≡ [])
append_nil [] ys h = (refl, h)
append_nil (x ∷ xs) ys h = absurd (cc h)

module _ {W : Type 0} (c : Client W) (cp : ControlPlane) where
  gathered-Absent :
      (ch : OrcChild) (a : Answer Object) (rest : Answer (List Object))
      → gathered c cp ch a rest ≡ ok []
      → Absent a × (rest ≡ ok [])
  gathered-Absent ch (ok obj) (ok rest) h = absurd (cc h)
  gathered-Absent ch (ok obj) (err e) h = absurd (cc h)
  gathered-Absent ch (err e) rest h = elim (Bool-cases (is_absent e)) [
    | inl b ↦ (b, rw b at h)
    | inr b ↦ absurd (cc (rw b at h))
  ]

  -- Every one of the CRs is absent.
  abbrev pub ChildrenAbsent : List OrcChild → W → Type 0
  ChildrenAbsent chs w = All (λ ch. Absent (c.get w ch.kind cp.namespace ch.name)) chs

  remaining_children-Absent :
      (chs : List OrcChild) (w : W) → remaining_children c cp chs w ≡ ok [] → ChildrenAbsent chs w
  unfolding remaining_children
  remaining_children-Absent [] w h = tt
  remaining_children-Absent (ch ∷ chs) w h =
      let (gone, rest) = gathered-Absent ch _ (remaining_children c cp chs w) h in
      (gone, remaining_children-Absent chs w rest)

  with_live_nil :
      (live l : Bool) (a : Answer (List Object)) → with_live c cp l a ≡ ok ([], live) → a ≡ ok []
  with_live_nil live l (ok remaining) h = ap ok (ap (λ r. r.0) (same h))
    where
      same : {x y : List Object × Bool} → ok x ≡ ok y → x ≡ y
      same e = cc e
  with_live_nil live l (err e) h = absurd (cc h)

  -- What a sweep of the K-ORC CRs that finds none left has found: the CRs, of which none is there after
  -- the deletions.
  pub record OrcDrained (before after : W) (slug : SlugTools) : Type 0 where
    pub children : List OrcChild
    pub named : orc_teardown_children c cp slug before ≡ ok children
    pub deleted : (delete_children c cp children false before).0 ≡ after
    pub absent : ChildrenAbsent children after

  after_pass_1-Absent :
      (chs : List OrcChild) (r : W × Answer Bool) (w : W) (live : Bool)
      → after_pass_1 c cp chs r ≡ (w, ok ([], live))
      → (r.0 ≡ w) × ChildrenAbsent chs w
  after_pass_1-Absent chs (w', err e) w live h = absurd (cc (ap (λ r. r.1) h))
  after_pass_1-Absent chs (w', ok l) w live h =
      let e : w' ≡ w = ap (λ r. r.0) h in
      let nil = with_live_nil live l (remaining_children c cp chs w') (ap (λ r. r.1) h) in
      (e, subst (ChildrenAbsent chs) e (remaining_children-Absent chs w' nil))

  by_children-OrcDrained :
      (slug : SlugTools) (before w : W) (live : Bool) (a : Answer (List OrcChild))
      → orc_teardown_children c cp slug before ≡ a
      → by_children c cp before a ≡ (w, ok ([], live))
      → OrcDrained before w slug
  by_children-OrcDrained slug before w live (err e) q h = absurd (cc (ap (λ r. r.1) h))
  by_children-OrcDrained slug before w live (ok chs) q h =
      let (e, gone) = after_pass_1-Absent chs (delete_children c cp chs false before) w live h in
      record { children = chs; named = q; deleted = e; absent = gone }

  pub delete_orc_resources-OrcDrained :
      (slug : SlugTools) (before w : W) (live : Bool)
      → delete_orc_resources c cp slug before ≡ (w, ok ([], live))
      → OrcDrained before w slug
  unfolding delete_orc_resources
  delete_orc_resources-OrcDrained slug before w live h =
      by_children-OrcDrained slug before w live _ refl h

  -- If the PushSecret is the ControlPlane's, it is not there after its turn.
  abbrev pub PushGone : Object → W → Type 0
  PushGone ps w =
      is_control_plane_child c ps cp ≡ true
      → NotFound (c.get (delete_push_secret c cp ps w).0 push_secret ps.namespace ps.name)

  unfoldable pub ItemsGone : List Object → W → Type 0
  ItemsGone [] w = Unit
  ItemsGone (ps ∷ rest) w = PushGone ps w × ItemsGone rest (delete_push_secret c cp ps w).0

  -- The namespaces are listed one after the other.
  pub data PushesGone : List String → W → Type 0 where
    no_more : {w : W} → PushesGone [] w
    and_then :
        {ns : String} {namespaces : List String} {w : W} (items : List Object)
        → c.list w push_secret ns ≡ ok items
        → ItemsGone items w
        → PushesGone namespaces (delete_push_secrets c cp items [] w).0
        → PushesGone (ns ∷ namespaces) w

  -- The List of one of the namespaces answers, when its turn comes, that PushSecrets are not
  -- installed.
  pub data NoKind : List String → W → Type 0 where
    not_installed :
        {ns : String} {namespaces : List String} {w : W} (e : Error)
        → c.list w push_secret ns ≡ err e
        → is_no_match e ≡ true
        → NoKind (ns ∷ namespaces) w
    listed_before :
        {ns : String} {namespaces : List String} {w : W} (items remaining : List Object)
        → c.list w push_secret ns ≡ ok items
        → NoKind namespaces (delete_push_secrets c cp items remaining w).0
        → NoKind (ns ∷ namespaces) w

  present-NotFound : (name : String) (a : Answer Object) → present c cp name a ≡ ok [] → NotFound a
  present-NotFound name (ok obj) h = absurd (cc h)
  present-NotFound name (err e) h = elim (Bool-cases (is_not_found e)) [
    | inl b ↦ b
    | inr b ↦ absurd (cc (rw b at h))
  ]

  rechecked-NotFound :
      (ps : Object) (r : W × Option Error)
      → (rechecked c cp ps r).1 ≡ ok []
      → NotFound (c.get (rechecked c cp ps r).0 push_secret ps.namespace ps.name)
  rechecked-NotFound ps (w, none) h = present-NotFound ps.name _ h
  rechecked-NotFound ps (w, some e) h = elim (Bool-cases (is_not_found e)) [
    | inl b ↦ rw b (present-NotFound ps.name _ (rw b at h))
    | inr b ↦ absurd (cc (rw b at h))
  ]

  delete_push_secret-PushGone :
      (ps : Object) (w : W) → (delete_push_secret c cp ps w).1 ≡ ok [] → PushGone ps w
  delete_push_secret-PushGone ps w h owned = rw owned (rechecked-NotFound ps _ (rw owned at h))

  delete_push_secrets-ItemsGone :
      (items remaining : List Object) (w : W)
      → (delete_push_secrets c cp items remaining w).1 ≡ ok []
      → (remaining ≡ []) × ItemsGone items w
  unfolding delete_push_secrets ItemsGone
  delete_push_secrets-ItemsGone [] remaining w = λ h. (cc h, tt)
  delete_push_secrets-ItemsGone (ps ∷ rest) remaining w =
      on_answer (λ r. r.1 ≡ ok [] → (remaining ≡ []) × ItemsGone (ps ∷ rest) w)
        (λ found.
          delete_push_secrets c cp rest (remaining ++ found) (delete_push_secret c cp ps w).0)
        (λ e. ((delete_push_secret c cp ps w).0, err e)) (delete_push_secret c cp ps w).1
        (λ found turn h.
          let (both, gone) =
            delete_push_secrets-ItemsGone rest (remaining ++ found) (delete_push_secret c cp ps w).0
              h in
          let (old, new) = append_nil remaining found both in
          (old, (delete_push_secret-PushGone ps w (turn ∙ ap ok new), gone)))
        (λ e h. absurd (cc h))

  after_items :
      (ns : String) (namespaces : List String) (remaining : List Object) (w : W)
      (items : List Object)
      → c.list w push_secret ns ≡ ok items
      → (found : List Object) → (delete_push_secrets c cp items remaining w).1 ≡ ok found
      → NoKind namespaces (delete_push_secrets c cp items remaining w).0
        ⊎ ((found ≡ []) × PushesGone namespaces (delete_push_secrets c cp items remaining w).0)
      → NoKind (ns ∷ namespaces) w ⊎ ((remaining ≡ []) × PushesGone (ns ∷ namespaces) w)
  after_items ns namespaces remaining w items q found turn (inl n) =
      inl (listed_before items remaining q n)
  after_items ns namespaces remaining w items q found turn (inr (none_found, rest)) =
      let (old, gone) = delete_push_secrets-ItemsGone items remaining w (turn ∙ ap ok none_found) in
      inr (
        old,
        and_then items q gone
            (subst (λ r. PushesGone namespaces (delete_push_secrets c cp items r w).0) old rest),
      )

  pub sweep_push_secrets-PushesGone :
      (namespaces : List String) (remaining : List Object) (w : W)
      → (sweep_push_secrets c cp namespaces remaining w).1 ≡ ok []
      → NoKind namespaces w ⊎ ((remaining ≡ []) × PushesGone namespaces w)
  unfolding sweep_push_secrets
  sweep_push_secrets-PushesGone [] remaining w h = inr (cc h, no_more)
  sweep_push_secrets-PushesGone (ns ∷ namespaces) remaining w h =
      elim (Answer-cases (c.list w push_secret ns)) [
        | inl (items, q) ↦
            on_answer
              (λ r.
                r.1 ≡ ok []
                → NoKind (ns ∷ namespaces) w ⊎ ((remaining ≡ []) × PushesGone (ns ∷ namespaces) w))
              (λ found.
                sweep_push_secrets c cp namespaces found
                  (delete_push_secrets c cp items remaining w).0)
              (λ e. ((delete_push_secrets c cp items remaining w).0, err e))
              (delete_push_secrets c cp items remaining w).1
              (λ found turn k. after_items ns namespaces remaining w items q found turn (
                sweep_push_secrets-PushesGone namespaces found
                  (delete_push_secrets c cp items remaining w).0 k))
              (λ e k. absurd (cc k)) (rw (sweep_push_secrets, q) at h)
        | inr (e, q) ↦ elim (Bool-cases (is_no_match e)) [
          | inl b ↦ inl (not_installed e q b)
          | inr b ↦ absurd (cc (rw (sweep_push_secrets, q, b) at h))
        ]
      ]
