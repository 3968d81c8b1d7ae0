-- ===== src/ControlPlane/Children/Merged.antt =====
-- operators/c5c3/internal/controller/reconcile_delete.go: the merge of the lists of children.
use c5c3_forge.Prelude.{
  ◌≡◌, refl, ◌∙◌, append_assoc, inl, inr, not, ◌&&◌, List, [], ◌∷◌, ◌++◌, String, map, Bool-cases,
  str_eq-cases, has, Distinct, All, Member, append-Member_left, ap, sym, some, false, eq_refl,
  arith, subst,
}
use c5c3_forge.Kube.Error.{Answer, ok, err, ◌>>=◌}
use c5c3_forge.ControlPlane.State.{ControlPlane}
use c5c3_forge.ControlPlane.Cluster.{Client, Kind}
use c5c3_forge.ControlPlane.Children.Keys.{korc_kind, child_key_injective}
use c5c3_forge.ControlPlane.Children.Declared.{
  DeclaredChild, orc_child_objects-Member, declared-korc_kind,
}
use c5c3_forge.ControlPlane.Names.{SlugTools}
use c5c3_forge.ControlPlane.Children.{
  OrcChild, child, child_key, orc_child_objects, merge, orc_teardown_children,
}

abbrev pub keys : List OrcChild → List String
keys = map child_key

has-merge :
    (k : String) (seen : List String) (cs : List OrcChild)
    → has k (keys (merge seen cs)) ≡ (has k (keys cs) && not (has k seen))
unfolding has merge
has-merge k seen [] = refl
has-merge k seen (c ∷ cs) =
    let skipped = has-merge k seen cs in
    let later = has-merge k (child_key c ∷ seen) cs in
    elim (Bool-cases (has (child_key c) seen)) [
      | inl b ↦ elim (str_eq-cases k (child_key c)) [
        | inl (e, q) ↦ rw (b, e, skipped) (rw (q, b) (ground arith))
        | inr (e, _) ↦ rw (b, e, skipped) refl
      ]
      | inr b ↦ elim (str_eq-cases k (child_key c)) [
        | inl (e, q) ↦ rw (b, e) (rw (q, b) refl)
        | inr (e, _) ↦ rw (b, e) (later ∙ rw e refl)
      ]
    ]

merge-Distinct : (seen : List String) (cs : List OrcChild) → Distinct (keys (merge seen cs))
unfolding has merge
merge-Distinct seen [] = tt
merge-Distinct seen (c ∷ cs) = elim (Bool-cases (has (child_key c) seen)) [
  | inl b ↦ rw b (merge-Distinct seen cs)
  | inr b ↦ rw b (
    has-merge (child_key c) (child_key c ∷ seen) cs ∙ rw (eq_refl (child_key c)) (ground arith),
    merge-Distinct (child_key c ∷ seen) cs,
  )
]

-- No two of the children have one kind and one name.
abbrev pub Named : OrcChild → OrcChild → Type 0
Named c d = (c.kind ≡ d.kind) × (c.name ≡ d.name)

abbrev pub Apart : List OrcChild → Type 0
Apart [] = Unit
Apart (c ∷ cs) = All (λ d. ¬ (Named c d)) cs × Apart cs

child_same : {k j : Kind} {n m : String} → k ≡ j → n ≡ m → child k n ≡ child j m
child_same p q = rw (p, q) refl

fresh_key :
    (c : OrcChild) (cs : List OrcChild)
    → has (child_key c) (keys cs) ≡ false
    → All (λ d. ¬ (Named c d)) cs
unfolding has
fresh_key c [] h = tt
fresh_key c (d ∷ cs) h = elim (str_eq-cases (child_key c) (child_key d)) [
  | inl (q, _) ↦ absurd (cc (rw q at h))
  | inr (q, ne) ↦ (λ n. ne (ap child_key (child_same n.0 n.1)), fresh_key c cs (rw q at h))
]

keys-Apart : (cs : List OrcChild) → Distinct (keys cs) → Apart cs
keys-Apart [] h = tt
keys-Apart (c ∷ cs) h = (fresh_key c cs h.0, keys-Apart cs h.1)

-- A child whose key is new is kept, since one with its key is the child itself.
merge-Member :
    (d : OrcChild)
    → korc_kind d.kind ≡ some d.kind
    → (seen : List String) (cs : List OrcChild) → Member d cs
    → has (child_key d) seen ≡ false
    → Member d (merge seen cs)
unfolding merge has
merge-Member d korc seen [] h fresh = absurd h
merge-Member d korc seen (c ∷ cs) h fresh = elim (Bool-cases (has (child_key c) seen)) [
  | inl b ↦ rw b (elim h [
    | inl e ↦ absurd (cc (b, fresh, ap child_key e))
    | inr m ↦ merge-Member d korc seen cs m fresh
  ])
  | inr b ↦ rw b (elim (str_eq-cases (child_key d) (child_key c)) [
    | inl (_, e) ↦ let (k, n) = child_key_injective c d korc (sym e) in inl (sym (child_same k n))
    | inr (q, ne) ↦ elim h [
      | inl e ↦ absurd (ne (ap child_key e))
      | inr m ↦ inr (merge-Member d korc (child_key c ∷ seen) cs m (rw q fresh))
    ]
  ])
]

ok_injective : {A : Type 0} {x y : A} → ok x ≡ ok y → x ≡ y
ok_injective h = cc h

merged_from :
    (declared : List OrcChild) (a b : Answer (List OrcChild)) {chs : List OrcChild}
    → (a >>= λ x. b >>= λ y. ok (merge [] (declared ++ x ++ y))) ≡ ok chs
    → (rest : List OrcChild) × (merge [] (declared ++ rest) ≡ chs)
merged_from declared (err e) b h = cc h
merged_from declared (ok x) (err e) h = cc h
merged_from declared (ok x) (ok y) h = (x ++ y, rw⁻¹ (append_assoc declared x y) (ok_injective h))

module _ {W : Type 0} (c : Client W) (cp : ControlPlane) (slug : SlugTools) where
  -- When the children that a teardown drives can be listed, no two of them have one kind and one
  -- name, and each CR that the ControlPlane declares, as DeclaredChild spells them out, is among
  -- them by its kind and name, whatever the cluster holds and whichever names coincide.
  pub orc_teardown_children-Apart :
      (w : W) {chs : List OrcChild}
      → orc_teardown_children c cp slug w ≡ ok chs
      → Apart chs × ((d : OrcChild) → DeclaredChild slug cp d → Member d chs)
  unfolding orc_teardown_children has
  orc_teardown_children-Apart w h =
      let declared = orc_child_objects slug cp in
      let (rest, e) = merged_from declared _ _ h in
      (
        subst Apart e (keys-Apart _ (merge-Distinct [] (declared ++ rest))),
        λ d m. subst (Member d) e (
            merge-Member d (declared-korc_kind slug cp d m) [] (declared ++ rest)
              (append-Member_left d declared rest (orc_child_objects-Member slug cp d m)) refl),
      )
