-- ===== src/Database/Finalize/Settled.antt =====
-- internal/common/database/finalize.go: what is live after a FinalizeResources.
use c5c3_forge.Prelude.{
  on_failure, ◌∙◌, ◌≡◌, refl, Bool, true, false, List, [], ◌∷◌, String, none, All,
}
use c5c3_forge.Kube.Error.{Answer, ok, err, is_not_found, ignore_not_found}
use c5c3_forge.Database.Finalize.{
  ResourceKind, Found, ResourceClient, delete_kinds, resource_ctors, finalize_resources, live_or,
  live_kinds, has_live_resources,
}

-- Get answers that the object is not there, or that it is being deleted.
abbrev pub SettledAnswer : Answer Found → Type 0
SettledAnswer (ok found) = found.terminating ≡ true
SettledAnswer (err e) = is_not_found e ≡ true

module _ {W : Type 0} (client : ResourceClient W) (namespace name : String) where
  abbrev pub Settled : W → ResourceKind → Type 0
  Settled w kind = SettledAnswer (client.get w kind namespace name)

  -- After a Delete that is accepted or answers NotFound, a Get finds the object gone or being
  -- deleted; and a Delete of another object does not undo that.
  pub record FinalizeLaws : Type 0 where
    pub deleted :
        (w : W) (kind : ResourceKind)
        → ignore_not_found (client.delete w kind namespace name).1 ≡ none
        → Settled (client.delete w kind namespace name).0 kind
    pub delete_keeps :
        (w : W) (kind other : ResourceKind)
        → Settled w other
        → Settled (client.delete w kind namespace name).0 other

  live_or_settled :
      (kind : ResourceKind) (rest : Answer Bool) (a : Answer Found)
      → SettledAnswer a
      → live_or client namespace name kind rest a ≡ rest
  live_or_settled kind rest (ok found) h = rw h refl
  live_or_settled kind rest (err e) h = rw h refl

  pub live_kinds_settled :
      (kinds : List ResourceKind) (w : W)
      → All (Settled w) kinds
      → live_kinds client namespace name kinds w ≡ ok false
  unfolding live_kinds
  live_kinds_settled [] w h = refl
  live_kinds_settled (kind ∷ kinds) w (h, hs) =
      live_or_settled kind (live_kinds client namespace name kinds w) _ h
      ∙ live_kinds_settled kinds w hs

  module _ (laws : FinalizeLaws) where
    delete_kinds_keeps :
        (kinds : List ResourceKind) (w : W) (kind : ResourceKind)
        → Settled w kind
        → Settled (delete_kinds client namespace name kinds w).0 kind
    unfolding delete_kinds
    delete_kinds_keeps [] w kind h = h
    delete_kinds_keeps (o ∷ kinds) w kind h =
        on_failure (λ r. Settled r.0 kind)
          (delete_kinds client namespace name kinds (client.delete w o namespace name).0) _
          (ignore_not_found (client.delete w o namespace name).1)
          (λ _.
            delete_kinds_keeps kinds (client.delete w o namespace name).0 kind
              (laws.delete_keeps w o kind h))
          (λ e. laws.delete_keeps w o kind h)

    pub delete_kinds-Settled :
        (kinds : List ResourceKind) (w : W)
        → (delete_kinds client namespace name kinds w).1 ≡ none
        → All (Settled (delete_kinds client namespace name kinds w).0) kinds
    unfolding delete_kinds
    delete_kinds-Settled [] w = λ _. tt
    delete_kinds-Settled (o ∷ kinds) w =
        on_failure (λ r. r.1 ≡ none → All (Settled r.0) (o ∷ kinds))
          (delete_kinds client namespace name kinds (client.delete w o namespace name).0) _
          (ignore_not_found (client.delete w o namespace name).1)
          (λ a e. (
            delete_kinds_keeps kinds (client.delete w o namespace name).0 o (laws.deleted w o a),
            delete_kinds-Settled kinds (client.delete w o namespace name).0 e,
          ))
          (λ x e. absurd (cc e))

    -- Where FinalizeResources returns no error, HasLiveResources then answers false.
    pub finalize_resources_settles :
        (w : W)
        → (finalize_resources client namespace name w).1 ≡ none
        → has_live_resources client namespace name (finalize_resources client namespace name w).0
          ≡ ok false
    finalize_resources_settles w h =
        live_kinds_settled resource_ctors (finalize_resources client namespace name w).0
          (delete_kinds-Settled resource_ctors w h)
