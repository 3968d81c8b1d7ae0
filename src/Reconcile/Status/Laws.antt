-- ===== src/Reconcile/Status/Laws.antt =====
-- internal/common/reconcile/status.go: the aggregate Ready condition, and the branches of
-- UpdateStatus.
use c5c3_forge.Prelude.{
  ℕ, ◌≡◌, ◌≢◌, refl, sym, ◌∙◌, ◌↔◌, inl, inr, Bool, true, false, List, String, Option, none, some,
  arith, All, Bool-cases,
}
use c5c3_forge.Kube.Error.{Error, wrap, join_with}
use c5c3_forge.Kube.Condition.{Condition, ConditionMeta, ConditionLaws}
use c5c3_forge.Kube.Outcome.{Outcome, zero_result}
use c5c3_forge.Conditions.{get_condition, is_ready, all_true}
use c5c3_forge.Conditions.Laws.{
  IsTrue, all_true_iff, all_true-set, holds-set_self, get-set_ne, get-set_self,
}
use c5c3_forge.Reconcile.Status.{
  unchanged, written, all_ready, not_all_ready, set_aggregate_ready, update_status,
}

module _ (m : ConditionMeta) (laws : ConditionLaws m) where
  is_ready-set_aggregate_ready :
      (cs : List Condition) (g : ℕ) (types : List String)
      → is_ready m (set_aggregate_ready m cs g types) ≡ all_true m cs types
  unfolding is_ready set_aggregate_ready
  is_ready-set_aggregate_ready cs g types = elim (Bool-cases (all_true m cs types)) [
    | inl e ↦ rw e (holds-set_self m laws cs (all_ready g))
    | inr e ↦ rw e (holds-set_self m laws cs (not_all_ready g))
  ]

  get-set_aggregate_ready_ne :
      (cs : List Condition) (g : ℕ) (types : List String) (t : String)
      → t ≢ "Ready"
      → get_condition m (set_aggregate_ready m cs g types) t ≡ get_condition m cs t
  unfolding set_aggregate_ready
  get-set_aggregate_ready_ne cs g types t h =
      ground
        (arith, get-set_ne m laws cs (all_ready g) t h, get-set_ne m laws cs (not_all_ready g) t h)

-- After SetAggregateReady the CR is Ready exactly when every sub-condition is there and is True.
pub set_aggregate_ready_iff :
    (m : ConditionMeta) (laws : ConditionLaws m) (cs : List Condition) (g : ℕ) (types : List String)
    → (is_ready m (set_aggregate_ready m cs g types) ≡ true) ↔ All (IsTrue m cs) types
set_aggregate_ready_iff m laws cs g types =
    let same = is_ready-set_aggregate_ready m laws cs g types in
    (λ h. (all_true_iff m cs types).0 (sym same ∙ h), λ h. same ∙ (all_true_iff m cs types).1 h)

-- Setting the aggregate twice is setting it once, if Ready is not one of the sub-conditions.
pub set_aggregate_ready_idem :
    (m : ConditionMeta) (laws : ConditionLaws m) (cs : List Condition) (g : ℕ) (types : List String)
    → All (λ t. t ≢ "Ready") types
    → set_aggregate_ready m (set_aggregate_ready m cs g types) g types
      ≡ set_aggregate_ready m cs g types
unfolding set_aggregate_ready
set_aggregate_ready_idem m laws cs g types h = elim (Bool-cases (all_true m cs types)) [
  | inl e ↦
      rw (e, all_true-set m laws cs (all_ready g) types h, e)
        (laws.set_agreeing _ (all_ready g) _ (get-set_self m laws cs (all_ready g)) (record {
          type = refl;
          status = refl;
          observed_generation = refl;
          reason = refl;
          message = refl;
        }))
  | inr e ↦
      rw (e, all_true-set m laws cs (not_all_ready g) types h, e)
        (laws.set_agreeing _ (not_all_ready g) _ (get-set_self m laws cs (not_all_ready g))
          (record {
            type = refl;
            status = refl;
            observed_generation = refl;
            reason = refl;
            message = refl;
          }))
]

-- What one UpdateStatus does, from the snapshot `before`, the mutated status `s`, the outcome `o`
-- of the pass and the cluster `w`.
pub data Updated {S W : Type 0} (deep_equal : S → S → Bool)
    (status_update : S → W → W × Option Error) (before : Option S) (s : S) (o : Outcome) (w : W)
    : S × W × Outcome → Type 0 where
  -- The status equals the snapshot: nothing is written.
  skipped :
      (b : S)
      → before ≡ some b
      → deep_equal b s ≡ true
      → Updated deep_equal status_update before s o w (s, w, o)
  -- It differs, or there is no snapshot, and the write succeeds: the outcome stands.
  wrote :
      (w' : W)
      → unchanged deep_equal before s ≡ false
      → status_update s w ≡ (w', none)
      → Updated deep_equal status_update before s o w (s, w', o)
  -- The write fails: its error is returned, joined to that of the pass.
  write_failed :
      (w' : W) (e : Error)
      → unchanged deep_equal before s ≡ false
      → status_update s w ≡ (w', some e)
      → Updated deep_equal status_update before s o w (
        s,
        w',
        record {
          result = zero_result;
          error = some (join_with o.error (wrap "updating status: " e));
        },
      )

module _ {S W : Type 0} (deep_equal : S → S → Bool) (status_update : S → W → W × Option Error) where
  written-Updated :
      (before : Option S) (s : S) (o : Outcome) (w : W) (r : W × Option Error)
      → unchanged deep_equal before s ≡ false
      → status_update s w ≡ r
      → Updated deep_equal status_update before s o w (written s o r)
  written-Updated before s o w (w', none) h e = wrote w' h e
  written-Updated before s o w (w', some x) h e = write_failed w' x h e

  -- UpdateStatus writes exactly when the mutated status differs from the snapshot or there is
  -- none; a failed write keeps the error of the pass beside its own.
  pub update_status-Updated :
      (before : Option S) (current : S) (mutate : S → S) (o : Outcome) (w : W)
      → Updated deep_equal status_update before
          (mutate current)
          o
          w
          (update_status deep_equal status_update before current mutate o w)
  unfolding update_status
  update_status-Updated none current mutate o w =
      written-Updated none (mutate current) o w _ refl refl
  update_status-Updated (some b) current mutate o w =
      elim (Bool-cases (deep_equal b (mutate current))) [
        | inl e ↦ rw e (skipped b refl e)
        | inr e ↦ rw e (written-Updated (some b) (mutate current) o w _ e refl)
      ]
