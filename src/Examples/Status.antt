-- ===== src/Examples/Status.antt =====
-- internal/common/reconcile/skeleton.go at work: a status with conditions and a generation of its own,
-- that is written in a first pass and settles.
use Prim.Native.Nat.{ℕ, suc}
use c5c3_forge.Prelude.{
  ◌==◌, ◌≡◌, refl, Bool, true, false, ◌&&◌, List, [], ◌∷◌, Option, none, some, str_eq, eq_refl,
  arith,
}
use c5c3_forge.Kube.Error.{Error}
use c5c3_forge.Kube.Condition.{Condition, status_true}
use c5c3_forge.Kube.Outcome.{done}
use c5c3_forge.Conditions.{set_condition, all_true}
use c5c3_forge.Reconcile.Parallel.{ConditionsOf}
use c5c3_forge.Reconcile.Parallel.Laws.{ConditionsOfLaws}
use c5c3_forge.Reconcile.Status.{
  Skeleton, skeleton_update_status, update_status, set_ready, set_aggregate_ready,
}
use c5c3_forge.Reconcile.Status.Converged.{skeleton_update_status_converges}
use c5c3_forge.Examples.Conditions.{
  meta, meta_laws, cond, differs, find, put, same_status, same_status_refl,
}

record CrStatus : Type 0 where
  conditions : List Condition
  observed_generation : ℕ

abbrev conditions_of : ConditionsOf CrStatus
conditions_of = record { read = λ s. s.conditions; write = λ s cs. record s { conditions = cs } }

conditions_of-Laws : ConditionsOfLaws conditions_of
conditions_of-Laws = record { read-write = λ s cs. refl; write-read = λ s. refl }

abbrev same_condition : Condition → Condition → Bool
same_condition c d =
    str_eq c.type d.type
    && same_status c.status d.status
    && c.observed_generation == d.observed_generation
    && c.last_transition_time == d.last_transition_time
    && str_eq c.reason d.reason
    && str_eq c.message d.message

unfoldable same_conditions : List Condition → List Condition → Bool
same_conditions [] [] = true
same_conditions (c ∷ cs) (d ∷ ds) = same_condition c d && same_conditions cs ds
same_conditions _ _ = false

abbrev deep_equal : CrStatus → CrStatus → Bool
deep_equal s t =
    same_conditions s.conditions t.conditions && s.observed_generation == t.observed_generation

num_refl : (n : ℕ) → (n == n) ≡ true
num_refl n = ground arith

same_conditions_refl : (cs : List Condition) → same_conditions cs cs ≡ true
unfolding same_conditions
same_conditions_refl [] = refl
same_conditions_refl (c ∷ cs) =
    rw
      (
        eq_refl c.type,
        same_status_refl c.status,
        num_refl c.observed_generation,
        num_refl c.last_transition_time,
        eq_refl c.reason,
        eq_refl c.message,
      )
      (same_conditions_refl cs)

deep_equal_refl : (s : CrStatus) → deep_equal s s ≡ true
deep_equal_refl s = rw (same_conditions_refl s.conditions) (num_refl s.observed_generation)

abbrev skeleton : Skeleton CrStatus
skeleton = record {
  sub_condition_types = "DatabaseReady" ∷ "APIReady" ∷ [];
  conditions = conditions_of;
}

-- The hook of a reconciler that records the generation it has seen.
abbrev stamp : CrStatus → CrStatus
stamp s = record s { observed_generation = 3 }

abbrev old_status : CrStatus
old_status = record {
  conditions = cond "DatabaseReady" status_true ∷ cond "APIReady" status_true ∷ [];
  observed_generation = 2;
}

-- The cluster holds the status that was written last and counts the writes.
abbrev write_status : CrStatus → CrStatus × ℕ → (CrStatus × ℕ) × Option Error
write_status s w = ((s, suc w.1), none)

abbrev first_pass : CrStatus × ℕ
first_pass =
    (skeleton_update_status meta skeleton deep_equal write_status 3 (some old_status) old_status
      stamp done (old_status, 0)).1

first_pass_writes : first_pass.1 ≡ 1
unfolding skeleton_update_status update_status set_ready set_aggregate_ready set_condition
    same_conditions find put all_true
first_pass_writes = refl

skeleton_update_status_converges_example :
    let s1 =
      (skeleton_update_status meta skeleton deep_equal write_status 3
        (some old_status)
        old_status
        stamp
        done
        (old_status, 0)).0 in
    skeleton_update_status meta skeleton deep_equal write_status 3
      (some s1)
      s1
      stamp
      done
      first_pass
    ≡ (s1, first_pass, done)
skeleton_update_status_converges_example =
    skeleton_update_status_converges meta meta_laws skeleton conditions_of-Laws
      (differs refl, (differs refl, tt)) stamp (λ s. refl) (λ s. refl) deep_equal deep_equal_refl
      write_status 3 (some old_status) old_status done done (old_status, 0) first_pass
