-- ===== src/Kube/Outcome.antt =====
-- What a reconcile step returns: ctrl.Result, and an error that may be nil.
use c5c3_forge.Prelude.{
  ◌≡◌, ◌≢◌, refl, zero, suc, arith, Bool, true, false, not, ◌&&◌, ◌==◌, Option, none, some, ℤ, pos,
  negsuc, is_none,
}
use c5c3_forge.Kube.Error.{Error}

-- ctrl.Result. A duration is a signed count of nanoseconds.
pub record Result : Type 0 where
  pub requeue : Bool
  pub requeue_after : ℤ

abbrev pub zero_result : Result
zero_result = record { requeue = false; requeue_after = pos 0 }

-- ctrl.Result{Requeue: true}.
abbrev pub requeue_now : Result
requeue_now = record { requeue = true; requeue_after = pos 0 }

-- ctrl.Result{RequeueAfter: d}.
abbrev pub requeue_in : ℤ → Result
requeue_in d = record { requeue = false; requeue_after = d }

abbrev is_zero_duration : ℤ → Bool
is_zero_duration (pos n) = n == 0
is_zero_duration (negsuc n) = false

-- result.IsZero().
abbrev pub is_zero : Result → Bool
is_zero r = not r.requeue && is_zero_duration r.requeue_after

-- The pair (ctrl.Result, error).
pub record Outcome : Type 0 where
  pub result : Result
  pub error : Option Error

abbrev pub done : Outcome
done = record { result = zero_result; error = none }

abbrev pub returns : Result → Outcome
returns r = record { result = r; error = none }

abbrev pub fails : Error → Outcome
fails e = record { result = zero_result; error = some e }

-- The caller's test `err != nil || !result.IsZero()`: the pass stops here.
abbrev pub stops : Outcome → Bool
stops o = not (is_zero o.result && is_none o.error)

-- A step that asks to be requeued after a time other than zero stops the pass.
pub stops-requeue_in : (d : ℤ) → d ≢ pos 0 → stops (returns (requeue_in d)) ≡ true
stops-requeue_in (pos zero) h = absurd (h refl)
stops-requeue_in (pos (suc n)) h = ground arith
stops-requeue_in (negsuc n) h = refl
