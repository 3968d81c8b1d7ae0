-- ===== src/Reconcile/Pipeline.antt =====
-- internal/common/reconcile/pipeline.go: RunPipeline and ShortestRequeue. A step acts on a state
-- `S` of the pass: the CR in memory, the cluster, and the events.
pub mod Laws
pub mod Shortest
use c5c3_forge.Prelude.{
  Bool, true, false, List, [], ◌∷◌, String, str_eq, ℤ, pos, lt_int, le_int, if◌then◌else◌, ◌||◌,
}
use c5c3_forge.Kube.Outcome.{Result, zero_result, Outcome, done, stops}

-- func(ctx context.Context) (ctrl.Result, error).
abbrev pub StepFn : Type 0 → Type 0
StepFn S = S → S × Outcome

-- Step.
pub record Step (S : Type 0) : Type 0 where
  pub name : String
  pub fn : StepFn S

-- InstrumentFunc.
abbrev pub InstrumentFunc : Type 0 → Type 0
InstrumentFunc S = String → StepFn S → StepFn S

module _ {S : Type 0} (instrument : InstrumentFunc S) where
  unfoldable pub run_step : Step S → StepFn S
  run_step s st = if str_eq s.name "" then s.fn st else instrument s.name s.fn st

  -- RunPipeline: the first step that stops ends the pass.
  unfoldable pub run_pipeline : List (Step S) → StepFn S
  run_pipeline [] st = (st, done)
  run_pipeline (s ∷ steps) st =
      let (st', o) = run_step s st in
      let rest = run_pipeline steps st' in elim (stops o) [ true ↦ (st', o) | false ↦ rest ]

abbrev zero_or_less : Result → Bool
zero_or_less r = le_int r.requeue_after (pos 0)

-- One round of the loop of ShortestRequeue.
abbrev pub shorter : Result → Result → Result
shorter shortest r =
    if zero_or_less r
    then shortest
    else if zero_or_less shortest || lt_int r.requeue_after shortest.requeue_after
    then r
    else shortest

pub shortest_from : Result → List Result → Result
shortest_from shortest [] = shortest
shortest_from shortest (r ∷ results) = shortest_from (shorter shortest r) results

-- ShortestRequeue.
unfoldable pub shortest_requeue : List Result → Result
unfolding shortest_from
shortest_requeue results = shortest_from zero_result results
