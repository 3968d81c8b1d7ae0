-- ===== src/Reconcile/Pipeline/Laws.antt =====
-- internal/common/reconcile/pipeline.go, RunPipeline: runs of steps none of which stops.
use c5c3_forge.Prelude.{◌≡◌, refl, true, false, List, [], ◌∷◌, ◌++◌}
use c5c3_forge.Kube.Outcome.{done, stops}
use c5c3_forge.Reconcile.Pipeline.{Step, InstrumentFunc, run_step, run_pipeline}

module _ {S : Type 0} (instrument : InstrumentFunc S) where
  -- The run of a list of steps none of which stops, from one state to another.
  pub data Passes : List (Step S) → S → S → Type 0 where
    here : {st : S} → Passes [] st st
    next :
        {s : Step S} {steps : List (Step S)} {st en : S}
        → stops (run_step instrument s st).1 ≡ false
        → Passes steps (run_step instrument s st).0 en
        → Passes (s ∷ steps) st en

  pub run_pipeline-append :
      (before rest : List (Step S)) {st mid : S}
      → Passes before st mid
      → run_pipeline instrument (before ++ rest) st ≡ run_pipeline instrument rest mid
  unfolding run_pipeline
  run_pipeline-append [] rest here = refl
  run_pipeline-append (s ∷ before) rest (next go p) =
      rw (go, run_pipeline) (run_pipeline-append before rest p)

  -- A step that stops the pass after steps that do not: its state and its outcome are the
  -- pipeline's, whatever steps follow it.
  pub run_pipeline-stops :
      (before : List (Step S)) (s : Step S) (after : List (Step S)) {st mid : S}
      → Passes before st mid
      → stops (run_step instrument s mid).1 ≡ true
      → run_pipeline instrument (before ++ s ∷ after) st ≡ run_step instrument s mid
  unfolding run_pipeline
  run_pipeline-stops before s after {st} {mid} p stop =
      rw (run_pipeline-append before (s ∷ after) p) (rw (stop, run_pipeline) refl)

  -- A chain in which no step stops runs every step and returns a zero result and no error.
  pub run_pipeline-Passes :
      (steps : List (Step S)) {st en : S}
      → Passes steps st en
      → run_pipeline instrument steps st ≡ (en, done)
  unfolding run_pipeline
  run_pipeline-Passes [] here = refl
  run_pipeline-Passes (s ∷ steps) (next go p) = rw (go, run_pipeline) (run_pipeline-Passes steps p)
