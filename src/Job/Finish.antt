-- ===== src/Job/Finish.antt =====
-- internal/common/job/job.go: the answer of RunJob and the Job in the cluster.
use c5c3_forge.Prelude.{◌≡◌, inl, inr, true, false, none, Bool-cases}
use c5c3_forge.Job.{Job, JobApi, JobAnswer, live, run_job}
use c5c3_forge.Job.Laws.{Finished, run_job_done, run_job_done_iff}

module _ {T W : Type 0} (api : JobApi W T) (w : W) (job : Job T) where
  -- The Job in the cluster has completed under the key of its current template.
  unfoldable pub IsFinished : Type 0
  IsFinished = Finished (api.pod_spec_hash job.template) (live api w job)

  abbrev pub answer : JobAnswer T
  answer = (run_job api w job).1

  pub finished_answer : IsFinished → (answer.done ≡ true) × (answer.error ≡ none)
  unfolding IsFinished run_job
  finished_answer f =
      let done = (run_job_done_iff api w job (api.pod_spec_hash job.template)).1 f in
      (done, run_job_done api w job (api.pod_spec_hash job.template) done)

  pub unfinished_answer : ¬ IsFinished → answer.done ≡ false
  unfolding IsFinished run_job
  unfinished_answer n = elim (Bool-cases answer.done) [
    | inl d ↦ absurd (n ((run_job_done_iff api w job (api.pod_spec_hash job.template)).0 d))
    | inr d ↦ d
  ]

  pub done_answer : answer.done ≡ true → IsFinished
  unfolding IsFinished run_job
  done_answer d = (run_job_done_iff api w job (api.pod_spec_hash job.template)).0 d
