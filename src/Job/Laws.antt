-- ===== src/Job/Laws.antt =====
-- internal/common/job/job.go: what RunJob reports, and what it does to the cluster.
use c5c3_forge.Prelude.{
  ◌≡◌, ◌≢◌, refl, ◌⊎◌, inl, inr, true, false, String, none, arith, Bool-cases, str_eq-cases, eq_iff,
  ◌↔◌, sym,
}
use c5c3_forge.Kube.Error.{Error, Answer, ok, err, is_not_found}
use c5c3_forge.Job.{
  Job, JobApi, live, is_job_complete, is_job_failed, stored_key, create_job_with_rerun_key,
  recreate_stale_job, on_existing, on_get, run_job_with_rerun_key,
}

-- The Job in the cluster ran to completion under this key.
pub record Completed {T : Type 0} (key : String) (job : Job T) : Type 0 where
  pub complete : is_job_complete job ≡ true
  pub not_failed : is_job_failed job ≡ false
  pub same_key : stored_key job ≡ key

pub data Finished {T : Type 0} (key : String) : Answer (Job T) → Type 0 where
  finished : {job : Job T} → Completed key job → Finished key (ok job)

pub not-Finished-err : {T : Type 0} {key : String} {e : Error} → ¬ Finished {T = T} key (err e)
not-Finished-err {T} {key} {e} f = go (err e) f refl
  where
    go : (a : Answer (Job T)) → Finished key a → a ≡ err e → ⊥
    go a (finished c) p = cc

Finished-ok : {T : Type 0} {key : String} {job : Job T} → Finished key (ok job) → Completed key job
Finished-ok (finished c) = c

-- The Job ran to an end, in success or failure, under another key.
pub record Stale {T : Type 0} (key : String) (job : Job T) : Type 0 where
  pub terminal : (is_job_failed job ≡ true) ⊎ (is_job_complete job ≡ true)
  pub other_key : stored_key job ≢ key

-- How one call changes the cluster.
pub data Touched {W T : Type 0} (api : JobApi W T) (w : W) (job : Job T) (key : String)
    : W → Type 0 where
  untouched : Touched api w job key w
  creates :
      (e : Error)
      → live api w job ≡ err e
      → is_not_found e ≡ true
      → Touched api w job key (create_job_with_rerun_key api w job key).0
  recreates :
      (existing : Job T)
      → live api w job ≡ ok existing
      → Stale key existing
      → Touched api w job key (recreate_stale_job api w job existing key).0

module _ {W T : Type 0} (api : JobApi W T) (job : Job T) (key : String) where
  on_existing_iff :
      (w : W) (existing : Job T)
      → ((on_existing api w job existing key).1.done ≡ true) ↔ Completed key existing
  unfolding on_existing
  on_existing_iff w existing = (
    λ h. ground (arith, eq_iff key (stored_key existing)),
    λ c. ground (arith, eq_iff key (stored_key existing)),
  )

  on_get_iff :
      (w : W) (a : Answer (Job T)) → ((on_get api w job key a).1.done ≡ true) ↔ Finished key a
  on_get_iff w (err e) = (λ h. absurd (ground arith), λ f. absurd (not-Finished-err f))
  on_get_iff w (ok existing) = (
    λ h. finished ((on_existing_iff w existing).0 h),
    λ f. (on_existing_iff w existing).1 (Finished-ok f),
  )

  on_existing-Touched :
      (w : W) (existing : Job T)
      → live api w job ≡ ok existing
      → Touched api w job key (on_existing api w job existing key).0
  unfolding on_existing
  on_existing-Touched w existing g = elim (Bool-cases (is_job_failed existing)) [
    | inl f ↦ elim (str_eq-cases key (stored_key existing)) [
      | inl (e, _) ↦ rw (f, e) untouched
      | inr (e, ne) ↦
          rw (f, e)
            (recreates existing g (record { terminal = inl f; other_key = λ p. ne (sym p) }))
    ]
    | inr f ↦ elim (Bool-cases (is_job_complete existing)) [
      | inl c ↦ elim (str_eq-cases key (stored_key existing)) [
        | inl (e, _) ↦ rw (f, c, e) untouched
        | inr (e, ne) ↦
            rw (f, c, e)
              (recreates existing g (record { terminal = inr c; other_key = λ p. ne (sym p) }))
      ]
      | inr c ↦ rw (f, c) untouched
    ]
  ]

  on_get-Touched :
      (w : W) (a : Answer (Job T))
      → live api w job ≡ a
      → Touched api w job key (on_get api w job key a).0
  on_get-Touched w (err e) g = elim (Bool-cases (is_not_found e)) [
    | inl n ↦ rw n (creates e g n)
    | inr n ↦ rw n untouched
  ]
  on_get-Touched w (ok existing) g = on_existing-Touched w existing g

-- RunJob reports that the Job is done exactly when the Job in the cluster has completed, has not
-- failed, and was created under the same re-run key.
pub run_job_done_iff :
    {W T : Type 0} (api : JobApi W T) (w : W) (job : Job T) (key : String)
    → ((run_job_with_rerun_key api w job key).1.done ≡ true) ↔ Finished key (live api w job)
unfolding run_job_with_rerun_key
run_job_done_iff api w job key = on_get_iff api job key w (live api w job)

-- RunJob writes to the cluster in two cases only: it creates a Job that does not exist, and it
-- replaces one that has ended under another re-run key. A running Job, and an ended one whose key
-- is unchanged, are never touched.
pub run_job-Touched :
    {W T : Type 0} (api : JobApi W T) (w : W) (job : Job T) (key : String)
    → Touched api w job key (run_job_with_rerun_key api w job key).0
unfolding run_job_with_rerun_key
run_job-Touched api w job key = on_get-Touched api job key w (live api w job) refl

module _ {W T : Type 0} (api : JobApi W T) (job : Job T) (key : String) where
  on_existing_done :
      (w : W) (existing : Job T)
      → (on_existing api w job existing key).1.done ≡ true
      → (on_existing api w job existing key).1.error ≡ none
  unfolding on_existing
  on_existing_done w existing h = ground arith

  on_get_done :
      (w : W) (a : Answer (Job T))
      → (on_get api w job key a).1.done ≡ true
      → (on_get api w job key a).1.error ≡ none
  on_get_done w (err e) h = absurd (ground arith)
  on_get_done w (ok existing) h = on_existing_done w existing h

-- A Job that RunJob reports as done comes without an error.
pub run_job_done :
    {W T : Type 0} (api : JobApi W T) (w : W) (job : Job T) (key : String)
    → (run_job_with_rerun_key api w job key).1.done ≡ true
    → (run_job_with_rerun_key api w job key).1.error ≡ none
unfolding run_job_with_rerun_key
run_job_done api w job key h = on_get_done api job key w (live api w job) h
