-- ===== src/Job/Rerun.antt =====
-- internal/common/job/job.go: RunJob when the pod template has changed.
use c5c3_forge.Prelude.{
  ◌≡◌, refl, sym, subst, Option, if_cases, true, false, [], String, none, some, arith, eq_iff,
  lookup-insert,
}
use c5c3_forge.Kube.Error.{Error, Answer, ok, err, is_already_exists}
use c5c3_forge.Job.{
  Job, JobApi, JobAnswer, created, create_owned, after_delete, live, is_job_complete, is_job_failed,
  stored_key, create_job_with_rerun_key, recreate_stale_job, on_existing, run_job_with_rerun_key,
  run_job, answered, with_key,
}
use c5c3_forge.Job.Laws.{Stale}

-- The documented behaviour of the API server and of SetControllerReference: a Job that was created
-- is read back under its name with its annotations and with no status yet, and an owner reference
-- renames nothing.
pub record JobLaws {W T : Type 0} (api : JobApi W T) : Type 0 where
  pub stored : W → Job T → Job T
  pub get-create :
      (w w' : W) (job : Job T)
      → api.create w job ≡ (w', none)
      → live api w' job ≡ ok (stored w' job)
  pub stored_annotations : (w : W) (job : Job T) → (stored w job).annotations ≡ job.annotations
  pub stored_conditions : (w : W) (job : Job T) → (stored w job).conditions ≡ []
  pub owned_name :
      (job owned : Job T) → api.set_controller_reference job ≡ ok owned → job.name ≡ owned.name
  pub owned_namespace :
      (job owned : Job T)
      → api.set_controller_reference job ≡ ok owned
      → job.namespace ≡ owned.namespace

module _ {W T : Type 0} (api : JobApi W T) (laws : JobLaws api) where
  -- A Job with no status is neither complete nor failed, so RunJob waits for it.
  run_job_waits :
      (w : W) (job existing : Job T) (key : String)
      → live api w job ≡ ok existing
      → existing.conditions ≡ []
      → run_job_with_rerun_key api w job key
        ≡ (w, record { done = false; observed = some existing; error = none })
  unfolding run_job_with_rerun_key on_existing is_job_failed is_job_complete
  run_job_waits w job existing key g empty = rw (g, empty) refl

  get_recreated :
      (w w' : W) (job owned : Job T) (key : String)
      → api.set_controller_reference job ≡ ok owned
      → api.create w (with_key owned key) ≡ (w', none)
      → live api w' job ≡ ok (laws.stored w' (with_key owned key))
  get_recreated w w' job owned key o c =
      rw (laws.owned_name job owned o, laws.owned_namespace job owned o)
        (laws.get-create w w' (with_key owned key) c)

  stored_key-stored :
      (w : W) (owned : Job T) (key : String) → stored_key (laws.stored w (with_key owned key)) ≡ key
  stored_key-stored w owned key = rw laws.stored_annotations (rw lookup-insert refl)

  module _ (start : W) (job existing : Job T) (key : String) where
    -- What a Create after an accepted Delete of the existing Job leaves, where no error is returned:
    -- a new Job under the key, without a status; or the Create was refused, since a Job of that name
    -- was still there.
    data Created (w : W) : Type 0 where
      stored_new :
          (before : W) (new : Job T)
          → api.delete start existing.namespace existing.name ≡ (before, none)
          → live api w job ≡ ok new
          → stored_key new ≡ key
          → new.conditions ≡ []
          → Created w
      refused_new :
          (before : W) (owned : Job T) (e : Error)
          → api.delete start existing.namespace existing.name ≡ (before, none)
          → api.create before (with_key owned key) ≡ (w, some e)
          → is_already_exists e ≡ true
          → Created w

    abbrev Creates : W × Option Error → Type 0
    Creates r = r.1 ≡ none → Created r.0

    created-Creates :
        (w : W) (owned : Job T) (r : W × Option Error)
        → api.delete start existing.namespace existing.name ≡ (w, none)
        → api.set_controller_reference job ≡ ok owned
        → api.create w (with_key owned key) ≡ r
        → Creates (created api job r)
    created-Creates w owned (w', none) d o c = λ _.
        stored_new w (laws.stored w' (with_key owned key)) d (get_recreated w w' job owned key o c)
          (stored_key-stored w' owned key) (laws.stored_conditions w' (with_key owned key))
    created-Creates w owned (w', some e) d o c =
        if_cases {A = W × Option Error} Creates (is_already_exists e)
          (λ there _. refused_new w owned e d c there) (λ _ h. absurd (cc h))

    create_owned-Creates :
        (w : W) (a : Answer (Job T))
        → api.delete start existing.namespace existing.name ≡ (w, none)
        → api.set_controller_reference job ≡ a
        → Creates (create_owned api w job key a)
    create_owned-Creates w (ok owned) d o =
        created-Creates w owned (api.create w (with_key owned key)) d o refl
    create_owned-Creates w (err e) d o = λ h. absurd (cc h)

    after_delete-Creates :
        (r : W × Option Error)
        → api.delete start existing.namespace existing.name ≡ r
        → Creates (after_delete api job existing key r)
    unfolding create_job_with_rerun_key
    after_delete-Creates (w, some e) d = λ h. absurd (cc h)
    after_delete-Creates (w, none) d =
        create_owned-Creates w (api.set_controller_reference job) d refl

    recreate_stale_job-Creates : Creates (recreate_stale_job api start job existing key)
    unfolding recreate_stale_job
    recreate_stale_job-Creates = after_delete-Creates _ refl

  run_job_recreates :
      (w : W) (job existing : Job T) (key : String)
      → live api w job ≡ ok existing
      → Stale key existing
      → run_job_with_rerun_key api w job key
        ≡ answered api false (some existing) (recreate_stale_job api w job existing key)
  unfolding run_job_with_rerun_key on_existing
  run_job_recreates w job existing key g stale =
      rw g (ground (arith, eq_iff key (stored_key existing)))

  -- What RunJob leaves when it re-runs the Job `existing` of the cluster `start`, and what the pass
  -- after it meets.
  pub data Rerun (start : W) (job existing : Job T) (w : W) : Type 0 where
    -- The old Job was deleted, and a new one is there under the key of the pod template. The pass
    -- after it waits for the new Job, and writes nothing.
    recreated :
        (before : W) (new : Job T)
        → api.delete start existing.namespace existing.name ≡ (before, none)
        → live api w job ≡ ok new
        → stored_key new ≡ api.pod_spec_hash job.template
        → run_job api w job ≡ (w, record { done = false; observed = some new; error = none })
        → Rerun start job existing w
    -- The Delete of the old Job was accepted, and the Create after it was refused with AlreadyExists:
    -- the old Job is still terminating.
    refused :
        (before : W) (owned : Job T) (e : Error)
        → api.delete start existing.namespace existing.name ≡ (before, none)
        → api.create before (with_key owned (api.pod_spec_hash job.template)) ≡ (w, some e)
        → is_already_exists e ≡ true
        → Rerun start job existing w

  Created-Rerun :
      (start : W) (job existing : Job T) (w : W)
      → Created start job existing (api.pod_spec_hash job.template) w
      → Rerun start job existing w
  unfolding run_job
  Created-Rerun start job existing w (stored_new before new d g key empty) =
      recreated before new d g key
        (run_job_waits w job new (api.pod_spec_hash job.template) g empty)
  Created-Rerun start job existing w (refused_new before owned e d c there) =
      refused before owned e d c there

  -- A call without an error is not done, and leaves what Rerun says.
  abbrev pub Reruns : W → Job T → Job T → W × JobAnswer T → Type 0
  Reruns start job existing r = r.1.error ≡ none → (r.1.done ≡ false) × Rerun start job existing r.0

  answered-Reruns :
      (start : W) (job existing : Job T) (r : W × Option Error)
      → Creates start job existing (api.pod_spec_hash job.template) r
      → Reruns start job existing (answered api false (some existing) r)
  answered-Reruns start job existing (w, e) c =
      λ h. (refl, Created-Rerun start job existing w (c h))

  -- Where RunJob meets an ended Job whose stored key is not the hash of the desired pod template, and
  -- returns no error, it is not done, the old Job's Delete was accepted, and one of two things holds.
  -- Either a new Job stands under the new key, and the next RunJob waits for it and writes nothing;
  -- or the API server has refused the new Job, after the Delete, with AlreadyExists, since the old one
  -- is still terminating. A Job that was created is read back with its annotations and no status, and
  -- an owner reference renames nothing.
  pub run_job-Reruns :
      (w : W) (job existing : Job T)
      → live api w job ≡ ok existing
      → Stale (api.pod_spec_hash job.template) existing
      → Reruns w job existing (run_job api w job)
  unfolding run_job
  run_job-Reruns w job existing g stale =
      let key = api.pod_spec_hash job.template in
      subst (Reruns w job existing) (sym (run_job_recreates w job existing key g stale)) (
        answered-Reruns w job existing (recreate_stale_job api w job existing key)
          (recreate_stale_job-Creates w job existing key))
