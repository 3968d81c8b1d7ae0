-- ===== src/Job.antt =====
-- internal/common/job/job.go: migration Jobs that run once per re-run key. `T` is the pod template
-- and `W` the cluster.
pub mod Laws
pub mod Finish
pub mod Rerun
pub mod Terminal
pub mod Migration
use c5c3_forge.Prelude.{
  ℕ, Bool, true, false, not, ◌&&◌, ◌||◌, List, [], ◌∷◌, String, Option, none, some, str_eq,
  if◌then◌else◌, lookup, insert,
}
use c5c3_forge.Kube.Text.{concat}
use c5c3_forge.Kube.Error.{
  Error, Answer, ok, err, wrap, job_failed, is_not_found, is_already_exists,
}
use c5c3_forge.Kube.Condition.{Status, is_true}

-- batchv1.JobConditionType.
pub data JobConditionType : Type 0 where
  job_complete job_failed_type job_suspended job_failure_target job_success_criteria_met :
      JobConditionType
  job_other : String → JobConditionType

pub record JobCondition : Type 0 where
  pub type : JobConditionType
  pub status : Status
  pub last_transition_time : ℕ

-- The fields of batchv1.Job that the code reads or sets.
pub record Job (T : Type 0) : Type 0 where
  pub name : String
  pub namespace : String
  pub labels : List (String × String)
  pub annotations : List (String × String)
  pub backoff_limit : ℕ
  pub ttl_seconds_after_finished : Option ℕ
  pub template : T
  pub conditions : List JobCondition
  pub uid : String
  pub creation_timestamp : ℕ

-- The API server's Jobs, by namespace and name, the owner reference that controllerutil sets, and the hash of a template.
pub record JobApi (W T : Type 0) : Type 0 where
  pub get : W → String → String → Answer (Job T)
  pub create : W → Job T → W × Option Error
  pub delete : W → String → String → W × Option Error
  pub set_controller_reference : Job T → Answer (Job T)
  pub pod_spec_hash : T → String

-- What RunJob returns.
pub record JobAnswer (T : Type 0) : Type 0 where
  pub done : Bool
  pub observed : Option (Job T)
  pub error : Option Error

abbrev pub pod_spec_hash_annotation : String
pod_spec_hash_annotation = "forge.c5c3.io/pod-spec-hash"

-- m[k] with the zero value for a missing key.
abbrev pub or_empty : Option String → String
or_empty none = ""
or_empty (some s) = s

abbrev is_complete_type : JobConditionType → Bool
is_complete_type job_complete = true
is_complete_type _ = false

abbrev is_failed_type : JobConditionType → Bool
is_failed_type job_failed_type = true
is_failed_type _ = false

any_complete : List JobCondition → Bool
any_complete [] = false
any_complete (c ∷ cs) = (is_complete_type c.type && is_true c.status) || any_complete cs

any_failed : List JobCondition → Bool
any_failed [] = false
any_failed (c ∷ cs) = (is_failed_type c.type && is_true c.status) || any_failed cs

module _ {T : Type 0} where
  -- isJobComplete.
  unfoldable pub is_job_complete : Job T → Bool
  unfolding any_complete
  is_job_complete job = any_complete job.conditions

  -- isJobFailed.
  unfoldable pub is_job_failed : Job T → Bool
  unfolding any_failed
  is_job_failed job = any_failed job.conditions

  -- existing.Annotations[PodSpecHashAnnotation].
  abbrev pub stored_key : Job T → String
  stored_key job = or_empty (lookup pod_spec_hash_annotation job.annotations)

  abbrev job_key : Job T → String
  job_key job = concat (job.namespace ∷ "/" ∷ job.name ∷ [])

  abbrev pub with_key : Job T → String → Job T
  with_key job key = record job {
    annotations = insert pod_spec_hash_annotation key job.annotations;
  }

module _ {W T : Type 0} (api : JobApi W T) where
  -- The Job of the same name in the cluster.
  abbrev pub live : W → Job T → Answer (Job T)
  live w job = api.get w job.namespace job.name

  abbrev pub created : Job T → W × Option Error → W × Option Error
  created job (w, none) = (w, none)
  created job (w, some e) =
      if is_already_exists e
      then (w, none)
      else (w, some (wrap (concat ("creating Job " ∷ job_key job ∷ ": " ∷ [])) e))

  abbrev pub create_owned : W → Job T → String → Answer (Job T) → W × Option Error
  create_owned w job key (err e) =
      (w, some (wrap (concat ("setting owner reference on Job " ∷ job_key job ∷ ": " ∷ [])) e))
  create_owned w job key (ok to_create) = created job (api.create w (with_key to_create key))

  -- createJobWithRerunKey.
  unfoldable pub create_job_with_rerun_key : W → Job T → String → W × Option Error
  create_job_with_rerun_key w job key = create_owned w job key (api.set_controller_reference job)

  abbrev pub after_delete : Job T → Job T → String → W × Option Error → W × Option Error
  after_delete job existing key (w, some e) =
      (w, some (wrap (concat ("deleting stale Job " ∷ job_key existing ∷ ": " ∷ [])) e))
  after_delete job existing key (w, none) = create_job_with_rerun_key w job key

  -- recreateStaleJob.
  unfoldable pub recreate_stale_job : W → Job T → Job T → String → W × Option Error
  recreate_stale_job w job existing key =
      after_delete job existing key (api.delete w existing.namespace existing.name)

  abbrev pub answered : Bool → Option (Job T) → W × Option Error → W × JobAnswer T
  answered done observed (w, e) = (w, record { done = done; observed = observed; error = e })

  -- The Job exists.
  on_existing : W → Job T → Job T → String → W × JobAnswer T
  on_existing w job existing key =
      let stale = not (str_eq key (stored_key existing)) in
      if is_job_failed existing
      then if stale
        then answered false (some existing) (recreate_stale_job w job existing key)
        else answered false (some existing) (w, some (job_failed (job_key existing)))
      else if is_job_complete existing
      then if stale
        then answered false (some existing) (recreate_stale_job w job existing key)
        else answered true (some existing) (w, none)
      else answered false (some existing) (w, none)

  abbrev on_get : W → Job T → String → Answer (Job T) → W × JobAnswer T
  on_get w job key (err e) =
      if is_not_found e
      then answered false none (create_job_with_rerun_key w job key)
      else answered false none
          (w, some (wrap (concat ("getting Job " ∷ job_key job ∷ ": " ∷ [])) e))
  on_get w job key (ok existing) = on_existing w job existing key

  -- RunJobWithRerunKey.
  unfoldable pub run_job_with_rerun_key : W → Job T → String → W × JobAnswer T
  unfolding on_existing
  run_job_with_rerun_key w job key = on_get w job key (live w job)

  -- RunJob: the key is the hash of the pod template.
  unfoldable pub run_job : W → Job T → W × JobAnswer T
  run_job w job = run_job_with_rerun_key w job (api.pod_spec_hash job.template)
