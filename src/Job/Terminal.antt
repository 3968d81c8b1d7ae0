-- ===== src/Job/Terminal.antt =====
-- internal/common/job/terminal.go: the terminal state of a migration Job and its metric, for a
-- phase suffix and the UID of the Job. Times are nanoseconds since the zero time.
pub mod Once
use c5c3_forge.Prelude.{
  ℕ, ◌-◌, Bool, true, false, not, ◌&&◌, ltb, List, [], ◌∷◌, ◌++◌, String, Option, none, some,
  str_eq, if◌then◌else◌, lookup, insert,
}
use c5c3_forge.Kube.Text.{concat}
use c5c3_forge.Kube.Error.{Error, Answer, ok, err}
use c5c3_forge.Kube.Condition.{is_true}
use c5c3_forge.Job.{
  Job, JobConditionType, job_complete, job_failed_type, job_suspended, job_failure_target,
  job_success_criteria_met, job_other, JobCondition, or_empty,
}

-- JobUIDAnnotationKey.
abbrev pub job_uid_annotation_key : String → String
job_uid_annotation_key job_suffix = concat ("forge.c5c3.io/last-" ∷ job_suffix ∷ "-job-uid" ∷ [])

-- The owner CR, as far as the code reads and writes it.
pub record Owner : Type 0 where
  pub annotations : List (String × String)
  pub resource_version : String

-- A terminal state and the duration that `record` is given.
pub record Emission : Type 0 where
  pub result : String
  pub duration : ℕ

-- What one call leaves: the owner in memory, the cluster, the calls of `record`, and the error of
-- the patch, which the deferral event reports.
pub record Recorded (W : Type 0) : Type 0 where
  pub owner : Owner
  pub cluster : W
  pub emissions : List Emission
  pub deferred : Option Error

-- The result and the transition time that a condition of a terminal type gives.
abbrev terminal_of : JobConditionType → ℕ → Option (String × ℕ)
terminal_of job_complete at = some ("succeeded", at)
terminal_of job_failed_type at = some ("failed", at)
terminal_of job_suspended at = none
terminal_of job_failure_target at = none
terminal_of job_success_criteria_met at = none
terminal_of (job_other t) at = none

abbrev or_next : Option (String × ℕ) → Option (String × ℕ) → Option (String × ℕ)
or_next none rest = rest
or_next (some r) rest = some r

-- The loop over the conditions, which ends at the first terminal one with status True.
unfoldable pub terminal_state : List JobCondition → Option (String × ℕ)
terminal_state [] = none
terminal_state (c ∷ cs) =
    let rest = terminal_state cs in
    if is_true c.status then or_next (terminal_of c.type c.last_transition_time) rest else rest

-- transitionAt.Sub(created), clamped at zero.
abbrev pub elapsed : ℕ → ℕ → ℕ
elapsed created at = if ltb at created then 0 else at - created

-- client.Patch of the owner: the new resource version, or an error.
abbrev pub OwnerPatch : Type 0 → Type 0
OwnerPatch W = W → Owner → W × Answer String

-- uid != "" && owner.GetAnnotations()[annotationKey] == uid.
abbrev pub already_counted : String → Owner → String → Bool
already_counted key owner uid =
    not (str_eq uid "") && str_eq (or_empty (lookup key owner.annotations)) uid

abbrev pub marked : Owner → String → String → Owner
marked owner key uid = record owner { annotations = insert key uid owner.annotations }

module _ {W : Type 0} where
  abbrev pub idle : Owner → W → Recorded W
  idle owner w = record { owner = owner; cluster = w; emissions = []; deferred = none }

  abbrev pub on_patch : Owner → String → String → Emission → W × Answer String → Recorded W
  on_patch owner key uid emission (w, err e) = record {
    owner = owner;
    cluster = w;
    emissions = [];
    deferred = some e;
  }
  on_patch owner key uid emission (w, ok version) = record {
    owner = record (marked owner key uid) { resource_version = version };
    cluster = w;
    emissions = emission ∷ [];
    deferred = none;
  }

  abbrev pub on_terminal :
      {T : Type 0} → OwnerPatch W → String → Owner → Job T → W → Option (String × ℕ) → Recorded W
  on_terminal patch key owner job w none = idle owner w
  on_terminal patch key owner job w (some (result, at)) =
      if already_counted key owner job.uid
      then idle owner w
      else on_patch owner key job.uid
          (record { result = result; duration = elapsed job.creation_timestamp at })
          (patch w (marked owner key job.uid))

  -- RecordJobTerminalState.
  unfoldable pub record_job_terminal_state :
      {T : Type 0} → OwnerPatch W → String → Owner → Option (Job T) → W → Recorded W
  record_job_terminal_state patch job_suffix owner none w = idle owner w
  record_job_terminal_state patch job_suffix owner (some job) w =
      on_terminal patch (job_uid_annotation_key job_suffix) owner job w
        (terminal_state job.conditions)
