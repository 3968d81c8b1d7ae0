-- ===== src/Job/Terminal/Once.antt =====
-- internal/common/job/terminal.go: two observations of one Job.
use c5c3_forge.Prelude.{
  ℕ, ◌≡◌, ◌≢◌, refl, Bool, true, false, [], String, Option, none, some, str_eq_ne, eq_refl, lookup,
  lookup-insert, if◌then◌else◌,
}
use c5c3_forge.Kube.Error.{Answer, ok, err}
use c5c3_forge.Job.{Job, or_empty}
use c5c3_forge.Job.Terminal.{
  Owner, Emission, terminal_state, elapsed, already_counted, marked, OwnerPatch, idle, on_terminal,
  on_patch, record_job_terminal_state, job_uid_annotation_key,
}

-- The owner remembers the Job under the phase's annotation.
abbrev pub Remembers : String → Owner → String → Type 0
Remembers job_suffix owner uid =
    or_empty (lookup (job_uid_annotation_key job_suffix) owner.annotations) ≡ uid

module _ {W : Type 0} (job_suffix : String) where
  on_patch-Remembers :
      (owner : Owner) (uid : String) (e : Emission) (a : W × Answer String)
      → (on_patch owner (job_uid_annotation_key job_suffix) uid e a).emissions ≢ []
      → Remembers job_suffix (on_patch owner (job_uid_annotation_key job_suffix) uid e a).owner uid
  on_patch-Remembers owner uid e (w, err x) h = absurd (h refl)
  on_patch-Remembers owner uid e (w, ok v) h =
      rw lookup-insert (rw (eq_refl (job_uid_annotation_key job_suffix)) refl)

  unless-Remembers :
      (b : Bool) (owner : Owner) (uid : String) (w : W) (e : Emission) (a : W × Answer String)
      → let key = job_uid_annotation_key job_suffix in
        (if b then idle owner w else on_patch owner key uid e a).emissions ≢ []
        → Remembers job_suffix (if b then idle owner w else on_patch owner key uid e a).owner uid
  unless-Remembers true owner uid w e a h = absurd (h refl)
  unless-Remembers false owner uid w e a h = on_patch-Remembers owner uid e a h

module _ {W T : Type 0} (patch : OwnerPatch W) (job_suffix : String) where
  on_terminal-idle :
      (owner : Owner) (job : Job T) (w : W) (state : Option (String × ℕ))
      → job.uid ≢ ""
      → Remembers job_suffix owner job.uid
      → on_terminal patch (job_uid_annotation_key job_suffix) owner job w state ≡ idle owner w
  on_terminal-idle owner job w none named r = refl
  on_terminal-idle owner job w (some (result, at)) named r =
      rw (str_eq_ne named, r, eq_refl job.uid) refl

  on_terminal-Remembers :
      (owner : Owner) (job : Job T) (w : W) (state : Option (String × ℕ))
      → (on_terminal patch (job_uid_annotation_key job_suffix) owner job w state).emissions ≢ []
      → Remembers job_suffix
          (on_terminal patch (job_uid_annotation_key job_suffix) owner job w state).owner
          job.uid
  on_terminal-Remembers owner job w none h = absurd (h refl)
  on_terminal-Remembers owner job w (some (result, at)) h =
      let key = job_uid_annotation_key job_suffix in
      let e : Emission = record { result = result; duration = elapsed job.creation_timestamp at } in
      unless-Remembers job_suffix (already_counted key owner job.uid) owner job.uid w e
        (patch w (marked owner key job.uid)) h

  -- Once a terminal Job with a UID has been recorded, every later observation of that Job, with
  -- the owner that the first call left, records nothing and touches neither owner nor cluster.
  pub record_job_terminal_state_once :
      (owner : Owner) (job : Job T) (w w' : W)
      → job.uid ≢ ""
      → (record_job_terminal_state patch job_suffix owner (some job) w).emissions ≢ []
      → let owner' = (record_job_terminal_state patch job_suffix owner (some job) w).owner in
        record_job_terminal_state patch job_suffix owner' (some job) w' ≡ idle owner' w'
  unfolding record_job_terminal_state
  record_job_terminal_state_once owner job w w' named h =
      on_terminal-idle _ job w' (terminal_state job.conditions) named
        (on_terminal-Remembers owner job w (terminal_state job.conditions) h)
