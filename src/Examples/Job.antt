-- ===== src/Examples/Job.antt =====
-- Jobs at work, in a cluster whose pod templates are texts and their own hash.
use c5c3_forge.Prelude.{◌≡◌, refl, ◌↔◌, inr, true, false, List, [], ◌∷◌, String, none, some, lookup}
use c5c3_forge.Kube.Error.{ok}
use c5c3_forge.Kube.Condition.{status_true}
use c5c3_forge.Job.{
  Job, JobApi, job_complete, live, is_job_complete, is_job_failed, run_job, run_job_with_rerun_key,
  pod_spec_hash_annotation,
}
use c5c3_forge.Job.Laws.{Finished, Touched, run_job_done_iff, run_job-Touched}
use c5c3_forge.Job.Rerun.{JobLaws, Rerun, run_job-Reruns}
use c5c3_forge.Job.Terminal.{Owner, OwnerPatch, record_job_terminal_state, idle, terminal_state}
use c5c3_forge.Job.Terminal.Once.{record_job_terminal_state_once}
use c5c3_forge.Examples.Conditions.{differs}
use c5c3_forge.Examples.Cluster.{cluster, cluster_laws, get_job, delete_job}

abbrev texts : JobApi (List (Job String)) String
texts = cluster (λ t. t)

abbrev text_laws : JobLaws texts
text_laws = cluster_laws (λ t. t)

abbrev wanted : Job String
wanted = record {
  name = "ks-db-sync";
  namespace = "openstack";
  labels = [];
  annotations = [];
  backoff_limit = 4;
  ttl_seconds_after_finished = none;
  template = "new";
  conditions = [];
  uid = "";
  creation_timestamp = 0;
}

-- The Job of an earlier template, which has completed.
abbrev ended : Job String
ended = record wanted {
  template = "old";
  annotations = (pod_spec_hash_annotation, "old") ∷ [];
  conditions = record { type = job_complete; status = status_true; last_transition_time = 9 } ∷ [];
  uid = "u1";
}

abbrev before : List (Job String)
before = ended ∷ []

run_job_done_iff_example :
    ((run_job_with_rerun_key texts before wanted "old").1.done ≡ true)
    ↔ Finished "old" (live texts before wanted)
run_job_done_iff_example = run_job_done_iff texts before wanted "old"

run_job-Touched_example :
    Touched texts before wanted "new" (run_job_with_rerun_key texts before wanted "new").0
run_job-Touched_example = run_job-Touched texts before wanted "new"

first_pass_ends : (run_job texts before wanted).1.error ≡ none
unfolding run_job get_job delete_job is_job_complete is_job_failed lookup run_job_with_rerun_key
    c5c3_forge.Job.recreate_stale_job c5c3_forge.Job.create_job_with_rerun_key
first_pass_ends = refl

run_job-Reruns_example :
    ((run_job texts before wanted).1.done ≡ false)
    × Rerun texts text_laws before wanted ended (run_job texts before wanted).0
unfolding get_job is_job_complete is_job_failed lookup
run_job-Reruns_example =
    run_job-Reruns texts text_laws before wanted ended refl
      (record { terminal = inr refl; other_key = differs refl }) first_pass_ends

abbrev owner : Owner
owner = record { annotations = []; resource_version = "1" }

abbrev patch : OwnerPatch (List (Job String))
patch w o = (w, ok "2")

record_job_terminal_state_once_example :
    let owner' = (record_job_terminal_state patch "db-sync" owner (some ended) before).owner in
    record_job_terminal_state patch "db-sync" owner' (some ended) [] ≡ idle owner' []
unfolding record_job_terminal_state terminal_state lookup
record_job_terminal_state_once_example =
    record_job_terminal_state_once patch "db-sync" owner ended before [] (differs refl) (λ e. cc e)
