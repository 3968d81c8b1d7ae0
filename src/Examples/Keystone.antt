-- ===== src/Examples/Keystone.antt =====
-- A Keystone CR at work: the upgrade from 2024.1 to 2024.2.
use c5c3_forge.Prelude.{ℕ, ◌≡◌, refl, ◌↔◌, false, List, [], ◌∷◌, String, none, some, lookup, insert}
use c5c3_forge.Kube.Text.{concat}
use c5c3_forge.Kube.Error.{ok}
use c5c3_forge.Kube.Condition.{status_true}
use c5c3_forge.Kube.Outcome.{stops}
use c5c3_forge.Job.{Job, JobApi, job_complete, is_job_complete, is_job_failed, with_key}
use c5c3_forge.Job.Finish.{IsFinished}
use c5c3_forge.Job.Laws.{finished, not-Finished-err}
use c5c3_forge.Job.Migration.{PodTemplate, build_migration_job}
use c5c3_forge.Database.Flow.{Flow}
use c5c3_forge.Database.Jobs.{build_job}
use c5c3_forge.Database.Provision.{MariaDbApi, ProvisionFlowParams, reconcile_provision}
use c5c3_forge.Database.Provision.Gate.{Provisioned, reconcile_provision_iff}
use c5c3_forge.Database.Sync.{SyncFlowParams, reconcile_sync_jobs}
use c5c3_forge.Database.Sync.Outcomes.{Reports, Verified, reconcile_sync_jobs_iff}
use c5c3_forge.Keystone.State.{
  no_phase, expanding, migrating, Keystone, Env, JobInputs, record_db_job_terminal_state,
}
use c5c3_forge.Keystone.Jobs.{
  build_expand_job, build_db_job, build_upgrade_job, keystone_job_set_params,
}
use c5c3_forge.Keystone.Upgrade.{reconcile_upgrade}
use c5c3_forge.Keystone.Upgrade.Phases.{view, Move, move_to}
use c5c3_forge.Keystone.Upgrade.Progress.{
  expand_job, reconcile_upgrade_ends, reconcile_upgrade_waits,
}
use c5c3_forge.Keystone.Database.{reconcile_database, sync_params, provision_params}
use c5c3_forge.Keystone.Database.Laws.{reconcile_database-Move}
use c5c3_forge.Keystone.History.{
  IsConsistent, idle, Steps, no_step, then_step, edits_tag, reconciles_database, Upgrades,
  Steps-IsConsistent, Steps-Upgrades,
}
use c5c3_forge.Examples.Conditions.{meta, meta_laws, cond}
use c5c3_forge.Examples.Cluster.{cluster, get_job}

-- Volumes, mounts and variables are numbers, and a security context is a text.
abbrev pub Template : Type 0
Template = PodTemplate ℕ ℕ ℕ String

abbrev pub World : Type 0
World = List (Job Template)

-- The image stands for the hash of the template.
abbrev pub jobs : JobApi World Template
jobs = cluster (λ t. t.container.image)

abbrev pub mariadb : MariaDbApi World
mariadb = record {
  get_cluster = λ w namespace name. ok (cond "Ready" status_true ∷ []);
  apply_database = λ w p. (w, ok (cond "Ready" status_true ∷ []));
  apply_user = λ w p. (w, ok (cond "Ready" status_true ∷ []));
  apply_grant = λ w p. (w, ok []);
}

abbrev pub env : Env World ℕ ℕ ℕ String
env = record {
  meta = meta;
  jobs = jobs;
  mariadb = mariadb;
  patch = λ w o. (w, ok "2");
  restricted = "restricted";
}

abbrev inputs : JobInputs ℕ ℕ ℕ
inputs = record {
  config_map_name = "ks-config";
  connection_env = 0;
  db_tls = none;
  domains = none;
  priority_class_name = "";
}

abbrev pub flow : Flow World
flow = record {
  conditions = [];
  events = [];
  cluster = [];
  owner = record { annotations = []; resource_version = "1" };
  metrics = [];
  installed_release = "2024.1";
}

abbrev settled : Keystone World
settled = record {
  flow = flow;
  name = "ks";
  namespace = "openstack";
  generation = 1;
  repository = "quay.io/keystone";
  tag = "2024.1";
  digest = "";
  database = record {
    cluster_ref = some "db";
    credentials_mode = "Static";
    host = "";
    database = "keystone";
    secret_ref = "ks-db";
  };
  gateway = none;
  public_endpoint = "";
  target_release = "";
  upgrade_phase = no_phase;
  endpoint = "";
}

abbrev asked : Keystone World
asked = record settled { tag = "2024.2" }

abbrev one_pass : Keystone World
one_pass = (reconcile_database env inputs asked).0

abbrev steps : Steps World ℕ ℕ ℕ String settled one_pass
steps = then_step (then_step no_step (edits_tag "2024.2")) (reconciles_database env inputs)

Steps-Upgrades_example : Upgrades "2024.1" one_pass.flow.installed_release
Steps-Upgrades_example = Steps-Upgrades steps (idle refl refl)

Steps-IsConsistent_example : IsConsistent (view one_pass)
Steps-IsConsistent_example = Steps-IsConsistent steps (idle refl refl)

reconcile_database-Move_example : Move "2024.2" (view asked) (view one_pass)
reconcile_database-Move_example = reconcile_database-Move env inputs asked

abbrev in_expand : Keystone World
in_expand = record asked { upgrade_phase = expanding; target_release = "2024.2" }

abbrev expand : Job Template
expand = build_expand_job "restricted" in_expand inputs "2024.2"

abbrev expanded_job : Job Template
expanded_job = record (with_key expand expand.template.container.image) {
  conditions = record { type = job_complete; status = status_true; last_transition_time = 9 } ∷ [];
}

abbrev after_expand : Keystone World
after_expand = record in_expand { flow = record flow { cluster = expanded_job ∷ [] } }

expand_finished : IsFinished jobs (expanded_job ∷ []) expand
unfolding IsFinished get_job is_job_complete is_job_failed lookup insert build_expand_job
    build_upgrade_job build_db_job build_job build_migration_job keystone_job_set_params concat
expand_finished = finished (record { complete = refl; not_failed = refl; same_key = refl })

expand_unfinished : ¬ IsFinished jobs [] expand
unfolding IsFinished get_job
expand_unfinished f = not-Finished-err f

reconcile_upgrade_ends_example :
    view (reconcile_upgrade env inputs after_expand).0 ≡ move_to migrating (view after_expand)
unfolding build_expand_job
reconcile_upgrade_ends_example =
    reconcile_upgrade_ends env inputs after_expand expand (move_to migrating) expand_job
      expand_finished

reconcile_upgrade_waits_example : view (reconcile_upgrade env inputs in_expand).0 ≡ view in_expand
unfolding build_expand_job
reconcile_upgrade_waits_example =
    reconcile_upgrade_waits env inputs in_expand expand (move_to migrating) expand_job
      expand_unfinished

abbrev sync_flow : SyncFlowParams ℕ ℕ ℕ
sync_flow = sync_params env inputs settled

reconcile_sync_jobs_iff_example :
    Reports meta meta_laws jobs "restricted"
      (record_db_job_terminal_state env.patch)
      sync_flow
      (reconcile_sync_jobs meta jobs "restricted"
        (record_db_job_terminal_state env.patch)
        sync_flow
        flow).0
    ↔ Verified meta meta_laws jobs "restricted"
        (record_db_job_terminal_state env.patch)
        sync_flow
        flow
reconcile_sync_jobs_iff_example =
    reconcile_sync_jobs_iff meta meta_laws jobs "restricted"
      (record_db_job_terminal_state env.patch) sync_flow flow

abbrev provision_flow : ProvisionFlowParams
provision_flow = provision_params env settled

reconcile_provision_iff_example :
    (stops (reconcile_provision meta mariadb provision_flow flow).1 ≡ false)
    ↔ Provisioned meta mariadb provision_flow []
reconcile_provision_iff_example =
    reconcile_provision_iff meta mariadb provision_flow (λ e. cc e) flow
