-- ===== src/Glance.antt =====
-- operators/glance/internal/controller/reconcile_database.go: one pass over the database of a
-- Glance CR, a second client of the shared database flow. Its schema migrates in one Job.
pub mod Laws
use c5c3_forge.Prelude.{
  ℕ, Bool, true, false, not, ◌&&◌, List, [], ◌∷◌, String, Option, none, some, str_eq, if◌then◌else◌,
}
use c5c3_forge.Kube.Text.{concat, quote}
use c5c3_forge.Kube.Error.{Answer, ok, err, message}
use c5c3_forge.Kube.Condition.{ConditionMeta, Status, status_false}
use c5c3_forge.Kube.Outcome.{Outcome, returns, requeue_in, stops}
use c5c3_forge.Release.{Release, parse_release, is_sequential_upgrade, is_downgrade, is_patch_only}
use c5c3_forge.Job.{Job}
use c5c3_forge.Database.Flow.{Flow, warning, condition, set_flow_condition, emit}
use c5c3_forge.Database.Jobs.{ImageSpec, image_reference, JobSetParams}
use c5c3_forge.Database.Provision.{DatabaseSpec, ProvisionFlowParams, reconcile_provision}
use c5c3_forge.Database.Sync.{SyncFlowParams, RecordTerminal, reconcile_sync_jobs}
use c5c3_forge.Keystone.State.{Env, requeue_database_wait, record_db_job_terminal_state}

-- The Glance CR, as far as this step reads and writes it.
pub record Glance (W : Type 0) : Type 0 where
  pub flow : Flow W
  pub name : String
  pub namespace : String
  pub generation : ℕ
  pub image : ImageSpec
  pub openstack_release : String
  pub database : DatabaseSpec
  pub target_release : String

module _ {W V M E C : Type 0} (env : Env W V M E C) where
  -- glanceJobSetParams, with the connection variable.
  abbrev pub glance_job_set_params : E → Glance W → String → JobSetParams V M E
  glance_job_set_params connection_env g config_map_name = record {
    instance_name = g.name;
    namespace = g.namespace;
    image = image_reference g.image;
    config_map_name = config_map_name;
    config_mount_path = "/etc/glance/glance-api.conf.d/";
    env = connection_env ∷ [];
    extra_volumes = [];
    extra_volume_mounts = [];
    priority_class_name = "";
    sync_command =
        "glance-manage" ∷ "--config-dir" ∷ "/etc/glance/glance-api.conf.d/" ∷ "db" ∷ "sync" ∷ [];
    schema_check_command = none;
  }

  -- The condition DatabaseReady, set to False.
  abbrev database_holds : String → String → Glance W → Glance W
  database_holds reason msg g = record g {
    flow =
        set_flow_condition env.meta (condition "DatabaseReady" g.generation status_false reason msg)
          g.flow;
  }

  -- rejectReleaseTransition.
  abbrev pub reject_release_transition : Glance W → String → Glance W × Outcome
  reject_release_transition g msg =
      let g' = database_holds "InvalidReleaseTransition" msg g in
      (
        record g' { flow = emit warning "InvalidReleaseTransition" msg g'.flow },
        returns (requeue_in requeue_database_wait),
      )

  -- Why a transition is rejected, for the two parsed tags.
  abbrev pub release_problem : String → String → Answer Release → Answer Release → Option String
  release_problem installed target (err e) to =
      some (concat ("cannot parse installed release " ∷ quote installed ∷ ": " ∷ message e ∷ []))
  release_problem installed target (ok from) (err e) =
      some (concat ("cannot parse target release " ∷ quote target ∷ ": " ∷ message e ∷ []))
  release_problem installed target (ok from) (ok to) =
      if is_downgrade from to
      then some (concat ("downgrade from " ∷ from.raw ∷ " to " ∷ to.raw ∷ " is not supported" ∷ []))
      else if not (is_patch_only from to) && not (is_sequential_upgrade from to)
      then some (
          concat (
            "release transition from " ∷ from.raw ∷ " to " ∷ to.raw
            ∷ " is not supported: only a patch-level change or a single sequential upgrade is allowed"
            ∷ []))
      else none

  unfoldable pub transition_problem : String → String → Option String
  transition_problem installed target =
      if not (str_eq installed "") && not (str_eq installed target)
      then release_problem installed target (parse_release installed) (parse_release target)
      else none

  -- The glance operator's recordDBJobTerminalState.
  abbrev pub record_glance_job : {T : Type 0} → String → Option (Job T) → Flow W → Flow W
  record_glance_job = record_db_job_terminal_state env.patch

  abbrev pub glance_sync_params : E → Glance W → String → SyncFlowParams V M E
  glance_sync_params connection_env g config_map_name = record {
    jobs = glance_job_set_params connection_env g config_map_name;
    has_recorder = true;
    generation = g.generation;
    condition_type = "DatabaseReady";
    requeue_after = requeue_database_wait;
    tracks_release = true;
    image_tag = g.openstack_release;
  }

  abbrev keep_glance_flow : Glance W → Flow W × Outcome → Glance W × Outcome
  keep_glance_flow g (f, o) = (record g { flow = f }, o)

  abbrev pub by_config : E → String → Glance W → Glance W × Outcome
  by_config connection_env config_map_name g =
      if str_eq config_map_name ""
      then (
        database_holds "WaitingForBackends"
            "Waiting for a ready default backend before provisioning the database schema" g,
        returns (requeue_in requeue_database_wait),
      )
      else keep_glance_flow g (
          reconcile_sync_jobs env.meta env.jobs env.restricted record_glance_job
            (glance_sync_params connection_env g config_map_name) g.flow)

  abbrev pub by_transition : E → String → Option String → Glance W → Glance W × Outcome
  by_transition connection_env config_map_name (some msg) g = reject_release_transition g msg
  by_transition connection_env config_map_name none g = by_config connection_env config_map_name g

  abbrev pub glance_provision_params : Glance W → ProvisionFlowParams
  glance_provision_params g = record {
    instance_name = g.name;
    namespace = g.namespace;
    labels = [];
    database = g.database;
    generation = g.generation;
    condition_type = "DatabaseReady";
    requeue_after = requeue_database_wait;
  }

  abbrev pub after_glance_provision : E → String → Glance W → Flow W × Outcome → Glance W × Outcome
  after_glance_provision connection_env config_map_name g (f, o) =
      if stops o
      then (record g { flow = f }, o)
      else by_transition connection_env config_map_name
          (transition_problem f.installed_release g.openstack_release)
          (record g { flow = f; target_release = g.openstack_release })

  -- reconcileDatabase.
  unfoldable pub reconcile_glance_database : E → Glance W → String → Glance W × Outcome
  reconcile_glance_database connection_env g config_map_name =
      after_glance_provision connection_env config_map_name g
        (reconcile_provision env.meta env.mariadb (glance_provision_params g) g.flow)
