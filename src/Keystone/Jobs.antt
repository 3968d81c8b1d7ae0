-- ===== src/Keystone/Jobs.antt =====
-- operators/keystone/internal/controller/database_jobs.go: the Jobs that migrate the schema.
use Prim.Native.String.{◌++◌ as str_append}
use c5c3_forge.Prelude.{List, [], ◌∷◌, ◌++◌, String, Option, none, some}
use c5c3_forge.Kube.Text.{concat}
use c5c3_forge.Job.{Job}
use c5c3_forge.Job.Migration.{PodTemplate, Volume, VolumeMount}
use c5c3_forge.Database.Jobs.{image_reference, JobSetParams, build_job}
use c5c3_forge.Keystone.State.{Keystone, JobInputs}

-- The image of the CR.
abbrev pub reference : {W : Type 0} → Keystone W → String
reference k = image_reference (record { repository = k.repository; tag = k.tag; digest = k.digest })

module _ {V M : Type 0} where
  abbrev volume_of : Option (Volume V × VolumeMount M) → List (Volume V)
  volume_of none = []
  volume_of (some (v, m)) = v ∷ []

  abbrev mount_of : Option (Volume V × VolumeMount M) → List (VolumeMount M)
  mount_of none = []
  mount_of (some (v, m)) = m ∷ []

module _ {W V M E : Type 0} where
  -- keystoneJobSetParams.
  unfoldable pub keystone_job_set_params : Keystone W → JobInputs V M E → JobSetParams V M E
  keystone_job_set_params k inputs = record {
    instance_name = k.name;
    namespace = k.namespace;
    image = reference k;
    config_map_name = inputs.config_map_name;
    config_mount_path = "/etc/keystone/keystone.conf.d/";
    env = inputs.connection_env ∷ [];
    extra_volumes = volume_of inputs.db_tls ++ volume_of inputs.domains;
    extra_volume_mounts = mount_of inputs.db_tls ++ mount_of inputs.domains;
    priority_class_name = inputs.priority_class_name;
    sync_command =
        "keystone-manage" ∷ "--config-dir=/etc/keystone/keystone.conf.d/" ∷ "db_sync" ∷ [];
    schema_check_command = some (
        "/bin/sh" ∷ "-eu" ∷ "-c"
        ∷ "keystone-manage --config-dir=/etc/keystone/keystone.conf.d/ db_sync --check" ∷ []);
  }

  module _ {C : Type 0} (restricted : C) where
    -- buildDBJob.
    unfoldable pub build_db_job :
        Keystone W → JobInputs V M E → String → String → List String → Job (PodTemplate V M E C)
    unfolding build_job keystone_job_set_params
    build_db_job k inputs image name_suffix command =
        build_job restricted (keystone_job_set_params k inputs) image name_suffix command 4

    -- buildUpgradeJob.
    unfoldable pub build_upgrade_job :
        Keystone W → JobInputs V M E → String → String → String → Job (PodTemplate V M E C)
    unfolding build_db_job
    build_upgrade_job k inputs image_tag phase flag =
        build_db_job k inputs (str_append k.repository (str_append ":" image_tag))
          (concat ("db-" ∷ phase ∷ []))
          ("keystone-manage" ∷ "--config-dir=/etc/keystone/keystone.conf.d/" ∷ "db_sync" ∷ flag
            ∷ [])

    -- buildExpandJob, buildMigrateJob and buildContractJob.
    unfoldable pub build_expand_job :
        Keystone W → JobInputs V M E → String → Job (PodTemplate V M E C)
    unfolding build_upgrade_job
    build_expand_job k inputs image_tag = build_upgrade_job k inputs image_tag "expand" "--expand"

    unfoldable pub build_migrate_job :
        Keystone W → JobInputs V M E → String → Job (PodTemplate V M E C)
    unfolding build_upgrade_job
    build_migrate_job k inputs image_tag =
        build_upgrade_job k inputs image_tag "migrate" "--migrate"

    unfoldable pub build_contract_job :
        Keystone W → JobInputs V M E → String → Job (PodTemplate V M E C)
    unfolding build_upgrade_job
    build_contract_job k inputs image_tag =
        build_upgrade_job k inputs image_tag "contract" "--contract"
