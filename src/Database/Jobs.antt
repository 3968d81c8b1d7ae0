-- ===== src/Database/Jobs.antt =====
-- internal/common/database/jobs.go: the Jobs of a service's database.
use Prim.Native.String.{◌++◌ as str_append}
use c5c3_forge.Prelude.{ℕ, List, [], String, Option, none, some, not, str_eq, if◌then◌else◌}
use c5c3_forge.Job.{Job}
use c5c3_forge.Job.Migration.{Volume, VolumeMount, PodTemplate, build_migration_job}

-- JobSetParams. A nil SchemaCheckCommand is `none`.
pub record JobSetParams (V M E : Type 0) : Type 0 where
  pub instance_name : String
  pub namespace : String
  pub image : String
  pub config_map_name : String
  pub config_mount_path : String
  pub env : List E
  pub extra_volumes : List (Volume V)
  pub extra_volume_mounts : List (VolumeMount M)
  pub priority_class_name : String
  pub sync_command : List String
  pub schema_check_command : Option (List String)

-- ImageSpec.
pub record ImageSpec : Type 0 where
  pub repository : String
  pub tag : String
  pub digest : String

-- ImageSpec.Reference.
abbrev pub image_reference : ImageSpec → String
image_reference i =
    if not (str_eq i.digest "")
    then str_append i.repository (str_append "@" i.digest)
    else str_append i.repository (str_append ":" i.tag)

-- `restricted` is deployment.RestrictedSecurityContext().
module _ {V M E C : Type 0} (restricted : C) where
  -- BuildJob.
  unfoldable pub build_job :
      JobSetParams V M E → String → String → List String → ℕ → Job (PodTemplate V M E C)
  unfolding build_migration_job
  build_job p image name_suffix command backoff_limit = build_migration_job (record {
    name = str_append p.instance_name (str_append "-" name_suffix);
    namespace = p.namespace;
    labels = [];
    image = image;
    container_name = name_suffix;
    command = command;
    config_map_name = p.config_map_name;
    config_mount_path = p.config_mount_path;
    env = p.env;
    extra_volumes = p.extra_volumes;
    extra_volume_mounts = p.extra_volume_mounts;
    priority_class_name = p.priority_class_name;
    backoff_limit = backoff_limit;
    ttl_seconds_after_finished = none;
    security_context = some restricted;
  })

  -- SyncJob.
  unfoldable pub sync_job : JobSetParams V M E → Job (PodTemplate V M E C)
  unfolding build_job
  sync_job p = build_job p p.image "db-sync" p.sync_command 4

  -- SchemaCheckJob, at a command that is not nil.
  unfoldable pub schema_check_job : JobSetParams V M E → List String → Job (PodTemplate V M E C)
  unfolding build_job
  schema_check_job p command = build_job p p.image "schema-check" command 2
