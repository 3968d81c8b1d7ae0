-- ===== src/Job/Migration.antt =====
-- internal/common/job/migration.go: the shared skeleton of a migration Job. `V`, `M`, `E` and `C`
-- are the Kubernetes types of a volume's source, of what a volume mount holds besides its name,
-- path and read-only mark, of an environment variable, and of a container's security context.
use c5c3_forge.Prelude.{ℕ, Bool, true, List, [], ◌∷◌, String, Option, none}
use c5c3_forge.Job.{Job}

pub data VolumeSource (V : Type 0) : Type 0 where
  config_map : String → VolumeSource V
  other_source : V → VolumeSource V

pub record Volume (V : Type 0) : Type 0 where
  pub name : String
  pub source : VolumeSource V

pub record VolumeMount (M : Type 0) : Type 0 where
  pub name : String
  pub mount_path : String
  pub read_only : Bool
  pub rest : Option M

pub record Container (M E C : Type 0) : Type 0 where
  pub name : String
  pub image : String
  pub command : List String
  pub security_context : Option C
  pub env : List E
  pub volume_mounts : List (VolumeMount M)

-- The pod template, of which the skeleton sets these fields.
pub record PodTemplate (V M E C : Type 0) : Type 0 where
  pub restart_policy : String
  pub priority_class_name : String
  pub container : Container M E C
  pub volumes : List (Volume V)

-- MigrationJobParams.
pub record MigrationJobParams (V M E C : Type 0) : Type 0 where
  pub name : String
  pub namespace : String
  pub labels : List (String × String)
  pub image : String
  pub container_name : String
  pub command : List String
  pub config_map_name : String
  pub config_mount_path : String
  pub env : List E
  pub extra_volumes : List (Volume V)
  pub extra_volume_mounts : List (VolumeMount M)
  pub priority_class_name : String
  pub backoff_limit : ℕ
  pub ttl_seconds_after_finished : Option ℕ
  pub security_context : Option C

module _ {V M E C : Type 0} where
  -- BuildMigrationJob. Appending an empty slice of extras changes nothing.
  unfoldable pub build_migration_job : MigrationJobParams V M E C → Job (PodTemplate V M E C)
  build_migration_job p = record {
    name = p.name;
    namespace = p.namespace;
    labels = p.labels;
    annotations = [];
    backoff_limit = p.backoff_limit;
    ttl_seconds_after_finished = p.ttl_seconds_after_finished;
    template = record {
      restart_policy = "Never";
      priority_class_name = p.priority_class_name;
      container = record {
        name = p.container_name;
        image = p.image;
        command = p.command;
        security_context = p.security_context;
        env = p.env;
        volume_mounts =
            record {
              name = "config";
              mount_path = p.config_mount_path;
              read_only = true;
              rest = none;
            }
            ∷ p.extra_volume_mounts;
      };
      volumes = record { name = "config"; source = config_map p.config_map_name } ∷ p.extra_volumes;
    };
    conditions = [];
    uid = "";
    creation_timestamp = 0;
  }
