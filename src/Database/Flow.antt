-- ===== src/Database/Flow.antt =====
-- What a pass over a CR reads and writes on its way: the status conditions, the events that it
-- emits, the cluster, the CR's own annotations, the metrics, and the installed release.
use c5c3_forge.Prelude.{ℕ, List, [], ◌∷◌, ◌++◌, String}
use c5c3_forge.Kube.Condition.{Condition, ConditionMeta, Status}
use c5c3_forge.Conditions.{set_condition}
use c5c3_forge.Job.Terminal.{Owner, Emission}

pub data EventType : Type 0 where
  normal warning : EventType

-- A Kubernetes event.
pub record Event : Type 0 where
  pub type : EventType
  pub reason : String
  pub message : String

pub record Flow (W : Type 0) : Type 0 where
  pub conditions : List Condition
  pub events : List Event
  pub cluster : W
  pub owner : Owner
  pub metrics : List Emission
  pub installed_release : String

abbrev pub condition : String → ℕ → Status → String → String → Condition
condition type generation status reason message = record {
  type = type;
  status = status;
  observed_generation = generation;
  last_transition_time = 0;
  reason = reason;
  message = message;
}

module _ {W : Type 0} where
  -- recorder.Event. Events are kept in the order of emission.
  abbrev pub emit : EventType → String → String → Flow W → Flow W
  emit type reason message f = record f {
    events = f.events ++ record { type = type; reason = reason; message = message } ∷ [];
  }

  abbrev pub set_flow_condition : ConditionMeta → Condition → Flow W → Flow W
  set_flow_condition m c f = record f { conditions = set_condition m f.conditions c }

  abbrev pub with_cluster : W → Flow W → Flow W
  with_cluster w f = record f { cluster = w }
