-- ===== src/ControlPlane/Pass.antt =====
-- What a deletion pass over a ControlPlane reads and writes
-- (operators/c5c3/internal/controller/reconcile_delete.go and requeue_intervals.go).
use c5c3_forge.Prelude.{Bool, List, [], ◌∷◌, ◌++◌, String, ℤ, pos, lt_int}
use c5c3_forge.Kube.Condition.{Condition, ConditionMeta, status_false}
use c5c3_forge.Conditions.{set_condition}
use c5c3_forge.Database.Flow.{EventType, Event, condition}
use c5c3_forge.ControlPlane.State.{ControlPlane}
use c5c3_forge.ControlPlane.Cluster.{Client}
use c5c3_forge.ControlPlane.Names.{SlugTools}

-- The reconciler's clients, and time.Since(cp.DeletionTimestamp.Time), which a pass reads once.
pub record Tools (W : Type 0) : Type 0 where
  pub client : Client W
  pub meta : ConditionMeta
  pub slug : SlugTools
  pub elapsed : ℤ

pub record Pass (W : Type 0) : Type 0 where
  pub cp : ControlPlane
  pub finalizers : List String
  pub conditions : List Condition
  pub events : List Event
  pub cluster : W

-- orcTeardownStallTimeout, korcRequeueAfter and namespaceRequeueAfter.
abbrev pub orc_teardown_stall_timeout : ℤ
orc_teardown_stall_timeout = pos 300_000_000_000

abbrev pub korc_requeue_after : ℤ
korc_requeue_after = pos 10_000_000_000

abbrev pub namespace_requeue_after : ℤ
namespace_requeue_after = pos 15_000_000_000

-- controlPlaneORCFinalizer.
abbrev pub control_plane_orc_finalizer : String
control_plane_orc_finalizer = "c5c3.io/orc-teardown"

-- time.Since(cp.DeletionTimestamp.Time) > orcTeardownStallTimeout.
abbrev pub is_stalled : {W : Type 0} → Tools W → Bool
is_stalled tools = lt_int orc_teardown_stall_timeout tools.elapsed

module _ {W : Type 0} where
  abbrev pub with_objects : W → Pass W → Pass W
  with_objects w p = record p { cluster = w }

  -- r.Recorder.Event.
  abbrev pub announce : EventType → String → String → Pass W → Pass W
  announce type reason message p = record p {
    events = p.events ++ record { type = type; reason = reason; message = message } ∷ [];
  }

  -- conditions.SetCondition, to False.
  abbrev pub holds_back : ConditionMeta → String → String → String → Pass W → Pass W
  holds_back m type reason message p = record p {
    conditions =
        set_condition m p.conditions (condition type p.cp.generation status_false reason message);
  }
