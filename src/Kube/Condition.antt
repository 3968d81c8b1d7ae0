-- ===== src/Kube/Condition.antt =====
-- metav1.Condition, and the interface of apimachinery's meta.SetStatusCondition and
-- meta.FindStatusCondition, which are not part of the repository.
use c5c3_forge.Prelude.{
  ℕ, ◌≡◌, Bool, true, false, Option, none, some, List, [], String, str_eq, if◌then◌else◌,
}

pub data Status : Type 0 where
  status_true status_false status_unknown : Status

-- Times are counted from the zero time; generations are not negative.
pub record Condition : Type 0 where
  pub type : String
  pub status : Status
  pub observed_generation : ℕ
  pub last_transition_time : ℕ
  pub reason : String
  pub message : String

abbrev pub is_true : Status → Bool
is_true status_true = true
is_true status_false = false
is_true status_unknown = false

-- The two conditions say the same, but for the time of the transition.
pub record Agrees (c d : Condition) : Type 0 where
  pub type : c.type ≡ d.type
  pub status : c.status ≡ d.status
  pub observed_generation : c.observed_generation ≡ d.observed_generation
  pub reason : c.reason ≡ d.reason
  pub message : c.message ≡ d.message

-- The condition helpers, in one pass: the clock is read by `transition_time`.
pub record ConditionMeta : Type 0 where
  pub find_status_condition : List Condition → String → Option Condition
  pub set_status_condition : List Condition → Condition → List Condition
  pub transition_time : List Condition → Condition → ℕ

-- Their documented behaviour: an upsert sets the condition of its type, stamps its transition
-- time, and leaves the others; it changes nothing where the stored condition already agrees.
pub record ConditionLaws (m : ConditionMeta) : Type 0 where
  pub find-nil : (t : String) → m.find_status_condition [] t ≡ none
  pub find_type :
      (cs : List Condition) (t : String) {c : Condition}
      → m.find_status_condition cs t ≡ some c
      → c.type ≡ t
  pub find-set :
      (cs : List Condition) (c : Condition) (t : String)
      → m.find_status_condition (m.set_status_condition cs c) t ≡ (
          if str_eq t c.type
          then some (record c { last_transition_time = m.transition_time cs c })
          else m.find_status_condition cs t)
  pub set_agreeing :
      (cs : List Condition) (c d : Condition)
      → m.find_status_condition cs c.type ≡ some d
      → Agrees c d
      → m.set_status_condition cs c ≡ cs
