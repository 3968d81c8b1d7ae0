-- ===== src/Conditions.antt =====
-- internal/common/conditions: the helpers on status.conditions.
pub mod Laws
use c5c3_forge.Prelude.{Bool, true, false, Option, none, some, List, [], ◌∷◌, String}
use c5c3_forge.Kube.Condition.{Condition, ConditionMeta, is_true}

-- c != nil && c.Status == metav1.ConditionTrue.
abbrev pub holds : Option Condition → Bool
holds none = false
holds (some c) = is_true c.status

module _ (m : ConditionMeta) where
  -- SetCondition.
  abbrev pub set_condition : List Condition → Condition → List Condition
  set_condition = m.set_status_condition

  -- GetCondition.
  abbrev pub get_condition : List Condition → String → Option Condition
  get_condition = m.find_status_condition

  -- IsReady.
  unfoldable pub is_ready : List Condition → Bool
  is_ready conditions = holds (m.find_status_condition conditions "Ready")

  -- AllTrue.
  unfoldable pub all_true : List Condition → List String → Bool
  all_true conditions [] = true
  all_true conditions (ct ∷ types) =
      let rest = all_true conditions types in
      elim (holds (m.find_status_condition conditions ct)) [ true ↦ rest | false ↦ false ]
