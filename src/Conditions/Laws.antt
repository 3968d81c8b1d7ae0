-- ===== src/Conditions/Laws.antt =====
-- internal/common/conditions: reading a condition behind a write, and AllTrue.
use c5c3_forge.Prelude.{
  ◌≡◌, ◌≢◌, refl, ◌↔◌, true, some, List, [], ◌∷◌, String, str_eq_ne, eq_refl, arith, All,
}
use c5c3_forge.Kube.Condition.{Condition, ConditionMeta, ConditionLaws, Status, is_true}
use c5c3_forge.Conditions.{holds, set_condition, get_condition, all_true}

module _ (m : ConditionMeta) (laws : ConditionLaws m) where
  pub get-set_self :
      (cs : List Condition) (c : Condition)
      → get_condition m (set_condition m cs c) c.type
        ≡ some (record c { last_transition_time = m.transition_time cs c })
  get-set_self cs c = rw (laws.find-set cs c c.type, eq_refl c.type)

  pub get-set_ne :
      (cs : List Condition) (c : Condition) (t : String)
      → t ≢ c.type
      → get_condition m (set_condition m cs c) t ≡ get_condition m cs t
  get-set_ne cs c t h = rw (laws.find-set cs c t, str_eq_ne h)

  pub holds-set_self :
      (cs : List Condition) (c : Condition)
      → holds (get_condition m (set_condition m cs c) c.type) ≡ is_true c.status
  holds-set_self cs c = rw get-set_self

-- The condition of type `t` is there, with this status.
pub record HasStatus (m : ConditionMeta) (cs : List Condition) (t : String) (status : Status)
    : Type 0 where
  pub found : Condition
  pub there : get_condition m cs t ≡ some found
  pub reported : found.status ≡ status

pub set_condition-HasStatus :
    (m : ConditionMeta) (laws : ConditionLaws m) (cs : List Condition) (c : Condition)
    → HasStatus m (set_condition m cs c) c.type c.status
set_condition-HasStatus m laws cs c = record {
  found = _;
  there = get-set_self m laws cs c;
  reported = refl;
}

-- The condition of type `t` is there and is true.
abbrev pub IsTrue : ConditionMeta → List Condition → String → Type 0
IsTrue m cs t = holds (get_condition m cs t) ≡ true

-- AllTrue answers true exactly where every one of the types has a condition with status True.
pub all_true_iff :
    (m : ConditionMeta) (cs : List Condition) (types : List String)
    → (all_true m cs types ≡ true) ↔ All (IsTrue m cs) types
unfolding all_true
all_true_iff m cs [] = (λ _. tt, λ _. refl)
all_true_iff m cs (t ∷ types) = (
  λ h. ground (arith, (all_true_iff m cs types).0),
  λ h. ground (arith, (all_true_iff m cs types).1 h.1),
)

-- Setting the condition of another type does not change the answer of AllTrue.
pub all_true-set :
    (m : ConditionMeta) (laws : ConditionLaws m) (cs : List Condition) (c : Condition)
    (types : List String)
    → All (λ t. t ≢ c.type) types
    → all_true m (set_condition m cs c) types ≡ all_true m cs types
unfolding all_true
all_true-set m laws cs c [] h = refl
all_true-set m laws cs c (t ∷ types) h =
    ground (arith, get-set_ne m laws cs c t h.0, all_true-set m laws cs c types h.1)
