-- ===== src/Examples/Conditions.antt =====
-- A list of conditions with an upsert, as the condition helpers keep it.
use c5c3_forge.Prelude.{
  ℕ, ◌≡◌, ◌≢◌, refl, sym, ap, ◌∙◌, inl, inr, Bool, true, false, List, [], ◌∷◌, String, Option, none,
  some, arith, str_eq, str_eq-cases, str_eq_ne, eq_iff, if◌then◌else◌,
}
use c5c3_forge.Kube.Condition.{
  Condition, ConditionMeta, ConditionLaws, Status, status_true, status_false, status_unknown,
  Agrees,
}
use c5c3_forge.Reconcile.Parallel.{ConditionsOf}
use c5c3_forge.Reconcile.Parallel.Laws.{ConditionsOfLaws}

-- Two texts that the Boolean test tells apart.
pub differs : {s t : String} → str_eq s t ≡ false → s ≢ t
differs {s} {t} h e = ground (arith, eq_iff s t)

abbrev pub same_status : Status → Status → Bool
same_status status_true status_true = true
same_status status_false status_false = true
same_status status_unknown status_unknown = true
same_status _ _ = false

pub same_status_refl : (s : Status) → same_status s s ≡ true
same_status_refl status_true = refl
same_status_refl status_false = refl
same_status_refl status_unknown = refl

unfoldable pub find : List Condition → String → Option Condition
find [] t = none
find (c ∷ cs) t = let rest = find cs t in if str_eq t c.type then some c else rest

unfoldable pub put : List Condition → Condition → List Condition
put [] c = c ∷ []
put (d ∷ ds) c = let rest = put ds c in if str_eq c.type d.type then c ∷ ds else d ∷ rest

abbrev time_of : Option Condition → Condition → ℕ
time_of none c = 1
time_of (some d) c = if same_status d.status c.status then d.last_transition_time else 1

abbrev pub time_in : List Condition → Condition → ℕ
time_in cs c = time_of (find cs c.type) c

abbrev pub meta : ConditionMeta
meta = record {
  find_status_condition = find;
  set_status_condition = λ cs c. put cs (record c { last_transition_time = time_in cs c });
  transition_time = time_in;
}

pub find-nil : (t : String) → find [] t ≡ none
unfolding find
find-nil t = refl

pub find-type : (cs : List Condition) (t : String) {c : Condition} → find cs t ≡ some c → c.type ≡ t
unfolding find
find-type [] t h = cc
find-type (d ∷ ds) t {c} h = elim (str_eq-cases t d.type) [
  | inl (e, q) ↦ cc ((rw e at h), q)
  | inr (e, _) ↦ find-type ds t (rw e at h)
]

pub find-put :
    (cs : List Condition) (c : Condition) (t : String)
    → find (put cs c) t ≡ (if str_eq t c.type then some c else find cs t)
unfolding find put
find-put [] c t = refl
find-put (d ∷ ds) c t = elim (str_eq-cases c.type d.type) [
  | inl (e, q) ↦ rw (e, q) (ground arith)
  | inr (e, q) ↦ elim (str_eq-cases t d.type) [
    | inl (k, r) ↦ rw (e, k, str_eq_ne (λ p. q (sym p ∙ r))) refl
    | inr (k, r) ↦ rw (e, k) (find-put ds c t)
  ]
]

put_same : (cs : List Condition) (c : Condition) → find cs c.type ≡ some c → put cs c ≡ cs
unfolding find put
put_same [] c h = cc
put_same (d ∷ ds) c h = elim (str_eq-cases c.type d.type) [
  | inl (e, q) ↦ rw e (cc (rw e at h))
  | inr (e, q) ↦ rw e (ap (λ r. d ∷ r) (put_same ds c (rw e at h)))
]

pub set_agreeing :
    (cs : List Condition) (c d : Condition)
    → find cs c.type ≡ some d
    → Agrees c d
    → put cs (record c { last_transition_time = time_in cs c }) ≡ cs
set_agreeing cs c d h a =
    let same : record c { last_transition_time = time_in cs c } ≡ d =
      rw
        (h, a.type, a.status, a.observed_generation, a.reason, a.message, same_status_refl d.status)
        refl in
    rw same (put_same cs d (rw a.type at h))

abbrev pub meta_laws : ConditionLaws meta
meta_laws = record {
  find-nil = find-nil;
  find_type = find-type;
  find-set = λ cs c t. find-put cs (record c { last_transition_time = time_in cs c }) t;
  set_agreeing = set_agreeing;
}

-- A CR that is its conditions.
abbrev pub own_conditions : ConditionsOf (List Condition)
own_conditions = record { read = λ cs. cs; write = λ cs ds. ds }

abbrev pub own_conditions_laws : ConditionsOfLaws own_conditions
own_conditions_laws = record { read-write = λ cr cs. refl; write-read = λ cr. refl }

abbrev pub cond : String → Status → Condition
cond type status = record {
  type = type;
  status = status;
  observed_generation = 1;
  last_transition_time = 0;
  reason = "R";
  message = "m";
}
