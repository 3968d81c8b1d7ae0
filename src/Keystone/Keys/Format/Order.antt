-- ===== src/Keystone/Keys/Format/Order.antt =====
-- operators/keystone/internal/controller/rotation_validation.go: the sorted list of the keys.
use c5c3_forge.Prelude.{
  ◌≡◌, refl, sym, ap, ◌∙◌, inl, inr, Bool, true, false, ◌||◌, List, [], ◌∷◌, String, Bool-cases,
  str_eq, str_eq-cases, has, Distinct, str_eq_ne,
}
use c5c3_forge.Keystone.Keys.Format.{precedes, place, sorted}

swap : (a b c : Bool) → (a || (b || c)) ≡ (b || (a || c))
swap true true c = refl
swap true false c = refl
swap false true c = refl
swap false false c = refl

has-place : (x s : String) (ts : List String) → has x (place s ts) ≡ (str_eq x s || has x ts)
unfolding place has
has-place x s [] = refl
has-place x s (t ∷ ts) = elim (Bool-cases (precedes s t)) [
  | inl e ↦ rw e refl
  | inr e ↦
      rw e
        (ap (λ b. str_eq x t || b) (has-place x s ts) ∙ swap (str_eq x t) (str_eq x s) (has x ts))
]

pub has-sorted : (x : String) (ss : List String) → has x (sorted ss) ≡ has x ss
unfolding sorted has
has-sorted x [] = refl
has-sorted x (s ∷ ss) = has-place x s (sorted ss) ∙ ap (λ b. str_eq x s || b) (has-sorted x ss)

str_eq_sym : (s t : String) → str_eq s t ≡ str_eq t s
str_eq_sym s t = elim (str_eq-cases s t) [
  | inl (e, p) ↦ rw p refl
  | inr (e, ne) ↦ rw (e, str_eq_ne (λ p. ne (sym p))) refl
]

place-Distinct :
    (s : String) (ts : List String) → has s ts ≡ false → Distinct ts → Distinct (place s ts)
unfolding place has
place-Distinct s [] h d = (h, d)
place-Distinct s (t ∷ ts) h (fresh, d) = elim (Bool-cases (precedes s t)) [
  | inl e ↦ rw e (h, (fresh, d))
  | inr e ↦ elim (Bool-cases (str_eq s t)) [
    | inl q ↦ cc (rw q at h)
    | inr q ↦
        rw e (has-place t s ts ∙ rw (str_eq_sym t s, q) fresh, place-Distinct s ts (rw q at h) d)
  ]
]

pub sorted-Distinct : (ss : List String) → Distinct ss → Distinct (sorted ss)
unfolding sorted
sorted-Distinct [] d = d
sorted-Distinct (s ∷ ss) (fresh, d) =
    place-Distinct s (sorted ss) (has-sorted s ss ∙ fresh) (sorted-Distinct ss d)
