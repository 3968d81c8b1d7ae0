-- ===== src/Prelude/Lists.antt =====
-- Lists: predicates on every entry, and Go maps with string keys as association lists.
use Prim.Native.Nat.{ℕ, zero, suc}
use Prim.Native.String.{String}
use mathlib.Core.Path.{◌≡◌, refl, sym, ap, ◌∙◌}
use mathlib.Core.Bool.{Bool, true, false, ◌||◌}
use mathlib.Core.Logic.{◌⊎◌, inl, inr}
use mathlib.Core.Option.{Option, none, some}
use mathlib.Core.List.{List, [], ◌∷◌, ◌++◌, map}
use native.Mathlib.Omega.{arith}
use c5c3_forge.Prelude.Tests.{str_eq, str_eq-cases, str_eq_ne, if◌then◌else◌}

module _ {ℓ κ} {A : Type ℓ} (P : A → Type κ) where
  abbrev pub All : List A → Type κ
  All [] = Unit
  All (x ∷ xs) = P x × All xs

module _ {A : Type 0} where
  -- The element is in the list.
  abbrev pub Member : A → List A → Type 0
  Member x [] = ⊥
  Member x (y ∷ ys) = (x ≡ y) ⊎ Member x ys

  pub append-Member_left : (x : A) (xs ys : List A) → Member x xs → Member x (xs ++ ys)
  append-Member_left x [] ys h = absurd h
  append-Member_left x (z ∷ xs) ys (inl e) = inl e
  append-Member_left x (z ∷ xs) ys (inr h) = inr (append-Member_left x xs ys h)

  pub append-Member_right : (x : A) (xs ys : List A) → Member x ys → Member x (xs ++ ys)
  append-Member_right x [] ys h = h
  append-Member_right x (z ∷ xs) ys h = inr (append-Member_right x xs ys h)

pub map-Member :
    {A B : Type 0} (f : A → B) (x : A) (xs : List A) → Member x xs → Member (f x) (map f xs)
map-Member f x [] h = absurd h
map-Member f x (y ∷ ys) (inl e) = inl (ap f e)
map-Member f x (y ∷ ys) (inr h) = inr (map-Member f x ys h)

-- slices.Contains, and the test for a key of a Go map that is kept as the list of its keys.
unfoldable pub has : String → List String → Bool
has x [] = false
has x (y ∷ ys) = str_eq x y || has x ys

-- No two of the texts are equal.
abbrev pub Distinct : List String → Type 0
Distinct [] = Unit
Distinct (k ∷ ks) = (has k ks ≡ false) × Distinct ks

-- Go's len of a slice.
unfoldable pub length {ℓ} : {A : Type ℓ} → List A → ℕ
length [] = zero
length (x ∷ xs) = suc (length xs)

module _ {ℓ} {V : Type ℓ} where
  -- An entry's value where it is the entry that is asked for, else what the others hold.
  abbrev pub or_others : Bool → V → Option V → Option V
  or_others true value others = some value
  or_others false value others = others

  -- Reading a Go map, with `none` for a missing key.
  unfoldable pub lookup : String → List (String × V) → Option V
  lookup key [] = none
  lookup key (entry ∷ entries) = or_others (str_eq entry.0 key) entry.1 (lookup key entries)

  -- Assigning to a key of a Go map.
  unfoldable pub insert : String → V → List (String × V) → List (String × V)
  insert key value [] = (key, value) ∷ []
  insert key value (entry ∷ entries) =
      let others = insert key value entries in
      if str_eq entry.0 key then (key, value) ∷ entries else entry ∷ others

  pub lookup-insert :
      (key other : String) (value : V) (entries : List (String × V))
      → lookup other (insert key value entries)
        ≡ or_others (str_eq key other) value (lookup other entries)
  unfolding lookup insert
  lookup-insert key other value [] = refl
  lookup-insert key other value (entry ∷ entries) = elim (str_eq-cases entry.0 key) [
    | inl (same, e) ↦ rw (same, e) (ground arith)
    | inr (same, ne) ↦ elim (str_eq-cases entry.0 other) [
      | inl (hit, e) ↦ rw (same, hit, str_eq_ne (λ p. ne (e ∙ sym p))) refl
      | inr (hit, _) ↦ rw (same, hit) (lookup-insert key other value entries)
    ]
  ]
