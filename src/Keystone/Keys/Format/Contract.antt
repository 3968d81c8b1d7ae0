-- ===== src/Keystone/Keys/Format/Contract.antt =====
-- operators/keystone/internal/controller/rotation_validation.go: which sets of keys are accepted.
use Prim.Native.String.{len}
use c5c3_forge.Prelude.{
  ℕ, ◌≡◌, ◌≢◌, ◌↔◌, ◌≤◌, refl, sym, ap, ◌∙◌, inl, inr, true, false, ◌||◌, ◌==◌, ltb, List, [], ◌∷◌,
  String, Option, none, some, Bool-cases, str_eq-cases, has, Distinct, arith, length, eq_refl,
}
use c5c3_forge.Kube.Error.{Error, Answer, ok, err}
use c5c3_forge.Rotation.Once.{key_list}
use c5c3_forge.Keystone.Keys.Format.{
  Decoder, sorted, value_at, decoded_error, format_error, or_next, format_errors, duplicate_of,
  duplicates, validate_rotation_output,
}
use c5c3_forge.Keystone.Keys.Format.Order.{has-sorted, sorted-Distinct}

module _ (decoder : Decoder) (payload : List (String × String)) where
  -- A key of 44 bytes that decodes to 32.
  abbrev pub IsKey : String → Type 0
  IsKey value = (len value ≡ 44) × (decoder.decode value ≡ ok 32)

  -- The contract: the number of keys is in the range, each is a key, and no two are the same.
  pub record IsKeySet (min_keys max_keys : ℕ) : Type 0 where
    pub at_least : min_keys ≤ length payload
    pub at_most : length payload ≤ max_keys
    pub formed : (i : String) → has i (key_list payload) ≡ true → IsKey (value_at payload i)
    pub distinct :
        (i j : String)
        → has i (key_list payload) ≡ true
        → has j (key_list payload) ≡ true
        → i ≢ j
        → value_at payload i ≢ value_at payload j

  -- Members of a list.
  abbrev Each : (String → Type 0) → List String → Type 0
  Each P l = (i : String) → has i l ≡ true → P i

  Each-cons :
      {P : String → Type 0} (j : String) (l : List String) → Each P (j ∷ l) ↔ (P j × Each P l)
  unfolding has
  Each-cons {P} j l = (
    λ e. (e j (rw (eq_refl j) refl), λ i h. e i (rw h (ground arith))),
    λ r i h. elim (str_eq-cases i j) [ inl (_, q) ↦ rw q r.0 | inr (q, _) ↦ r.1 i (rw q at h) ],
  )

  decoded_error_iff :
      (i : String) (a : Answer ℕ) → (decoded_error decoder payload i a ≡ none) ↔ (a ≡ ok 32)
  decoded_error_iff i (err e) = (λ h. cc h, λ h. cc h)
  decoded_error_iff i (ok n) = elim (Bool-cases (n == 32)) [
    | inl e ↦ (λ _. ap ok (ground arith), λ _. rw e refl)
    | inr e ↦ (λ h. cc (rw e at h), λ h. absurd (apart (number h) e))
  ]
    where
      number : ok n ≡ ok 32 → n ≡ 32
      number h = cc h

      apart : n ≡ 32 → (n == 32) ≡ false → ⊥
      apart p e = ground arith

  format_error_iff :
      (i : String) → (format_error decoder payload i ≡ none) ↔ IsKey (value_at payload i)
  format_error_iff i =
      let decoded = decoded_error_iff i (decoder.decode (value_at payload i)) in
      elim (Bool-cases (len (value_at payload i) == 44)) [
        | inl e ↦ (λ h. (ground arith, decoded.0 (rw e at h)), λ k. rw e (decoded.1 k.1))
        | inr e ↦ (λ h. cc (rw e at h), λ k. absurd (apart _ e k.0))
      ]
    where
      apart : (n : ℕ) → (n == 44) ≡ false → n ≡ 44 → ⊥
      apart n e p = ground arith

  or_next_iff :
      (a b : Option Error) → (or_next decoder payload a b ≡ none) ↔ ((a ≡ none) × (b ≡ none))
  or_next_iff (some e) b = (λ h. cc h, λ h. cc h.0)
  or_next_iff none b = (λ h. (refl, h), λ h. h.1)

  format_errors_iff :
      (l : List String)
      → (format_errors decoder payload l ≡ none) ↔ Each (λ i. IsKey (value_at payload i)) l
  unfolding format_errors has
  format_errors_iff [] = (λ _ i h. cc h, λ _. refl)
  format_errors_iff (j ∷ l) =
      let here = format_error_iff j in
      let rest = format_errors_iff l in
      let both = or_next_iff (format_error decoder payload j) (format_errors decoder payload l) in
      let cons = Each-cons {P = λ i. IsKey (value_at payload i)} j l in
      (
        λ h. cons.1 (here.0 (both.0 h).0, rest.0 (both.0 h).1),
        λ e. both.1 (here.1 (cons.0 e).0, rest.1 (cons.0 e).1),
      )

  duplicate_of_iff :
      (i : String) (l : List String)
      → (duplicate_of decoder payload i l ≡ none)
        ↔ Each (λ j. value_at payload i ≢ value_at payload j) l
  unfolding duplicate_of has
  duplicate_of_iff i [] = (λ _ j h. cc h, λ _. refl)
  duplicate_of_iff i (j ∷ l) =
      let rest = duplicate_of_iff i l in
      let cons = Each-cons {P = λ j. value_at payload i ≢ value_at payload j} j l in
      elim (str_eq-cases (value_at payload i) (value_at payload j)) [
        | inl (e, q) ↦ (λ h. cc (rw e at h), λ a. absurd ((cons.0 a).0 q))
        | inr (e, ne) ↦ (λ h. cons.1 (ne, rest.0 (rw e at h)), λ a. rw e (rest.1 (cons.0 a).1))
      ]

  -- Different members have different values.
  abbrev Apart : List String → Type 0
  Apart l =
      (i j : String)
      → has i l ≡ true
      → has j l ≡ true
      → i ≢ j
      → value_at payload i ≢ value_at payload j

  duplicates-Apart : (l : List String) → duplicates decoder payload l ≡ none → Apart l
  unfolding duplicates has
  duplicates-Apart [] h i j hi hj ne = cc hi
  duplicates-Apart (k ∷ l) h i j hi hj ne =
      let both =
        (or_next_iff (duplicate_of decoder payload k l) (duplicates decoder payload l)).0 h in
      let of_k = (duplicate_of_iff k l).0 both.0 in
      elim (str_eq-cases i k) [
        | inl (_, p) ↦ elim (str_eq-cases j k) [
          | inl (_, q) ↦ absurd (ne (p ∙ sym q))
          | inr (b, _) ↦ rw p (of_k j (rw b at hj))
        ]
        | inr (a, _) ↦ elim (str_eq-cases j k) [
          | inl (_, q) ↦ λ e. of_k i (rw a at hi) (sym (e ∙ ap (value_at payload) q))
          | inr (b, _) ↦ duplicates-Apart l both.1 i j (rw a at hi) (rw b at hj) ne
        ]
      ]

  Apart-duplicates : (l : List String) → Distinct l → Apart l → duplicates decoder payload l ≡ none
  unfolding duplicates has
  Apart-duplicates [] d a = refl
  Apart-duplicates (k ∷ l) (fresh, d) a =
      (or_next_iff (duplicate_of decoder payload k l) (duplicates decoder payload l)).1 (
        (duplicate_of_iff k l).1
            (λ j hj. a k j (rw (eq_refl k) refl) (rw hj (ground arith)) (λ q. cc (fresh, hj, q))),
        Apart-duplicates l d (λ i j hi hj. a i j (rw hi (ground arith)) (rw hj (ground arith))),
      )

  -- The keys in order.
  abbrev ordered : List String
  ordered = sorted (key_list payload)

  in_range : (n lo hi : ℕ) → (ltb n lo || ltb hi n) ≡ false → (lo ≤ n) × (n ≤ hi)
  in_range n lo hi h = (ground arith, ground arith)

  range_of : (n lo hi : ℕ) → lo ≤ n → n ≤ hi → (ltb n lo || ltb hi n) ≡ false
  range_of n lo hi a b = ground arith

  -- A staged set of keys is accepted exactly when their number is in the range, each is 44 bytes of
  -- base64url for 32 bytes, and no two are the same. Its keys differ, as those of a Go map do.
  pub validate_rotation_output_iff :
      (min_keys max_keys : ℕ)
      → Distinct (key_list payload)
      → (validate_rotation_output decoder payload min_keys max_keys ≡ none)
        ↔ IsKeySet min_keys max_keys
  unfolding validate_rotation_output
  validate_rotation_output_iff lo hi d =
      let both =
        or_next_iff (format_errors decoder payload ordered) (duplicates decoder payload ordered) in
      let formats = format_errors_iff ordered in
      let in_order : (i : String) → has i (key_list payload) ≡ true → has i ordered ≡ true =
        λ i h. has-sorted i (key_list payload) ∙ h in
      let in_map : (i : String) → has i ordered ≡ true → has i (key_list payload) ≡ true =
        λ i h. sym (has-sorted i (key_list payload)) ∙ h in
      elim (Bool-cases (ltb (length payload) lo || ltb hi (length payload))) [
        | inl e ↦
            (λ h. cc (rw e at h), λ s. cc (e, range_of (length payload) lo hi s.at_least s.at_most))
        | inr e ↦ (
          λ h.
              let errors = both.0 (rw e at h) in
              record {
                at_least = (in_range (length payload) lo hi e).0;
                at_most = (in_range (length payload) lo hi e).1;
                formed = λ i m. formats.0 errors.0 i (in_order i m);
                distinct = λ i j mi mj.
                    duplicates-Apart ordered errors.1 i j (in_order i mi) (in_order j mj);
              },
          λ s. rw e (
              both.1 (
                formats.1 (λ i m. s.formed i (in_map i m)),
                Apart-duplicates ordered (sorted-Distinct (key_list payload) d)
                    (λ i j mi mj. s.distinct i j (in_map i mi) (in_map j mj)),
              )),
        )
      ]
