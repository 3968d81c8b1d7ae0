-- ===== src/Keystone/Keys/Format.antt =====
-- operators/keystone/internal/controller/rotation_validation.go: the contract of a staged set of
-- Fernet or credential keys.
pub mod Order
pub mod Contract
use Prim.Native.String.{len, compare}
use Prim.Native.Nat.{Ordering}
use c5c3_forge.Prelude.{
  ℕ, Bool, true, false, not, ◌||◌, ◌==◌, ltb, List, [], ◌∷◌, String, Option, none, some, map,
  str_eq, lookup, length, if◌then◌else◌,
}
use c5c3_forge.Kube.Text.{concat, quote}
use c5c3_forge.Kube.Error.{Error, Answer, ok, err, plain, wrap, message}
use c5c3_forge.Job.{or_empty}
use c5c3_forge.Release.Atoi.{decimal}

-- base64.URLEncoding.DecodeString: the number of the decoded bytes.
pub record Decoder : Type 0 where
  pub decode : String → Answer ℕ

abbrev precedes : String → String → Bool
precedes s t = elim (compare s t) [ Ordering.gt ↦ false | _ ↦ true ]

-- sort.Strings.
unfoldable pub place : String → List String → List String
place s [] = s ∷ []
place s (t ∷ ts) = let rest = place s ts in if precedes s t then s ∷ t ∷ ts else t ∷ rest

unfoldable pub sorted : List String → List String
sorted [] = []
sorted (s ∷ ss) = place s (sorted ss)

-- keys[index], of a map that has the key.
abbrev pub value_at : List (String × String) → String → String
value_at payload index = or_empty (lookup index payload)

module _ (decoder : Decoder) (payload : List (String × String)) where
  abbrev decoded_error : String → Answer ℕ → Option Error
  decoded_error index (err e) = some (
      plain
        (concat ("invalid key format: key " ∷ quote index ∷ " base64 decode: " ∷ message e ∷ [])))
  decoded_error index (ok n) =
      if not (n == 32)
      then some (
          plain (
            concat (
              "invalid key format: key "
              ∷ quote index
              ∷ " decoded length="
              ∷ decimal n
              ∷ ", want 32"
              ∷ [])))
      else none

  -- One turn of the first loop.
  abbrev pub format_error : String → Option Error
  format_error index =
      if not (len (value_at payload index) == 44)
      then some (
          plain (
            concat (
              "invalid key format: key "
              ∷ quote index
              ∷ " length="
              ∷ decimal (len (value_at payload index))
              ∷ ", want 44"
              ∷ [])))
      else decoded_error index (decoder.decode (value_at payload index))

  abbrev pub or_next : Option Error → Option Error → Option Error
  or_next (some e) rest = some e
  or_next none rest = rest

  unfoldable pub format_errors : List String → Option Error
  format_errors [] = none
  format_errors (index ∷ indices) = or_next (format_error index) (format_errors indices)

  -- The inner loop over j, for one i.
  unfoldable pub duplicate_of : String → List String → Option Error
  duplicate_of i [] = none
  duplicate_of i (j ∷ js) =
      let rest = duplicate_of i js in
      if str_eq (value_at payload i) (value_at payload j)
      then some
          (plain (concat ("duplicate keys detected: keys " ∷ quote i ∷ " and " ∷ quote j ∷ [])))
      else rest

  unfoldable pub duplicates : List String → Option Error
  duplicates [] = none
  duplicates (i ∷ is) = or_next (duplicate_of i is) (duplicates is)

  abbrev indices : List String
  indices = sorted (map (λ e. e.0) payload)

  -- validateRotationOutput.
  unfoldable pub validate_rotation_output : ℕ → ℕ → Option Error
  validate_rotation_output min_keys max_keys =
      if ltb (length payload) min_keys || ltb max_keys (length payload)
      then some (
          plain (
            concat (
              "key count out of range: got "
              ∷ decimal (length payload)
              ∷ ", want ["
              ∷ decimal min_keys
              ∷ ", "
              ∷ decimal max_keys
              ∷ "]"
              ∷ [])))
      else or_next (format_errors indices) (duplicates indices)
