-- ===== src/Release/Atoi.antt =====
-- strconv.Atoi and the decimal print, of Go's standard library.
use Prim.Native.Char.{code}
use Prim.Native.Nat.{◌/◌, ◌%◌}
use Prim.Native.String.{◌++◌ as str_append, slice}
use c5c3_forge.Prelude.{
  ℕ, zero, suc, ◌+◌, ◌-◌, ◌*◌, ◌^◌, ◌≡◌, refl, Bool, ◌||◌, [], ◌∷◌, String, ℤ, pos, negsuc, ltb,
  ◌==◌, if◌then◌else◌,
}
use c5c3_forge.Kube.Text.{concat, quote}
use c5c3_forge.Kube.Error.{Answer, ok, err, plain}

-- What reading a number gives: a value, or one of the two errors of strconv.
pub data Parsed : Type 0 where
  value : ℕ → Parsed
  bad_syntax : Parsed
  out_of_range : Parsed

-- strconv.ParseUint in base 10: each digit is added, until 64 bits do not hold the number.
unfoldable pub parse_digits : ℕ → String → Parsed
parse_digits n String.[] = value n
parse_digits n (String.◌∷◌ c s) =
    let d = code c - b'0' in
    let rest = parse_digits (n * 10 + d) s in
    if ltb (code c) b'0' || ltb b'9' (code c)
    then bad_syntax
    else if ltb (2 ^ 64 - 1) (n * 10 + d)
    then out_of_range
    else rest

parse_uint : String → Parsed
unfolding parse_digits
parse_uint String.[] = bad_syntax
parse_uint (String.◌∷◌ c s) = parse_digits 0 (String.◌∷◌ c s)

-- The errors name the function and the whole text.
num_error : String → String → Answer ℤ
num_error s cause = err (plain (concat ("strconv.Atoi: parsing " ∷ quote s ∷ ": " ∷ cause ∷ [])))

signed : String → Bool → Parsed → Answer ℤ
unfolding num_error
signed s neg bad_syntax = num_error s "invalid syntax"
signed s neg out_of_range = num_error s "value out of range"
signed s Bool.false (value n) =
    if ltb n (2 ^ 63) then ok (pos n) else num_error s "value out of range"
signed s Bool.true (value n) =
    if ltb (2 ^ 63) n
    then num_error s "value out of range"
    else if n == 0
    then ok (pos 0)
    else ok (negsuc (n - 1))

-- strconv.Atoi, into an int64.
unfoldable pub atoi : String → Answer ℤ
unfolding parse_uint signed
atoi String.[] = signed "" Bool.false bad_syntax
atoi (String.◌∷◌ c s) =
    if code c == b'-'
    then signed (String.◌∷◌ c s) Bool.true (parse_uint s)
    else if code c == b'+'
    then signed (String.◌∷◌ c s) Bool.false (parse_uint s)
    else signed (String.◌∷◌ c s) Bool.false (parse_uint (String.◌∷◌ c s))

-- The digits of `n` in base 10 in front of `out`; `fuel` is at least the number of digits.
decimal_loop : ℕ → ℕ → String → String
decimal_loop zero n out = out
decimal_loop (suc fuel) n out =
    let digit = slice "0123456789" (n % 10) (n % 10 + 1) in
    let rest = decimal_loop fuel (n / 10) (str_append digit out) in if n == 0 then out else rest

-- fmt's %d of a number below 2 ^ 64, which has at most 20 digits.
unfoldable pub decimal : ℕ → String
unfolding decimal_loop
decimal n = if n == 0 then "0" else decimal_loop 20 n ""

decimal_example : decimal 2025 ≡ "2025"
unfolding decimal
decimal_example = refl

atoi_example : atoi "+2025" ≡ ok (pos 2025)
unfolding atoi
atoi_example = refl
