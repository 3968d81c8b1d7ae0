-- ===== src/Prelude/Int.antt =====
-- Signed quantities: Go's int64 values that may be negative (a time.Duration, a parsed number).
use Prim.Native.Nat.{ℕ}
use mathlib.Core.Path.{◌≡◌, refl}
use mathlib.Core.Bool.{Bool, true, false}
use native.Mathlib.Omega.{arith}
use c5c3_forge.Prelude.Tests.{ltb, leb}

-- `negsuc n` is -(n + 1).
pub data ℤ : Type 0 where
  pos : ℕ → ℤ
  negsuc : ℕ → ℤ

-- `a < b`.
abbrev pub lt_int : ℤ → ℤ → Bool
lt_int (pos a) (pos b) = ltb a b
lt_int (pos a) (negsuc b) = false
lt_int (negsuc a) (pos b) = true
lt_int (negsuc a) (negsuc b) = ltb b a

-- `a <= b`.
abbrev pub le_int : ℤ → ℤ → Bool
le_int (pos a) (pos b) = leb a b
le_int (pos a) (negsuc b) = false
le_int (negsuc a) (pos b) = true
le_int (negsuc a) (negsuc b) = leb b a

pub le_int_trans : (a b c : ℤ) → le_int a b ≡ true → le_int b c ≡ true → le_int a c ≡ true
le_int_trans (pos a) (pos b) (pos c) h k = ground arith
le_int_trans (pos a) (pos b) (negsuc c) h k = ground arith
le_int_trans (pos a) (negsuc b) c h k = ground arith
le_int_trans (negsuc a) (pos b) (pos c) h k = refl
le_int_trans (negsuc a) (pos b) (negsuc c) h k = ground arith
le_int_trans (negsuc a) (negsuc b) (pos c) h k = refl
le_int_trans (negsuc a) (negsuc b) (negsuc c) h k = ground arith

pub le_int_of_lt : (a b : ℤ) → lt_int a b ≡ true → le_int a b ≡ true
le_int_of_lt (pos a) (pos b) h = ground arith
le_int_of_lt (pos a) (negsuc b) h = h
le_int_of_lt (negsuc a) (pos b) h = refl
le_int_of_lt (negsuc a) (negsuc b) h = ground arith

pub le_int_of_not_lt : (a b : ℤ) → lt_int a b ≡ false → le_int b a ≡ true
le_int_of_not_lt (pos a) (pos b) h = ground arith
le_int_of_not_lt (pos a) (negsuc b) h = refl
le_int_of_not_lt (negsuc a) (pos b) h = ground arith
le_int_of_not_lt (negsuc a) (negsuc b) h = ground arith

pub le_int_refl : (a : ℤ) → le_int a a ≡ true
le_int_refl (pos a) = ground arith
le_int_refl (negsuc a) = ground arith
