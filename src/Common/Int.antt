-- ===== src/Common/Int.antt =====
-- Signed integers over the native numbers, under the library's names, and the `int32_t` that a
-- 32-bit pattern stands for.
use Prim.Native.Nat.{ℕ, suc, ◌+◌, ◌-◌, ◌*◌, ◌/◌, ◌%◌, ◌^◌, ◌<◌}
use mathlib.Core.Path.{◌≡◌}
use mathlib.Core.Option.{Option, none, some}
use native.Mathlib.Omega.{arith}
use clojit_cvm.Common.Compare.{ltb, leb, if◌then◌else◌}

-- `negsuc n` is -(n + 1).
pub data ℤ : Type 0 where
  pos : ℕ → ℤ
  negsuc : ℕ → ℤ

abbrev pub pos_part : ℤ → ℕ
pos_part (pos n) = n
pos_part (negsuc n) = 0

abbrev pub neg_part : ℤ → ℕ
neg_part (pos n) = 0
neg_part (negsuc n) = suc n

-- a - b, as an integer.
abbrev pub sub_ℕ : ℕ → ℕ → ℤ
sub_ℕ a b = if leb b a then pos (a - b) else negsuc (b - a - 1)

infixl 65 ◌+ℤ◌ ◌-ℤ◌
infixl 70 ◌*ℤ◌
abbrev pub ◌+ℤ◌ : ℤ → ℤ → ℤ
a +ℤ b = sub_ℕ (pos_part a + pos_part b) (neg_part a + neg_part b)

abbrev pub ◌-ℤ◌ : ℤ → ℤ → ℤ
a -ℤ b = sub_ℕ (pos_part a + neg_part b) (neg_part a + pos_part b)

abbrev pub ◌*ℤ◌ : ℤ → ℤ → ℤ
a *ℤ b =
    sub_ℕ (pos_part a * pos_part b + neg_part a * neg_part b)
      (pos_part a * neg_part b + neg_part a * pos_part b)

-- The quotient of C, rounded towards zero, and the remainder that goes with it. The divisor is
-- not zero.
abbrev pub quot : ℤ → ℤ → ℤ
quot (pos a) (pos b) = pos (a / b)
quot (pos a) (negsuc b) = sub_ℕ 0 (a / suc b)
quot (negsuc a) (pos b) = sub_ℕ 0 (suc a / b)
quot (negsuc a) (negsuc b) = pos (suc a / suc b)

abbrev pub rem : ℤ → ℤ → ℤ
rem (pos a) (pos b) = pos (a % b)
rem (pos a) (negsuc b) = pos (a % suc b)
rem (negsuc a) (pos b) = sub_ℕ 0 (suc a % b)
rem (negsuc a) (negsuc b) = sub_ℕ 0 (suc a % suc b)

-- The `int32_t` of a pattern below 2 ^ 32.
abbrev pub signed32 : ℕ → ℤ
signed32 w = if ltb w (2 ^ 31) then pos w else negsuc (2 ^ 32 - w - 1)

-- The pattern of an integer, if an `int32_t` can hold it.
abbrev pub pattern32 : ℤ → Option ℕ
pattern32 (pos n) = if ltb n (2 ^ 31) then some n else none
pattern32 (negsuc n) = if ltb n (2 ^ 31) then some (2 ^ 32 - n - 1) else none

pub pattern32-signed32 : (w : ℕ) → w < 2 ^ 32 → pattern32 (signed32 w) ≡ some w
pattern32-signed32 w h = ground arith

pub signed32-pattern32 : (z : ℤ) (w : ℕ) → pattern32 z ≡ some w → (signed32 w ≡ z) × (w < 2 ^ 32)
signed32-pattern32 (pos n) w h = ground arith
signed32-pattern32 (negsuc n) w h = ground arith
