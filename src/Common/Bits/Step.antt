-- ===== src/Common/Bits/Step.antt =====
-- The native bit operations by their lowest digit: `op x y` from `op (x / 2) (y / 2)`.
use Prim.Native.Nat.{
  ℕ, zero, suc, ◌+◌, ◌*◌, ◌/◌, ◌%◌, ◌≤◌, min, max, bit_and, bit_or, bit_xor, digits, bitwise,
  bit_and-bitwise, bit_or-bitwise, bit_xor-bitwise, differ,
}
use mathlib.Core.Path.{◌≡◌, refl, ap}
use native.Mathlib.Omega.{arith}

pub bit_xor-zero_left : (y : ℕ) → bit_xor 0 y ≡ y
bit_xor-zero_left y = bit_xor-bitwise 0 y

module _ (rest : ℕ → ℕ) (op : ℕ → ℕ → ℕ) where
  -- The last digit of the result, behind the digits `t`.
  abbrev behind : ℕ → ℕ → ℕ → ℕ
  behind x y t = t * 2 + op (x % 2) (y % 2)

  -- Any count of digits that the first number does not exceed gives the same result.
  digits_enough : (x y j k : ℕ) → x ≤ j → x ≤ k → digits rest op j x y ≡ digits rest op k x y
  digits_enough zero y zero zero hj hk = refl
  digits_enough zero y (suc j) zero hj hk = refl
  digits_enough zero y zero (suc k) hj hk = refl
  digits_enough zero y (suc j) (suc k) hj hk = refl
  digits_enough (suc x) y (suc j) (suc k) hj hk =
      ap (behind (suc x) y) (digits_enough (suc x / 2) (y / 2) j k (omega arith) (omega arith))
  digits_enough (suc x) y (suc j) zero hj hk = absurd (omega arith)
  digits_enough (suc x) y zero k hj hk = absurd (omega arith)

  pub bitwise_digit :
      (x y : ℕ) → bitwise rest op (suc x) y ≡ behind (suc x) y (bitwise rest op (suc x / 2) (y / 2))
  bitwise_digit x y =
      ap (behind (suc x) y)
        (digits_enough (suc x / 2) (y / 2) x (suc x / 2) (omega arith) (omega arith))

pub bit_xor_step_suc :
    (x y : ℕ) → bit_xor (suc x) y ≡ bit_xor (suc x / 2) (y / 2) * 2 + differ (suc x % 2) (y % 2)
bit_xor_step_suc x y = simp bit_xor-bitwise (bitwise_digit (λ t. t) differ x y)

pub bit_or_step : (x y : ℕ) → bit_or x y ≡ bit_or (x / 2) (y / 2) * 2 + max (x % 2) (y % 2)
bit_or_step zero y = simp bit_or-bitwise (omega arith)
bit_or_step (suc x) y = simp bit_or-bitwise (bitwise_digit (λ t. t) max x y)

pub bit_and_step : (x y : ℕ) → bit_and x y ≡ bit_and (x / 2) (y / 2) * 2 + min (x % 2) (y % 2)
bit_and_step zero y = simp bit_and-bitwise (omega arith)
bit_and_step (suc x) y = simp bit_and-bitwise (bitwise_digit (λ _. 0) min x y)
