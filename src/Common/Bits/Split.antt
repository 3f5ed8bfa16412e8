-- ===== src/Common/Bits/Split.antt =====
-- The bit operations on words cut in two at the same place.
use Prim.Native.Nat.{ℕ, zero, suc, ◌+◌, ◌*◌, ◌/◌, ◌%◌, ◌^◌, ◌<◌, bit_and, bit_or, min, max}
use mathlib.Core.Path.{◌≡◌, ap, ◌∙◌}
use native.Mathlib.Nat.{pow-suc}
use native.Mathlib.Omega.{arith}
use clojit_cvm.Common.Bits.Step.{bit_and_step, bit_or_step}

-- Half of a word cut at `k + 1`, and its lowest bit.
half_lem :
    (k a r : ℕ) → ((a * 2 ^ suc k + r) / 2 ≡ a * 2 ^ k + r / 2) × ((a * 2 ^ suc k + r) % 2 ≡ r % 2)
half_lem k a r =
    let e : a * 2 ^ suc k ≡ 2 * (a * 2 ^ k) = omega (arith, ap (λ (t : ℕ). a * t) (pow-suc 2 k)) in
    (omega arith, omega arith)

module _ (op : ℕ → ℕ → ℕ) (digit : ℕ → ℕ → ℕ)
    (op_step : (x y : ℕ) → op x y ≡ op (x / 2) (y / 2) * 2 + digit (x % 2) (y % 2)) where
  split_step :
      (k a b r s : ℕ)
      → op (a * 2 ^ k + r / 2) (b * 2 ^ k + s / 2) ≡ op a b * 2 ^ k + op (r / 2) (s / 2)
      → op (a * 2 ^ suc k + r) (b * 2 ^ suc k + s) ≡ op a b * 2 ^ suc k + op r s
  split_step k a b r s above =
      let (half, low) = half_lem k a r in
      let (half', low') = half_lem k b s in
      let e : op a b * 2 ^ suc k ≡ 2 * (op a b * 2 ^ k) =
        omega (arith, ap (λ (t : ℕ). op a b * t) (pow-suc 2 k)) in
      op_step (a * 2 ^ suc k + r) (b * 2 ^ suc k + s)
      ∙ rw (half, half', low, low', above) (omega (arith, op_step r s))

pub bit_and_split :
    (k a b r s : ℕ)
    → r < 2 ^ k
    → s < 2 ^ k
    → bit_and (a * 2 ^ k + r) (b * 2 ^ k + s) ≡ bit_and a b * 2 ^ k + bit_and r s
bit_and_split zero a b zero zero h h' = ground arith
bit_and_split zero a b r (suc s) h h' = absurd (omega arith)
bit_and_split zero a b (suc r) zero h h' = absurd (omega arith)
bit_and_split (suc k) a b r s h h' =
    split_step bit_and min bit_and_step k a b r s (
      bit_and_split k a b (r / 2) (s / 2) (omega (arith, pow-suc 2 k)) (omega (arith, pow-suc 2 k)))

pub bit_or_split :
    (k a b r s : ℕ)
    → r < 2 ^ k
    → s < 2 ^ k
    → bit_or (a * 2 ^ k + r) (b * 2 ^ k + s) ≡ bit_or a b * 2 ^ k + bit_or r s
bit_or_split zero a b zero zero h h' = ground arith
bit_or_split zero a b r (suc s) h h' = absurd (omega arith)
bit_or_split zero a b (suc r) zero h h' = absurd (omega arith)
bit_or_split (suc k) a b r s h h' =
    split_step bit_or max bit_or_step k a b r s
      (bit_or_split k a b (r / 2) (s / 2) (omega (arith, pow-suc 2 k)) (omega (arith, pow-suc 2 k)))
