-- ===== src/Common/Bits.antt =====
-- `|`, `&` and `^` on words whose fields do not meet, as arithmetic.
mod Step
pub mod Split
use Step.{bit_and_step, bit_or_step, bit_xor_step_suc}
use Prim.Native.Nat.{
  ℕ, zero, suc, ◌+◌, ◌-◌, ◌*◌, ◌/◌, ◌%◌, ◌^◌, ◌≤◌, ◌<◌, bit_and, bit_or, bit_xor, differ,
}
use mathlib.Core.Path.{◌≡◌, refl, ap}
use native.Mathlib.Nat.{pow-suc, one-le-pow, div-add-mod'}
use native.Mathlib.Omega.{arith}

-- A number of at most `n` in binary has at most `top` digits: recursion on that bound.
bit_or-zero_below : (top w : ℕ) → w ≤ top → bit_or w 0 ≡ w
bit_or-zero_below top zero h = refl
bit_or-zero_below zero (suc w) h = absurd (omega arith)
bit_or-zero_below (suc top) (suc w) h =
    omega (arith, bit_or_step (suc w) 0, bit_or-zero_below top (suc w / 2) (omega arith))

bit_and-zero_below : (top w : ℕ) → w ≤ top → bit_and w 0 ≡ 0
bit_and-zero_below top zero h = refl
bit_and-zero_below zero (suc w) h = absurd (omega arith)
bit_and-zero_below (suc top) (suc w) h =
    omega (arith, bit_and_step (suc w) 0, bit_and-zero_below top (suc w / 2) (omega arith))

differ-zero : (x : ℕ) → differ x 0 ≡ x
differ-zero zero = refl
differ-zero (suc x) = refl

bit_xor-zero_below : (top w : ℕ) → w ≤ top → bit_xor w 0 ≡ w
bit_xor-zero_below top zero h = refl
bit_xor-zero_below zero (suc w) h = absurd (omega arith)
bit_xor-zero_below (suc top) (suc w) h = omega (
  arith,
  bit_xor_step_suc w 0,
  differ-zero (suc w % 2),
  bit_xor-zero_below top (suc w / 2) (omega arith),
)

pub bit_or-zero : (a : ℕ) → bit_or a 0 ≡ a
bit_or-zero a = bit_or-zero_below a a (omega arith)

zero-bit_or_below : (top w : ℕ) → w ≤ top → bit_or 0 w ≡ w
zero-bit_or_below top zero h = refl
zero-bit_or_below zero (suc w) h = absurd (omega arith)
zero-bit_or_below (suc top) (suc w) h =
    omega (arith, bit_or_step 0 (suc w), zero-bit_or_below top (suc w / 2) (omega arith))

pub zero-bit_or : (a : ℕ) → bit_or 0 a ≡ a
zero-bit_or a = zero-bit_or_below a a (omega arith)

pub bit_and-zero : (a : ℕ) → bit_and a 0 ≡ 0
bit_and-zero a = bit_and-zero_below a a (omega arith)

pub bit_xor-zero : (a : ℕ) → bit_xor a 0 ≡ a
bit_xor-zero a = bit_xor-zero_below a a (omega arith)

mul-pow-suc : (q k : ℕ) → q * 2 ^ suc k ≡ 2 * (q * 2 ^ k)
mul-pow-suc q k = omega (arith, ap (λ (t : ℕ). q * t) (pow-suc 2 k))

-- Two words that share no bit below `k` are joined above it alone.
pub bit_or_high :
    (k a b r : ℕ) → r < 2 ^ k → bit_or (a * 2 ^ k) (b * 2 ^ k + r) ≡ bit_or a b * 2 ^ k + r
bit_or_high zero a b r h = ground arith
bit_or_high (suc k) a b r h = ground (
  arith,
  bit_or_step (a * 2 ^ suc k) (b * 2 ^ suc k + r),
  mul-pow-suc a k,
  mul-pow-suc b k,
  mul-pow-suc (bit_or a b) k,
  pow-suc 2 k,
  bit_or_high k a b (r / 2) (omega arith),
)

-- A field that fits under a word shifted left is added to it.
pub bit_or_low : (k a r : ℕ) → r < 2 ^ k → bit_or (a * 2 ^ k) r ≡ a * 2 ^ k + r
bit_or_low k a r h = ground (arith, bit_or_high k a 0 r h, bit_or-zero a)

bit_and_fields : (k a r : ℕ) → r < 2 ^ k → bit_and (a * 2 ^ k + r) (2 ^ k - 1) ≡ r
bit_and_fields zero a r h = ground (arith, bit_and-zero (a + r))
bit_and_fields (suc k) a r h = ground (
  arith,
  bit_and_step (a * 2 ^ suc k + r) (2 ^ suc k - 1),
  mul-pow-suc a k,
  pow-suc 2 k,
  one-le-pow k 2,
  bit_and_fields k a (r / 2) (omega arith),
)

-- A mask of the `k` lowest bits is the remainder by `2 ^ k`.
pub bit_and_mask : (k a : ℕ) → bit_and a (2 ^ k - 1) ≡ a % 2 ^ k
bit_and_mask k a =
    ground (arith, one-le-pow k 2, div-add-mod' a (2 ^ k), bit_and_fields k (a / 2 ^ k) (a % 2 ^ k))
