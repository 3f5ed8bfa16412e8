-- ===== src/Slot/Doubles.antt =====
-- Doubles: the inversion that is meant to keep them clear of the other tags.
use clojit_cvm.Common.{ℕ, ◌*◌, ◌^◌, ◌<◌, ◌≡◌, arith, ltb, leb, ◌==◌, ◌&&◌, ◌||◌}
use clojit_cvm.Common.Bits.{bit_and-zero, bit_xor-zero}
use clojit_cvm.Slot.{invert_non_negative, inverted_sign, to_double, is_double, is_nil, is_pointer}
use clojit_cvm.Slot.Fields.{tag-eq}

-- `!(1LU << 63)` is zero, so the mask is, and no bit is inverted.
pub invert_non_negative_lem : (s : ℕ) → invert_non_negative s ≡ s
unfolding invert_non_negative
invert_non_negative_lem s = rw (bit_and-zero (inverted_sign s)) (bit_xor-zero s)

-- The bits of a `double` are stored as they are. The slot is a double exactly if they lie from
-- 7 * 2 ^ 48 up to, and not including, 0xFFF9 * 2 ^ 48. It is nil exactly for +0.0, and a pointer exactly for the
-- other bits below 2 ^ 48 (the smallest subnormal numbers) and the bits from 0xFFFF * 2 ^ 48 on.
pub to_double_lem :
    (d : ℕ)
    → d < 2 ^ 64
    → (to_double d ≡ d)
      × (is_double (to_double d) ≡ (leb (7 * 2 ^ 48) d && ltb d (0xFFF9 * 2 ^ 48)))
      × (is_nil (to_double d) ≡ (d == 0))
      × (is_pointer (to_double d) ≡ ((ltb 0 d && ltb d (2 ^ 48)) || leb (0xFFFF * 2 ^ 48) d))
unfolding to_double is_double is_nil is_pointer
to_double_lem d h = (
  invert_non_negative_lem d,
  rw (invert_non_negative_lem d, tag-eq d h) (ground arith),
  rw (invert_non_negative_lem d) (ground arith),
  rw (invert_non_negative_lem d, tag-eq d h) (ground arith),
)
