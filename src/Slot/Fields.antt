-- ===== src/Slot/Fields.antt =====
-- The two fields of a slot, as arithmetic: the tag is the high sixteen bits, and the masks of the
-- readers keep the low bits.
use clojit_cvm.Common.{
  ℕ, ◌+◌, ◌-◌, ◌*◌, ◌/◌, ◌%◌, ◌^◌, ◌<◌, ◌≡◌, arith, bit_and, ltb, if◌then◌else◌,
}
use clojit_cvm.Common.Bits.{bit_or_high, bit_or_low, bit_and_mask}
use clojit_cvm.Slot.{tag, to_type, to_builtin, to_fnew, to_small_int, to_bool, bit_of}
use mathlib.Core.Bool.{Bool}

pub tag-eq : (slot : ℕ) → slot < 2 ^ 64 → tag slot ≡ slot / 2 ^ 48
unfolding tag
tag-eq slot h = omega (arith, bit_and_mask 16 (slot / 2 ^ 48))

pub low32 : (slot : ℕ) → bit_and slot 0xFFFF_FFFF ≡ slot % 2 ^ 32
low32 slot = bit_and_mask 32 slot

pub to_type-eq : (t : ℕ) → t < 2 ^ 48 → to_type t ≡ 0xFFFC * 2 ^ 48 + t
unfolding to_type
to_type-eq t h = bit_or_low 48 0xFFFC t h

pub to_builtin-eq : (a : ℕ) → a < 2 ^ 48 → to_builtin a ≡ 0xFFFA * 2 ^ 48 + a
unfolding to_builtin
to_builtin-eq a h = bit_or_low 48 0xFFFA a h

pub to_bool-eq : (b : Bool) → to_bool b ≡ 0xFFFD * 2 ^ 48 + bit_of b
unfolding to_bool
to_bool-eq b = bit_or_low 48 0xFFFD (bit_of b) (ground arith)

-- A negative number's sign bits run over the tag.
pub to_small_int-eq :
    (n : ℕ)
    → n < 2 ^ 32
    → to_small_int n ≡ (if ltb n (2 ^ 31) then 0xFFFE * 2 ^ 48 + n else 2 ^ 64 - 2 ^ 32 + n)
unfolding to_small_int
to_small_int-eq n h =
    ground (arith, bit_or_low 48 0xFFFE n (omega arith), bit_or_high 32 0xFFFE_0000 0xFFFF_FFFF n h)

pub to_fnew-eq :
    (n : ℕ)
    → n < 2 ^ 16
    → to_fnew n ≡ (if ltb n (2 ^ 15) then 0xFFFB * 2 ^ 48 + n else 2 ^ 64 - 2 ^ 16 + n)
unfolding to_fnew
to_fnew-eq n h = ground (
  arith,
  bit_or_low 48 0xFFFB n (omega arith),
  bit_or_high 16 0xFFFB_0000_0000 0xFFFF_FFFF_FFFF n h,
)
