-- ===== src/Slot/Codes.antt =====
-- The other payloads: functions of the program, types, built-in functions and Booleans.
use clojit_cvm.Common.{ℕ, ◌%◌, ◌^◌, ◌<◌, ◌≡◌, arith, Bool, true, ltb, not, ◌==◌}
use clojit_cvm.Common.Bits.{bit_and_mask}
use clojit_cvm.Slot.{
  is_pointer, is_fnew, to_fnew, get_fnew, is_type, to_type, get_type, is_builtin, to_builtin,
  get_builtin, is_bool, to_bool, get_bool,
}
use clojit_cvm.Slot.Fields.{tag-eq, low32, to_fnew-eq, to_type-eq, to_builtin-eq, to_bool-eq}

to_fnew-lt : (n : ℕ) → n < 2 ^ 16 → to_fnew n < 2 ^ 64
to_fnew-lt n h = ground (arith, to_fnew-eq n h)

-- The slot made of an `int16_t` (given by its pattern) reads back as that number; it is a function
-- exactly when the number is not negative, and a pointer exactly when it is negative.
pub to_fnew_lem :
    (n : ℕ)
    → n < 2 ^ 16
    → (get_fnew (to_fnew n) ≡ n)
      × (is_fnew (to_fnew n) ≡ ltb n (2 ^ 15))
      × (is_pointer (to_fnew n) ≡ not (ltb n (2 ^ 15)))
unfolding is_fnew is_pointer get_fnew
to_fnew_lem n h = (
  ground (arith, to_fnew-eq n h, low32 (to_fnew n)),
  ground (arith, to_fnew-eq n h, tag-eq (to_fnew n) (to_fnew-lt n h)),
  ground (arith, to_fnew-eq n h, tag-eq (to_fnew n) (to_fnew-lt n h)),
)

-- A type number, a `uint16_t`, is read back from a slot that is a type.
to_type_lem : (t : ℕ) → t < 2 ^ 16 → (is_type (to_type t) ≡ true) × (get_type (to_type t) ≡ t)
unfolding is_type get_type
to_type_lem t h = (
  ground (arith, to_type-eq t (omega arith), tag-eq (to_type t)),
  ground (arith, to_type-eq t (omega arith), low32 (to_type t)),
)

-- A function address of at most 48 bits makes a built-in slot, from which the address modulo 2 ^ 32 is
-- read back: all of it exactly if it lies below 2 ^ 32.
pub to_builtin_lem :
    (a : ℕ)
    → a < 2 ^ 48
    → (is_builtin (to_builtin a) ≡ true)
      × (get_builtin (to_builtin a) ≡ a % 2 ^ 32)
      × ((get_builtin (to_builtin a) == a) ≡ ltb a (2 ^ 32))
unfolding is_builtin get_builtin
to_builtin_lem a h = (
  ground (arith, to_builtin-eq a h, tag-eq (to_builtin a)),
  ground (arith, to_builtin-eq a h, low32 (to_builtin a)),
  ground (arith, to_builtin-eq a h, low32 (to_builtin a)),
)

-- A Boolean is read back from a slot that is a Boolean.
pub to_bool_lem : (b : Bool) → (is_bool (to_bool b) ≡ true) × (get_bool (to_bool b) ≡ b)
unfolding is_bool get_bool
to_bool_lem b = (
  ground (arith, to_bool-eq b, tag-eq (to_bool b)),
  ground (arith, to_bool-eq b, bit_and_mask 1 (to_bool b)),
)
