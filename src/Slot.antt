-- ===== src/Slot.antt =====
-- slots.c, the tagged 64-bit words: `uint64_t` is a native ℕ below 2 ^ 64, an `int32_t`, `int16_t`
-- or function address is its bit pattern, and a `double` is its 64 bits.
pub mod Fields
pub mod Kinds
pub mod Ints
pub mod Codes
pub mod Truth
pub mod Doubles
mod Tests
use clojit_cvm.Common.{
  ℕ, ◌+◌, ◌-◌, ◌^◌, Bool, true, false, not, ◌&&◌, ◌||◌, List, [], ◌∷◌, bit_and, bit_or, bit_xor,
  ltb, leb, ◌==◌, if◌then◌else◌, u8, u16, u64, ◌<<<◌, ◌>>>◌, sign_extend32, sign_extend16, Out,
  text,
}

abbrev pub tag_double_max : ℕ
tag_double_max = 0xFFF8

abbrev pub tag_double_min : ℕ
tag_double_min = 0x0007

abbrev pub tag_pointer_lo : ℕ
tag_pointer_lo = 0x0000

abbrev pub tag_pointer_hi : ℕ
tag_pointer_hi = 0xFFFF

abbrev pub tag_small_integer : ℕ
tag_small_integer = 0xFFFE

abbrev pub tag_bool : ℕ
tag_bool = 0xFFFD

abbrev pub tag_type : ℕ
tag_type = 0xFFFC

abbrev pub tag_fnew : ℕ
tag_fnew = 0xFFFB

abbrev pub tag_builtin : ℕ
tag_builtin = 0xFFFA

-- `!x` of C: 1 for zero, 0 for all else.
abbrev pub logical_not : ℕ → ℕ
logical_not x = if x == 0 then 1 else 0

-- `~((int64_t)slot) >> 63`: all ones if the sign bit of `slot` is clear, else zero.
abbrev pub inverted_sign : ℕ → ℕ
inverted_sign slot = if ltb slot (2 ^ 63) then 2 ^ 64 - 1 else 0

unfoldable pub invert_non_negative : ℕ → ℕ
invert_non_negative slot =
    let mask = bit_and (inverted_sign slot) (logical_not (u64 (1 <<< 63))) in bit_xor slot mask

unfoldable pub tag : ℕ → ℕ
tag slot = u16 (bit_and (slot >>> 48) 0xFFFF)

-- Nil
unfoldable pub is_nil : ℕ → Bool
is_nil slot = slot == 0

abbrev pub get_nil : ℕ
get_nil = 0

unfoldable pub is_pointer : ℕ → Bool
unfolding is_nil tag
is_pointer slot = not (is_nil slot) && (tag slot == tag_pointer_lo || tag slot == tag_pointer_hi)

-- Doubles
unfoldable pub is_double : ℕ → Bool
unfolding tag
is_double slot = leb tag_double_min (tag slot) && leb (tag slot) tag_double_max

unfoldable pub to_double : ℕ → ℕ
unfolding invert_non_negative
to_double num = invert_non_negative num

-- Types
unfoldable pub to_type : ℕ → ℕ
to_type type = bit_or (u64 (tag_type <<< 48)) type

unfoldable pub is_type : ℕ → Bool
unfolding tag
is_type slot = tag slot == tag_type

unfoldable pub get_type : ℕ → ℕ
get_type slot = u16 (bit_and slot 0xFFFF_FFFF)

-- Built-in functions, by their address
unfoldable pub to_builtin : ℕ → ℕ
to_builtin fn = bit_or (u64 (tag_builtin <<< 48)) fn

unfoldable pub is_builtin : ℕ → Bool
unfolding tag
is_builtin slot = tag slot == tag_builtin

unfoldable pub get_builtin : ℕ → ℕ
get_builtin slot = bit_and slot 0xFFFF_FFFF

-- Functions of the program, by an `int16_t`
unfoldable pub to_fnew : ℕ → ℕ
to_fnew type = bit_or (u64 (tag_fnew <<< 48)) (sign_extend16 type)

unfoldable pub is_fnew : ℕ → Bool
unfolding tag
is_fnew slot = tag slot == tag_fnew

unfoldable pub get_fnew : ℕ → ℕ
get_fnew slot = u16 (bit_and slot 0xFFFF_FFFF)

-- Small integers, by an `int32_t`
unfoldable pub to_small_int : ℕ → ℕ
to_small_int num = bit_or (u64 (tag_small_integer <<< 48)) (sign_extend32 num)

unfoldable pub is_small_int : ℕ → Bool
unfolding tag
is_small_int slot = tag slot == tag_small_integer

unfoldable pub get_small_int : ℕ → ℕ
get_small_int slot = bit_and slot 0xFFFF_FFFF

-- Booleans
abbrev pub bit_of : Bool → ℕ
bit_of b = if b then 1 else 0

unfoldable pub is_bool : ℕ → Bool
unfolding tag
is_bool slot = tag slot == tag_bool

unfoldable pub get_bool : ℕ → Bool
get_bool slot = not (bit_and slot 1 == 0)

unfoldable pub to_bool : Bool → ℕ
to_bool value = bit_or (u64 (tag_bool <<< 48)) (bit_of value)

-- A test, with what it prints.
abbrev pub Printed : Type 0 → Type 0
Printed A = List Out × A

unfoldable pub is_falsy : ℕ → Printed Bool
unfolding is_bool is_nil get_bool
is_falsy slot = (
  text "is_truthy \n" ∷ [],
  if is_bool slot then bit_of (get_bool slot) == 0 else if is_nil slot then true else false,
)

unfoldable pub is_truthy : ℕ → Printed Bool
unfolding is_falsy
is_truthy slot = let (printed, b) = is_falsy slot in (text "is_truthy \n" ∷ printed, not b)
