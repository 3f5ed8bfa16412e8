-- ===== src/Slot/Tests.antt =====
-- The words of slots.c at concrete values.
use clojit_cvm.Common.{◌≡◌, arith, true, false, ◌==◌}
use clojit_cvm.Slot.{
  to_small_int, get_small_int, is_small_int, is_pointer, is_fnew, to_fnew, get_fnew, is_builtin,
  to_builtin, get_builtin, is_double, to_double, is_nil,
}
use clojit_cvm.Slot.Kinds.{kinds, kinds_lem}
use clojit_cvm.Slot.Ints.{to_small_int_lem}
use clojit_cvm.Slot.Codes.{to_fnew_lem, to_builtin_lem}
use clojit_cvm.Slot.Doubles.{to_double_lem}

-- A word with the tag of a type is of one kind.
kinds_example : kinds 0xFFFE_0000_0000_0003 ≡ 1
kinds_example = kinds_lem 0xFFFE_0000_0000_0003 (omega arith)

-- The number -2.
to_small_int_example :
    (get_small_int (to_small_int 0xFFFF_FFFE) ≡ 0xFFFF_FFFE)
    × (is_small_int (to_small_int 0xFFFF_FFFE) ≡ false)
    × (is_pointer (to_small_int 0xFFFF_FFFE) ≡ true)
to_small_int_example = to_small_int_lem 0xFFFF_FFFE (omega arith)

-- The function number 0x8001, which is negative as an `int16_t`.
to_fnew_example :
    (get_fnew (to_fnew 0x8001) ≡ 0x8001)
    × (is_fnew (to_fnew 0x8001) ≡ false)
    × (is_pointer (to_fnew 0x8001) ≡ true)
to_fnew_example = to_fnew_lem 0x8001 (omega arith)

-- An address above the first four gigabytes loses its high bits.
to_builtin_example :
    (is_builtin (to_builtin 0x5555_0000_1234) ≡ true)
    × (get_builtin (to_builtin 0x5555_0000_1234) ≡ 0x1234)
    × ((get_builtin (to_builtin 0x5555_0000_1234) == 0x5555_0000_1234) ≡ false)
to_builtin_example = to_builtin_lem 0x5555_0000_1234 (omega arith)

-- The smallest subnormal number is stored as a pointer.
to_double_example :
    (to_double 1 ≡ 1)
    × (is_double (to_double 1) ≡ false)
    × (is_nil (to_double 1) ≡ false)
    × (is_pointer (to_double 1) ≡ true)
to_double_example = to_double_lem 1 (omega arith)
