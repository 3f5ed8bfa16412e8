-- ===== src/Slot/Kinds.antt =====
-- The kinds of slot: which of the predicates of slots.c hold of one word.
use clojit_cvm.Common.{
  ℕ, ◌+◌, ◌/◌, ◌^◌, ◌<◌, ◌≡◌, arith, Bool, ◌||◌, ◌&&◌, leb, ◌==◌, if◌then◌else◌,
}
use clojit_cvm.Slot.{
  bit_of, is_nil, is_pointer, is_double, is_builtin, is_fnew, is_type, is_bool, is_small_int,
}
use clojit_cvm.Slot.Fields.{tag-eq}

-- How many of the predicates hold.
abbrev pub kinds : ℕ → ℕ
kinds s =
    bit_of (is_nil s)
    + bit_of (is_pointer s)
    + bit_of (is_double s)
    + bit_of (is_builtin s)
    + bit_of (is_fnew s)
    + bit_of (is_type s)
    + bit_of (is_bool s)
    + bit_of (is_small_int s)

-- The tags that no predicate claims.
abbrev pub unclaimed : ℕ → Bool
unclaimed t = (leb 1 t && leb t 6) || t == 0xFFF9

-- A 64-bit word is of exactly one kind (nil, pointer, double, built-in, function, type, Boolean or
-- small integer), but for the words whose high sixteen bits are 1 to 6 or 0xFFF9, which are of none.
pub kinds_lem : (s : ℕ) → s < 2 ^ 64 → kinds s ≡ (if unclaimed (s / 2 ^ 48) then 0 else 1)
unfolding is_nil is_pointer is_double is_builtin is_fnew is_type is_bool is_small_int
kinds_lem s h = rw (tag-eq s h) (ground arith)
