-- ===== src/Slot/Truth.antt =====
-- Which slots a conditional jump takes for false.
use clojit_cvm.Common.{
  ℕ, refl, ◌/◌, ◌%◌, ◌^◌, ◌<◌, ◌≡◌, arith, Bool, true, false, not, ◌==◌, ◌&&◌, ◌||◌,
}
use clojit_cvm.Common.Bits.{bit_and_mask}
use clojit_cvm.Slot.Codes.{to_bool_lem}
use clojit_cvm.Slot.Ints.{to_small_int_lem}
use clojit_cvm.Slot.{is_falsy, is_truthy, to_bool, to_small_int}
use clojit_cvm.Slot.Fields.{tag-eq, to_small_int-eq}

-- A slot is falsy exactly when it is nil, or is tagged a Boolean with a clear lowest bit.
pub is_falsy_lem :
    (s : ℕ) → s < 2 ^ 64 → (is_falsy s).1 ≡ (s == 0 || (s / 2 ^ 48 == 0xFFFD && s % 2 == 0))
unfolding is_falsy
is_falsy_lem s h = ground (arith, tag-eq s h, bit_and_mask 1 s)

-- A slot is truthy exactly when it is not falsy; a Boolean is truthy exactly if it is true; nil is
-- not truthy; and the slot of an `int32_t` that is not negative, zero too, is truthy.
is_truthy_lem :
    (s n : ℕ) (b : Bool)
    → n < 2 ^ 31
    → ((is_truthy s).1 ≡ not (is_falsy s).1)
      × ((is_truthy (to_bool b)).1 ≡ b)
      × ((is_truthy 0).1 ≡ false)
      × ((is_truthy (to_small_int n)).1 ≡ true)
unfolding is_truthy
is_truthy_lem s n b h = (
  refl,
  ground (arith, to_bool_lem b),
  refl,
  ground (
    arith,
    to_small_int-eq n (omega arith),
    to_small_int_lem n (omega arith),
    tag-eq (to_small_int n),
  ),
)
