-- ===== src/Slot/Ints.antt =====
-- Small integers: what `to_small_int` keeps, and what it loses.
use clojit_cvm.Common.{ℕ, ◌^◌, ◌<◌, ◌≡◌, arith, ltb, not}
use clojit_cvm.Slot.{is_pointer, is_small_int, to_small_int, get_small_int}
use clojit_cvm.Slot.Fields.{tag-eq, low32, to_small_int-eq}

pub to_small_int-lt : (n : ℕ) → n < 2 ^ 32 → to_small_int n < 2 ^ 64
to_small_int-lt n h = ground (arith, to_small_int-eq n h)

-- The value of every `int32_t`, negative or not, is read back.
pub get_small_int-to_small_int : (n : ℕ) → n < 2 ^ 32 → get_small_int (to_small_int n) ≡ n
unfolding get_small_int
get_small_int-to_small_int n h = ground (arith, to_small_int-eq n h, low32 (to_small_int n))

-- The slot made of an `int32_t` (given by its pattern) reads back as that number; it is a small
-- integer exactly when the number is not negative, and a pointer exactly when it is negative.
pub to_small_int_lem :
    (n : ℕ)
    → n < 2 ^ 32
    → (get_small_int (to_small_int n) ≡ n)
      × (is_small_int (to_small_int n) ≡ ltb n (2 ^ 31))
      × (is_pointer (to_small_int n) ≡ not (ltb n (2 ^ 31)))
unfolding is_small_int is_pointer
to_small_int_lem n h = (
  get_small_int-to_small_int n h,
  ground (arith, to_small_int-eq n h, tag-eq (to_small_int n) (to_small_int-lt n h)),
  ground (arith, to_small_int-eq n h, tag-eq (to_small_int n) (to_small_int-lt n h)),
)
