-- ===== src/Execute/Arithmetic.antt =====
-- What the arithmetic instructions compute on small integers.
use clojit_cvm.Common.{
  ℕ, ◌+◌, ◌-◌, ◌*◌, ◌/◌, ◌%◌, ◌^◌, ◌<◌, ◌≡◌, ◌∙◌, refl, arith, Bool, true, false, some, ◌==◌, ltb,
  leb, if◌then◌else◌, u32, Res, ok, fault, exit, out_of_fuel, and_then, said, lift, pure, ◌>>=◌,
  ◌>>◌,
}
use native.Mathlib.Nat.{div-le_self, mod-le}
use clojit_cvm.Slot.{to_small_int, is_small_int, is_double, get_small_int}
use clojit_cvm.Slot.Fields.{tag-eq, to_small_int-eq}
use clojit_cvm.Slot.Ints.{to_small_int_lem, to_small_int-lt, get_small_int-to_small_int}
use clojit_cvm.Slots.Holds.{put}
use clojit_cvm.Host.{Host}
use clojit_cvm.Vm.{attempt, next, get}
use clojit_cvm.Vm
use clojit_cvm.Handlers.Numeric.{
  add_int, sub_int, mul_int, div_int, mod_int, arithmetic, addvv, subvv, mulvv, divvv, modvv,
}
use clojit_cvm.Execute.Plain.{PlainVm, slot?, get_lem, set_lem}

small_is_int : (x : ℕ) → x < 2 ^ 31 → is_small_int (to_small_int x) ≡ true
small_is_int x h = ground (arith, to_small_int_lem x (omega arith))

small_no_double : (x : ℕ) → x < 2 ^ 31 → is_double (to_small_int x) ≡ false
unfolding is_double
small_no_double x h = ground (
  arith,
  to_small_int-eq x (omega arith),
  tag-eq (to_small_int x) (to_small_int-lt x (omega arith)),
)

small_value : (x : ℕ) → x < 2 ^ 31 → get_small_int (to_small_int x) ≡ x
small_value x h = get_small_int-to_small_int x (omega arith)

-- The integer operations on numbers that are not negative.
add_int_lem :
    (x y : ℕ)
    → x < 2 ^ 31
    → y < 2 ^ 31
    → add_int x y ≡ (if ltb (x + y) (2 ^ 31) then ok (x + y) else fault)
unfolding add_int
add_int_lem x y h k = ground arith

sub_int_lem :
    (x y : ℕ)
    → x < 2 ^ 31
    → y < 2 ^ 31
    → sub_int x y ≡ ok (if leb y x then x - y else 2 ^ 32 + x - y)
unfolding sub_int
sub_int_lem x y h k = ground arith

mul_int_lem :
    (x y : ℕ)
    → x < 2 ^ 31
    → y < 2 ^ 31
    → mul_int x y ≡ (if ltb (x * y) (2 ^ 31) then ok (x * y) else fault)
unfolding mul_int
mul_int_lem x y h k = ground arith

div_int_lem :
    (x y : ℕ) → x < 2 ^ 31 → y < 2 ^ 31 → div_int x y ≡ (if y == 0 then fault else ok (x / y))
unfolding div_int
div_int_lem x y h k = ground (arith, div-le_self x y)

mod_int_lem :
    (x y : ℕ) → x < 2 ^ 31 → y < 2 ^ 31 → mod_int x y ≡ (if y == 0 then fault else ok (x % y))
unfolding mod_int
mod_int_lem x y h k = ground (arith, div-le_self x y, mod-le x y)

module _ {H : Host} (vm : PlainVm H) (a : ℕ) where
  -- The machine with a number stored in the target, after the instruction.
  abbrev pub stored : ℕ → PlainVm H
  stored w = record vm { slots = put vm.slots (vm.base + a) (to_small_int w); pc = u32 (vm.pc + 1) }

  abbrev pub after : ℕ → Res (Unit {0} × PlainVm H)
  after w = ok (tt, stored w)

  into_if :
      (t : Bool) (w : ℕ)
      → and_then (if t then ok w else fault) after ≡ (if t then after w else fault)
  into_if true w = refl
  into_if false w = refl

  into_else :
      (t : Bool) (w : ℕ)
      → and_then (if t then fault else ok w) after ≡ (if t then fault else after w)
  into_else true w = refl
  into_else false w = refl

  into_said :
      (t : Bool) (w : ℕ)
      → and_then (said vm.out (if t then fault else ok w)) after ≡ (if t then fault else after w)
  into_said true w = refl
  into_said false w = refl

  store_at_once :
      (r : Res ℕ)
      → vm.base + a < 2 ^ 31
      → (attempt r >>= λ w. Vm.set a (to_small_int w) >> next) vm ≡ and_then (said vm.out r) after
  unfolding next attempt
  store_at_once (ok w) h = rw (set_lem vm a (to_small_int w) h) refl
  store_at_once (exit n m) h = refl
  store_at_once fault h = refl
  store_at_once out_of_fuel h = refl

  -- With the tests that do not pass in between.
  store_next :
      (r : Res ℕ)
      → vm.base + a < 2 ^ 31
      → (((lift r >>= λ w. Vm.set a (to_small_int w)) >> pure tt) >> next) vm ≡ and_then r after
  unfolding next
  store_next (ok w) h = rw (set_lem vm a (to_small_int w) h) refl
  store_next (exit n m) h = refl
  store_next fault h = refl
  store_next out_of_fuel h = refl

  module _ (b c x y : ℕ) (target : vm.base + a < 2 ^ 31) (left : vm.base + b < 2 ^ 32)
      (right : vm.base + c < 2 ^ 32) (small : x < 2 ^ 31) (small' : y < 2 ^ 31)
      (first : slot? vm b ≡ some (to_small_int x))
      (second : slot? vm c ≡ some (to_small_int y)) where
    ints_run :
        (f : ℕ → ℕ → Res ℕ) (g : ℕ → ℕ → ℕ)
        → (arithmetic f g a (to_small_int x) (to_small_int y) >> next) vm ≡ and_then (f x y) after
    unfolding arithmetic
    ints_run f g =
        rw
          (
            small_is_int x small,
            small_is_int y small',
            small_no_double x small,
            small_no_double y small',
            small_value x small,
            small_value y small',
          )
          (store_next (f x y) target)

    operands_run :
        (f : ℕ → ℕ → Res ℕ) (g : ℕ → ℕ → ℕ)
        → (get b >>= λ p. get c >>= λ q. arithmetic f g a p q >> next) vm ≡ and_then (f x y) after
    operands_run f g =
        rw (get_lem vm b (to_small_int x) left first, get_lem vm c (to_small_int y) right second)
          (ints_run f g)

    mod_run : modvv a b c vm ≡ and_then (said vm.out (mod_int x y)) after
    unfolding modvv
    mod_run =
        rw
          (
            get_lem vm b (to_small_int x) left first,
            get_lem vm c (to_small_int y) right second,
            small_is_int x small,
            small_is_int y small',
            small_value x small,
            small_value y small',
          )
          (store_at_once (mod_int x y) target)

    -- On two slots that hold x and y, both below 2 ^ 31, with all indices in range, ADDVV and MULVV store the sum and the product if
    -- they lie below 2 ^ 31, and else overflow, a fault; SUBVV stores the `int32_t` x - y; DIVVV and MODVV
    -- store the quotient and the remainder, and trap, a fault, if y is 0. Each goes on with the next
    -- instruction and changes nothing else.
    pub arithmetic_lem :
        (addvv a b c vm ≡ (if ltb (x + y) (2 ^ 31) then after (x + y) else fault))
        × (subvv a b c vm ≡ after (if leb y x then x - y else 2 ^ 32 + x - y))
        × (mulvv a b c vm ≡ (if ltb (x * y) (2 ^ 31) then after (x * y) else fault))
        × (divvv a b c vm ≡ (if y == 0 then fault else after (x / y)))
        × (modvv a b c vm ≡ (if y == 0 then fault else after (x % y)))
    unfolding addvv subvv mulvv divvv
    arithmetic_lem = (
      operands_run add_int H.floats.add
          ∙ rw (add_int_lem x y small small') (into_if (ltb (x + y) (2 ^ 31)) (x + y)),
      operands_run sub_int H.floats.sub ∙ rw (sub_int_lem x y small small'),
      operands_run mul_int H.floats.mul
          ∙ rw (mul_int_lem x y small small') (into_if (ltb (x * y) (2 ^ 31)) (x * y)),
      operands_run div_int H.floats.div
          ∙ rw (div_int_lem x y small small') (into_else (y == 0) (x / y)),
      mod_run ∙ rw (mod_int_lem x y small small') (into_said (y == 0) (x % y)),
    )
