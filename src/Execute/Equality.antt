-- ===== src/Execute/Equality.antt =====
-- ISEQ on the slots of two numbers of the type `int32_t`.
use clojit_cvm.Common.{
  ℕ, ◌+◌, ◌^◌, ◌<◌, ◌≡◌, refl, arith, Bool, true, false, ◌&&◌, some, [], ◌∷◌, ◌++◌, ◌==◌, ltb,
  if◌then◌else◌, u32, text, ok, pure, ◌>>◌,
}
use clojit_cvm.Slot.{to_small_int, is_double, to_bool}
use clojit_cvm.Slot.Fields.{tag-eq, to_small_int-eq}
use clojit_cvm.Slot.Ints.{to_small_int_lem, to_small_int-lt}
use clojit_cvm.Slots.Holds.{put}
use clojit_cvm.Host.{Host}
use clojit_cvm.Vm.{next, print}
use clojit_cvm.Vm
use clojit_cvm.Handlers.Numeric.{goes_on, returned, equality, iseq}
use clojit_cvm.Execute.Plain.{PlainVm, slot?, get_lem, set_lem}

int_no_double : (x : ℕ) → x < 2 ^ 32 → is_double (to_small_int x) ≡ false
unfolding is_double
int_no_double x h =
    ground (arith, to_small_int-eq x h, tag-eq (to_small_int x) (to_small_int-lt x h))

module _ {H : Host} (vm : PlainVm H) (a : ℕ) (target : vm.base + a < 2 ^ 31) where
  -- What ISEQ does where both numbers are small integers in their slots, and where not.
  by_kind :
      (both : Bool) (x y : ℕ)
      → (if both
            then Vm.set a (to_bool (x == y)) >> pure goes_on
            else print (text "Type Error ISEQ can only called with all Ints or all Double" ∷ [])
              >> pure (returned 1))
          vm
        ≡ (if both
            then ok (goes_on, record vm { slots = put vm.slots (vm.base + a) (to_bool (x == y)) })
            else ok (
              returned 1,
              record vm {
                out =
                    vm.out
                    ++ text "Type Error ISEQ can only called with all Ints or all Double" ∷ [];
              },
            ))
  unfolding print
  by_kind true x y = rw (set_lem vm a (to_bool (x == y)) target) refl
  by_kind false x y = refl

  equality_lem :
      (x y : ℕ)
      → x < 2 ^ 32
      → y < 2 ^ 32
      → equality a (to_small_int x) (to_small_int y) vm ≡ (
          if ltb x (2 ^ 31) && ltb y (2 ^ 31)
          then ok (goes_on, record vm { slots = put vm.slots (vm.base + a) (to_bool (x == y)) })
          else ok (
            returned 1,
            record vm {
              out =
                  vm.out ++ text "Type Error ISEQ can only called with all Ints or all Double" ∷ [];
            },
          ))
  unfolding equality
  equality_lem x y h k =
      let (value, small, _) = to_small_int_lem x h in
      let (value', small', _) = to_small_int_lem y k in
      rw (small, small', int_no_double x h, value, value')
        (by_kind (ltb x (2 ^ 31) && ltb y (2 ^ 31)) x y)

-- On the slots of two numbers of the type `int32_t`, given by their patterns, with all indices in range: if
-- neither is negative, ISEQ stores whether they are equal; and if one is, `start` prints an error and returns 1. In
-- both cases the program counter has gone on, and nothing else has changed.
pub iseq_lem :
    {H : Host} (vm : PlainVm H) (a b c x y : ℕ)
    → vm.base + a < 2 ^ 31
    → vm.base + b < 2 ^ 32
    → vm.base + c < 2 ^ 32
    → x < 2 ^ 32
    → y < 2 ^ 32
    → slot? vm b ≡ some (to_small_int x)
    → slot? vm c ≡ some (to_small_int y)
    → iseq a b c vm ≡ (
        if ltb x (2 ^ 31) && ltb y (2 ^ 31)
        then ok (
          goes_on,
          record vm { pc = u32 (vm.pc + 1); slots = put vm.slots (vm.base + a) (to_bool (x == y)) },
        )
        else ok (
          returned 1,
          record vm {
            pc = u32 (vm.pc + 1);
            out = vm.out ++ text "Type Error ISEQ can only called with all Ints or all Double" ∷ [];
          },
        ))
unfolding iseq next
iseq_lem vm a b c x y target left right hx hy first second =
    rw (get_lem vm b (to_small_int x) left first, get_lem vm c (to_small_int y) right second)
      (equality_lem (record vm { pc = u32 (vm.pc + 1) }) a target x y hx hy)
