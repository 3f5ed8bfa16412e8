-- ===== src/Handlers/Numeric.antt =====
-- ADDVV, SUBVV, MULVV, DIVVV, MODVV and ISEQ. An `int32_t` result that does not fit, a division by
-- zero and a quotient that does not fit are undefined in C, and so faults.
use clojit_cvm.Common.{
  ℕ, ◌==◌, Bool, ◌&&◌, [], ◌∷◌, if◌then◌else◌, text, Res, exit, fault, and_then, or_fault, Cmd,
  lift, pure, ◌>>=◌, ◌>>◌,
}
use clojit_cvm.Common.Int.{◌+ℤ◌, ◌-ℤ◌, ◌*ℤ◌, quot, rem, signed32, pattern32}
use clojit_cvm.Slot.{is_small_int, get_small_int, to_small_int, is_double, to_double, to_bool}
use clojit_cvm.Store.{Store}
use clojit_cvm.Host.{Host}
use clojit_cvm.Print
use clojit_cvm.Vm.{Vm, attempt, get, set, next, print, get_mem}

-- The integer operations, on bit patterns.
unfoldable pub add_int : ℕ → ℕ → Res ℕ
add_int x y = or_fault (pattern32 (signed32 x +ℤ signed32 y))

unfoldable pub sub_int : ℕ → ℕ → Res ℕ
sub_int x y = or_fault (pattern32 (signed32 x -ℤ signed32 y))

unfoldable pub mul_int : ℕ → ℕ → Res ℕ
mul_int x y = or_fault (pattern32 (signed32 x *ℤ signed32 y))

unfoldable pub div_int : ℕ → ℕ → Res ℕ
div_int x y = if y == 0 then fault else or_fault (pattern32 (quot (signed32 x) (signed32 y)))

-- The remainder is undefined where the quotient does not fit.
unfoldable pub mod_int : ℕ → ℕ → Res ℕ
unfolding div_int
mod_int x y = and_then (div_int x y) λ _. or_fault (pattern32 (rem (signed32 x) (signed32 y)))

-- What an instruction comes to: the loop goes on, or `start` returns.
pub data Control : Type 0 where
  goes_on : Control
  returned : ℕ → Control

abbrev pub when : {V : Type 0} → Bool → Cmd V (Unit {0}) → Cmd V (Unit {0})
when b m = if b then m else pure tt

module _ {S : Store} {H : Host} where
  unfoldable pub get_double : ℕ → Cmd (Vm S H) ℕ
  get_double slot = do
    m ← get_mem
    (printed, bits) ← lift (Print.get_double m slot)
    print printed
    pure bits

  -- The four tests that the arithmetic cases share, each made in turn on the operands. In the last
  -- one every case takes the `double` first.
  unfoldable pub arithmetic : (ℕ → ℕ → Res ℕ) → (ℕ → ℕ → ℕ) → ℕ → ℕ → ℕ → Cmd (Vm S H) (Unit {0})
  unfolding get_double
  arithmetic on_ints on_doubles target bslot cslot = do
    when (is_small_int bslot && is_small_int cslot) do
      w ← lift (on_ints (get_small_int bslot) (get_small_int cslot))
      set target (to_small_int w)
    when (is_double bslot && is_double cslot)
        do x ← get_double bslot; y ← get_double cslot; set target (to_double (on_doubles x y))
    when (is_double bslot && is_small_int cslot) do
      x ← get_double bslot
      set target (to_double (on_doubles x (H.floats.of_int (signed32 (get_small_int cslot)))))
    when (is_small_int bslot && is_double cslot) do
      y ← get_double cslot
      set target (to_double (on_doubles y (H.floats.of_int (signed32 (get_small_int bslot)))))

  unfoldable pub addvv : ℕ → ℕ → ℕ → Cmd (Vm S H) (Unit {0})
  unfolding arithmetic add_int
  addvv a b c = do bslot ← get b; cslot ← get c; arithmetic add_int H.floats.add a bslot cslot; next

  unfoldable pub subvv : ℕ → ℕ → ℕ → Cmd (Vm S H) (Unit {0})
  unfolding arithmetic sub_int
  subvv a b c = do bslot ← get b; cslot ← get c; arithmetic sub_int H.floats.sub a bslot cslot; next

  unfoldable pub mulvv : ℕ → ℕ → ℕ → Cmd (Vm S H) (Unit {0})
  unfolding arithmetic mul_int
  mulvv a b c = do bslot ← get b; cslot ← get c; arithmetic mul_int H.floats.mul a bslot cslot; next

  unfoldable pub divvv : ℕ → ℕ → ℕ → Cmd (Vm S H) (Unit {0})
  unfolding arithmetic div_int
  divvv a b c = do bslot ← get b; cslot ← get c; arithmetic div_int H.floats.div a bslot cslot; next

  unfoldable pub modvv : ℕ → ℕ → ℕ → Cmd (Vm S H) (Unit {0})
  unfolding mod_int
  modvv a b c = do
    bslot ← get b
    cslot ← get c
    w ← attempt (
        if is_small_int bslot && is_small_int cslot
        then mod_int (get_small_int bslot) (get_small_int cslot)
        else exit 1 (text "Type Error. Called Modulo with Float\n" ∷ []))
    set a (to_small_int w)
    next

  -- What ISEQ does with its operands.
  unfoldable pub equality : ℕ → ℕ → ℕ → Cmd (Vm S H) Control
  unfolding get_double
  equality target bslot cslot =
      if is_small_int bslot && is_small_int cslot
      then set target (to_bool (get_small_int bslot == get_small_int cslot)) >> pure goes_on
      else if is_double bslot && is_double cslot
      then (do
        x ← get_double bslot
        y ← get_double cslot
        set target (to_bool (H.floats.eq x y))
        pure goes_on)
      else (do
        print (text "Type Error ISEQ can only called with all Ints or all Double" ∷ [])
        pure (returned 1))

  unfoldable pub iseq : ℕ → ℕ → ℕ → Cmd (Vm S H) Control
  unfolding equality
  iseq a b c = do bslot ← get b; cslot ← get c; next; equality a bslot cslot
