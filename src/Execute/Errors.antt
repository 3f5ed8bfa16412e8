-- ===== src/Execute/Errors.antt =====
-- CALL of a slot that is no function.
use clojit_cvm.Common.{
  ℕ, ◌+◌, ◌^◌, ◌<◌, ◌≤◌, ◌≡◌, refl, arith, List, [], ◌∷◌, ◌++◌, some, false, length,
  lt-of_get_elem?, text, exit,
}
use clojit_cvm.Slot.{to_small_int, is_fnew, is_builtin}
use clojit_cvm.Slots.Holds.{put, get_elem?-put_self, get_elem?-put_ne}
use clojit_cvm.Host.{Host}
use clojit_cvm.Vm.{get_pc}
use clojit_cvm.Print.Tree.{Tree}
use clojit_cvm.Print.All.{AllShow, render_slots, print_slots-AllShow}
use clojit_cvm.Handlers.Calls.{call, callee, call_error}
use clojit_cvm.Execute.Plain.{PlainVm, slot?, get_lem, set_lem}

call_error_lem :
    {H : Host} (vm : PlainVm H) (fuel : ℕ) (ts : List Tree)
    → AllShow vm.mem fuel vm.slots ts
    → 0 < length vm.slots
    → length vm.slots ≤ fuel
    → length vm.slots < 2 ^ 31
    → call_error fuel vm
      ≡ exit 0 (vm.out ++ (render_slots vm.base 0 ts ++ text "\nCALL ERROR NO FUNC\n\n" ∷ []))
unfolding call_error
call_error_lem vm fuel ts all filled enough small =
    rw (print_slots-AllShow vm.base all filled enough small) refl

module _ {H : Host} (vm : PlainVm H) where
  -- The slots once the return address is stored.
  abbrev pub marked : ℕ → List ℕ
  marked localbase = put vm.slots (vm.base + localbase) (to_small_int vm.pc)

  -- CALL of a slot that is neither a function of the program nor a built-in one, with indices in
  -- range: if there are fewer than 2 ^ 31 slots, all slots show trees, and there is fuel for them, the process prints, behind what it has printed before, the slots, the return
  -- address among them, and the message, and exits with status 0.
  pub call_rejects :
      (fuel localbase f : ℕ) (ts : List Tree)
      → vm.base + localbase + 1 < 2 ^ 31
      → slot? vm (localbase + 1) ≡ some f
      → is_fnew f ≡ false
      → is_builtin f ≡ false
      → AllShow vm.mem fuel (marked localbase) ts
      → length (marked localbase) ≤ fuel
      → length (marked localbase) < 2 ^ 31
      → call fuel localbase vm
        ≡ exit 0 (vm.out ++ (render_slots vm.base 0 ts ++ text "\nCALL ERROR NO FUNC\n\n" ∷ []))
  unfolding call get_pc callee
  call_rejects fuel localbase f ts fits holds no_fnew no_builtin all enough small =
      let there : slot? (record vm { slots = marked localbase }) (localbase + 1) ≡ some f =
        get_elem?-put_ne vm.slots (vm.base + localbase) (vm.base + (localbase + 1))
          (to_small_int vm.pc) f (λ e. omega arith) holds in
      let some_slot : 0 < length (marked localbase) = omega (
        arith,
        lt-of_get_elem? (marked localbase) (vm.base + localbase) (to_small_int vm.pc)
            (get_elem?-put_self vm.slots (vm.base + localbase) (to_small_int vm.pc)),
      ) in
      rw
        (
          set_lem vm localbase (to_small_int vm.pc) (omega arith),
          get_lem (record vm { slots = marked localbase }) (localbase + 1) f (omega arith) there,
          no_fnew,
          no_builtin,
        )
        (rw
          (call_error_lem (record vm { slots = marked localbase }) fuel ts all some_slot enough
            small)
          refl)
