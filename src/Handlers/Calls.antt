-- ===== src/Handlers/Calls.antt =====
-- CALL and RET.
use clojit_cvm.Common.{
  ℕ, zero, suc, ◌+◌, ◌==◌, ◌++◌, [], ◌∷◌, if◌then◌else◌, u32, text, exit, and_then, said, Cmd, pure,
  ◌>>=◌, ◌>>◌,
}
use clojit_cvm.Slot.{
  to_small_int, get_small_int, is_fnew, get_fnew, is_builtin, get_builtin, get_nil,
}
use clojit_cvm.Store.{Store}
use clojit_cvm.Host.{Host}
use clojit_cvm.Print.{print_slots}
use clojit_cvm.Builtin.{call_builtin}
use clojit_cvm.Vm.{
  Vm, get, set, move, set_size, get_pc, set_pc, next, get_context, set_context, push, pop,
}

module _ {S : Store} {H : Host} where
  -- `print_slots(...); printf("\nCALL ERROR NO FUNC\n\n"); exit(0);`
  unfoldable pub call_error : ℕ → Cmd (Vm S H) ℕ
  call_error fuel = λ vm.
      and_then (said vm.out (print_slots S fuel vm.mem vm.base vm.slots))
        λ r. exit 0 (vm.out ++ (r.0 ++ text "\nCALL ERROR NO FUNC\n\n" ∷ []))

  -- The function to call: 0 stands for a built-in one.
  unfoldable pub callee : ℕ → ℕ → Cmd (Vm S H) ℕ
  unfolding call_error
  callee fuel fn_slot =
      if is_fnew fn_slot
      then pure (get_fnew fn_slot)
      else if is_builtin fn_slot
      then pure 0
      else call_error fuel

  -- `for(int i = first; i != first + n; i++) set(&vm, i, get_nil());`
  unfoldable pub clear_slots : ℕ → ℕ → Cmd (Vm S H) (Unit {0})
  clear_slots zero first = pure tt
  clear_slots (suc n) first = set first get_nil >> clear_slots n (first + 1)

  unfoldable pub run_builtin : ℕ → ℕ → ℕ → Cmd (Vm S H) (Unit {0})
  unfolding clear_slots
  run_builtin fuel localbase fn_slot = do
    call_builtin fuel (get_builtin fn_slot)
    clear_slots (localbase + 8) 2
    caller ← pop
    set_context caller
    next

  unfoldable pub call : ℕ → ℕ → Cmd (Vm S H) (Unit {0})
  unfolding callee run_builtin
  call fuel localbase = do
    pc ← get_pc
    set localbase (to_small_int pc)
    fn_slot ← get (localbase + 1)
    func ← callee fuel fn_slot
    old ← get_context
    push old
    set_context (record { base_slot = u32 (old.base_slot + localbase); ip = func })
    if func == 0 then run_builtin fuel localbase fn_slot else set_pc func

  unfoldable pub ret : ℕ → Cmd (Vm S H) (Unit {0})
  ret a = do
    slot ← get 0
    move 0 a
    set_size a
    caller ← pop
    set_context caller
    set_pc (get_small_int slot + 1)
