-- ===== src/Builtin.antt =====
-- builtin.c: the built-in function `println`, and the symbol under which the program finds it.
use clojit_cvm.Common.{
  ℕ, ◌*◌, ◌++◌, List, [], ◌∷◌, ◌==◌, if◌then◌else◌, text, Res, fault, Cmd, lift, ◌>>=◌, ◌>>◌,
}
use clojit_cvm.Slot.{to_builtin, get_nil}
use clojit_cvm.Store.{Store}
use clojit_cvm.Host.{Host}
use clojit_cvm.Vm.{Vm, vm_blank, get, set, print, get_mem, add_symbol_table_pair}
use clojit_cvm.Print.{println_slot}
use clojit_cvm.Setup.{set_up, slots_root, complaint}
use clojit_cvm.Slots.{slots_initial_capacity}

-- "println"
abbrev pub println_name : List ℕ
println_name = b'p' ∷ b'r' ∷ b'i' ∷ b'n' ∷ b't' ∷ b'l' ∷ b'n' ∷ []

-- `size_t arenasize = 32ul * 1024 * 1024;`
abbrev pub arenasize : ℕ
arenasize = 32 * 1024 * 1024

module _ {S : Store} {H : Host} where
  unfoldable pub add_builtin_function : Cmd (Vm S H) (Unit {0})
  unfolding to_builtin
  add_builtin_function = add_symbol_table_pair println_name (to_builtin H.println_address)

  unfoldable pub builtin_println : ℕ → Cmd (Vm S H) (Unit {0})
  unfolding println_slot
  builtin_println fuel = do
    slot ← get 2
    m ← get_mem
    shown ← lift (println_slot fuel m slot)
    print shown
    print (text "\n" ∷ [])
    set 0 get_nil

  -- `f(&vm)`: a call of an address at which no function of the program stands is a fault.
  unfoldable pub call_builtin : ℕ → ℕ → Cmd (Vm S H) (Unit {0})
  unfolding builtin_println
  call_builtin fuel address =
      if address == H.println_address then builtin_println fuel else lift fault

  -- `vm_init`: the memory manager's set-up, with its messages, and the fields of the machine, ending with the
  -- built-in function.
  unfoldable pub vm_init : Res (Unit {0} × Vm S H)
  unfolding add_builtin_function set_up slots_root
  vm_init =
      let started = set_up H.manager arenasize H.marker H.manager_state in
      let root = slots_root H.manager H.slots_data slots_initial_capacity started in
      add_builtin_function (record (vm_blank S H) {
        out = started.out ++ complaint root.code (text "Couldn't create slots roots");
      })
