-- ===== src/Refinement/Tests.antt =====
-- The machine on the program that adds two numbers.
use clojit_cvm.Common.{refl, ok, [], ◌≡◌}
use clojit_cvm.Store.Arrays.{array_store}
use clojit_cvm.Execute.{boot, observe}
use clojit_cvm.Samples.{host, adding}
use clojit_cvm.Vm
use clojit_cvm.Vm.{next, get_pc, set_pc, add_symbol_table_pair}
use clojit_cvm.Builtin.{add_builtin_function}
use clojit_cvm.Program.{fetch}
use clojit_cvm.Execute.Ops.{op_of}
use clojit_cvm.Execute.{execute}
use clojit_cvm.Handlers.Constants.{cshort}
use clojit_cvm.Handlers.Numeric.{addvv, arithmetic, add_int}
use clojit_cvm.Slots.{slots_get, slots_set, slots_init}
use clojit_cvm.Stack.{stack_init}
use clojit_cvm.Slot.{to_small_int, is_small_int, is_double, get_small_int, to_builtin}

-- The program that adds 2 and 3 ends with status 1, after four instructions.
adding_runs : observe (boot (array_store (λ _. 0)) host 5 10 adding) ≡ ok (1, [])
unfolding boot add_builtin_function fetch op_of execute cshort addvv arithmetic next get_pc set_pc
    Vm.get Vm.set add_symbol_table_pair slots_get slots_set slots_init stack_init to_small_int
    is_small_int is_double get_small_int add_int to_builtin
adding_runs = refl
