-- ===== src/Samples/Adding.antt =====
-- A file of four instructions, and the machine at the end of it.
use clojit_cvm.Common.{none, ok, ◌≡◌, refl, List, [], ◌∷◌}
use clojit_cvm.Store.Lists.{list_store}
use clojit_cvm.Program.{Instr, instr_of, fetch}
use clojit_cvm.Loader.{mapped, loadfile}
use clojit_cvm.Loader.Code.{code_file}
use clojit_cvm.Slot.{to_builtin, to_small_int, is_small_int, is_double, get_small_int}
use clojit_cvm.Handlers.Constants.{cshort}
use clojit_cvm.Handlers.Numeric.{addvv, arithmetic, add_int}
use clojit_cvm.Builtin.{vm_init, println_name}
use clojit_cvm.Execute.Ops.{op_of}
use clojit_cvm.Execute.{execute, run}
use clojit_cvm.Start.{start}
use clojit_cvm.Vm
use clojit_cvm.Vm.{Vm, get_pc, set_pc, next, add_symbol_table_pair}
use clojit_cvm.Samples.{host, insert_name}

-- CSHORT 0 2; CSHORT 1 3; ADDVV 2 0 1; EXIT
abbrev pub adding_code : List Instr
adding_code = instr_of 7 0 0 2 ∷ instr_of 7 1 0 3 ∷ instr_of 11 2 0 1 ∷ instr_of 47 0 0 0 ∷ []

-- The machine after the four instructions.
abbrev pub ended : Vm list_store host
ended = record {
  pc = 4;
  ip = 0;
  base = 0;
  slots = to_small_int 2 ∷ to_small_int 3 ∷ to_small_int 5 ∷ [];
  stack = [];
  symbol_table = insert_name (λ _. 0) println_name (to_builtin 4_198_400);
  mem = λ _. none;
  ap = none;
  out = [];
}

pub ending_lem : start list_store host 5 10 (mapped (code_file adding_code)) 0 ≡ ok (1, ended)
unfolding start loadfile vm_init run op_of execute get_pc fetch add_symbol_table_pair next cshort
    addvv arithmetic set_pc Vm.get Vm.set to_small_int is_small_int is_double get_small_int add_int
    to_builtin
ending_lem = refl
