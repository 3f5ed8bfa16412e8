-- ===== src/Refinement/Rules.antt =====
-- The rules by which a command refines its counterpart, as one set.
use clojit_cvm.Vm.Refines.{
  bind-Refines, then-Refines, pure-Refines, lift-Refines, attempt-Refines, if_Refines,
  get_pc-Refines, set_pc-Refines, next-Refines, print-Refines, get_mem-Refines, set_mem-Refines,
  get_ap-Refines, set_ap-Refines, get_context-Refines, set_context-Refines, get-Refines,
  set-Refines, move-Refines, set_size-Refines, push-Refines, pop-Refines, get_symbol_table-Refines,
  add_symbol_table_pair-Refines,
}

pub ruleset commands = (
  bind-Refines, then-Refines, pure-Refines, lift-Refines, attempt-Refines, if_Refines,
  get_pc-Refines, set_pc-Refines, next-Refines, print-Refines, get_mem-Refines, set_mem-Refines,
  get_ap-Refines, set_ap-Refines, get_context-Refines, set_context-Refines, get-Refines,
  set-Refines, move-Refines, set_size-Refines, push-Refines, pop-Refines, get_symbol_table-Refines,
  add_symbol_table_pair-Refines,
)
