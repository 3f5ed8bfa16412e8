-- ===== src/Store/Arrays.antt =====
-- The code's arrays as a store.
use clojit_cvm.Common.{[], ok}
use clojit_cvm.Slots
use clojit_cvm.Stack
use clojit_cvm.Slots.{Codes, Slots}
use clojit_cvm.Stack.{Stack}
use clojit_cvm.Store.{Store}

abbrev pub array_store : Codes → Store
array_store codes = record {
  Slots = Slots codes;
  Stack = Stack;
  slots_init = Slots.slots_init;
  slots_get = Slots.slots_get;
  slots_set = Slots.slots_set;
  flush = λ s. (s.printed, record s { printed = [] });
  size = λ s. s.size;
  set_size = λ s n. ok (record s { size = n });
  stack_init = Stack.stack_init;
  push = Stack.push;
  pop = Stack.pop;
}
