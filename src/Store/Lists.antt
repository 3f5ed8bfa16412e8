-- ===== src/Store/Lists.antt =====
-- The abstract store: a list of slots and a list of contexts, with no capacities.
use clojit_cvm.Common.{
  ℕ, ◌^◌, List, [], Res, ok, exit, fault, ltb, leb, if◌then◌else◌, length, get_or, take,
}
use clojit_cvm.Slots.{out_of_bounds}
use clojit_cvm.Slots.Holds.{put}
use clojit_cvm.Stack.{Context}
use clojit_cvm.Stack.Holds.{push_list, pop_list}
use clojit_cvm.Store.{Store}

abbrev pub get_list : List ℕ → ℕ → Res (ℕ × List ℕ)
get_list xs i =
    if ltb i (length xs) then ok (get_or xs i 0, xs) else exit 1 (out_of_bounds i (length xs))

-- Past 2 ^ 31 slots the `int` counter of the code's copying loop overflows.
abbrev pub set_list : List ℕ → ℕ → ℕ → Res (List ℕ)
set_list xs i v = if ltb i (2 ^ 31) then ok (put xs i v) else fault

-- A larger size would uncover cells that nothing has written.
abbrev pub set_size_list : List ℕ → ℕ → Res (List ℕ)
set_size_list xs n = if leb n (length xs) then ok (take n xs) else fault

abbrev pub list_store : Store
list_store = record {
  Slots = List ℕ;
  Stack = List Context;
  slots_init = [];
  slots_get = get_list;
  slots_set = set_list;
  flush = λ xs. ([], xs);
  size = length;
  set_size = set_size_list;
  stack_init = [];
  push = push_list;
  pop = pop_list;
}
