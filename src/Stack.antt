-- ===== src/Stack.antt =====
-- stack.c, the stack of call contexts. `top` and `capacity` are `int`s: a capacity that would reach
-- 2 ^ 31 is an overflow, and so a fault. The array is a list of cells of length `capacity`, in which
-- `none` is a cell that nothing has written; `malloc` and `realloc` do not fail.
pub mod Holds
mod Tests
use clojit_cvm.Common.{
  ℕ, ◌+◌, ◌-◌, ◌*◌, ◌^◌, Option, none, some, List, ◌∷◌, [], ◌++◌, ltb, leb, ◌==◌, if◌then◌else◌,
  get_elem?, set, length, replicate, Out, text, dec, Res, ok, exit, fault, and_then, or_fault,
}

pub record Context : Type 0 where
  pub base_slot : ℕ
  pub ip : ℕ

abbrev pub stack_initial_capacity : ℕ
stack_initial_capacity = 10

pub record Stack : Type 0 where
  pub top : ℕ
  pub capacity : ℕ
  pub cells : List (Option Context)

unfoldable pub stack_init : Stack
stack_init = record {
  top = 0;
  capacity = stack_initial_capacity;
  cells = replicate stack_initial_capacity none;
}

-- `realloc` to a larger array keeps the cells.
unfoldable pub stack_double_capacity_if_full : Stack → Res Stack
stack_double_capacity_if_full s =
    let capacity = s.capacity * 2 in
    if leb s.capacity s.top
    then (if ltb capacity (2 ^ 31)
        then ok (record s {
          capacity = capacity;
          cells = s.cells ++ replicate (capacity - length s.cells) none;
        })
        else fault)
    else ok s

-- `data[top++] = ctx`
unfoldable pub place : Context → Stack → Res Stack
place ctx s =
    if ltb s.top (length s.cells)
    then ok (record s { cells = set s.cells s.top (some ctx); top = s.top + 1 })
    else fault

unfoldable pub push : Stack → Context → Res Stack
unfolding stack_double_capacity_if_full place
push s ctx = and_then (stack_double_capacity_if_full s) (place ctx)

-- The message shows the index -1, by its 32-bit pattern.
abbrev pub out_of_bounds : List Out
out_of_bounds =
    text "Index "
    ∷ dec 0xFFFF_FFFF
    ∷ text " out of bounds for stack of top "
    ∷ dec 0xFFFF_FFFF
    ∷ text "\n"
    ∷ []

-- `top--` runs first: at 0 it gives -1, and the process exits.
unfoldable pub pop : Stack → Res (Context × Stack)
pop s =
    let top = s.top - 1 in
    if s.top == 0
    then exit 1 out_of_bounds
    else and_then (and_then (or_fault (get_elem? s.cells top)) or_fault)
        λ ctx. ok (ctx, record s { top = top })
