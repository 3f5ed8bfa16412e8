-- ===== src/Store.antt =====
-- What the machine uses of slots.c and stack.c: the calls, as one interface. `Arrays` fills it with
-- the code, `Lists` with the abstract view, and `Refines` says what relates two of them.
pub mod Arrays
pub mod Lists
pub mod Refines
pub mod Bounds
use clojit_cvm.Common.{ℕ, List, Out, Res}
use clojit_cvm.Stack.{Context}

pub record Store : Type 1 where
  pub Slots : Type 0
  pub Stack : Type 0
  pub slots_init : Slots
  pub slots_get : Slots → ℕ → Res (ℕ × Slots)
  pub slots_set : Slots → ℕ → ℕ → Res Slots
  -- what the calls have printed, and the slots without it
  pub flush : Slots → List Out × Slots
  -- the field `size`, and an assignment to it
  pub size : Slots → ℕ
  pub set_size : Slots → ℕ → Res Slots
  pub stack_init : Stack
  pub push : Stack → Context → Res Stack
  pub pop : Stack → Res (Context × Stack)
