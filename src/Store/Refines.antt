-- ===== src/Store/Refines.antt =====
-- When one store implements another, and that the arrays implement the lists.
use clojit_cvm.Common.{
  ℕ, refl, ltb→lt, ◌^◌, ◌≡◌, arith, inl, inr, Bool-cases, List, [], ltb, leb, length, Follows,
  returns, exits, faults, Follows-returns,
}
use clojit_cvm.Slots.{Codes, AllGranted, Slots}
use clojit_cvm.Slots.Holds.{Holds as HoldsSlots, put}
use clojit_cvm.Slots.Access.{slots_init-Holds, slots_get-Holds, slots_set-Holds, truncate_Holds}
use clojit_cvm.Stack.{Context}
use clojit_cvm.Stack.Holds.{Holds as HoldsContexts, stack_init-Holds, push-Follows, pop-Follows}
use clojit_cvm.Store.{Store}
use clojit_cvm.Store.Arrays.{array_store}
use clojit_cvm.Store.Lists.{list_store}

-- `C` implements `L`: a relation of the states that every call keeps, with related results.
pub record Implements (C L : Store) : Type 1 where
  pub Slots : C.Slots → L.Slots → Type 0
  pub Stack : C.Stack → L.Stack → Type 0
  pub slots_init-Follows : Slots C.slots_init L.slots_init
  pub slots_get-Follows :
      (s : C.Slots) (t : L.Slots) (i : ℕ)
      → Slots s t
      → Follows (λ p q. (p.0 ≡ q.0) × Slots p.1 q.1) (C.slots_get s i) (L.slots_get t i)
  pub slots_set-Follows :
      (s : C.Slots) (t : L.Slots) (i v : ℕ)
      → Slots s t
      → Follows Slots (C.slots_set s i v) (L.slots_set t i v)
  pub flush-Follows :
      (s : C.Slots) (t : L.Slots)
      → Slots s t
      → ((C.flush s).0 ≡ (L.flush t).0) × Slots (C.flush s).1 (L.flush t).1
  pub size-Follows : (s : C.Slots) (t : L.Slots) → Slots s t → C.size s ≡ L.size t
  pub set_size-Follows :
      (s : C.Slots) (t : L.Slots) (n : ℕ)
      → Slots s t
      → Follows Slots (C.set_size s n) (L.set_size t n)
  pub stack_init-Follows : Stack C.stack_init L.stack_init
  pub push-Follows :
      (s : C.Stack) (t : L.Stack) (c : Context)
      → Stack s t
      → Follows Stack (C.push s c) (L.push t c)
  pub pop-Follows :
      (s : C.Stack) (t : L.Stack)
      → Stack s t
      → Follows (λ p q. (p.0 ≡ q.0) × Stack p.1 q.1) (C.pop s) (L.pop t)

module _ {codes : Codes} (granted : AllGranted codes) where
  pub get-Follows :
      (s : Slots codes) (xs : List ℕ) (i : ℕ)
      → HoldsSlots s xs
      → Follows
          (λ p q. (p.0 ≡ q.0) × HoldsSlots p.1 q.1)
          ((array_store codes).slots_get s i)
          (list_store.slots_get xs i)
  get-Follows s xs i h =
      let (s', h', e) = slots_get-Holds {s = s} {xs = xs} i h in
      elim (Bool-cases (ltb i (length xs))) [
        | inl below ↦ rw (e, below) (returns (refl, h'))
        | inr beyond ↦ rw (e, beyond, h'.quiet granted) exits
      ]

  pub set-Follows :
      (s : Slots codes) (xs : List ℕ) (i v : ℕ)
      → HoldsSlots s xs
      → Follows HoldsSlots ((array_store codes).slots_set s i v) (list_store.slots_set xs i v)
  set-Follows s xs i v h = elim (Bool-cases (ltb i (2 ^ 31))) [
    | inl small ↦ rw small (
        Follows-returns (put xs i v)
          (slots_set-Holds {s = s} {xs = xs} i v h (ltb→lt i (2 ^ 31) small)))
    | inr large ↦ rw large faults
  ]

  pub size-Follows :
      (s : Slots codes) (xs : List ℕ) (n : ℕ)
      → HoldsSlots s xs
      → Follows HoldsSlots ((array_store codes).set_size s n) (list_store.set_size xs n)
  size-Follows s xs n h = elim (Bool-cases (leb n (length xs))) [
    | inl within ↦ rw within (returns (truncate_Holds {s = s} {xs = xs} n h (ground arith)))
    | inr larger ↦ rw larger faults
  ]

  pub flushed :
      (s : Slots codes) (xs : List ℕ) → HoldsSlots s xs → HoldsSlots (record s { printed = [] }) xs
  flushed s xs h = record {
    doublings = h.doublings;
    rest = h.rest;
    capacity_is = h.capacity_is;
    size_is = h.size_is;
    cells_are = h.cells_are;
    room = h.room;
    quiet = λ _. refl;
  }

  -- The growing arrays of slots.c and stack.c, started empty, behave on every call as the lists of the
  -- slots and contexts that they hold, as long as the lists stay within their limits and the system makes a root of every array.
  unfoldable pub arrays_implement_lists : Implements (array_store codes) list_store
  arrays_implement_lists = record {
    Slots = HoldsSlots;
    Stack = HoldsContexts;
    slots_init-Follows = slots_init-Holds;
    slots_get-Follows = get-Follows;
    slots_set-Follows = set-Follows;
    flush-Follows = λ s xs h. (h.quiet granted, flushed s xs h);
    size-Follows = λ s xs h. h.size_is;
    set_size-Follows = size-Follows;
    stack_init-Follows = stack_init-Holds;
    push-Follows = λ s cs c h. push-Follows c h;
    pop-Follows = λ s cs h. pop-Follows cs h;
  }
