-- ===== src/Start/Bounds.antt =====
-- The arrays at the end of a run.
use clojit_cvm.Common.{ℕ, ◌^◌, ◌≤◌, ◌≡◌, refl, ap, ◌∙◌, subst, arith, Res, ok, Follows, returns}
use clojit_cvm.Slots.Holds.{Holds as HoldsSlots}
use clojit_cvm.Stack.Holds.{Holds as HoldsContexts, depth_limit}
use clojit_cvm.Store.Arrays.{array_store}
use clojit_cvm.Store.Lists.{list_store}
use clojit_cvm.Store.Refines.{arrays_implement_lists}
use clojit_cvm.Store.Bounds.{lists_implement_lists}
use clojit_cvm.Slots.{Codes, AllGranted}
use clojit_cvm.Host.{Host}
use clojit_cvm.Vm.{Vm}
use clojit_cvm.Vm.Refines.{Same}
use clojit_cvm.Loader.{Opened}
use clojit_cvm.Start.{start}
use clojit_cvm.Start.Refines.{start-Follows}

-- What follows a result that returns.
Follows-of_ok :
    {A B : Type 0} {R : A → B → Type 0} {x : Res A} {b : B}
    → Follows R x (ok b)
    → (a : A) × (x ≡ ok a) × R a b
Follows-of_ok (returns h) = (_, refl, h)

-- The machine `a` over the arrays, at the end of a run that ends with the machine `l` over lists.
pub record IsSound {codes : Codes} {H : Host} (a : Vm (array_store codes) H) (l : Vm list_store H)
    : Type 0 where
  pub slots : HoldsSlots a.slots l.slots
  pub stack : HoldsContexts a.stack l.stack
  pub slots_fit : a.slots.size ≤ 2 ^ 31
  pub slots_room : a.slots.size ≤ a.slots.capacity
  pub stack_fits : a.stack.top ≤ depth_limit
  pub stack_room : a.stack.top ≤ a.stack.capacity

-- Where the Memory Pool System makes a root of every array that slots.c reallocates: whenever the program over plain lists returns, the program over the growing arrays returns the same
-- status, with arrays that are well formed and hold exactly the lists' slots and contexts; there are at most
-- 2 ^ 31 slots and 2 ^ 30 contexts, and no more than the capacities.
pub start-IsSound :
    {codes : Codes} {H : Host} (fuel rounds : ℕ) (opened : Opened) (errno status : ℕ)
    (l : Vm list_store H)
    → AllGranted codes
    → start list_store H fuel rounds opened errno ≡ ok (status, l)
    → (a : Vm (array_store codes) H) × (start (array_store codes) H fuel rounds opened errno
        ≡ ok (status, a))
      × IsSound a l
unfolding arrays_implement_lists lists_implement_lists
start-IsSound {codes} {H} fuel rounds opened errno status l granted e =
    let (p, is, (same, agrees)) = Follows-of_ok (
      subst
        (λ (r : Res (ℕ × Vm list_store H)).
          Follows (Same (arrays_implement_lists granted))
            (start (array_store codes) H fuel rounds opened errno) r)
        e (start-Follows (arrays_implement_lists granted) H fuel rounds opened errno)) in
    let (q, _, (_, within)) = Follows-of_ok (
      subst
        (λ (r : Res (ℕ × Vm list_store H)).
          Follows (Same lists_implement_lists) (start list_store H fuel rounds opened errno) r)
        e (start-Follows lists_implement_lists H fuel rounds opened errno)) in
    (
      p.1,
      is ∙ ap (λ (n : ℕ). ok (n, p.1)) same,
      record {
        slots = agrees.slots;
        stack = agrees.stack;
        slots_fit = omega (arith, agrees.slots.size_is, within.slots.1);
        slots_room = omega (arith, agrees.slots.size_is, agrees.slots.room);
        stack_fits = omega (arith, agrees.stack.top_is, within.stack.1);
        stack_room = omega (arith, agrees.stack.top_is, agrees.stack.room);
      },
    )
