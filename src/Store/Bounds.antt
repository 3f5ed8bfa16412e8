-- ===== src/Store/Bounds.antt =====
-- How far the lists of slots and contexts grow: the store of lists, related to itself within the bounds.
use clojit_cvm.Common.{
  ℕ, ◌+◌, ◌-◌, ◌^◌, ◌≤◌, ◌<◌, ◌≡◌, refl, ap, arith, inl, inr, Bool-cases, List, [], ◌∷◌, ltb, leb,
  ltb→lt, length, length-append, length-replicate, length-set, length-take, replicate, Follows,
  returns, exits, faults,
}
use clojit_cvm.Slots.Holds.{put, pad}
use clojit_cvm.Stack.{Context}
use clojit_cvm.Stack.Holds.{depth_limit, push_list, pop_list}
use clojit_cvm.Store.Refines.{Implements}
use clojit_cvm.Store.Lists.{list_store, get_list, set_list, set_size_list}

abbrev pub SlotsWithin : List ℕ → List ℕ → Type 0
SlotsWithin xs ys = (xs ≡ ys) × (length ys ≤ 2 ^ 31)

abbrev pub StackWithin : List Context → List Context → Type 0
StackWithin cs ds = (cs ≡ ds) × (length ds ≤ depth_limit)

length-put_le :
    (xs : List ℕ) (i v bound : ℕ) → length xs ≤ bound → i < bound → length (put xs i v) ≤ bound
length-put_le xs i v bound h h' = omega (
  arith,
  length-set (pad (i + 1) xs) i v,
  length-append xs (replicate (i + 1 - length xs) 0),
  length-replicate {0} {A = ℕ} (i + 1 - length xs) 0,
)

pub get_within :
    (xs ys : List ℕ) (i : ℕ)
    → SlotsWithin xs ys
    → Follows (λ p q. (p.0 ≡ q.0) × SlotsWithin p.1 q.1) (get_list xs i) (get_list ys i)
get_within xs ys i h = rw (h.0) (elim (Bool-cases (ltb i (length ys))) [
  | inl below ↦ rw below (returns (refl, (refl, h.1)))
  | inr beyond ↦ rw beyond exits
])

pub set_within :
    (xs ys : List ℕ) (i v : ℕ)
    → SlotsWithin xs ys
    → Follows SlotsWithin (set_list xs i v) (set_list ys i v)
set_within xs ys i v h = rw (h.0) (elim (Bool-cases (ltb i (2 ^ 31))) [
  | inl small ↦
      rw small (returns (refl, length-put_le ys i v (2 ^ 31) h.1 (ltb→lt i (2 ^ 31) small)))
  | inr large ↦ rw large faults
])

pub set_size_within :
    (xs ys : List ℕ) (n : ℕ)
    → SlotsWithin xs ys
    → Follows SlotsWithin (set_size_list xs n) (set_size_list ys n)
set_size_within xs ys n h = rw (h.0) (elim (Bool-cases (leb n (length ys))) [
  | inl within ↦
      let le : n ≤ length ys = ground arith in
      rw within (returns (refl, omega (arith, length-take n ys le, h.1)))
  | inr larger ↦ rw larger faults
])

pub push_within :
    (cs ds : List Context) (c : Context)
    → StackWithin cs ds
    → Follows StackWithin (push_list cs c) (push_list ds c)
push_within cs ds c h = rw (h.0) (elim (Bool-cases (ltb (length ds) depth_limit)) [
  | inl small ↦ rw small (returns (refl, ltb→lt (length ds) depth_limit small))
  | inr deep ↦ rw deep faults
])

pub pop_within :
    (cs ds : List Context)
    → StackWithin cs ds
    → Follows (λ p q. (p.0 ≡ q.0) × StackWithin p.1 q.1) (pop_list cs) (pop_list ds)
pop_within cs [] h = rw (h.0) exits
pop_within cs (d ∷ ds) h = rw (h.0) (returns (refl, (refl, omega (arith, h.1))))

-- The store of lists keeps its own bounds.
unfoldable pub lists_implement_lists : Implements list_store list_store
lists_implement_lists = record {
  Slots = SlotsWithin;
  Stack = StackWithin;
  slots_init-Follows = (refl, omega arith);
  slots_get-Follows = get_within;
  slots_set-Follows = set_within;
  flush-Follows = λ s t h. (refl, h);
  size-Follows = λ s t h. ap (λ (xs : List ℕ). length xs) h.0;
  set_size-Follows = set_size_within;
  stack_init-Follows = (refl, omega arith);
  push-Follows = push_within;
  pop-Follows = pop_within;
}
