-- ===== src/Stack/Holds.antt =====
-- The contexts that a stack holds, last pushed first: the abstract view of stack.c.
use clojit_cvm.Common.{
  Follows, returns, exits, faults, Follows-returns, fault, ℕ, suc, ◌+◌, ◌-◌, ◌*◌, ◌^◌, ◌≤◌, ◌<◌,
  ◌≡◌, refl, ap, ◌∙◌, arith, inl, inr, Bool-cases, Option, some, none, List, [], ◌∷◌, ◌++◌, length,
  set, replicate, length-replicate, get_elem?, length-append, set-append_length,
  get_elem?-append_length, subst, ok, exit, and_then, Yields, leb, ltb, lt→ltb, if◌then◌else◌, Res,
}
use mathlib.Core.List.{append_assoc}
use clojit_cvm.Stack.{
  Stack, Context, stack_init, stack_double_capacity_if_full, place, push, pop, out_of_bounds,
}

-- The written cells: the contexts in the order in which they were pushed.
abbrev pub pushed : List Context → List (Option Context)
pushed [] = []
pushed (c ∷ cs) = pushed cs ++ some c ∷ []

-- The stack `s` is well formed and holds exactly the contexts `cs`, the top one first.
pub record Holds (s : Stack) (cs : List Context) : Type 0 where
  pub rest : List (Option Context)
  pub top_is : s.top ≡ length cs
  pub cells_are : s.cells ≡ pushed cs ++ rest
  pub room : length cs + length rest ≡ s.capacity
  pub positive : 10 ≤ s.capacity

pub length-pushed : (cs : List Context) → length (pushed cs) ≡ length cs
length-pushed [] = refl
length-pushed (c ∷ cs) = omega (arith, length-append (pushed cs) (some c ∷ []), length-pushed cs)

-- The fresh stack is well formed and holds nothing.
pub stack_init-Holds : Holds stack_init []
unfolding stack_init
stack_init-Holds = record {
  rest = replicate 10 none;
  top_is = refl;
  cells_are = refl;
  room = refl;
  positive = omega arith;
}

cells_count : {s : Stack} {cs : List Context} → Holds s cs → length s.cells ≡ s.capacity
cells_count {s} {cs} h = omega (
  arith,
  ap (λ (xs : List (Option Context)). length xs) h.cells_are,
  length-append (pushed cs) h.rest,
  length-pushed cs,
  h.room,
)

-- The number of contexts for which the capacity, ten times a power of two, stays below 2 ^ 31.
abbrev pub depth_limit : ℕ
depth_limit = 2 ^ 30

double_Holds :
    {s : Stack} {cs : List Context}
    → Holds s cs
    → length cs < depth_limit
    → Yields (λ s'. Holds s' cs × (length cs < s'.capacity)) (stack_double_capacity_if_full s)
unfolding stack_double_capacity_if_full
double_Holds {s} {cs} h small = elim (Bool-cases (leb s.capacity s.top)) [
  | inl full ↦
      let fits : s.capacity * 2 < 2 ^ 31 = ground (arith, h.top_is) in
      let fresh : List (Option Context) = replicate (s.capacity * 2 - length s.cells) none in
      rw (full, lt→ltb _ _ fits)
        (
          record { top = s.top; capacity = s.capacity * 2; cells = s.cells ++ fresh },
          refl,
          (
            record {
              rest = h.rest ++ fresh;
              top_is = h.top_is;
              cells_are =
                  ap (λ xs. xs ++ fresh) h.cells_are ∙ append_assoc (pushed cs) h.rest fresh;
              room = omega (
                arith,
                h.room,
                cells_count h,
                length-append h.rest fresh,
                length-replicate {0} {A = Option Context} (s.capacity * 2 - length s.cells) none,
              );
              positive = omega (arith, h.positive);
            },
            omega (arith, h.room, h.positive),
          ),
        )
  | inr free ↦ rw free (s, refl, (h, ground (arith, h.top_is)))
]

extend_cells :
    (cs : List Context) (rest : List (Option Context)) (c : Context)
    → 0 < length rest
    → (rest' : List (Option Context)) × (length rest ≡ suc (length rest'))
      × (set (pushed cs ++ rest) (length cs) (some c) ≡ pushed (c ∷ cs) ++ rest')
extend_cells cs [] c h = elim h [ ]
extend_cells cs (x ∷ rest) c h = (
  rest,
  refl,
  rw append_assoc (
      subst (λ n. set (pushed cs ++ x ∷ rest) n (some c) ≡ pushed cs ++ some c ∷ rest)
        (length-pushed cs) (set-append_length (pushed cs) x (some c) rest)),
)

place-Holds :
    {s : Stack} {cs : List Context} (c : Context)
    → Holds s cs
    → length cs < s.capacity
    → Yields (λ s'. Holds s' (c ∷ cs)) (place c s)
unfolding place
place-Holds {s} {cs} c h free =
    let (rest, count, written) = extend_cells cs h.rest c (omega (arith, h.room)) in
    rw (lt→ltb s.top (length s.cells) (omega (arith, cells_count h, h.top_is))) (
      record { top = s.top + 1; capacity = s.capacity; cells = set s.cells s.top (some c) },
      refl,
      record {
        rest = rest;
        top_is = omega (arith, h.top_is);
        cells_are = rw (h.top_is, h.cells_are) written;
        room = omega (arith, h.room, count);
        positive = h.positive;
      },
    )

-- The calls on the list of contexts. `push_list` faults where the stack may no longer grow.
abbrev pub push_list : List Context → Context → Res (List Context)
push_list cs c = if ltb (length cs) depth_limit then ok (c ∷ cs) else fault

abbrev pub pop_list : List Context → Res (Context × List Context)
pop_list [] = exit 1 out_of_bounds
pop_list (c ∷ cs) = ok (c, cs)

-- Pushing onto a stack that holds fewer than 2 ^ 30 contexts returns one that holds the new context
-- on top of the old ones.
pub push-Follows :
    {s : Stack} {cs : List Context} (c : Context)
    → Holds s cs
    → Follows Holds (push s c) (push_list cs c)
unfolding push
push-Follows {s} {cs} c h = elim (Bool-cases (ltb (length cs) depth_limit)) [
  | inl small ↦
      let (s', e, held) = double_Holds {s = s} {cs = cs} h (ground arith) in
      let (s'', e', h') = place-Holds {s = s'} {cs = cs} c held.0 held.1 in
      rw small (Follows-returns (c ∷ cs) (s'', ap (λ r. and_then r (place c)) e ∙ e', h'))
  | inr deep ↦ rw deep faults
]

abbrev pub Popped : Context × Stack → Context × List Context → Type 0
Popped p q = (p.0 ≡ q.0) × Holds p.1 q.1

read_top :
    (cs : List Context) (c : Context) (rest : List (Option Context))
    → get_elem? (pushed (c ∷ cs) ++ rest) (length cs) ≡ some (some c)
read_top cs c rest = rw append_assoc (
    subst (λ n. get_elem? (pushed cs ++ some c ∷ rest) n ≡ some (some c)) (length-pushed cs)
      (get_elem?-append_length (pushed cs) (some c) rest))

pop_empty : (s : Stack) → s.top ≡ 0 → pop s ≡ exit 1 out_of_bounds
unfolding pop
pop_empty s e = ground arith

pop_written :
    (s : Stack) (c : Context)
    → 0 < s.top
    → get_elem? s.cells (s.top - 1) ≡ some (some c)
    → pop s ≡ ok (c, record s { top = s.top - 1 })
unfolding pop
pop_written s c h e = ground arith

-- Popping a stack that holds contexts returns the top one and leaves the others; popping one that
-- holds none exits with status 1 and the message.
pub pop-Follows :
    {s : Stack} (cs : List Context) → Holds s cs → Follows Popped (pop s) (pop_list cs)
pop-Follows {s} [] h = rw (pop_empty s h.top_is) exits
pop-Follows {s} (c ∷ cs) h =
    let below : s.top - 1 ≡ length cs = omega (arith, h.top_is) in
    let found : get_elem? s.cells (s.top - 1) ≡ some (some c) =
      rw (below, h.cells_are) (read_top cs c h.rest) in
    rw (pop_written s c (omega (arith, h.top_is)) found) (
      returns (
        refl,
        record {
          rest = some c ∷ h.rest;
          top_is = below;
          cells_are = h.cells_are ∙ append_assoc (pushed cs) (some c ∷ []) h.rest;
          room = omega (arith, h.room);
          positive = h.positive;
        },
      ))
