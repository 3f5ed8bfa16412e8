-- ===== src/Stack/Tests.antt =====
-- A stack with two contexts.
use clojit_cvm.Common.{refl, arith, none, some, ok, [], ◌∷◌, replicate, Follows}
use clojit_cvm.Stack.{Context, Stack, push, pop}
use clojit_cvm.Stack.Holds.{Holds, Popped, push-Follows, pop-Follows}

abbrev outer : Context
outer = record { base_slot = 0; ip = 4 }

abbrev inner : Context
inner = record { base_slot = 3; ip = 9 }

abbrev nested : Stack
nested = record { top = 2; capacity = 10; cells = some outer ∷ some inner ∷ replicate 8 none }

nested-Holds : Holds nested (inner ∷ outer ∷ [])
nested-Holds = record {
  rest = replicate 8 none;
  top_is = refl;
  cells_are = refl;
  room = refl;
  positive = omega arith;
}

push_example : Follows Holds (push nested inner) (ok (inner ∷ inner ∷ outer ∷ []))
push_example = push-Follows {s = nested} {cs = inner ∷ outer ∷ []} inner nested-Holds

pop_example : Follows Popped (pop nested) (ok (inner, outer ∷ []))
pop_example = pop-Follows {s = nested} (inner ∷ outer ∷ []) nested-Holds
