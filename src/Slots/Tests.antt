-- ===== src/Slots/Tests.antt =====
-- An array with three slots, in a capacity that is halved at the next read.
use clojit_cvm.Common.{
  zero, suc, ◌≡◌, refl, arith, ok, List, ◌++◌, exit, text, none, some, [], ◌∷◌, replicate, Yields,
}
use clojit_cvm.Slots.{Codes, RootCall, Slots, out_of_bounds, slots_get, slots_set}
use clojit_cvm.Slots.Holds.{Holds}
use clojit_cvm.Slots.Access.{slots_get-Holds, slots_set-Holds}

-- The system refuses the first root alone.
abbrev codes : Codes
codes zero = 1
codes (suc k) = 0

abbrev sparse : Slots codes
sparse = record {
  size = 3;
  capacity = 40;
  cells = some 5 ∷ some 6 ∷ some 7 ∷ replicate 37 none;
  requests = 0;
  calls = [];
  printed = [];
}

sparse-Holds : Holds sparse (5 ∷ 6 ∷ 7 ∷ [])
sparse-Holds = record {
  doublings = 2;
  rest = replicate 37 none;
  capacity_is = refl;
  size_is = refl;
  cells_are = refl;
  room = refl;
  quiet = λ _. refl;
}

-- Reading the last slot.
slots_get_example :
    (s' : Slots codes) × Holds s' (5 ∷ 6 ∷ 7 ∷ []) × (slots_get sparse 2 ≡ ok (7, s'))
slots_get_example = slots_get-Holds {s = sparse} {xs = 5 ∷ 6 ∷ 7 ∷ []} 2 sparse-Holds

-- Writing a slot two behind the end.
slots_set_example : Yields (λ s'. Holds s' (5 ∷ 6 ∷ 7 ∷ 0 ∷ 9 ∷ [])) (slots_set sparse 4 9)
slots_set_example =
    slots_set-Holds {s = sparse} {xs = 5 ∷ 6 ∷ 7 ∷ []} 4 9 sparse-Holds (omega arith)

-- The first root is refused, and then the index.
refused :
    slots_get sparse 7
    ≡ exit 1 (text "Couldn't create root for increased slots\n" ∷ out_of_bounds 7 3)
unfolding slots_get
refused = refl

abbrev twice_reallocated : List RootCall
twice_reallocated =
    RootCall.root_create_table_masked 1 20
    ∷ RootCall.root_destroy 0
    ∷ RootCall.root_create_table_masked 2 40
    ∷ RootCall.root_destroy 1
    ∷ []

-- The array grown twice, and then halved by a read and doubled by a write.
abbrev grown : Slots codes
grown = record sparse { requests = 2; calls = twice_reallocated }

abbrev halved : Slots codes
halved = record {
  size = 3;
  capacity = 20;
  cells = some 5 ∷ some 6 ∷ some 7 ∷ replicate 17 none;
  requests = 3;
  calls =
      twice_reallocated ++ RootCall.root_create_table_masked 3 20 ∷ RootCall.root_destroy 2 ∷ [];
  printed = [];
}

abbrev doubled : Slots codes
doubled = record {
  size = 21;
  capacity = 40;
  cells = some 5 ∷ some 6 ∷ some 7 ∷ replicate 17 (some 0) ++ some 9 ∷ replicate 19 none;
  requests = 4;
  calls = halved.calls ++ RootCall.root_create_table_masked 4 40 ∷ RootCall.root_destroy 3 ∷ [];
  printed = [];
}
