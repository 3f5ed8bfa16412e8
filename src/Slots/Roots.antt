-- ===== src/Slots/Roots.antt =====
-- The roots that slots.c asks for and gives up: one root is live, that of the array in use.
use clojit_cvm.Common.{ℕ, ◌≡◌, List, [], ◌∷◌, ◌==◌, if◌then◌else◌, Res, ok}
use clojit_cvm.Slots.{Codes, RootCall, Slots, slots_initial_capacity}

-- The roots without those of a number.
abbrev pub without : ℕ → List (ℕ × ℕ) → List (ℕ × ℕ)
without r [] = []
without r (x ∷ xs) = let rest = without r xs in if x.0 == r then rest else x ∷ rest

-- The live roots, with the counts of their words, after the calls.
abbrev pub live : List (ℕ × ℕ) → List RootCall → List (ℕ × ℕ)
live roots [] = roots
live roots (RootCall.root_create_table_masked root count ∷ calls) =
    live ((root, count) ∷ roots) calls
live roots (RootCall.root_destroy root ∷ calls) = live (without root roots) calls

-- One root is live: the last one that was asked for, of as many words as the array has cells.
abbrev pub Rooted : {codes : Codes} → Slots codes → Type 0
Rooted s = live ((0, slots_initial_capacity) ∷ []) s.calls ≡ (s.requests, s.capacity) ∷ []

-- What holds of a result whenever there is one.
abbrev Whenever : {A : Type 0} → (A → Type 0) → Res A → Type 0
Whenever P r = (a : _) → r ≡ ok a → P a
