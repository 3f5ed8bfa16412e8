-- ===== src/Execute/Blocks.antt =====
-- BULKMOV: a block of slots is copied, slot by slot from the first.
use clojit_cvm.Common.{
  ℕ, zero, suc, ◌+◌, ◌^◌, ◌<◌, ◌≤◌, ◌≡◌, ◌≢◌, ◌⊎◌, inl, inr, refl, ◌∙◌, ap, arith, some, List, [],
  ◌∷◌, length, get_elem?, lt-of_get_elem?, u32, ok,
}
use clojit_cvm.Slots.Holds.{put, get_elem?-put_self, get_elem?-put_ne}
use clojit_cvm.Host.{Host}
use clojit_cvm.Vm.{move, next}
use clojit_cvm.Handlers.Constants.{move_slots, bulkmov}
use clojit_cvm.Execute.Plain.{PlainVm, slot?, get_lem, set_lem}

-- The values stand from the index `at` on.
abbrev pub Stand : List ℕ → ℕ → List ℕ → Type 0
Stand xs at vs = (j v : ℕ) → get_elem? vs j ≡ some v → get_elem? xs (at + j) ≡ some v

-- Outside `n` slots from `at` on, what was there is still there.
abbrev pub KeptOutside : List ℕ → ℕ → ℕ → List ℕ → Type 0
KeptOutside xs at n ys =
    (k w : ℕ) → (k < at) ⊎ (at + n ≤ k) → get_elem? xs k ≡ some w → get_elem? ys k ≡ some w

-- Copied from the first on, no slot of the source is written before it is read.
abbrev pub Clear : ℕ → ℕ → ℕ → Type 0
Clear n to from = (to ≤ from) ⊎ (from + n ≤ to)

move_lem :
    {H : Host} (vm : PlainVm H) (to from v : ℕ)
    → vm.base + to < 2 ^ 31
    → vm.base + from < 2 ^ 32
    → slot? vm from ≡ some v
    → move to from vm ≡ ok (tt, record vm { slots = put vm.slots (vm.base + to) v })
unfolding move
move_lem vm to from v h k e = rw (get_lem vm from v k e) (set_lem vm to v h)

Clear-ne : (b n to from j : ℕ) → Clear (suc n) to from → j < n → b + to ≢ b + (from + 1) + j
Clear-ne b n to from j (inl le) h e = omega arith
Clear-ne b n to from j (inr ge) h e = omega arith

Clear-next : (n to from : ℕ) → Clear (suc n) to from → Clear n (to + 1) (from + 1)
Clear-next n to from (inl le) = inl (omega arith)
Clear-next n to from (inr ge) = inr (omega arith)

-- The rest of the block still stands when its first slot has been copied.
rest-Stand :
    (xs vs : List ℕ) (b to from v : ℕ)
    → Clear (suc (length vs)) to from
    → Stand xs (b + from) (v ∷ vs)
    → Stand (put xs (b + to) v) (b + (from + 1)) vs
rest-Stand xs vs b to from v clear h j w e =
    let next : b + from + suc j ≡ b + (from + 1) + j = omega arith in
    get_elem?-put_ne xs (b + to) (b + (from + 1) + j) v w
      (Clear-ne b (length vs) to from j clear (lt-of_get_elem? vs j w e))
      (rw (← next) (h (suc j) w e))

-- What the copied rest, and what it keeps, say of the whole block.
whole-Stand :
    (xs ys vs : List ℕ) (b to v : ℕ)
    → Stand ys (b + (to + 1)) vs
    → KeptOutside (put xs (b + to) v) (b + (to + 1)) (length vs) ys
    → Stand ys (b + to) (v ∷ vs)
whole-Stand xs ys vs b to v h kept zero w e =
    let same : v ≡ w = cc in
    let here : b + to + 0 ≡ b + to = omega arith in
    rw here (
      kept (b + to) w (inl (omega arith))
        (get_elem?-put_self xs (b + to) v ∙ ap (λ (w : ℕ). some w) same))
whole-Stand xs ys vs b to v h kept (suc j) w e =
    let next : b + to + suc j ≡ b + (to + 1) + j = omega arith in rw next (h j w e)

whole-KeptOutside :
    (xs ys vs : List ℕ) (b to v : ℕ)
    → KeptOutside (put xs (b + to) v) (b + (to + 1)) (length vs) ys
    → KeptOutside xs (b + to) (suc (length vs)) ys
whole-KeptOutside xs ys vs b to v kept k w (inl before) e =
    kept k w (inl (omega arith)) (get_elem?-put_ne xs (b + to) k v w (λ same. omega arith) e)
whole-KeptOutside xs ys vs b to v kept k w (inr behind) e =
    kept k w (inr (omega arith)) (get_elem?-put_ne xs (b + to) k v w (λ same. omega arith) e)

move_slots_lem :
    {H : Host} (vs : List ℕ) (vm : PlainVm H) (to from : ℕ)
    → vm.base + to + length vs < 2 ^ 31
    → vm.base + from + length vs < 2 ^ 32
    → Clear (length vs) to from
    → Stand vm.slots (vm.base + from) vs
    → (ys : List ℕ) × (move_slots (length vs) to from vm ≡ ok (tt, record vm { slots = ys }))
      × Stand ys (vm.base + to) vs
      × KeptOutside vm.slots (vm.base + to) (length vs) ys
unfolding move_slots
move_slots_lem [] vm to from h k clear stand = (vm.slots, refl, (λ j v e. cc), λ i w outside e. e)
move_slots_lem (v ∷ vs) vm to from h k clear stand =
    let here : vm.base + from + 0 ≡ vm.base + from = omega arith in
    let moved = move_lem vm to from v (omega arith) (omega arith) (rw (← here) (stand 0 v refl)) in
    let (ys, runs, copied, kept) =
      move_slots_lem vs (record vm { slots = put vm.slots (vm.base + to) v }) (to + 1) (from + 1)
        (omega arith) (omega arith) (Clear-next (length vs) to from clear)
        (rest-Stand vm.slots vs vm.base to from v clear stand) in
    (
      ys,
      rw moved runs,
      whole-Stand vm.slots ys vs vm.base to v copied kept,
      whole-KeptOutside vm.slots ys vs vm.base to v kept,
    )

-- Where the slots of a block are in range, and it is copied to indices below it, or to such as begin behind it:
-- BULKMOV copies the block as it was, also where the two overlap, keeps every other slot that was there, and goes
-- on with the next instruction.
pub bulkmov_lem :
    {H : Host} (vm : PlainVm H) (vs : List ℕ) (a b : ℕ)
    → vm.base + a + length vs < 2 ^ 31
    → vm.base + b + length vs < 2 ^ 32
    → Clear (length vs) a b
    → Stand vm.slots (vm.base + b) vs
    → (ys : List ℕ) × (bulkmov a b (length vs) vm
        ≡ ok (tt, record vm { slots = ys; pc = u32 (vm.pc + 1) }))
      × Stand ys (vm.base + a) vs
      × KeptOutside vm.slots (vm.base + a) (length vs) ys
unfolding bulkmov next
bulkmov_lem vm vs a b h k clear stand =
    let (ys, runs, copied, kept) = move_slots_lem vs vm a b h k clear stand in
    (ys, rw runs refl, copied, kept)
