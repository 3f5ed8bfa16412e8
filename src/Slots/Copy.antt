-- ===== src/Slots/Copy.antt =====
-- The two reallocations keep the slots: growing when full, and shrinking when mostly empty.
use clojit_cvm.Common.{
  inl, inr, Bool-cases, ℕ, zero, suc, ◌-◌, ◌*◌, ◌/◌, ◌^◌, ◌≤◌, ◌<◌, ◌≡◌, ◌≢◌, refl, arith, Option,
  some, none, List, [], ◌∷◌, ◌++◌, map, length, drop, length-drop, length-replicate, ok, Yields,
  leb, u32, Out,
}
use native.Mathlib.Nat.{pow-suc, one-le-pow}
use clojit_cvm.Slots.{
  Codes, RootCall, Slots, malloc, copy, reallocate, slots_double_capacity_if_full,
  slots_half_capacity,
}
use clojit_cvm.Slots.Holds.{Holds}
use clojit_cvm.Setup.{complaint}

copy_lem :
    (xs : List ℕ) (rest fresh : List (Option ℕ))
    → length xs ≤ length fresh
    → copy (length xs) (map some xs ++ rest) fresh ≡ ok (map some xs ++ drop (length xs) fresh)
unfolding copy
copy_lem [] rest fresh h = refl
copy_lem (x ∷ xs) rest [] h = elim h [ ]
copy_lem (x ∷ xs) rest (c ∷ fresh) h = rw (copy_lem xs rest fresh (omega arith))

-- A fresh array of any sufficient capacity of the right form holds the slots again.
reallocate-Holds :
    {codes : Codes} {s : Slots codes} {xs : List ℕ} (message : Out) (k c : ℕ)
    → Holds s xs
    → c ≡ 10 * 2 ^ k
    → length xs ≤ c
    → Yields (λ s'. Holds s' xs × (s'.capacity ≡ c)) (reallocate message c s)
unfolding reallocate
reallocate-Holds {codes} {s} {xs} message k c h e fits = (
  record s {
    capacity = c;
    cells = map some xs ++ drop (length xs) (malloc c);
    requests = suc s.requests;
    calls =
        s.calls
        ++ RootCall.root_create_table_masked (suc s.requests) c
          ∷ RootCall.root_destroy s.requests
          ∷ [];
    printed = s.printed ++ complaint (codes s.requests) message;
  },
  rw (h.size_is, h.cells_are, copy_lem xs h.rest (malloc c) (omega (arith, count))),
  (
    record {
      doublings = k;
      rest = drop (length xs) (malloc c);
      capacity_is = e;
      size_is = h.size_is;
      cells_are = refl;
      room = omega (arith, length-drop (length xs) (malloc c), count);
      quiet = λ granted. rw (h.quiet granted, granted s.requests) refl;
    },
    refl,
  ),
)
  where
    count : length (malloc c) ≡ c
    count = length-replicate c none

halved : (c k : ℕ) → c ≡ 10 * 2 ^ k → c ≢ 10 → c / 2 ≡ 10 * 2 ^ (k - 1)
halved c zero e ne = absurd (ne e)
halved c (suc k) e ne =
    let one_less : suc k - 1 ≡ k = omega arith in rw one_less (omega (arith, pow-suc 2 k))

-- Doubling a full array keeps its slots and makes room for one more.
pub double_Holds :
    {codes : Codes} {s : Slots codes} {xs : List ℕ}
    → Holds s xs
    → length xs < 2 ^ 31
    → Yields (λ s'. Holds s' xs × (length xs < s'.capacity)) (slots_double_capacity_if_full s)
unfolding slots_double_capacity_if_full
double_Holds {s} {xs} h small = elim (Bool-cases (leb s.capacity s.size)) [
  | inl full ↦
      let wide : s.capacity * 2 < 2 ^ 32 = ground (arith, h.size_is) in
      let twice : u32 (s.capacity * 2) ≡ 10 * 2 ^ suc h.doublings =
        omega (arith, h.capacity_is, pow-suc 2 h.doublings) in
      let (s', e, held) =
        reallocate-Holds {s = s} {xs = xs} _ (suc h.doublings) (u32 (s.capacity * 2)) h twice
          (omega (arith, h.room)) in
      rw full
        (s', e, (held.0, omega (arith, held.1, h.room, h.capacity_is, one-le-pow h.doublings 2)))
  | inr free ↦ rw free (s, refl, (h, ground (arith, h.size_is)))
]

-- Halving an array that is mostly empty keeps its slots.
pub half_Holds :
    {codes : Codes} {s : Slots codes} {xs : List ℕ}
    → Holds s xs
    → s.capacity ≢ 10
    → 5 * length xs ≤ 3 * (s.capacity / 2)
    → Yields (λ s'. Holds s' xs) (slots_half_capacity s)
unfolding slots_half_capacity
half_Holds {s} {xs} h big few =
    let (s', e, held) =
      reallocate-Holds {s = s} {xs = xs} _ (h.doublings - 1) (s.capacity / 2) h
        (halved s.capacity h.doublings h.capacity_is big) (omega arith) in
    (s', e, held.0)
