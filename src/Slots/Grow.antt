-- ===== src/Slots/Grow.antt =====
-- Appending a slot, and filling up with zeros to an index.
use clojit_cvm.Common.{
  ℕ, zero, suc, ◌+◌, ◌^◌, ◌<◌, ◌≡◌, refl, ap, ◌∙◌, sym, arith, inl, inr, Bool-cases, Option, some,
  List, [], ◌∷◌, ◌++◌, map, length, set, length-append, length-map, set-append_length, subst, ok,
  and_then, Yields, leb, lt→ltb, u32,
}
use mathlib.Core.List.{map-append, append_assoc}
use clojit_cvm.Slots.{Codes, Slots, write_cell, slots_append, fill}
use clojit_cvm.Slots.Holds.{Holds, cells_count, pad, pad_id, pad-append_zero}
use clojit_cvm.Slots.Copy.{double_Holds}

-- The cell past the slots becomes one of them.
extend_cells :
    (xs : List ℕ) (rest : List (Option ℕ)) (v : ℕ)
    → 0 < length rest
    → (rest' : List (Option ℕ)) × (length rest ≡ suc (length rest'))
      × (set (map some xs ++ rest) (length xs) (some v) ≡ map some (xs ++ v ∷ []) ++ rest')
extend_cells xs [] v h = elim h [ ]
extend_cells xs (c ∷ rest) v h = (
  rest,
  refl,
  rw (map-append, append_assoc)
      (subst (λ n. set (map some xs ++ c ∷ rest) n (some v) ≡ map some xs ++ some v ∷ rest)
        (length-map some xs) (set-append_length (map some xs) c (some v) rest)),
)

-- In an array with room, a write just past the slots and one more on the size append a slot.
write_next_Holds :
    {codes : Codes} {s : Slots codes} {xs : List ℕ} (v : ℕ)
    → Holds s xs
    → length xs < s.capacity
    → length xs < 2 ^ 31
    → Yields
        (λ s'. Holds s' (xs ++ v ∷ []))
        (and_then (write_cell s s.size v) λ s. ok (record s { size = u32 (s.size + 1) }))
unfolding write_cell
write_next_Holds {s} {xs} v h free small =
    let (rest, count, written) = extend_cells xs h.rest v (omega (arith, h.room)) in
    rw (lt→ltb s.size (length s.cells) (omega (arith, cells_count h, h.size_is))) (
      record s { size = u32 (s.size + 1); cells = set s.cells s.size (some v) },
      refl,
      record {
        doublings = h.doublings;
        rest = rest;
        capacity_is = h.capacity_is;
        size_is = omega (arith, h.size_is, length-append xs (v ∷ []));
        cells_are = rw (h.size_is, h.cells_are) written;
        room = omega (arith, h.room, count, length-append xs (v ∷ []));
        quiet = h.quiet;
      },
    )

-- Appending to an array that holds `xs` gives one that holds `xs` and the new slot.
pub append_Holds :
    {codes : Codes} {s : Slots codes} {xs : List ℕ} (v : ℕ)
    → Holds s xs
    → length xs < 2 ^ 31
    → Yields (λ s'. Holds s' (xs ++ v ∷ [])) (slots_append s v)
unfolding slots_append
append_Holds {s} {xs} v h small =
    let (s', e, held) = double_Holds {s = s} {xs = xs} h small in
    let (s'', e', h') = write_next_Holds {s = s'} {xs = xs} v held.0 held.1 small in
    (
      s'',
      ap
            (λ r.
              and_then r λ s.
                and_then (write_cell s s.size v) λ s. ok (record s { size = u32 (s.size + 1) }))
            e
          ∙ e',
      h',
    )

-- The loop ends within `n` rounds if the index lies less than `n` past the slots, and has then
-- padded the slots with zeros up to the index.
pub fill-Holds :
    (index n : ℕ) {codes : Codes} {s : Slots codes} {xs : List ℕ}
    → Holds s xs
    → index < 2 ^ 31
    → index < length xs + n
    → Yields (λ s'. Holds s' (pad (index + 1) xs)) (fill index n s)
unfolding fill
fill-Holds index zero {s} {xs} h small near =
    (s, ground (arith, h.size_is), subst (Holds s) (sym (pad_id (index + 1) xs (omega arith))) h)
fill-Holds index (suc n) {s} {xs} h small near = elim (Bool-cases (leb s.size index)) [
  | inl short ↦
      let (s', e, h') = append_Holds {s = s} {xs = xs} 0 h (ground (arith, h.size_is)) in
      let (s'', e', h'') =
        fill-Holds index n {s = s'} {xs = xs ++ 0 ∷ []} h' small
          (omega (arith, length-append xs (0 ∷ []))) in
      rw short (
        s'',
        ap (λ r. and_then r (fill index n)) e ∙ e',
        subst (Holds s'') (pad-append_zero (index + 1) xs (ground (arith, h.size_is))) h'',
      )
  | inr long ↦
      rw long (s, refl, subst (Holds s) (sym (pad_id (index + 1) xs (ground (arith, h.size_is)))) h)
]
