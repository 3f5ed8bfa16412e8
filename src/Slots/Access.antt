-- ===== src/Slots/Access.antt =====
-- Reading and writing a slot, against the list that the array holds.
use clojit_cvm.Common.{
  ℕ, zero, suc, ◌+◌, ◌^◌, ◌≤◌, ◌<◌, ◌≡◌, refl, ap, ◌∙◌, sym, arith, inl, inr, Bool-cases, ◌&&◌, not,
  Option, some, List, [], ◌∷◌, ◌++◌, map, map-set, length, set, get_or, length-append, length-set,
  length-map, length-take, length-drop, set-append_left, take, drop, take-append-drop, Res,
  get_elem?, ok, exit, and_then, Yields, leb, ltb, ◌==◌, lt→ltb, if◌then◌else◌,
}
use mathlib.Core.List.{map-append, append_assoc}
use clojit_cvm.Slots.{
  Codes, Slots, slots_init, write_cell, read_cell, slots_get, slots_set, slots_half_capacity,
  slots_initial_capacity, malloc, mostly_empty, out_of_bounds,
}
use clojit_cvm.Slots.Holds.{Holds, cells_count, pad, put, length-pad}
use clojit_cvm.Slots.Copy.{half_Holds}
use clojit_cvm.Slots.Grow.{fill-Holds}

-- The fresh array is well formed and holds nothing.
pub slots_init-Holds : {codes : Codes} → Holds (slots_init {codes = codes}) []
unfolding slots_init
slots_init-Holds = record {
  doublings = 0;
  rest = malloc slots_initial_capacity;
  capacity_is = refl;
  size_is = refl;
  cells_are = refl;
  room = refl;
  quiet = λ _. refl;
}

shrink_Holds :
    {codes : Codes} {s : Slots codes} {xs : List ℕ}
    → Holds s xs
    → Yields
        (λ s'. Holds s' xs)
        (if not (s.capacity == slots_initial_capacity) && mostly_empty s
          then slots_half_capacity s
          else ok s)
shrink_Holds {s} {xs} h =
    elim (Bool-cases (not (s.capacity == slots_initial_capacity) && mostly_empty s)) [
      | inl sparse ↦
          rw sparse (half_Holds {s = s} {xs = xs} h (ground arith) (ground (arith, h.size_is)))
      | inr dense ↦ rw dense (s, refl, h)
    ]

get_elem?-written :
    (xs : List ℕ) (rest : List (Option ℕ)) (i : ℕ)
    → i < length xs
    → get_elem? (map some xs ++ rest) i ≡ some (some (get_or xs i 0))
get_elem?-written [] rest i h = elim h [ ]
get_elem?-written (x ∷ xs) rest zero h = refl
get_elem?-written (x ∷ xs) rest (suc i) h = get_elem?-written xs rest i (omega arith)

read_cell_lem :
    {codes : Codes} {s : Slots codes} {xs : List ℕ} (i : ℕ)
    → Holds s xs
    → i < length xs
    → read_cell s i ≡ ok (get_or xs i 0)
unfolding read_cell
read_cell_lem {s} {xs} i h below = rw (h.cells_are, inside) refl
  where
    inside : get_elem? (map some xs ++ h.rest) i ≡ some (some (get_or xs i 0))
    inside = get_elem?-written xs h.rest i below

abbrev read_checked : {codes : Codes} → Slots codes → ℕ → Res (ℕ × Slots codes)
read_checked s index =
    if leb s.size index
    then exit 1 (s.printed ++ out_of_bounds index s.size)
    else and_then (read_cell s index) λ value. ok (value, s)

-- Reading a slot at an index below the size returns it, and leaves an array that holds the same
-- slots (its capacity may have been halved); at any other index it exits with status 1 and the message, behind
-- what was printed before.
pub slots_get-Holds :
    {codes : Codes} {s : Slots codes} {xs : List ℕ} (i : ℕ)
    → Holds s xs
    → (s' : Slots codes) × Holds s' xs
      × (slots_get s i ≡ (
          if ltb i (length xs)
          then ok (get_or xs i 0, s')
          else exit 1 (s'.printed ++ out_of_bounds i (length xs))))
unfolding slots_get
slots_get-Holds {codes} {s} {xs} i h =
    let (s', e, h') = shrink_Holds {s = s} {xs = xs} h in
    (s', h', ap (λ r. and_then r (λ t. read_checked t i)) e ∙ checked s' h')
  where
    checked :
        (t : Slots codes)
        → Holds t xs
        → read_checked t i ≡ (
            if ltb i (length xs)
            then ok (get_or xs i 0, t)
            else exit 1 (t.printed ++ out_of_bounds i (length xs)))
    checked t h' = elim (Bool-cases (ltb i (length xs))) [
      | inl below ↦ ground (arith, h'.size_is, read_cell_lem {s = t} {xs = xs} i h')
      | inr beyond ↦ ground (arith, h'.size_is)
    ]

write_cell-Holds :
    {codes : Codes} {s : Slots codes} {xs : List ℕ} (i v : ℕ)
    → Holds s xs
    → i < length xs
    → Yields (λ s'. Holds s' (set xs i v)) (write_cell s i v)
unfolding write_cell
write_cell-Holds {s} {xs} i v h below =
    rw (lt→ltb i (length s.cells) (omega (arith, cells_count h, h.room))) (
      record s { cells = set s.cells i (some v) },
      refl,
      record {
        doublings = h.doublings;
        rest = h.rest;
        capacity_is = h.capacity_is;
        size_is = omega (arith, h.size_is, length-set xs i v);
        cells_are = rw h.cells_are (written);
        room = omega (arith, h.room, length-set xs i v);
        quiet = h.quiet;
      },
    )
  where
    written : set (map some xs ++ h.rest) i (some v) ≡ map some (set xs i v) ++ h.rest
    written =
        set-append_left (map some xs) h.rest i (some v)
          (omega (arith, length-map {0, 0} {B = Option ℕ} some xs))
        ∙ ap (λ ys. ys ++ h.rest) (sym (map-set some xs i v))

-- Writing a slot at an index below 2 ^ 31 returns an array that holds the slots padded with zeros up
-- to the index, with the slot at that index set.
pub slots_set-Holds :
    {codes : Codes} {s : Slots codes} {xs : List ℕ} (i v : ℕ)
    → Holds s xs
    → i < 2 ^ 31
    → Yields (λ s'. Holds s' (put xs i v)) (slots_set s i v)
unfolding slots_set
slots_set-Holds {s} {xs} i v h small =
    let (s', e, h') = fill-Holds i (i + 1) {s = s} {xs = xs} h small (omega arith) in
    let (s'', e', h'') =
      write_cell-Holds {s = s'} {xs = pad (i + 1) xs} i v h'
        (omega (arith, length-pad (i + 1) xs)) in
    (s'', ap (λ r. and_then r λ s. write_cell s i v) e ∙ e', h'')

-- Setting the size to one that is not larger keeps the first slots alone.
pub truncate_Holds :
    {codes : Codes} {s : Slots codes} {xs : List ℕ} (n : ℕ)
    → Holds s xs
    → n ≤ length xs
    → Holds (record s { size = n }) (take n xs)
truncate_Holds {s} {xs} n h below = record {
  doublings = h.doublings;
  rest = map some (drop n xs) ++ h.rest;
  capacity_is = h.capacity_is;
  size_is = sym (length-take n xs below);
  cells_are = h.cells_are ∙ split;
  room = omega (
    arith,
    h.room,
    length-take n xs below,
    length-drop n xs,
    length-append (map some (drop n xs)) h.rest,
    length-map {0, 0} {B = Option ℕ} some (drop n xs),
  );
  quiet = h.quiet;
}
  where
    split : map some xs ++ h.rest ≡ map some (take n xs) ++ (map some (drop n xs) ++ h.rest)
    split =
        ap (λ ys. map some ys ++ h.rest) (sym (take-append-drop n xs))
        ∙ ap (λ ys. ys ++ h.rest) (map-append some (take n xs) (drop n xs))
        ∙ append_assoc (map some (take n xs)) (map some (drop n xs)) h.rest
