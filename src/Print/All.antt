-- ===== src/Print/All.antt =====
-- `print_slots` over the plain store: the slots in order, with a bar before the frame.
use clojit_cvm.Common.{
  ℕ, zero, suc, ◌+◌, ◌^◌, ◌≤◌, ◌<◌, ◌≡◌, refl, ◌∙◌, ap, sym, arith, Bool, true, false, List, [],
  ◌∷◌, ◌++◌, length, length-append, get_or, ◌==◌, lt→ltb, leb, Out, text, Res, ok, and_then,
  if◌then◌else◌,
}
use mathlib.Core.List.{append_assoc}
use clojit_cvm.Memory.{Mem}
use clojit_cvm.Store.Lists.{list_store}
use clojit_cvm.Print.{print_slot, print_at, print_from, print_slots}
use clojit_cvm.Print.Tree.{Tree, Shows, depth, render, print_slot-Shows}

-- The slots show the trees, each of a depth of at most `fuel`.
pub data AllShow (m : Mem) (fuel : ℕ) : List ℕ → List Tree → Type 0 where
  nil : AllShow m fuel [] []
  cons :
      {v : ℕ} {t : Tree} {xs : List ℕ} {ts : List Tree}
      → Shows m v t
      → depth t ≤ fuel
      → AllShow m fuel xs ts
      → AllShow m fuel (v ∷ xs) (t ∷ ts)

-- The text of the slots from number `index` on.
abbrev pub render_slots : ℕ → ℕ → List Tree → List Out
render_slots base index [] = text "\n" ∷ []
render_slots base index (t ∷ ts) =
    (if base == index then text "| " ∷ [] else [])
    ++ (render t ++ text " " ∷ [])
    ++ render_slots base (index + 1) ts

get_or-length : (ys : List ℕ) (v : ℕ) (zs : List ℕ) → get_or (ys ++ v ∷ zs) (length ys) 0 ≡ v
get_or-length [] v zs = refl
get_or-length (y ∷ ys) v zs = get_or-length ys v zs

-- One round, at the slot `v` behind the slots `ys`.
round_lem :
    (m : Mem) (fuel base i : ℕ) (xs ys zs : List ℕ) (v : ℕ) (out : List Out)
    → xs ≡ ys ++ v ∷ zs
    → i ≡ length ys
    → print_slot fuel m v ≡ ok out
    → print_at list_store fuel m base i xs
      ≡ ok ((if base == i then text "| " ∷ [] else []) ++ (out ++ text " " ∷ []), xs)
unfolding print_at
round_lem m fuel base i xs ys zs v out is at e =
    let below : i < length xs =
      omega (arith, length-append ys (v ∷ zs), ap (λ (l : List ℕ). length l) is) in
    let found : get_or xs i 0 ≡ v = rw (is, at) (get_or-length ys v zs) in
    rw (lt→ltb i (length xs) below, found, e) refl

-- The end of a round: after the last slot, or before another.
module _ (m : Mem) (fuel rounds base i : ℕ) (xs : List ℕ) (p : List Out × List ℕ)
    (round : print_at list_store fuel m base i xs ≡ ok p) where
  abbrev ending : Bool → Res (List Out × List ℕ)
  ending last = elim last [
    | true ↦ ok (p.0 ++ text "\n" ∷ [], p.1)
    | false ↦
        and_then (print_from list_store fuel rounds m base (i + 1) p.1) λ q. ok (p.0 ++ q.0, q.1)
  ]

  round_ends :
      leb (2 ^ 31) (i + 1) ≡ false
      → print_from list_store fuel (suc rounds) m base i xs ≡ ending (i + 1 == length p.1)
  unfolding print_from
  round_ends low = rw (print_from, round, low) refl

  last_lem :
      leb (2 ^ 31) (i + 1) ≡ false
      → (i + 1 == length p.1) ≡ true
      → print_from list_store fuel (suc rounds) m base i xs ≡ ok (p.0 ++ text "\n" ∷ [], p.1)
  last_lem low last = round_ends low ∙ ap ending last

  inside_lem :
      (q : List Out × List ℕ)
      → leb (2 ^ 31) (i + 1) ≡ false
      → (i + 1 == length p.1) ≡ false
      → print_from list_store fuel rounds m base (i + 1) p.1 ≡ ok q
      → print_from list_store fuel (suc rounds) m base i xs ≡ ok (p.0 ++ q.0, q.1)
  inside_lem q low inside rest = round_ends low ∙ ap ending inside ∙ rw rest refl

-- The rounds from the slot behind `ys` on.
rounds_lem :
    (m : Mem) (fuel rounds base i : ℕ) (xs ys : List ℕ) {v : ℕ} {zs : List ℕ} {t : Tree}
    {ts : List Tree}
    → length xs < 2 ^ 31
    → xs ≡ ys ++ v ∷ zs
    → i ≡ length ys
    → AllShow m fuel (v ∷ zs) (t ∷ ts)
    → length zs < rounds
    → print_from list_store fuel rounds m base i xs ≡ ok (render_slots base i (t ∷ ts), xs)
unfolding print_from
rounds_lem m fuel zero base i xs ys small is at all h = absurd (omega arith)
rounds_lem m fuel (suc rounds) base i xs ys {v} {t} small is at
      (AllShow.cons shows deep AllShow.nil) h =
    let count : length xs ≡ i + 1 =
      omega (arith, length-append ys (v ∷ []), ap (λ (l : List ℕ). length l) is) in
    let low : leb (2 ^ 31) (i + 1) ≡ false = ground arith in
    let last : (i + 1 == length xs) ≡ true = ground arith in
    last_lem m fuel rounds base i xs _
      (round_lem m fuel base i xs ys [] v (render t) is at (print_slot-Shows fuel shows deep)) low
      last
rounds_lem m fuel (suc rounds) base i xs ys {v} {t} small is at
      (AllShow.cons shows deep (AllShow.cons {v = w} {xs = zs} shows' deep' all)) h =
    let count : length xs ≡ i + 2 + length zs =
      omega (arith, length-append ys (v ∷ w ∷ zs), ap (λ (l : List ℕ). length l) is) in
    let low : leb (2 ^ 31) (i + 1) ≡ false = ground arith in
    let inside : (i + 1 == length xs) ≡ false = ground arith in
    let rest =
      rounds_lem m fuel rounds base (i + 1) xs (ys ++ v ∷ []) small
        (is ∙ sym (append_assoc ys (v ∷ []) (w ∷ zs))) (omega (arith, length-append ys (v ∷ [])))
        (AllShow.cons shows' deep' all) (omega arith) in
    inside_lem m fuel rounds base i xs _
      (round_lem m fuel base i xs ys (w ∷ zs) v (render t) is at (print_slot-Shows fuel shows deep))
      _ low inside rest

-- If there are slots, fewer than 2 ^ 31, and all of them show trees, then `print_slots` returns, given fuel for the slots
-- and for the depth of each tree: it prints the trees' texts in order, with a bar before slot `base`, ends the
-- line, and leaves the slots as they are.
pub print_slots-AllShow :
    {m : Mem} {fuel : ℕ} {xs : List ℕ} {ts : List Tree} (base : ℕ)
    → AllShow m fuel xs ts
    → 0 < length xs
    → length xs ≤ fuel
    → length xs < 2 ^ 31
    → print_slots list_store fuel m base xs ≡ ok (render_slots base 0 ts, xs)
unfolding print_slots
print_slots-AllShow base AllShow.nil filled enough small = absurd (omega arith)
print_slots-AllShow {m} {fuel} base (AllShow.cons {v} {xs} shows deep all) filled enough small =
    rounds_lem m fuel fuel base 0 (v ∷ xs) [] (omega arith) refl refl (AllShow.cons shows deep all)
      (omega arith)
