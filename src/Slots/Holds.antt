-- ===== src/Slots/Holds.antt =====
-- The list of slots that an array holds, and what that list becomes: the abstract view of slots.c.
use clojit_cvm.Common.{
  ◌≢◌, ◌∙◌, length-set, get_elem?, get_elem?-set_self, get_elem?-set_ne, get_elem?-append_some, ℕ,
  ap, length-map, suc, ◌+◌, ◌-◌, ◌*◌, ◌^◌, ◌≤◌, ◌<◌, ◌≡◌, ap, sym, arith, Option, some, List, [],
  ◌∷◌, ◌++◌, map, length, replicate, set, length-append, length-replicate,
}
use mathlib.Core.List.{append-nil, append_assoc}
use clojit_cvm.Slots.{Codes, AllGranted, Slots}

-- The array `s` is well formed and holds exactly the slots `xs`: the first `size` cells are written,
-- the cells make up the capacity, and the capacity is the initial one doubled some times.
-- Nothing is printed if the system makes a root of every array.
pub record Holds {codes : Codes} (s : Slots codes) (xs : List ℕ) : Type 0 where
  pub doublings : ℕ
  pub rest : List (Option ℕ)
  pub capacity_is : s.capacity ≡ 10 * 2 ^ doublings
  pub size_is : s.size ≡ length xs
  pub cells_are : s.cells ≡ map some xs ++ rest
  pub room : length xs + length rest ≡ s.capacity
  pub quiet : AllGranted codes → s.printed ≡ []

-- Grown with zeros to at least `n` slots.
abbrev pub pad : ℕ → List ℕ → List ℕ
pad n xs = xs ++ replicate (n - length xs) 0

-- What a write at any index makes of the slots.
abbrev pub put : List ℕ → ℕ → ℕ → List ℕ
put xs i v = set (pad (i + 1) xs) i v

pub length-pad : (n : ℕ) (xs : List ℕ) → n ≤ length (pad n xs)
length-pad n xs = omega (
  arith,
  length-append xs (replicate (n - length xs) 0),
  length-replicate {0} {A = ℕ} (n - length xs) 0,
)

pub pad_id : (n : ℕ) (xs : List ℕ) → n ≤ length xs → pad n xs ≡ xs
pad_id n xs h = let e : n - length xs ≡ 0 = omega arith in rw e (append-nil xs)

pub pad-append_zero : (n : ℕ) (xs : List ℕ) → length xs < n → pad n (xs ++ 0 ∷ []) ≡ pad n xs
pad-append_zero n xs h =
    let e : n - length (xs ++ 0 ∷ []) ≡ n - length xs - 1 =
      omega (arith, length-append xs (0 ∷ [])) in
    let e' : n - length xs ≡ suc (n - length xs - 1) = omega arith in
    rw (e, append_assoc) (sym (ap (λ (k : ℕ). xs ++ replicate k 0) e'))

pub cells_count :
    {codes : Codes} {s : Slots codes} {xs : List ℕ} → Holds s xs → length s.cells ≡ s.capacity
cells_count {s} {xs} h = omega (
  arith,
  ap (λ (cs : List (Option ℕ)). length cs) h.cells_are,
  length-append (map some xs) h.rest,
  length-map {0, 0} {B = Option ℕ} some xs,
  h.room,
)

-- A slot reads back what was put there, and what was there before elsewhere.
pub get_elem?-put_self : (xs : List ℕ) (i v : ℕ) → get_elem? (put xs i v) i ≡ some v
get_elem?-put_self xs i v =
    get_elem?-set_self (pad (i + 1) xs) i v (omega (arith, length-pad (i + 1) xs))

pub get_elem?-put_ne :
    (xs : List ℕ) (i j v w : ℕ)
    → i ≢ j
    → get_elem? xs j ≡ some w
    → get_elem? (put xs i v) j ≡ some w
get_elem?-put_ne xs i j v w ne e =
    get_elem?-set_ne (pad (i + 1) xs) i j v ne
    ∙ get_elem?-append_some xs (replicate (i + 1 - length xs) 0) j w e

pub length-put : (xs : List ℕ) (i v : ℕ) → length xs ≤ length (put xs i v)
length-put xs i v =
    omega
      (arith, length-set (pad (i + 1) xs) i v, length-append xs (replicate (i + 1 - length xs) 0))
