-- ===== src/Common/Lists.antt =====
-- Lists measured and indexed by native numbers, under the library's names.
use Prim.Native.Nat.{ℕ, zero, suc, ◌+◌, ◌-◌, ◌≤◌, ◌<◌}
use mathlib.Core.Path.{◌≡◌, refl, ap}
use mathlib.Core.Logic.{◌≢◌}
use mathlib.Core.List.{List, [], ◌∷◌, ◌++◌, map}
use mathlib.Core.Option.{Option, none, some}
use native.Mathlib.Omega.{arith}

module _ {ℓ} {A : Type ℓ} where
  abbrev pub length : List A → ℕ
  length [] = 0
  length (x ∷ xs) = suc (length xs)

  abbrev pub get_elem? : List A → ℕ → Option A
  get_elem? [] i = none
  get_elem? (x ∷ xs) zero = some x
  get_elem? (x ∷ xs) (suc i) = get_elem? xs i

  abbrev pub get_or : List A → ℕ → A → A
  get_or [] i d = d
  get_or (x ∷ xs) zero d = x
  get_or (x ∷ xs) (suc i) d = get_or xs i d

  -- A write out of bounds changes nothing.
  abbrev pub set : List A → ℕ → A → List A
  set [] i v = []
  set (x ∷ xs) zero v = v ∷ xs
  set (x ∷ xs) (suc i) v = x ∷ set xs i v

  abbrev pub take : ℕ → List A → List A
  take zero xs = []
  take (suc n) [] = []
  take (suc n) (x ∷ xs) = x ∷ take n xs

  abbrev pub drop : ℕ → List A → List A
  drop zero xs = xs
  drop (suc n) [] = []
  drop (suc n) (x ∷ xs) = drop n xs

  abbrev pub replicate : ℕ → A → List A
  replicate zero a = []
  replicate (suc n) a = a ∷ replicate n a

module _ {ℓ} {A : Type ℓ} where
  pub length-append : (xs ys : List A) → length (xs ++ ys) ≡ length xs + length ys
  length-append [] ys = omega arith
  length-append (x ∷ xs) ys = omega (arith, length-append xs ys)

  pub length-set : (xs : List A) (i : ℕ) (v : A) → length (set xs i v) ≡ length xs
  length-set [] i v = refl
  length-set (x ∷ xs) zero v = refl
  length-set (x ∷ xs) (suc i) v = ap suc (length-set xs i v)

  pub length-drop : (n : ℕ) (xs : List A) → length (drop n xs) ≡ length xs - n
  length-drop zero xs = omega arith
  length-drop (suc n) [] = omega arith
  length-drop (suc n) (x ∷ xs) = omega (arith, length-drop n xs)

  pub length-take : (n : ℕ) (xs : List A) → n ≤ length xs → length (take n xs) ≡ n
  length-take zero xs h = refl
  length-take (suc n) [] h = elim h [ ]
  length-take (suc n) (x ∷ xs) h = ap suc (length-take n xs (omega arith))

  pub length-replicate : (n : ℕ) (a : A) → length (replicate n a) ≡ n
  length-replicate zero a = refl
  length-replicate (suc n) a = ap suc (length-replicate n a)

  pub take-append-drop : (n : ℕ) (xs : List A) → take n xs ++ drop n xs ≡ xs
  take-append-drop zero xs = refl
  take-append-drop (suc n) [] = refl
  take-append-drop (suc n) (x ∷ xs) = ap (λ ys. x ∷ ys) (take-append-drop n xs)

  -- The first index past a prefix reads, and writes, the element that follows it.
  pub get_elem?-append_length :
      (xs : List A) (x : A) (ys : List A) → get_elem? (xs ++ x ∷ ys) (length xs) ≡ some x
  get_elem?-append_length [] x ys = refl
  get_elem?-append_length (y ∷ xs) x ys = get_elem?-append_length xs x ys

  pub set-append_length :
      (xs : List A) (x v : A) (ys : List A) → set (xs ++ x ∷ ys) (length xs) v ≡ xs ++ v ∷ ys
  set-append_length [] x v ys = refl
  set-append_length (y ∷ xs) x v ys = ap (λ zs. y ∷ zs) (set-append_length xs x v ys)

  -- A write inside a prefix leaves what follows alone.
  pub set-append_left :
      (xs ys : List A) (i : ℕ) (v : A) → i < length xs → set (xs ++ ys) i v ≡ set xs i v ++ ys
  set-append_left [] ys i v h = elim h [ ]
  set-append_left (x ∷ xs) ys zero v h = refl
  set-append_left (x ∷ xs) ys (suc i) v h =
      ap (λ zs. x ∷ zs) (set-append_left xs ys i v (omega arith))

  pub get_elem?-append_left :
      (xs ys : List A) (i : ℕ) (d : A)
      → i < length xs
      → get_elem? (xs ++ ys) i ≡ some (get_or xs i d)
  get_elem?-append_left [] ys i d h = elim h [ ]
  get_elem?-append_left (x ∷ xs) ys zero d h = refl
  get_elem?-append_left (x ∷ xs) ys (suc i) d h = get_elem?-append_left xs ys i d (omega arith)

  pub get_elem?-append_some :
      (xs ys : List A) (i : ℕ) (v : A) → get_elem? xs i ≡ some v → get_elem? (xs ++ ys) i ≡ some v
  get_elem?-append_some [] ys i v e = cc
  get_elem?-append_some (x ∷ xs) ys zero v e = e
  get_elem?-append_some (x ∷ xs) ys (suc i) v e = get_elem?-append_some xs ys i v e

  pub get_elem?-set_self :
      (xs : List A) (i : ℕ) (v : A) → i < length xs → get_elem? (set xs i v) i ≡ some v
  get_elem?-set_self [] i v h = elim h [ ]
  get_elem?-set_self (x ∷ xs) zero v h = refl
  get_elem?-set_self (x ∷ xs) (suc i) v h = get_elem?-set_self xs i v (omega arith)

  pub get_elem?-set_ne :
      (xs : List A) (i j : ℕ) (v : A) → i ≢ j → get_elem? (set xs i v) j ≡ get_elem? xs j
  get_elem?-set_ne [] i j v ne = refl
  get_elem?-set_ne (x ∷ xs) zero zero v ne = absurd (ne refl)
  get_elem?-set_ne (x ∷ xs) zero (suc j) v ne = refl
  get_elem?-set_ne (x ∷ xs) (suc i) zero v ne = refl
  get_elem?-set_ne (x ∷ xs) (suc i) (suc j) v ne = get_elem?-set_ne xs i j v (λ e. ne (ap suc e))

  pub get_elem?-take :
      (n : ℕ) (xs : List A) (i : ℕ) → i < n → get_elem? (take n xs) i ≡ get_elem? xs i
  get_elem?-take zero xs i h = elim h [ ]
  get_elem?-take (suc n) [] i h = refl
  get_elem?-take (suc n) (x ∷ xs) zero h = refl
  get_elem?-take (suc n) (x ∷ xs) (suc i) h = get_elem?-take n xs i (omega arith)

  pub lt-of_get_elem? : (xs : List A) (i : ℕ) (v : A) → get_elem? xs i ≡ some v → i < length xs
  lt-of_get_elem? [] i v e = cc
  lt-of_get_elem? (x ∷ xs) zero v e = omega arith
  lt-of_get_elem? (x ∷ xs) (suc i) v e = omega (arith, lt-of_get_elem? xs i v e)

module _ {ℓ κ} {A : Type ℓ} {B : Type κ} (f : A → B) where
  pub length-map : (xs : List A) → length (map f xs) ≡ length xs
  length-map [] = refl
  length-map (x ∷ xs) = ap suc (length-map xs)

  pub map-set : (xs : List A) (i : ℕ) (v : A) → map f (set xs i v) ≡ set (map f xs) i (f v)
  map-set [] i v = refl
  map-set (x ∷ xs) zero v = refl
  map-set (x ∷ xs) (suc i) v = ap (λ ys. f x ∷ ys) (map-set xs i v)
