-- ===== src/Loader/Swap/Masks.antt =====
-- Words taken apart by masks of whole bytes.
use clojit_cvm.Common.{
  ℕ, ◌^◌, ◌<◌, ◌≡◌, refl, ◌∙◌, sym, arith, Bool, true, false, not, if◌then◌else◌, length, List, [],
  ◌∷◌, bit_and, bit_or,
}
use clojit_cvm.Common.Bits.{bit_and_mask, bit_and-zero, bit_or-zero, zero-bit_or}
use clojit_cvm.Common.Bits.Split.{bit_and_split, bit_or_split}
use clojit_cvm.Loader.Swap.{join}

abbrev pub AllBytes : List ℕ → Type 0
AllBytes [] = Unit
AllBytes (b ∷ bs) = (b < 2 ^ 8) × AllBytes bs

-- The words that keep some bytes, all ones there, and what they keep.
abbrev pub mask : List Bool → List ℕ
mask [] = []
mask (b ∷ bs) = (if b then 255 else 0) ∷ mask bs

abbrev pub masked : List Bool → List ℕ → List ℕ
masked [] xs = []
masked (b ∷ bs) [] = []
masked (b ∷ bs) (x ∷ xs) = (if b then x else 0) ∷ masked bs xs

-- The bytes of the one word where there is `true`, and of the other elsewhere.
abbrev pub choose : List Bool → List ℕ → List ℕ → List ℕ
choose [] xs ys = []
choose (b ∷ bs) [] ys = []
choose (b ∷ bs) (x ∷ xs) [] = []
choose (b ∷ bs) (x ∷ xs) (y ∷ ys) = (if b then x else y) ∷ choose bs xs ys

abbrev pub others : List Bool → List Bool
others [] = []
others (b ∷ bs) = not b ∷ others bs

keep_byte : (b : Bool) (x : ℕ) → x < 2 ^ 8 → bit_and x (if b then 255 else 0) ≡ (if b then x else 0)
keep_byte true x h = omega (arith, bit_and_mask 8 x)
keep_byte false x h = bit_and-zero x

pub bit_and-join :
    (bs : List Bool) (xs : List ℕ)
    → length xs ≡ length bs
    → AllBytes xs
    → bit_and (join xs) (join (mask bs)) ≡ join (masked bs xs)
bit_and-join [] [] l hx = refl
bit_and-join (b ∷ bs) [] l hx = absurd (omega arith)
bit_and-join [] (x ∷ xs) l hx = absurd (omega arith)
bit_and-join (b ∷ bs) (x ∷ xs) l hx =
    bit_and_split 8 (join xs) (join (mask bs)) x (if b then 255 else 0) hx.0 (small b)
    ∙ rw (keep_byte b x hx.0, bit_and-join bs xs (omega arith) hx.1) refl
  where
    small : (b : Bool) → (if b then 255 else 0) < 2 ^ 8
    small true = omega arith
    small false = omega arith

either_byte :
    (b : Bool) (x y : ℕ)
    → bit_or (if b then x else 0) (if not b then y else 0) ≡ (if b then x else y)
either_byte true x y = bit_or-zero x
either_byte false x y = zero-bit_or y

byte_if : (b : Bool) (x : ℕ) → x < 2 ^ 8 → (if b then x else 0) < 2 ^ 8
byte_if true x h = h
byte_if false x h = omega arith

pub bit_or-join :
    (bs : List Bool) (xs ys : List ℕ)
    → length xs ≡ length bs
    → length ys ≡ length bs
    → AllBytes xs
    → AllBytes ys
    → bit_or (join (masked bs xs)) (join (masked (others bs) ys)) ≡ join (choose bs xs ys)
bit_or-join [] xs ys l l' hx hy = refl
bit_or-join (b ∷ bs) [] ys l l' hx hy = absurd (omega arith)
bit_or-join (b ∷ bs) (x ∷ xs) [] l l' hx hy = absurd (omega arith)
bit_or-join (b ∷ bs) (x ∷ xs) (y ∷ ys) l l' hx hy =
    bit_or_split 8 (join (masked bs xs)) (join (masked (others bs) ys)) (if b then x else 0)
      (if not b then y else 0) (byte_if b x hx.0) (byte_if (not b) y hy.0)
    ∙ rw (either_byte b x y, bit_or-join bs xs ys (omega arith) (omega arith) hx.1 hy.1) refl

-- A round: the bytes of two words, as the masks choose.
pub round_lem :
    (bs : List Bool) (xs ys : List ℕ)
    → length xs ≡ length bs
    → length ys ≡ length bs
    → AllBytes xs
    → AllBytes ys
    → bit_or (bit_and (join xs) (join (mask bs))) (bit_and (join ys) (join (mask (others bs))))
      ≡ join (choose bs xs ys)
round_lem bs xs ys l l' hx hy =
    rw (bit_and-join bs xs l hx, bit_and-join (others bs) ys (l' ∙ sym (length-others bs)) hy)
      (bit_or-join bs xs ys l l' hx hy)
  where
    length-others : (bs : List Bool) → length (others bs) ≡ length bs
    length-others [] = refl
    length-others (b ∷ bs) = omega (arith, length-others bs)
