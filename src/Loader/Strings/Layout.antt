-- ===== src/Loader/Strings/Layout.antt =====
-- How strings are laid out in a file, and what is read from them.
use clojit_cvm.Common.{
  ℕ, zero, suc, ◌+◌, ◌*◌, ◌^◌, ◌<◌, ◌≡◌, ◌≢◌, refl, ◌∙◌, ap, subst, arith, true, false, some, List,
  [], ◌∷◌, ◌++◌, length, length-append, get_elem?, drop, ◌==◌, ok,
}
use mathlib.Core.List.{append_assoc}
use clojit_cvm.Program.{c_string}
use clojit_cvm.Loader.Code.{to_be32}
use clojit_cvm.Loader.Tables.{Contains, be32_lem}
use clojit_cvm.Loader.Cases.{be32, string_offsets}

-- The bytes of the strings, each with a zero behind it.
abbrev pub characters : List (List ℕ) → List ℕ
characters [] = []
characters (s ∷ ss) = s ++ (0 ∷ characters ss)

-- Where the strings end, counted from `at`, each as four bytes.
abbrev pub end_bytes : ℕ → List (List ℕ) → List ℕ
end_bytes at [] = []
end_bytes at (s ∷ ss) = to_be32 (at + length s + 1) ++ end_bytes (at + length s + 1) ss

-- Where the strings start.
abbrev pub starts : ℕ → List (List ℕ) → List ℕ
starts at [] = []
starts at (s ∷ ss) = at ∷ starts (at + length s + 1) ss

abbrev pub NoZero : List ℕ → Type 0
NoZero [] = Unit
NoZero (b ∷ bs) = (b ≢ 0) × NoZero bs

abbrev pub AllNoZero : List (List ℕ) → Type 0
AllNoZero [] = Unit
AllNoZero (s ∷ ss) = NoZero s × AllNoZero ss

-- One byte, and those behind it.
Contains-byte :
    (buf : List ℕ) (at b : ℕ) (bs : List ℕ)
    → Contains buf at (b ∷ bs)
    → (get_elem? buf at ≡ some b) × Contains buf (at + 1) bs
Contains-byte buf at b bs holds = (
  let same : at ≡ at + 0 = omega arith in rw same (holds 0 b refl),
  λ j v e. let same : at + 1 + j ≡ at + suc j = omega arith in rw same (holds (suc j) v e),
)

pub Contains-behind :
    (buf xs ys : List ℕ) (at : ℕ) → Contains buf at (xs ++ ys) → Contains buf (at + length xs) ys
Contains-behind buf [] ys at holds = let same : at + 0 ≡ at = omega arith in rw same holds
Contains-behind buf (x ∷ xs) ys at holds =
    let same : at + suc (length xs) ≡ at + 1 + length xs = omega arith in
    rw same (Contains-behind buf xs ys (at + 1) (Contains-byte buf at x (xs ++ ys) holds).1)

drop_cons :
    (xs : List ℕ) (i j v : ℕ) → j ≡ i + 1 → get_elem? xs i ≡ some v → drop i xs ≡ v ∷ drop j xs
drop_cons [] i j v next e = cc
drop_cons (x ∷ xs) zero j v next e = let same : j ≡ 1 = omega arith in rw same cc
drop_cons (x ∷ xs) (suc i) zero v next e = absurd (omega arith)
drop_cons (x ∷ xs) (suc i) (suc j) v next e = drop_cons xs i j v (omega arith) e

-- A string is read up to its zero.
c_string_lem :
    (buf s zs : List ℕ) (at : ℕ)
    → NoZero s
    → Contains buf at (s ++ (0 ∷ zs))
    → c_string (drop at buf) ≡ ok s
c_string_lem buf [] zs at clean holds =
    rw (drop_cons buf at (at + 1) 0 refl (Contains-byte buf at 0 zs holds).0) refl
c_string_lem buf (b ∷ s) zs at clean holds =
    let (here, rest) = Contains-byte buf at b (s ++ (0 ∷ zs)) holds in
    let other : (b == 0) ≡ false = ground (arith, clean.0) in
    rw (drop_cons buf at (at + 1) b refl here, other, c_string_lem buf s zs (at + 1) clean.1 rest)
      refl

-- Behind the first string.
offsets_lem :
    (buf : List ℕ) (ss : List (List ℕ)) (zs : List ℕ) (e index chars : ℕ)
    → Contains buf index (to_be32 e ++ (end_bytes e ss ++ zs))
    → e + length (characters ss) < 2 ^ 32
    → string_offsets buf (length ss) false index chars ≡ ok (starts (chars + e) ss)
unfolding string_offsets
offsets_lem buf [] zs e index chars holds fits = refl
offsets_lem buf (s ∷ ss) zs e index chars holds fits =
    let count = length-append s (0 ∷ characters ss) in
    let (first, rest) = be32_lem buf (end_bytes e (s ∷ ss) ++ zs) index e holds (omega arith) in
    let on : chars + (e + length s + 1) ≡ chars + e + length s + 1 = omega arith in
    rw
      (
        first,
        offsets_lem buf ss zs (e + length s + 1) (index + 4) chars rest (omega (arith, count)),
        on,
      )
      refl

pub offsets_whole :
    (buf : List ℕ) (ss : List (List ℕ)) (zs : List ℕ) (index chars : ℕ)
    → Contains buf index (end_bytes 0 ss ++ zs)
    → length (characters ss) < 2 ^ 32
    → string_offsets buf (length ss) true index chars ≡ ok (starts chars ss)
unfolding string_offsets
offsets_whole buf [] zs index chars holds fits = refl
offsets_whole buf (s ∷ ss) zs index chars holds fits =
    let count = length-append s (0 ∷ characters ss) in
    let first : chars + 0 ≡ chars = omega arith in
    let on : chars + (0 + length s + 1) ≡ chars + length s + 1 = omega arith in
    rw
      (first, offsets_lem buf ss zs (0 + length s + 1) index chars holds (omega (arith, count)), on)
      refl

-- The number at the end of the last string is that of all bytes.
pub bytes_lem :
    (buf : List ℕ) (s : List ℕ) (ss : List (List ℕ)) (zs : List ℕ) (e index : ℕ)
    → Contains buf index (end_bytes e (s ∷ ss) ++ zs)
    → e + length (characters (s ∷ ss)) < 2 ^ 32
    → be32 buf (index + 4 * length ss) ≡ ok (e + length (characters (s ∷ ss)))
bytes_lem buf s [] zs e index holds fits =
    let count = length-append s (0 ∷ []) in
    let here : index + 4 * 0 ≡ index = omega arith in
    let all : e + length (characters (s ∷ [])) ≡ e + length s + 1 = omega (arith, count) in
    rw (here, all) (be32_lem buf zs index (e + length s + 1) holds (omega (arith, count))).0
bytes_lem buf s (r ∷ ss) zs e index holds fits =
    let count = length-append s (0 ∷ characters (r ∷ ss)) in
    let (_, rest) =
      be32_lem buf (end_bytes (e + length s + 1) (r ∷ ss) ++ zs) index (e + length s + 1) holds
        (omega (arith, count)) in
    let here : index + 4 * suc (length ss) ≡ index + 4 + 4 * length ss = omega arith in
    let all : e + length (characters (s ∷ r ∷ ss))
        ≡ e + length s + 1 + length (characters (r ∷ ss)) =
      omega (arith, count) in
    rw (here, all)
      (bytes_lem buf r ss zs (e + length s + 1) (index + 4) rest (omega (arith, count)))

first-Contains :
    (buf r : List ℕ) (ss : List (List ℕ)) (zs : List ℕ) (at : ℕ)
    → Contains buf at (characters (r ∷ ss) ++ zs)
    → Contains buf at (r ++ (0 ∷ (characters ss ++ zs)))
first-Contains buf r ss zs at holds =
    subst (λ (bs : List ℕ). Contains buf at bs) (append_assoc r (0 ∷ characters ss) zs) holds

-- Each string stands at its start.
pub text_lem :
    (buf : List ℕ) (ss : List (List ℕ)) (zs : List ℕ) (at k : ℕ) (s : List ℕ)
    → Contains buf at (characters ss ++ zs)
    → AllNoZero ss
    → get_elem? ss k ≡ some s
    → (o : ℕ) × (get_elem? (starts at ss) k ≡ some o) × (c_string (drop o buf) ≡ ok s)
text_lem buf [] zs at k s holds clean e = cc
text_lem buf (r ∷ ss) zs at zero s holds clean e =
    let same : r ≡ s = cc in
    (
      at,
      refl,
      c_string_lem buf r _ at clean.0 (first-Contains buf r ss zs at holds) ∙ ap (λ t. ok t) same,
    )
text_lem buf (r ∷ ss) zs at (suc k) s holds clean e =
    text_lem buf ss zs (at + length r + 1) k s
      (Contains-byte buf (at + length r) 0 (characters ss ++ zs) (
        Contains-behind buf r (0 ∷ (characters ss ++ zs)) at
          (first-Contains buf r ss zs at holds))).1
      clean.1 e
