-- ===== src/Loader/Files/Reads.antt =====
-- What the program reads from a loaded file: its instructions and the texts of its strings.
use clojit_cvm.Common.{
  ℕ, ◌+◌, ◌*◌, ◌^◌, ◌<◌, ◌≡◌, refl, subst, arith, some, List, [], ◌∷◌, ◌++◌, length, length-append,
  get_elem?, ok,
}
use mathlib.Core.List.{append-nil}
use clojit_cvm.Host.{Uthash}
use clojit_cvm.Program.{Instr, instr_of, Sections, no_sections, fetch, cstr_text}
use clojit_cvm.Loader.{Loaded, mapped, loadfile}
use clojit_cvm.Loader.Code.{code_bytes, StandsAt, code_bytes-StandsAt, fetch_lem}
use clojit_cvm.Loader.Strings.{
  AllNoZero, characters, section_bytes, starts, Contains-behind, characters-Contains, text_lem,
}
use clojit_cvm.Loader.Tables.{Contains, whole_Contains, be32_lem, TypeRow}
use clojit_cvm.Loader.Files.{
  Section, code, integers, floats, strings, keywords, functions, count, body, headers, bodies,
  types_header, types_section, file, filled, AllFit,
}
use clojit_cvm.Loader.Files.Loads.{Contains-ahead, Fits-count, length-headers, loadfile-file}

abbrev pub NoCode : List Section → Type 0
NoCode [] = Unit
NoCode (code is ∷ ss) = ⊥
NoCode (integers n bs ∷ ss) = NoCode ss
NoCode (floats n bs ∷ ss) = NoCode ss
NoCode (strings len word strs ∷ ss) = NoCode ss
NoCode (keywords len word strs ∷ ss) = NoCode ss
NoCode (functions rs ∷ ss) = NoCode ss

abbrev pub NoStrings : List Section → Type 0
NoStrings [] = Unit
NoStrings (code is ∷ ss) = NoStrings ss
NoStrings (integers n bs ∷ ss) = NoStrings ss
NoStrings (floats n bs ∷ ss) = NoStrings ss
NoStrings (strings len word strs ∷ ss) = ⊥
NoStrings (keywords len word strs ∷ ss) = NoStrings ss
NoStrings (functions rs ∷ ss) = NoStrings ss

-- The last section of instructions, or of strings.
pub data LastCode (is : List Instr) : List Section → Type 0 where
  here : (ss : List Section) → NoCode ss → LastCode is (code is ∷ ss)
  later : (s : Section) (ss : List Section) → LastCode is ss → LastCode is (s ∷ ss)

pub data LastStrings (strs : List (List ℕ)) : List Section → Type 0 where
  here :
      (len word : ℕ) (ss : List Section)
      → NoStrings ss
      → LastStrings strs (strings len word strs ∷ ss)
  later : (s : Section) (ss : List Section) → LastStrings strs ss → LastStrings strs (s ∷ ss)

body-Contains :
    (buf : List ℕ) (s : Section) (ss : List Section) (ts : List TypeRow) (at : ℕ)
    → count s < 2 ^ 32
    → Contains buf at (bodies (s ∷ ss) (types_section ts))
    → Contains buf (at + 4) (body s)
      × Contains buf (at + 4 + length (body s)) (bodies ss (types_section ts))
body-Contains buf s ss ts at small holds =
    let rest = bodies ss (types_section ts) in
    let (_, there) = be32_lem buf (body s ++ rest) at (count s) holds small in
    (
      Contains-ahead buf (body s) rest (at + 4) there,
      Contains-behind buf (body s) rest (at + 4) there,
    )

module _ {U : Uthash} (ts : List TypeRow) where
  kept_code :
      (ss : List Section) (sec : Sections U) (at : ℕ)
      → NoCode ss
      → (filled sec at ss ts).instr ≡ sec.instr
  kept_code [] sec at none = refl
  kept_code (code is ∷ ss) sec at none = absurd none
  kept_code (integers n bs ∷ ss) sec at none = kept_code ss _ _ none
  kept_code (floats n bs ∷ ss) sec at none = kept_code ss _ _ none
  kept_code (strings len word strs ∷ ss) sec at none = kept_code ss _ _ none
  kept_code (keywords len word strs ∷ ss) sec at none = kept_code ss _ _ none
  kept_code (functions rs ∷ ss) sec at none = kept_code ss _ _ none

  kept_strings :
      (ss : List Section) (sec : Sections U) (at : ℕ)
      → NoStrings ss
      → (filled sec at ss ts).cstr ≡ sec.cstr
  kept_strings [] sec at none = refl
  kept_strings (code is ∷ ss) sec at none = kept_strings ss _ _ none
  kept_strings (integers n bs ∷ ss) sec at none = kept_strings ss _ _ none
  kept_strings (floats n bs ∷ ss) sec at none = kept_strings ss _ _ none
  kept_strings (strings len word strs ∷ ss) sec at none = absurd none
  kept_strings (keywords len word strs ∷ ss) sec at none = kept_strings ss _ _ none
  kept_strings (functions rs ∷ ss) sec at none = kept_strings ss _ _ none

  module _ (buf : List ℕ) where
    -- Where the last instructions are pointed to, they stand.
    code_there :
        (is : List Instr) (ss : List Section) (sec : Sections U) (at : ℕ)
        → AllFit ss
        → Contains buf at (bodies ss (types_section ts))
        → LastCode is ss
        → (o : ℕ) × ((filled sec at ss ts).instr ≡ some o) × Contains buf o (code_bytes is)
    code_there is _ sec at fits holds (LastCode.here ss none) = (
      at + 4,
      kept_code ss _ _ none,
      (body-Contains buf (code is) ss ts at (Fits-count (code is) fits.0) holds).0,
    )
    code_there is _ sec at fits holds (LastCode.later s ss l) =
        code_there is ss _ _ fits.1 (body-Contains buf s ss ts at (Fits-count s fits.0) holds).1 l

    strings_there :
        (strs : List (List ℕ)) (ss : List Section) (sec : Sections U) (at : ℕ)
        → AllFit ss
        → Contains buf at (bodies ss (types_section ts))
        → LastStrings strs ss
        → (o : ℕ) × (word : ℕ) × ((filled sec at ss ts).cstr
            ≡ some (starts (o + 4 * (length strs + 1)) strs))
          × Contains buf o (section_bytes word strs)
          × (length (characters strs) < 2 ^ 32)
    strings_there strs _ sec at fits holds (LastStrings.here len word ss none) = (
      at + 4,
      word,
      kept_strings ss _ _ none,
      (body-Contains buf (strings len word strs) ss ts at
          (Fits-count (strings len word strs) fits.0) holds).0,
      fits.0.2,
    )
    strings_there strs _ sec at fits holds (LastStrings.later s ss l) =
        strings_there strs ss _ _ fits.1
          (body-Contains buf s ss ts at (Fits-count s fits.0) holds).1 l

moved_StandsAt :
    (buf bytes : List ℕ) (o k : ℕ) (i : Instr)
    → Contains buf o bytes
    → StandsAt bytes 0 k i
    → StandsAt buf o k i
moved_StandsAt buf bytes o k i holds h = record {
  op_is = moved (o + 4 * k) (0 + 4 * k) i.op (omega arith) h.op_is;
  a_is = moved (o + 4 * k + 1) (0 + 4 * k + 1) i.a (omega arith) h.a_is;
  b_is = moved (o + 4 * k + 2) (0 + 4 * k + 2) i.b (omega arith) h.b_is;
  c_is = moved (o + 4 * k + 3) (0 + 4 * k + 3) i.c (omega arith) h.c_is;
}
  where
    moved : (m j v : ℕ) → o + j ≡ m → get_elem? bytes j ≡ some v → get_elem? buf m ≡ some v
    moved m j v same e = subst (λ (n : ℕ). get_elem? buf n ≡ some v) same (holds j v e)

-- The sections stand behind the headers.
bodies_there :
    (ss : List Section) (ts : List TypeRow)
    → length (file ss ts) < 2 ^ 32
    → Contains (file ss ts) (8 * length ss + 12) (bodies ss (types_section ts))
bodies_there ss ts bound =
    let heads = headers ss (types_header ts) in
    let rest = bodies ss (types_section ts) in
    let size = length-append heads rest in
    let size' = length-headers ss (types_header ts) in
    let (_, behind) =
      be32_lem (file ss ts) (heads ++ rest) 0 (length ss + 1) (whole_Contains (file ss ts))
        (omega (arith, size, size')) in
    let from : 4 + length heads ≡ 8 * length ss + 12 = omega (arith, size') in
    rw (← from) (Contains-behind (file ss ts) heads rest 4 behind)

module _ {U : Uthash} (ss : List Section) (ts : List TypeRow) (errno k : ℕ) (fits : AllFit ss)
    (small : length ts < 2 ^ 32) (bound : length (file ss ts) < 2 ^ 32) where
  -- A file of any sections but the types', in any order, and then the types, with any length of a string section in
  -- the header and any word in front of its characters, shorter than 2 ^ 32 bytes and with lengths and counts below
  -- 2 ^ 32, is loaded, and each instruction of the last section of instructions is fetched at its number, byte
  -- for byte.
  pub fetch-file :
      (is : List Instr) (i : Instr)
      → LastCode is ss
      → get_elem? is k ≡ some i
      → (loaded : Loaded U) × (loadfile (mapped (file ss ts)) errno no_sections ≡ ok loaded)
        × (fetch {U = U} (record { file = file ss ts; sec = loaded.sec }) k
            ≡ ok (instr_of i.op i.a i.b i.c))
  fetch-file is i last e =
      let start = 8 * length ss + 12 in
      let (o, points, holds) =
        code_there {U = U} ts (file ss ts) is ss no_sections start fits (bodies_there ss ts bound)
          last in
      (
        _,
        loadfile-file ss ts errno fits small bound,
        fetch_lem _ o k i points (
            moved_StandsAt (file ss ts) (code_bytes is) o k i holds (code_bytes-StandsAt is k i e)),
      )

  -- A file of any sections but the types', in any order, and then the types, with any length of a string section in
  -- the header and any word in front of its characters, shorter than 2 ^ 32 bytes and with lengths and counts below
  -- 2 ^ 32, is loaded, and if the strings of its last section of strings have no zeros, each of them is the text at
  -- its number.
  pub cstr_text-file :
      (strs : List (List ℕ)) (s : List ℕ)
      → LastStrings strs ss
      → AllNoZero strs
      → get_elem? strs k ≡ some s
      → (loaded : Loaded U) × (loadfile (mapped (file ss ts)) errno no_sections ≡ ok loaded)
        × (cstr_text {U = U} (record { file = file ss ts; sec = loaded.sec }) k ≡ ok s)
  unfolding cstr_text
  cstr_text-file strs s last clean e =
      let start = 8 * length ss + 12 in
      let (o, word, points, holds, short) =
        strings_there {U = U} ts (file ss ts) strs ss no_sections start fits
          (bodies_there ss ts bound) last in
      let chars = o + 4 * (length strs + 1) in
      let there = characters-Contains (file ss ts) word strs o holds in
      let (at, found, text_is) =
        text_lem (file ss ts) strs [] chars k s (rw (append-nil (characters strs)) there) clean e in
      (_, loadfile-file ss ts errno fits small bound, rw (points, found) text_is)
