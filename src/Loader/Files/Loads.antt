-- ===== src/Loader/Files/Loads.antt =====
-- The loop of `parse` over the sections of a file.
use clojit_cvm.Common.{
  ℕ, zero, suc, ◌+◌, ◌*◌, ◌^◌, ◌<◌, ◌≡◌, refl, ◌∙◌, arith, false, some, List, [], ◌∷◌, ◌++◌, length,
  length-append, get_elem?, u32, ok,
}
use clojit_cvm.Host.{Uthash}
use clojit_cvm.Program.{Sections, no_sections}
use clojit_cvm.Loader.{mapped, parse_section, parse_sections, parse, loadfile}
use clojit_cvm.Loader.Cases.{
  Position, be32, section_instructions, section_cint, section_cfloat, section_vtables,
  section_types,
}
use clojit_cvm.Loader.Code.{to_be32, code_bytes}
use clojit_cvm.Loader.Strings.{
  characters, section_bytes, length-section_bytes, section_cstr_lem, section_ckey_lem,
  Contains-behind,
}
use clojit_cvm.Loader.Tables.{
  Contains, whole_Contains, be32_lem, TypeRow, type_bytes, type_records_lem, add_types,
  vtable_bytes, vtable_records_lem,
}
use clojit_cvm.Loader.Files.{
  Section, code, integers, floats, strings, keywords, functions, sec_id, sec_len, count, body,
  headers, bodies, types_header, types_section, file, placed, filled, Fits, AllFit,
}

ahead : (xs ys : List ℕ) (j v : ℕ) → get_elem? xs j ≡ some v → get_elem? (xs ++ ys) j ≡ some v
ahead [] ys j v e = cc
ahead (x ∷ xs) ys zero v e = e
ahead (x ∷ xs) ys (suc j) v e = ahead xs ys j v e

pub Contains-ahead : (buf xs ys : List ℕ) (at : ℕ) → Contains buf at (xs ++ ys) → Contains buf at xs
Contains-ahead buf xs ys at holds j v e = holds j v (ahead xs ys j v e)

pub Fits-count : (s : Section) → Fits s → count s < 2 ^ 32
Fits-count (code is) h = h
Fits-count (integers n bs) h = h
Fits-count (floats n bs) h = h
Fits-count (strings len word ss) h = h.1
Fits-count (keywords len word ss) h = h.1
Fits-count (functions rs) h = h

Fits-sec_len : (s : Section) → Fits s → length (body s) < 2 ^ 32 → sec_len s < 2 ^ 32
Fits-sec_len (code is) h k = k
Fits-sec_len (integers n bs) h k = k
Fits-sec_len (floats n bs) h k = k
Fits-sec_len (strings len word ss) h k = h.0
Fits-sec_len (keywords len word ss) h k = h.0
Fits-sec_len (functions rs) h k = k

-- The position behind a section.
abbrev behind_section : {U : Uthash} → Position U → Section → Position U
behind_section at s = record {
  offset = at.offset + 4 + length (body s);
  sec = placed at.sec (at.offset + 4) s;
}

low_word : (o : ℕ) → o + 4 < 2 ^ 32 → u32 (o + 4) ≡ o + 4
low_word o h = omega arith

over : (o n : ℕ) → o + n + 4 ≡ o + 4 + n
over o n = omega arith

over_strings :
    (o word : ℕ) (ss : List (List ℕ))
    → o + length (characters ss) + 4 + 4 + length ss * 4 ≡ o + 4 + length (section_bytes word ss)
over_strings o word ss = omega (arith, length-section_bytes word ss)

sec_id-lt : (s : Section) → sec_id s < 2 ^ 32
sec_id-lt (code is) = omega arith
sec_id-lt (integers n bs) = omega arith
sec_id-lt (floats n bs) = omega arith
sec_id-lt (strings len word ss) = omega arith
sec_id-lt (keywords len word ss) = omega arith
sec_id-lt (functions rs) = omega arith

module _ {U : Uthash} (buf : List ℕ) where
  section_lem :
      (at : Position U) (s : Section)
      → at.offset + 4 < 2 ^ 32
      → be32 buf at.offset ≡ ok (count s)
      → Contains buf (at.offset + 4) (body s)
      → Fits s
      → parse_section false buf (sec_id s) (sec_len s) at ≡ ok (some (behind_section at s))
  unfolding parse_section section_instructions section_cint section_cfloat section_vtables
  section_lem at (code is) low counted holds fits =
      rw (counted, low_word at.offset low, over at.offset (length (code_bytes is))) refl
  section_lem at (integers n bs) low counted holds fits =
      rw (counted, low_word at.offset low, over at.offset (length bs)) refl
  section_lem at (floats n bs) low counted holds fits =
      rw (counted, low_word at.offset low, over at.offset (length bs)) refl
  section_lem at (strings len word ss) low counted holds fits =
      rw
        (
          counted,
          low_word at.offset low,
          section_cstr_lem buf word ss (at.offset + 4) at holds fits.2,
          over_strings at.offset word ss,
        )
        refl
  section_lem at (keywords len word ss) low counted holds fits =
      rw
        (
          counted,
          low_word at.offset low,
          section_ckey_lem buf word ss (at.offset + 4) at holds fits.2,
          over_strings at.offset word ss,
        )
        refl
  section_lem at (functions rs) low counted holds fits =
      rw
        (
          counted,
          low_word at.offset low,
          vtable_records_lem U buf rs (at.offset + 4) U.null holds,
          over at.offset (length (vtable_bytes rs)),
        )
        refl

  -- The last section.
  types_lem :
      (ts : List TypeRow) (len : ℕ) (at : Position U)
      → at.offset + 4 < 2 ^ 32
      → be32 buf at.offset ≡ ok (length ts)
      → Contains buf (at.offset + 4) (type_bytes ts)
      → parse_section false buf 6 len at
        ≡ ok (
            some (record at {
              sec = record at.sec { types_cnt = length ts; types = add_types U U.null ts };
            }))
  unfolding parse_section section_types
  types_lem ts len at low counted holds =
      rw (counted, low_word at.offset low, type_records_lem U buf ts (at.offset + 4) U.null holds)
        refl

  -- A round of the loop, with its two numbers read and its section passed over.
  round_lem :
      (n i id len : ℕ) (at at' : Position U)
      → be32 buf (4 + 8 * i) ≡ ok id
      → be32 buf (4 + 8 * i + 4) ≡ ok len
      → parse_section false buf id len at ≡ ok (some at')
      → parse_sections false buf (suc n) i at ≡ parse_sections false buf n (i + 1) at'
  unfolding parse_sections
  round_lem n i id len at at' e e' e'' = rw (parse_sections, e, e', e'') refl

  sections_lem :
      (ss : List Section) (ts : List TypeRow) (i : ℕ) (at : Position U)
      → Contains buf (4 + 8 * i) (headers ss (types_header ts))
      → Contains buf at.offset (bodies ss (types_section ts))
      → AllFit ss
      → at.offset + length (bodies ss (types_section ts)) < 2 ^ 32
      → length ts < 2 ^ 32
      → parse_sections false buf (length ss + 1) i at
        ≡ ok (record { code = 0; sec = filled at.sec at.offset ss ts })
  unfolding parse_sections
  sections_lem [] ts i at heads holds fits bound small =
      let (id, rest) =
        be32_lem buf (to_be32 (length (type_bytes ts))) (4 + 8 * i) 6 heads (omega arith) in
      let (len, _) = be32_lem buf [] (4 + 8 * i + 4) (length (type_bytes ts)) rest (omega arith) in
      let (counted, there) = be32_lem buf (type_bytes ts) at.offset (length ts) holds small in
      round_lem 0 i 6 (length (type_bytes ts)) at _ id len
        (types_lem ts (length (type_bytes ts)) at (omega arith) counted there)
  sections_lem (s ∷ ss) ts i at heads holds fits bound small =
      let size = length-append (body s) (bodies ss (types_section ts)) in
      let (id, rest) =
        be32_lem buf (to_be32 (sec_len s) ++ headers ss (types_header ts)) (4 + 8 * i) (sec_id s)
          heads (sec_id-lt s) in
      let (len, heads') =
        be32_lem buf (headers ss (types_header ts)) (4 + 8 * i + 4) (sec_len s) rest
          (Fits-sec_len s fits.0 (omega (arith, size))) in
      let (counted, there) =
        be32_lem buf (body s ++ bodies ss (types_section ts)) at.offset (count s) holds
          (Fits-count s fits.0) in
      let passed =
        section_lem at s (omega (arith, size)) counted
          (Contains-ahead buf (body s) (bodies ss (types_section ts)) (at.offset + 4) there)
          fits.0 in
      let next : 4 + 8 * i + 4 + 4 ≡ 4 + 8 * (i + 1) = omega arith in
      let rounds : suc (length ss) + 1 ≡ suc (length ss + 1) = omega arith in
      rw rounds (
        round_lem (length ss + 1) i (sec_id s) (sec_len s) at (behind_section at s) id len passed
        ∙ sections_lem ss ts (i + 1) (behind_section at s) (rw (← next) heads')
            (Contains-behind buf (body s) (bodies ss (types_section ts)) (at.offset + 4) there)
            fits.1 (omega (arith, size)) small)

  whole_lem :
      (n errno : ℕ) (sec sec' : Sections U)
      → be32 buf 0 ≡ ok n
      → parse_sections false buf n 0 (record { offset = n * 8 + 4; sec = sec })
        ≡ ok (record { code = 0; sec = sec' })
      → loadfile (mapped buf) errno sec ≡ ok (record { code = 0; sec = sec' })
  unfolding loadfile parse
  whole_lem n errno sec sec' e e' = rw (e, e') refl

pub length-headers :
    (ss : List Section) (end : List ℕ) → length (headers ss end) ≡ 8 * length ss + length end
length-headers [] end = omega arith
length-headers (s ∷ ss) end = omega (arith, length-headers ss end)

-- A file of any sections but the types', in any order, and then the types, with any length of a string section in
-- the header and any word in front of its characters, shorter than 2 ^ 32 bytes and with lengths and counts below
-- 2 ^ 32, is loaded with status 0: the sections are filled in one after the other, each with its own count, its place or
-- its strings' places, and its functions; and the types are those of the last section.
pub loadfile-file :
    {U : Uthash} (ss : List Section) (ts : List TypeRow) (errno : ℕ)
    → AllFit ss
    → length ts < 2 ^ 32
    → length (file ss ts) < 2 ^ 32
    → loadfile {U = U} (mapped (file ss ts)) errno no_sections
      ≡ ok (record { code = 0; sec = filled no_sections (8 * length ss + 12) ss ts })
loadfile-file ss ts errno fits small bound =
    let heads = headers ss (types_header ts) in
    let sections' = bodies ss (types_section ts) in
    let buf = file ss ts in
    let size = length-append heads sections' in
    let size' = length-headers ss (types_header ts) in
    let (sections, rest) =
      be32_lem buf (heads ++ sections') 0 (length ss + 1) (whole_Contains buf)
        (omega (arith, size, size')) in
    let at = Contains-behind buf heads sections' 4 rest in
    let from : 4 + length heads ≡ 8 * length ss + 12 = omega (arith, size') in
    let from' : (length ss + 1) * 8 + 4 ≡ 8 * length ss + 12 = omega arith in
    whole_lem buf (length ss + 1) errno no_sections _ sections (
      rw from' (
        sections_lem buf ss ts 0 (record { offset = 8 * length ss + 12; sec = no_sections })
          (Contains-ahead buf heads sections' 4 rest) (rw (← from) at) fits
          (omega (arith, size, size')) small))
