-- ===== src/Loader/Strings.antt =====
-- The sections of strings: how they are read, and what the program reads from them.
mod Layout
pub use Layout.*
use clojit_cvm.Common.{
  ℕ, zero, suc, ◌+◌, ◌-◌, ◌*◌, ◌^◌, ◌<◌, ◌≡◌, ◌≢◌, refl, ◌∙◌, ap, subst, arith, true, false, some,
  List, [], ◌∷◌, ◌++◌, length, length-append, get_elem?, drop, ◌==◌, ok,
}
use mathlib.Core.List.{append_assoc, append-nil}
use clojit_cvm.Host.{Uthash}
use clojit_cvm.Program.{c_string, cstr_text}
use clojit_cvm.Loader.Code.{to_be32}
use clojit_cvm.Loader.Tables.{Contains, be32_lem}
use clojit_cvm.Loader.Cases.{
  be32, string_offsets, string_bytes, section_cstr, section_ckey, Position,
}

-- A section behind its count: the ends of the strings, a word that the loader passes over, and the bytes.
abbrev pub section_bytes : ℕ → List (List ℕ) → List ℕ
section_bytes word ss = end_bytes 0 ss ++ (to_be32 word ++ characters ss)

length-end_bytes : (e : ℕ) (ss : List (List ℕ)) → length (end_bytes e ss) ≡ 4 * length ss
length-end_bytes e [] = refl
length-end_bytes e (s ∷ ss) = omega (arith, length-end_bytes (e + length s + 1) ss)

pub length-section_bytes :
    (word : ℕ) (ss : List (List ℕ))
    → length (section_bytes word ss) ≡ 4 * length ss + 4 + length (characters ss)
length-section_bytes word ss =
    omega
      (arith, length-append (end_bytes 0 ss) (to_be32 word ++ characters ss), length-end_bytes 0 ss)

string_bytes_lem :
    (buf : List ℕ) (ss : List (List ℕ)) (zs : List ℕ) (index : ℕ)
    → Contains buf index (end_bytes 0 ss ++ zs)
    → length (characters ss) < 2 ^ 32
    → string_bytes buf (length ss) index ≡ ok (length (characters ss))
unfolding string_bytes
string_bytes_lem buf [] zs index holds fits = refl
string_bytes_lem buf (s ∷ ss) zs index holds fits =
    let same : 0 + length (characters (s ∷ ss)) ≡ length (characters (s ∷ ss)) = omega arith in
    let filled : (suc (length ss) == 0) ≡ false = ground arith in
    let last : suc (length ss) - 1 ≡ length ss = omega arith in
    rw (filled, last)
      (bytes_lem buf s ss zs 0 index holds (omega arith) ∙ ap (λ (n : ℕ). ok n) same)

-- The bytes of the strings, behind the numbers.
pub characters-Contains :
    (buf : List ℕ) (word : ℕ) (ss : List (List ℕ)) (index : ℕ)
    → Contains buf index (section_bytes word ss)
    → Contains buf (index + 4 * (length ss + 1)) (characters ss)
characters-Contains buf word ss index holds =
    let behind = Contains-behind buf (end_bytes 0 ss) (to_be32 word ++ characters ss) index holds in
    let last =
      Contains-behind buf (to_be32 word) (characters ss) (index + length (end_bytes 0 ss)) behind in
    let same : index + 4 * (length ss + 1) ≡ index + length (end_bytes 0 ss) + 4 =
      omega (arith, length-end_bytes 0 ss) in
    rw same last

-- How a section of strings is read, as an equation.
pub section_cstr_lem :
    {U : Uthash} (buf : List ℕ) (word : ℕ) (ss : List (List ℕ)) (index : ℕ) (at : Position U)
    → Contains buf index (section_bytes word ss)
    → length (characters ss) < 2 ^ 32
    → section_cstr buf (length ss) index at
      ≡ ok (record {
        offset = at.offset + length (characters ss) + 4 + 4 + length ss * 4;
        sec = record at.sec {
          cstr_cnt = length ss;
          cstr = some (starts (index + 4 * (length ss + 1)) ss);
        };
      })
unfolding section_cstr
section_cstr_lem buf word ss index at holds fits =
    rw
      (
        offsets_whole buf ss _ index (index + 4 * (length ss + 1)) holds fits,
        string_bytes_lem buf ss _ index holds fits,
      )
      refl

pub section_ckey_lem :
    {U : Uthash} (buf : List ℕ) (word : ℕ) (ss : List (List ℕ)) (index : ℕ) (at : Position U)
    → Contains buf index (section_bytes word ss)
    → length (characters ss) < 2 ^ 32
    → section_ckey buf (length ss) index at
      ≡ ok (record {
        offset = at.offset + length (characters ss) + 4 + 4 + length ss * 4;
        sec = record at.sec {
          ckey_cnt = length ss;
          ckey = some (starts (index + 4 * (length ss + 1)) ss);
        };
      })
unfolding section_ckey
section_ckey_lem buf word ss index at holds fits =
    rw
      (
        offsets_whole buf ss _ index (index + 4 * (length ss + 1)) holds fits,
        string_bytes_lem buf ss _ index holds fits,
      )
      refl
