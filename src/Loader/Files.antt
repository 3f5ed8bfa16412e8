-- ===== src/Loader/Files.antt =====
-- Whole files: how sections are laid out in a file, and what is loaded from it. The
-- file builtin1.cvmb of the repository is laid out in this way (Loader/Tests).
pub mod Loads
pub mod Reads
use clojit_cvm.Common.{
  ℕ, zero, suc, ◌+◌, ◌*◌, ◌^◌, ◌<◌, ◌≡◌, refl, ap, arith, some, List, [], ◌∷◌, ◌++◌, length,
}
use clojit_cvm.Host.{Uthash}
use clojit_cvm.Program.{Instr, Sections}
use clojit_cvm.Loader.Code.{to_be32, code_bytes}
use clojit_cvm.Loader.Strings.{characters, section_bytes, starts}
use clojit_cvm.Loader.Tables.{TypeRow, type_bytes, add_types, VtableRow, vtable_bytes, add_vtables}

-- A section that others may follow. Integers and floats are a number of them and any bytes. With strings and
-- keywords come the length that the file's header gives, which the loader does not use, and the word in front of
-- their characters, which it passes over.
pub data Section : Type 0 where
  code : List Instr → Section
  integers : ℕ → List ℕ → Section
  floats : ℕ → List ℕ → Section
  strings : (len word : ℕ) → List (List ℕ) → Section
  keywords : (len word : ℕ) → List (List ℕ) → Section
  functions : List VtableRow → Section

abbrev pub sec_id : Section → ℕ
sec_id (code is) = 0
sec_id (integers n bs) = 1
sec_id (floats n bs) = 2
sec_id (strings len word ss) = 3
sec_id (keywords len word ss) = 4
sec_id (functions rs) = 5

abbrev pub count : Section → ℕ
count (code is) = length is
count (integers n bs) = n
count (floats n bs) = n
count (strings len word ss) = length ss
count (keywords len word ss) = length ss
count (functions rs) = length rs

-- The bytes behind the count.
abbrev pub body : Section → List ℕ
body (code is) = code_bytes is
body (integers n bs) = bs
body (floats n bs) = bs
body (strings len word ss) = section_bytes word ss
body (keywords len word ss) = section_bytes word ss
body (functions rs) = vtable_bytes rs

-- The length in the file's header: for the other sections, that of the body.
abbrev pub sec_len : Section → ℕ
sec_len (strings len word ss) = len
sec_len (keywords len word ss) = len
sec_len (code is) = length (code_bytes is)
sec_len (integers n bs) = length bs
sec_len (floats n bs) = length bs
sec_len (functions rs) = length (vtable_bytes rs)

-- The number of the section and its length, in the file's header.
abbrev pub headers : List Section → List ℕ → List ℕ
headers [] end = end
headers (s ∷ ss) end = to_be32 (sec_id s) ++ (to_be32 (sec_len s) ++ headers ss end)

abbrev pub bodies : List Section → List ℕ → List ℕ
bodies [] end = end
bodies (s ∷ ss) end = to_be32 (count s) ++ (body s ++ bodies ss end)

-- The section of the types, which stands last: the loader does not pass over it.
abbrev pub types_header : List TypeRow → List ℕ
types_header ts = to_be32 6 ++ to_be32 (length (type_bytes ts))

abbrev pub types_section : List TypeRow → List ℕ
types_section ts = to_be32 (length ts) ++ type_bytes ts

abbrev pub file : List Section → List TypeRow → List ℕ
file ss ts =
    to_be32 (length ss + 1) ++ (headers ss (types_header ts) ++ bodies ss (types_section ts))

-- The fields that a section sets, with its body at the offset `at`.
abbrev pub placed : {U : Uthash} → Sections U → ℕ → Section → Sections U
placed sec at (code is) = record sec {
  instr_cnt = length is;
  instr = some at;
  cint_cnt = length is;
  cint = some at;
}
placed sec at (integers n bs) = record sec { cint_cnt = n; cint = some at }
placed sec at (floats n bs) = record sec { cfloat_cnt = n; cfloat = some at }
placed sec at (strings len word ss) = record sec {
  cstr_cnt = length ss;
  cstr = some (starts (at + 4 * (length ss + 1)) ss);
}
placed sec at (keywords len word ss) = record sec {
  ckey_cnt = length ss;
  ckey = some (starts (at + 4 * (length ss + 1)) ss);
}
placed {U} sec at (functions rs) = record sec {
  vtable_cnt = length rs;
  vtable = add_vtables U U.null rs;
}

-- The sections, one after the other from the offset `at` on, and the types.
abbrev pub filled : {U : Uthash} → Sections U → ℕ → List Section → List TypeRow → Sections U
filled {U} sec at [] ts = record sec { types_cnt = length ts; types = add_types U U.null ts }
filled sec at (s ∷ ss) ts = filled (placed sec (at + 4) s) (at + 4 + length (body s)) ss ts

-- The counts and the numbers in a section fit into `uint32_t`.
abbrev pub Fits : Section → Type 0
Fits (code is) = length is < 2 ^ 32
Fits (integers n bs) = n < 2 ^ 32
Fits (floats n bs) = n < 2 ^ 32
Fits (strings len word ss) =
    (len < 2 ^ 32) × (length ss < 2 ^ 32) × (length (characters ss) < 2 ^ 32)
Fits (keywords len word ss) =
    (len < 2 ^ 32) × (length ss < 2 ^ 32) × (length (characters ss) < 2 ^ 32)
Fits (functions rs) = length rs < 2 ^ 32

abbrev pub AllFit : List Section → Type 0
AllFit [] = Unit
AllFit (s ∷ ss) = Fits s × AllFit ss
