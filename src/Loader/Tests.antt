-- ===== src/Loader/Tests.antt =====
-- The loader on small files.
use clojit_cvm.Common.{◌≡◌, refl, ℕ, arith, some, List, [], ◌∷◌, ok}
use clojit_cvm.Program.{VtableRecord, Instr, instr_of, no_sections, fetch, cstr_text}
use clojit_cvm.Loader.{Loaded, mapped, loadfile}
use clojit_cvm.Loader.Cases.{look_up_pair, add_vtable_record, get_vtable_record}
use clojit_cvm.Loader.Tables.{VtableRow, TypeRow, get-add_vtable_record}
use clojit_cvm.Loader.Swap.{swap, swap_int64}
use clojit_cvm.Loader.Swap.Bytes.{swap_int64-swap}
use clojit_cvm.Loader.Files.{
  Section, code, integers, floats, keywords, strings, functions, file, filled, AllFit,
}
use clojit_cvm.Loader.Files.Loads.{loadfile-file}
use clojit_cvm.Loader.Files.Reads.{LastCode, LastStrings, fetch-file, cstr_text-file}
use clojit_cvm.Samples.{records}

abbrev entry : VtableRecord
entry = record { look_up_pair = look_up_pair 1 7; jump_offset = 40 }

-- What is added for protocol 1 and type 7 is found for protocol 2 and type 7.
get-add_vtable_record_example :
    (get_vtable_record records (add_vtable_record records [] entry) (look_up_pair 2 7) ≡ some entry)
    × (get_vtable_record records (add_vtable_record records [] entry) (look_up_pair 2 8)
        ≡ get_vtable_record records [] (look_up_pair 2 8))
unfolding get_vtable_record
get-add_vtable_record_example =
    get-add_vtable_record records [] 1 2 7 8 40 (omega arith) (omega arith) (omega arith)
      (omega arith) (λ e. omega arith) refl

abbrev pair_type : TypeRow
pair_type = record { fields = 2; number = 7; fields_fit = omega arith; number_fits = omega arith }

abbrev pair_function : VtableRow
pair_function = record {
  offset = 40;
  protocol = 1;
  number = 7;
  offset_fits = omega arith;
  protocol_fits = omega arith;
  number_fits = omega arith;
}

swap_int64-swap_example : swap_int64 0x0102_0304_0506_0708 ≡ swap 0x0102_0304_0506_0708
swap_int64-swap_example = swap_int64-swap 0x0102_0304_0506_0708 (omega arith)

-- The eight bytes in the other order.
swap_test : swap 0x0102_0304_0506_0708 ≡ 0x0807_0605_0403_0201
unfolding swap
swap_test = refl

-- "ab" and "c", and the second of them.
abbrev two_strings : List (List ℕ)
two_strings = (97 ∷ 98 ∷ []) ∷ (99 ∷ []) ∷ []

-- A file of one function, two strings, the instructions CSHORT 0 2 and EXIT, and one type.
abbrev two_instructions : List Instr
two_instructions = instr_of 7 0 0 2 ∷ instr_of 47 0 0 0 ∷ []

abbrev three_sections : List Section
three_sections =
    functions (pair_function ∷ []) ∷ strings 5 2 two_strings ∷ code two_instructions ∷ []

three_fit : AllFit three_sections
three_fit = (omega arith, ((omega arith, omega arith, omega arith), (omega arith, tt)))

loadfile-file_example :
    loadfile {U = records} (mapped (file three_sections (pair_type ∷ []))) 0 no_sections
    ≡ ok (record { code = 0; sec = filled no_sections 36 three_sections (pair_type ∷ []) })
loadfile-file_example =
    loadfile-file three_sections (pair_type ∷ []) 0 three_fit (omega arith) (omega arith)

fetch-file_example :
    (loaded : Loaded records) × (loadfile
        (mapped (file three_sections (pair_type ∷ [])))
        0
        no_sections
      ≡ ok loaded)
    × (fetch {U = records}
          (record { file = file three_sections (pair_type ∷ []); sec = loaded.sec })
          1
        ≡ ok (instr_of 47 0 0 0))
fetch-file_example =
    fetch-file three_sections (pair_type ∷ []) 0 1 three_fit (omega arith) (omega arith)
      two_instructions (instr_of 47 0 0 0)
      (LastCode.later _ _ (LastCode.later _ _ (LastCode.here [] tt))) refl

cstr_text-file_example :
    (loaded : Loaded records) × (loadfile
        (mapped (file three_sections (pair_type ∷ [])))
        0
        no_sections
      ≡ ok loaded)
    × (cstr_text {U = records}
          (record { file = file three_sections (pair_type ∷ []); sec = loaded.sec })
          1
        ≡ ok (99 ∷ []))
cstr_text-file_example =
    cstr_text-file three_sections (pair_type ∷ []) 0 1 three_fit (omega arith) (omega arith)
      two_strings (99 ∷ []) (LastStrings.later _ _ (LastStrings.here 5 2 _ tt))
      (((λ e. omega arith), ((λ e. omega arith), tt)), (((λ e. omega arith), tt), tt)) refl

-- The file builtin1.cvmb of the repository, as sections and as bytes.
builtin1 :
    file
      (code (instr_of 10 1 0 1 ∷ instr_of 0 2 0 0 ∷ instr_of 29 0 0 2 ∷ instr_of 47 0 0 0 ∷ [])
        ∷ integers 0 []
        ∷ floats 0 []
        ∷ strings 13 2
            ((116 ∷ 101 ∷ 115 ∷ 116 ∷ []) ∷ (112 ∷ 114 ∷ 105 ∷ 110 ∷ 116 ∷ 108 ∷ 110 ∷ []) ∷ [])
        ∷ keywords 0 0 []
        ∷ functions []
        ∷ [])
      []
    ≡ 0 ∷ 0 ∷ 0 ∷ 7 ∷ 0 ∷ 0 ∷ 0 ∷ 0 ∷ 0 ∷ 0 ∷ 0 ∷ 16 ∷ 0 ∷ 0 ∷ 0 ∷ 1 ∷ 0 ∷ 0 ∷ 0 ∷ 0 ∷ 0 ∷ 0 ∷ 0 ∷ 2
      ∷ 0 ∷ 0 ∷ 0 ∷ 0 ∷ 0 ∷ 0 ∷ 0 ∷ 3 ∷ 0 ∷ 0 ∷ 0 ∷ 13 ∷ 0 ∷ 0 ∷ 0 ∷ 4 ∷ 0 ∷ 0 ∷ 0 ∷ 0 ∷ 0 ∷ 0 ∷ 0
      ∷ 5 ∷ 0 ∷ 0 ∷ 0 ∷ 0 ∷ 0 ∷ 0 ∷ 0 ∷ 6 ∷ 0 ∷ 0 ∷ 0 ∷ 0 ∷ 0 ∷ 0 ∷ 0 ∷ 4 ∷ 10 ∷ 1 ∷ 0 ∷ 1 ∷ 0 ∷ 2
      ∷ 0 ∷ 0 ∷ 29 ∷ 0 ∷ 0 ∷ 2 ∷ 47 ∷ 0 ∷ 0 ∷ 0 ∷ 0 ∷ 0 ∷ 0 ∷ 0 ∷ 0 ∷ 0 ∷ 0 ∷ 0 ∷ 0 ∷ 0 ∷ 0 ∷ 2 ∷ 0
      ∷ 0 ∷ 0 ∷ 5 ∷ 0 ∷ 0 ∷ 0 ∷ 13 ∷ 0 ∷ 0 ∷ 0 ∷ 2 ∷ 116 ∷ 101 ∷ 115 ∷ 116 ∷ 0 ∷ 112 ∷ 114 ∷ 105
      ∷ 110 ∷ 116 ∷ 108 ∷ 110 ∷ 0 ∷ 0 ∷ 0 ∷ 0 ∷ 0 ∷ 0 ∷ 0 ∷ 0 ∷ 0 ∷ 0 ∷ 0 ∷ 0 ∷ 0 ∷ 0 ∷ 0 ∷ 0 ∷ 0
      ∷ []
builtin1 = refl
