-- ===== src/Loader.antt =====
-- loader.c: a file of sections, parsed in place. A pointer into the file is an offset, and a read past
-- its end is a fault. What is printed while `debug_level` is positive is left out.
pub mod Cases
pub mod Swap
pub mod Code
pub mod Tables
pub mod Strings
pub mod Files
mod Tests
use clojit_cvm.Common.{
  ℕ, zero, suc, ◌+◌, ◌-◌, ◌*◌, Bool, true, false, Option, none, some, List, [], ◌∷◌, ◌==◌,
  if◌then◌else◌, u32, Res, ok, fault, and_then,
}
use clojit_cvm.Host.{Uthash, Host}
use clojit_cvm.Program.{Program, Sections, no_sections}
use clojit_cvm.Loader.Cases.{
  Position, be32, section_instructions, section_cint, section_cfloat, section_cstr, section_ckey,
  section_vtables, section_types,
}

abbrev pub einval : ℕ
einval = 22

-- What `parse` returns, and the sections as it leaves them.
pub record Loaded (U : Uthash) : Type 0 where
  pub code : ℕ
  pub sec : Sections U

module _ {U : Uthash} where
  -- The switch over one section; `none` is the default, which returns.
  unfoldable pub parse_section : Bool → List ℕ → ℕ → ℕ → Position U → Res (Option (Position U))
  unfolding section_instructions section_cint section_cfloat section_cstr section_ckey
      section_vtables section_types
  parse_section debug buf sec_id len at = and_then (be32 buf at.offset) λ cnt.
      let section_data = u32 (at.offset + 4) in
      if sec_id == 0
      then ok (some (section_instructions debug cnt len section_data at))
      else if sec_id == 1
      then ok (some (section_cint cnt len section_data at))
      else if sec_id == 2
      then ok (some (section_cfloat cnt len section_data at))
      else if sec_id == 3
      then (and_then (section_cstr buf cnt section_data at) λ at'. ok (some at'))
      else if sec_id == 4
      then (and_then (section_ckey buf cnt section_data at) λ at'. ok (some at'))
      else if sec_id == 5
      then (and_then (section_vtables buf cnt len section_data at) λ at'. ok (some at'))
      else if sec_id == 6
      then (and_then (section_types buf cnt section_data at) λ at'. ok (some at'))
      else ok none

  -- The loop over the headers, from number `i` on.
  unfoldable pub parse_sections : Bool → List ℕ → ℕ → ℕ → Position U → Res (Loaded U)
  unfolding parse_section
  parse_sections debug buf zero i at = ok (record { code = 0; sec = at.sec })
  parse_sections debug buf (suc n) i at = and_then (be32 buf (4 + 8 * i)) λ sec_id.
      and_then (be32 buf (4 + 8 * i + 4)) λ len.
        and_then (parse_section debug buf sec_id len at) λ r. elim r [
          | none ↦ ok (record { code = einval; sec = at.sec })
          | some at' ↦ parse_sections debug buf n (i + 1) at'
        ]

  unfoldable pub parse : Bool → List ℕ → Sections U → Res (Loaded U)
  unfolding parse_sections
  parse debug buf sec = and_then (be32 buf 0) λ hdr_size.
      parse_sections debug buf hdr_size 0 (record { offset = hdr_size * 8 + 4; sec = sec })

-- What the system answers: the bytes of the mapped file; the value of `errno`, when it cannot be opened or its
-- size be found out; or `MAP_FAILED`, which the test for NULL lets through, and `parse` reads.
pub data Opened : Type 0 where
  mapped : List ℕ → Opened
  failed : ℕ → Opened
  unmapped : Opened

module _ {U : Uthash} where
  -- `errno` is its value when `parse` has returned, which does not set it. `debug_level` is 0.
  unfoldable pub loadfile : Opened → ℕ → Sections U → Res (Loaded U)
  unfolding parse
  loadfile (failed code) errno sec = ok (record { code = code; sec = sec })
  loadfile unmapped errno sec = fault
  loadfile (mapped buf) errno sec =
      and_then (parse false buf sec)
        λ loaded. ok (record loaded { code = if loaded.code == 0 then 0 else errno })
