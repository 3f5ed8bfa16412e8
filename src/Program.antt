-- ===== src/Program.antt =====
-- loader.h: the sections of a loaded file. The file is a list of bytes, mapped at an address that is
-- a parameter; a pointer into it is an offset, and `none` is NULL.
use clojit_cvm.Common.{
  ℕ, ◌+◌, ◌*◌, Option, none, List, [], ◌∷◌, ◌==◌, if◌then◌else◌, get_elem?, drop, Res, ok, fault,
  and_then, or_fault,
}
use clojit_cvm.Host.{Uthash}

pub record VtableRecord : Type 0 where
  pub look_up_pair : ℕ
  pub jump_offset : ℕ

pub record TypeRecord : Type 0 where
  pub type_id : ℕ
  pub type_size : ℕ

pub record Sections (U : Uthash) : Type 0 where
  pub instr : Option ℕ
  pub instr_cnt : ℕ
  pub cint : Option ℕ
  pub cint_cnt : ℕ
  pub cfloat : Option ℕ
  pub cfloat_cnt : ℕ
  pub cstr : Option (List ℕ)
  pub cstr_cnt : ℕ
  pub ckey : Option (List ℕ)
  pub ckey_cnt : ℕ
  pub vtable : U.Table VtableRecord
  pub vtable_cnt : ℕ
  pub types : U.Table TypeRecord
  pub types_cnt : ℕ

-- `struct sections sec = {0};`
abbrev pub no_sections : {U : Uthash} → Sections U
no_sections {U} = record {
  instr = none;
  instr_cnt = 0;
  cint = none;
  cint_cnt = 0;
  cfloat = none;
  cfloat_cnt = 0;
  cstr = none;
  cstr_cnt = 0;
  ckey = none;
  ckey_cnt = 0;
  vtable = U.null;
  vtable_cnt = 0;
  types = U.null;
  types_cnt = 0;
}

pub record Program (U : Uthash) : Type 0 where
  pub file : List ℕ
  pub sec : Sections U

-- The `char *` at an offset: the bytes up to the first zero.
abbrev pub c_string : List ℕ → Res (List ℕ)
c_string [] = fault
c_string (b ∷ bs) = if b == 0 then ok [] else and_then (c_string bs) λ rest. ok (b ∷ rest)

module _ {U : Uthash} where
  -- `sec.cstr[d]`
  unfoldable pub cstr_at : Program U → ℕ → Res ℕ
  cstr_at p d = and_then (or_fault p.sec.cstr) λ table. or_fault (get_elem? table d)

  -- The characters of `sec.cstr[d]`.
  unfoldable pub cstr_text : Program U → ℕ → Res (List ℕ)
  unfolding cstr_at
  cstr_text p d = and_then (cstr_at p d) λ offset. c_string (drop offset p.file)

  -- `sec.types[d]`: `types` points to the first record of the hash table, which no array follows.
  unfoldable pub types_at : Program U → ℕ → Res TypeRecord
  types_at p d = if d == 0 then or_fault (U.head p.sec.types) else fault

-- `struct OpABC` and `struct OpAD` of one instruction, with `d` in the byte order of the host.
pub record Instr : Type 0 where
  pub op : ℕ
  pub a : ℕ
  pub b : ℕ
  pub c : ℕ
  pub d : ℕ

-- The four bytes `op a b c`; `ntohs` makes the last two a number, the high byte first.
abbrev pub instr_of : ℕ → ℕ → ℕ → ℕ → Instr
instr_of op a b c = record { op = op; a = a; b = b; c = c; d = b * 256 + c }

module _ {U : Uthash} where
  -- `sec.instr[pc]`
  unfoldable pub fetch : Program U → ℕ → Res Instr
  fetch p pc = and_then (or_fault p.sec.instr) λ start.
      let at = start + 4 * pc in
      and_then (or_fault (get_elem? p.file at)) λ op.
        and_then (or_fault (get_elem? p.file (at + 1))) λ a.
          and_then (or_fault (get_elem? p.file (at + 2)))
            λ b. and_then (or_fault (get_elem? p.file (at + 3))) λ c. ok (instr_of op a b c)
