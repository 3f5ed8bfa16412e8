-- ===== src/Loader/Cases.antt =====
-- The cases of the switch in `parse`, one for each kind of section.
use clojit_cvm.Common.{
  ℕ, zero, suc, ◌+◌, ◌-◌, ◌*◌, Bool, Option, some, List, [], ◌∷◌, ◌==◌, if◌then◌else◌, u32, u64,
  ◌<<<◌, bit_or, get_elem?, Res, ok, and_then, or_fault,
}
use clojit_cvm.Host.{Uthash}
use clojit_cvm.Program.{Sections, VtableRecord, TypeRecord}

-- `ntohl` of the four bytes at an offset
unfoldable pub be32 : List ℕ → ℕ → Res ℕ
be32 buf at = and_then (or_fault (get_elem? buf at)) λ a.
    and_then (or_fault (get_elem? buf (at + 1))) λ b.
      and_then (or_fault (get_elem? buf (at + 2))) λ c.
        and_then (or_fault (get_elem? buf (at + 3))) λ d. ok (((a * 256 + b) * 256 + c) * 256 + d)

-- `offset` and `*sec`, which the loop changes
pub record Position (U : Uthash) : Type 0 where
  pub offset : ℕ
  pub sec : Sections U

-- `strptr[j]` for `n` values of j, of which `first` says whether the next one is 0; `index` is the
-- offset of the number that ends string j - 1.
unfoldable pub string_offsets : List ℕ → ℕ → Bool → ℕ → ℕ → Res (List ℕ)
unfolding be32
string_offsets buf zero first index chars = ok []
string_offsets buf (suc n) first index chars =
    and_then (if first then ok 0 else be32 buf index) λ charskip.
      and_then (string_offsets buf n Bool.false (if first then index else index + 4) chars)
        λ rest. ok ((chars + charskip) ∷ rest)

-- `ntohl(*(start_of_index + (cnt-1)))`, or 0 if there are no strings
unfoldable pub string_bytes : List ℕ → ℕ → ℕ → Res ℕ
unfolding be32
string_bytes buf cnt index = if cnt == 0 then ok 0 else be32 buf (index + 4 * (cnt - 1))

unfoldable pub look_up_pair : ℕ → ℕ → ℕ
look_up_pair protocol_nr type_nr = bit_or (u64 (protocol_nr <<< 32)) type_nr

module _ (U : Uthash) where
  -- `HASH_ADD_INT` and `HASH_FIND_INT` take `sizeof(int)` bytes of the key: the low 32 bits.
  unfoldable pub add_vtable_record : U.Table VtableRecord → VtableRecord → U.Table VtableRecord
  add_vtable_record table v = U.add table (u32 v.look_up_pair) v

  unfoldable pub get_vtable_record : U.Table VtableRecord → ℕ → Option VtableRecord
  get_vtable_record table lup = U.find table (u32 lup)

  unfoldable pub add_type_record : U.Table TypeRecord → TypeRecord → U.Table TypeRecord
  add_type_record table v = U.add table (u32 v.type_id) v

  unfoldable pub get_type_record : U.Table TypeRecord → ℕ → Option TypeRecord
  get_type_record table id = U.find table (u32 id)

  unfoldable pub vtable_records : List ℕ → ℕ → ℕ → U.Table VtableRecord → Res (U.Table VtableRecord)
  unfolding be32 add_vtable_record look_up_pair
  vtable_records buf zero at table = ok table
  vtable_records buf (suc n) at table = and_then (be32 buf at) λ jump_offset.
      and_then (be32 buf (at + 4)) λ protocol_nr. and_then (be32 buf (at + 8)) λ type_nr.
        vtable_records buf n (at + 12) (
          add_vtable_record table
            (record { look_up_pair = look_up_pair protocol_nr type_nr; jump_offset = jump_offset }))

  unfoldable pub type_records : List ℕ → ℕ → ℕ → U.Table TypeRecord → Res (U.Table TypeRecord)
  unfolding be32 add_type_record
  type_records buf zero at table = ok table
  type_records buf (suc n) at table = and_then (be32 buf (at + 4)) λ t_id.
      and_then (be32 buf at) λ type_size.
        type_records buf n (at + 8)
          (add_type_record table (record { type_id = t_id; type_size = u32 (type_size * 8 + 8) }))

module _ {U : Uthash} where
  unfoldable pub section_cint : ℕ → ℕ → ℕ → Position U → Position U
  section_cint cnt len section_data at = record at {
    offset = at.offset + len + 4;
    sec = record at.sec { cint_cnt = cnt; cint = some section_data };
  }

  -- Without its comments the case reads `if (debug_level > 0) offset = …; if (debug_level > 0) break;`, so
  -- at level 0 it goes on into the next case.
  unfoldable pub section_instructions : Bool → ℕ → ℕ → ℕ → Position U → Position U
  unfolding section_cint
  section_instructions debug cnt len section_data at =
      let sec = record at.sec { instr_cnt = cnt; instr = some section_data } in
      if debug
      then record at { offset = at.offset + len + 4; sec = sec }
      else section_cint cnt len section_data (record at { sec = sec })

  unfoldable pub section_cfloat : ℕ → ℕ → ℕ → Position U → Position U
  section_cfloat cnt len section_data at = record at {
    offset = at.offset + len + 4;
    sec = record at.sec { cfloat_cnt = cnt; cfloat = some section_data };
  }

  unfoldable pub section_cstr : List ℕ → ℕ → ℕ → Position U → Res (Position U)
  unfolding string_offsets string_bytes
  section_cstr buf cnt index at =
      and_then (string_offsets buf cnt Bool.true index (index + 4 * (cnt + 1))) λ strptr.
        and_then (string_bytes buf cnt index) λ bytes. ok (record at {
          offset = at.offset + bytes + 4 + 4 + cnt * 4;
          sec = record at.sec { cstr_cnt = cnt; cstr = some strptr };
        })

  unfoldable pub section_ckey : List ℕ → ℕ → ℕ → Position U → Res (Position U)
  unfolding string_offsets string_bytes
  section_ckey buf cnt index at =
      and_then (string_offsets buf cnt Bool.true index (index + 4 * (cnt + 1))) λ keyptr.
        and_then (string_bytes buf cnt index) λ bytes. ok (record at {
          offset = at.offset + bytes + 4 + 4 + cnt * 4;
          sec = record at.sec { ckey_cnt = cnt; ckey = some keyptr };
        })

  unfoldable pub section_vtables : List ℕ → ℕ → ℕ → ℕ → Position U → Res (Position U)
  unfolding vtable_records
  section_vtables buf cnt len section_data at =
      and_then (vtable_records U buf cnt section_data U.null) λ table. ok (record at {
        offset = at.offset + len + 4;
        sec = record at.sec { vtable = table; vtable_cnt = cnt };
      })

  -- The case does not move the offset on.
  unfoldable pub section_types : List ℕ → ℕ → ℕ → Position U → Res (Position U)
  unfolding type_records
  section_types buf cnt section_data at =
      and_then (type_records U buf cnt section_data U.null)
        λ table. ok (record at { sec = record at.sec { types = table; types_cnt = cnt } })
