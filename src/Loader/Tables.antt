-- ===== src/Loader/Tables.antt =====
-- The records of the types and of the protocols' functions: how they are found, and how they are read.
use clojit_cvm.Common.{
  ℕ, suc, ◌+◌, ◌*◌, ◌^◌, ◌<◌, ◌≡◌, ◌≢◌, refl, ◌∙◌, ap, sym, arith, none, some, List, [], ◌∷◌, ◌++◌,
  length, get_elem?, u32, u64, ok,
}
use clojit_cvm.Common.Bits.{bit_or_low}
use clojit_cvm.Host.{Uthash}
use clojit_cvm.Program.{VtableRecord, TypeRecord}
use clojit_cvm.Loader.Code.{to_be32, value_lem}
use clojit_cvm.Loader.Cases.{
  be32, look_up_pair, add_vtable_record, get_vtable_record, add_type_record, vtable_records,
  type_records,
}

look_up_pair_lem :
    (protocol_nr type_nr : ℕ)
    → protocol_nr < 2 ^ 32
    → type_nr < 2 ^ 32
    → look_up_pair protocol_nr type_nr ≡ protocol_nr * 2 ^ 32 + type_nr
unfolding look_up_pair
look_up_pair_lem p t hp ht =
    let fits : u64 (p * 2 ^ 32) ≡ p * 2 ^ 32 = omega arith in rw fits (bit_or_low 32 p t ht)

-- The key of a pair is the number of its type.
key_lem : (p t : ℕ) → p < 2 ^ 32 → t < 2 ^ 32 → u32 (look_up_pair p t) ≡ t
key_lem p t hp ht = omega (arith, look_up_pair_lem p t hp ht)

-- A function added for a protocol and a type, where the type had none, is found for that type under
-- every protocol; for any other type the table answers as before.
pub get-add_vtable_record :
    (U : Uthash) (table : U.Table VtableRecord) (p q t s offset : ℕ)
    → p < 2 ^ 32
    → q < 2 ^ 32
    → t < 2 ^ 32
    → s < 2 ^ 32
    → s ≢ t
    → get_vtable_record U table (look_up_pair p t) ≡ none
    → (get_vtable_record U
          (add_vtable_record U table
            (record { look_up_pair = look_up_pair p t; jump_offset = offset }))
          (look_up_pair q t)
        ≡ some (record { look_up_pair = look_up_pair p t; jump_offset = offset }))
      × (get_vtable_record U
            (add_vtable_record U table
              (record { look_up_pair = look_up_pair p t; jump_offset = offset }))
            (look_up_pair q s)
          ≡ get_vtable_record U table (look_up_pair q s))
unfolding get_vtable_record add_vtable_record
get-add_vtable_record U table p q t s offset hp hq ht hs ne free = (
  rw (get_vtable_record, add_vtable_record, key_lem p t hp ht, key_lem q t hq ht)
      (U.find-add_self table t _ (rw (sym (key_lem p t hp ht)) free)),
  rw (get_vtable_record, add_vtable_record, key_lem p t hp ht, key_lem q s hq hs)
      (U.find-add_ne table t s _ (λ e. ne (sym e))),
)

be32_bytes :
    (buf : List ℕ) (at a b c d : ℕ)
    → get_elem? buf at ≡ some a
    → get_elem? buf (at + 1) ≡ some b
    → get_elem? buf (at + 2) ≡ some c
    → get_elem? buf (at + 3) ≡ some d
    → be32 buf at ≡ ok (((a * 256 + b) * 256 + c) * 256 + d)
unfolding be32
be32_bytes buf at a b c d ha hb hc hd = rw (be32, ha, hb, hc, hd) refl

-- The bytes `bs` stand in the file from the offset `at` on.
abbrev pub Contains : List ℕ → ℕ → List ℕ → Type 0
Contains buf at bs = (j v : ℕ) → get_elem? bs j ≡ some v → get_elem? buf (at + j) ≡ some v

pub whole_Contains : (bs : List ℕ) → Contains bs 0 bs
whole_Contains bs j v e = let same : 0 + j ≡ j = omega arith in rw same e

-- A number that `htonl` writes is read back, wherever it stands.
pub be32_lem :
    (buf ys : List ℕ) (at n : ℕ)
    → Contains buf at (to_be32 n ++ ys)
    → n < 2 ^ 32
    → (be32 buf at ≡ ok n) × Contains buf (at + 4) ys
be32_lem buf ys at n holds h = (
  be32_bytes buf at _ _ _ _ (let same : at ≡ at + 0 = omega arith in rw same (holds 0 _ refl))
        (holds 1 _ refl) (holds 2 _ refl) (holds 3 _ refl)
      ∙ ap (λ (n : ℕ). ok n) (value_lem n h),
  λ j v e.
      let same : at + 4 + j ≡ at + suc (suc (suc (suc j))) = omega arith in
      rw same (holds (suc (suc (suc (suc j)))) v e),
)

-- A row of the section of the types: the number of fields, and that of the type.
pub record TypeRow : Type 0 where
  pub fields : ℕ
  pub number : ℕ
  pub fields_fit : fields < 2 ^ 32
  pub number_fits : number < 2 ^ 32

abbrev pub type_bytes : List TypeRow → List ℕ
type_bytes [] = []
type_bytes (r ∷ rs) = to_be32 r.fields ++ (to_be32 r.number ++ type_bytes rs)

-- The records added in order, each with its size in bytes: the fields and the header.
abbrev pub add_types : (U : Uthash) → U.Table TypeRecord → List TypeRow → U.Table TypeRecord
add_types U table [] = table
add_types U table (r ∷ rs) =
    add_types U
      (add_type_record U table (record { type_id = r.number; type_size = u32 (r.fields * 8 + 8) }))
      rs

-- Where the rows of a section of types stand in a file, they are read as their records, in order.
pub type_records_lem :
    (U : Uthash) (buf : List ℕ) (rs : List TypeRow) (at : ℕ) (table : U.Table TypeRecord)
    → Contains buf at (type_bytes rs)
    → type_records U buf (length rs) at table ≡ ok (add_types U table rs)
unfolding type_records
type_records_lem U buf [] at table holds = refl
type_records_lem U buf (r ∷ rs) at table holds =
    let (first, rest) =
      be32_lem buf (to_be32 r.number ++ type_bytes rs) at r.fields holds r.fields_fit in
    let (second, rest') = be32_lem buf (type_bytes rs) (at + 4) r.number rest r.number_fits in
    let next : at + 4 + 4 ≡ at + 8 = omega arith in
    rw (second, first) (type_records_lem U buf rs (at + 8) _ (rw (← next) rest'))

-- A row of the section of the protocols' functions.
pub record VtableRow : Type 0 where
  pub offset : ℕ
  pub protocol : ℕ
  pub number : ℕ
  pub offset_fits : offset < 2 ^ 32
  pub protocol_fits : protocol < 2 ^ 32
  pub number_fits : number < 2 ^ 32

abbrev pub vtable_bytes : List VtableRow → List ℕ
vtable_bytes [] = []
vtable_bytes (r ∷ rs) =
    to_be32 r.offset ++ (to_be32 r.protocol ++ (to_be32 r.number ++ vtable_bytes rs))

abbrev pub add_vtables : (U : Uthash) → U.Table VtableRecord → List VtableRow → U.Table VtableRecord
add_vtables U table [] = table
add_vtables U table (r ∷ rs) =
    add_vtables U
      (add_vtable_record U table
        (record { look_up_pair = look_up_pair r.protocol r.number; jump_offset = r.offset }))
      rs

-- Where the rows of a section of protocols' functions stand in a file, they are read as their
-- records, in order.
pub vtable_records_lem :
    (U : Uthash) (buf : List ℕ) (rs : List VtableRow) (at : ℕ) (table : U.Table VtableRecord)
    → Contains buf at (vtable_bytes rs)
    → vtable_records U buf (length rs) at table ≡ ok (add_vtables U table rs)
unfolding vtable_records
vtable_records_lem U buf [] at table holds = refl
vtable_records_lem U buf (r ∷ rs) at table holds =
    let (first, rest) =
      be32_lem buf (to_be32 r.protocol ++ (to_be32 r.number ++ vtable_bytes rs)) at r.offset holds
        r.offset_fits in
    let (second, rest') =
      be32_lem buf (to_be32 r.number ++ vtable_bytes rs) (at + 4) r.protocol rest r.protocol_fits in
    let next : at + 4 + 4 ≡ at + 8 = omega arith in
    let (third, rest'') =
      be32_lem buf (vtable_bytes rs) (at + 8) r.number (rw (← next) rest') r.number_fits in
    let next' : at + 8 + 4 ≡ at + 12 = omega arith in
    rw (first, second, third) (vtable_records_lem U buf rs (at + 12) _ (rw (← next') rest''))
