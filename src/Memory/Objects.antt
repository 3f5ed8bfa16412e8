-- ===== src/Memory/Objects.antt =====
-- What `mps_alloc_obj` leaves in memory.
use clojit_cvm.Common.{
  ℕ, suc, ◌+◌, ◌-◌, ◌*◌, ◌/◌, ◌%◌, ◌^◌, ◌<◌, ◌≤◌, ◌≡◌, ◌≢◌, refl, ◌∙◌, ap, subst, arith, some, ok,
}
use clojit_cvm.Memory.{
  Mem, update, load, load_lem, store_lem, header_size, Header, read_header, write_header,
  ref_address, load_header,
}
use clojit_cvm.Memory.Alloc.{zero_fields, zero_bytes, write_object}
use clojit_cvm.Memory.Headers.{read_header-write_header}
use clojit_cvm.Memory.Zero.{Mapped, Zeroed, zero_fields_lem, update_self, update_ne}

abbrev pub fields : ℕ → ℕ
fields size = (size - header_size) / 8

-- The memory `m'` is `m` with an object of the size and the types at `obj`, its fields zero.
pub record Object (obj size cljtype mpstype : ℕ) (m m' : Mem) : Type 0 where
  pub spare : ℕ
  pub header_is :
      load_header m' obj
      ≡ ok (record { type = mpstype; spare = spare; cljtype = cljtype; size = size })
  pub fields_are : (i : ℕ) → i < fields size → load m' (ref_address obj i) ≡ ok 0
  pub kept : (b : ℕ) → ((i : ℕ) → i ≤ fields size → b ≢ obj + 8 * i) → m' b ≡ m b

module _ (obj size cljtype mpstype : ℕ) (m : Mem) (big : header_size < size)
    (fits : obj + size < 2 ^ 64) (type_fits : mpstype < 2 ^ 8) (cljtype_fits : cljtype < 2 ^ 16)
    (size_fits : size < 2 ^ 32) (whole : size % 8 ≡ 0)
    (mapped : (i : ℕ) → i ≤ fields size → Mapped m (obj + 8 * i)) where
  here : Mapped m obj
  here =
      let (v, is) = mapped 0 (omega arith) in
      let start : obj + 8 * 0 ≡ obj = omega arith in (v, subst (λ (b : ℕ). m b ≡ some v) start is)

  shift : (i : ℕ) → obj + 8 + 8 * i ≡ obj + 8 * suc i
  shift i = omega arith

  abbrev new_header : ℕ → Header
  new_header w = record (read_header w) { type = mpstype; cljtype = cljtype; size = size }

  abbrev with_header : ℕ → Mem
  with_header w = update m obj (write_header (new_header w))

  address_lem : (i : ℕ) → i < fields size → ref_address obj i ≡ obj + 8 + 8 * i
  address_lem i h = omega arith

  read_back : (w : ℕ) → read_header (write_header (new_header w)) ≡ new_header w
  unfolding read_header
  read_back w =
      (read_header-write_header (new_header w) (record {
        type_fits = type_fits;
        spare_fits = omega arith;
        cljtype_fits = cljtype_fits;
        size_fits = size_fits;
      })).1

  written_Object :
      (w : ℕ) (m' : Mem)
      → Zeroed (fields size) (obj + 8) (with_header w) m'
      → Object obj size cljtype mpstype m m'
  unfolding load_header
  written_Object w m' zeroed = record {
    spare = (read_header w).spare;
    header_is =
        rw (load_header, load_lem m' obj (write_header (new_header w)) at_obj)
          (ap (λ (h : Header). ok h) (read_back w));
    fields_are = λ i h. rw (address_lem i h) (load_lem m' (obj + 8 + 8 * i) 0 (zeroed.zeros i h));
    kept = λ b ne.
        zeroed.kept b (λ i h e. ne (suc i) (omega arith) (e ∙ shift i))
        ∙ update_ne m obj (write_header (new_header w)) b (λ e. ne 0 (omega arith) (omega arith));
  }
    where
      at_obj : m' obj ≡ some (write_header (new_header w))
      at_obj =
          zeroed.kept obj (λ i h e. omega arith) ∙ update_self m obj (write_header (new_header w))

  fields_mapped : (w i : ℕ) → i < fields size → Mapped (with_header w) (obj + 8 + 8 * i)
  fields_mapped w i h =
      let (v, is) = mapped (suc i) (omega arith) in
      (
        v,
        update_ne m obj (write_header (new_header w)) (obj + 8 + 8 * i) (λ e. omega arith)
            ∙ rw shift is,
      )

  runs_lem :
      (w : ℕ) (m' : Mem)
      → m obj ≡ some w
      → zero_fields (fields size) (obj + 8) (with_header w) ≡ ok m'
      → write_object obj size cljtype mpstype m ≡ ok m'
  unfolding write_object zero_bytes
  runs_lem w m' is runs =
      let first : ref_address obj 0 ≡ obj + 8 = omega arith in
      let none_left : (size - header_size) % 8 ≡ 0 = omega arith in
      rw
        (
          load_lem m obj w is,
          store_lem m obj (write_header (new_header w)) w is,
          first,
          runs,
          none_left,
        )
        refl

  pub write_object_lem :
      (m' : Mem) × (write_object obj size cljtype mpstype m ≡ ok m')
      × Object obj size cljtype mpstype m m'
  write_object_lem =
      let (w, is) = here in
      let (m', runs, zeroed) =
        zero_fields_lem (fields size) (obj + 8) (with_header w) (omega arith) (fields_mapped w) in
      (m', runs_lem w m' is runs, written_Object w m' zeroed)
