-- ===== src/Format/Forward.antt =====
-- What forwarding and padding leave behind, for the other callbacks to find.
use clojit_cvm.Common.{
  ℕ, ◌+◌, ◌-◌, ◌^◌, ◌<◌, ◌≡◌, ◌≢◌, refl, ◌∙◌, ap, sym, arith, some, u32, u64, ok,
}
use clojit_cvm.Memory.{
  Mem, update, load_lem, store_lem, Header, read_header, write_header, load_header, ref_address,
}
use clojit_cvm.Memory.Headers.{read_header-write_header}
use clojit_cvm.Memory.Zero.{update_self, update_ne}
use clojit_cvm.Format.{
  obj_mps_type_forward, obj_mps_type_padding, obj_skip, retype, obj_fwd, obj_isfwd, obj_pad,
}

-- The header word `w` with another type and size.
abbrev pub retyped : ℕ → ℕ → ℕ → Header
retyped type size w = record (read_header w) { type = type; size = size }

read_retyped :
    (type size w : ℕ)
    → type < 2 ^ 8
    → size < 2 ^ 32
    → read_header (write_header (retyped type size w)) ≡ retyped type size w
unfolding read_header
read_retyped type size w ht hs =
    (read_header-write_header (retyped type size w) (record {
      type_fits = ht;
      spare_fits = omega arith;
      cljtype_fits = omega arith;
      size_fits = hs;
    })).1

load_header_lem : (m : Mem) (obj w : ℕ) → m obj ≡ some w → load_header m obj ≡ ok (read_header w)
unfolding load_header
load_header_lem m obj w e = rw (load_header, load_lem m obj w e) refl

load_retyped :
    (m : Mem) (obj type size w : ℕ)
    → m obj ≡ some (write_header (retyped type size w))
    → type < 2 ^ 8
    → size < 2 ^ 32
    → load_header m obj ≡ ok (retyped type size w)
load_retyped m obj type size w e ht hs =
    load_header_lem m obj (write_header (retyped type size w)) e
    ∙ ap (λ (h : Header). ok h) (read_retyped type size w ht hs)

retype_lem :
    (m : Mem) (obj type size w : ℕ)
    → m obj ≡ some w
    → retype type size obj m ≡ ok (update m obj (write_header (retyped type size w)))
unfolding retype
retype_lem m obj type size w e =
    rw (retype, load_header_lem m obj w e, store_lem m obj (write_header (retyped type size w)) w e)
      refl

skip_lem :
    (m : Mem) (obj : ℕ) (h : Header)
    → load_header m obj ≡ ok h
    → obj_skip obj m ≡ ok (u64 (obj + h.size))
unfolding obj_skip
skip_lem m obj h e = rw (obj_skip, e) refl

isfwd_lem :
    (m : Mem) (obj v : ℕ) (h : Header)
    → load_header m obj ≡ ok h
    → h.type ≡ obj_mps_type_forward
    → m (obj + 8) ≡ some v
    → obj + 16 < 2 ^ 64
    → obj_isfwd obj m ≡ ok v
unfolding obj_isfwd
isfwd_lem m obj v h e forward is fits =
    let address : ref_address obj 0 ≡ obj + 8 = omega arith in
    rw (obj_isfwd, e, forward, address) (load_lem m (obj + 8) v is)

fwd_lem :
    (m m1 : Mem) (old new size field : ℕ) (h : Header)
    → load_header m old ≡ ok h
    → u32 (u64 (old + h.size) + 2 ^ 64 - old) ≡ size
    → retype obj_mps_type_forward size old m ≡ ok m1
    → m1 (old + 8) ≡ some field
    → old + 16 < 2 ^ 64
    → obj_fwd old new m ≡ ok (update m1 (old + 8) new)
unfolding obj_fwd
fwd_lem m m1 old new size field h e keeps retypes is fits =
    let address : ref_address old 0 ≡ old + 8 = omega arith in
    rw (obj_fwd, skip_lem m old h e, keeps, retypes, address) (store_lem m1 (old + 8) new field is)

-- After forwarding an object with at least one mapped field, the forwarding test gives the new
-- address, and skipping still gives the address behind the old object; the rest of memory is as it was.
pub obj_isfwd-obj_fwd :
    (m : Mem) (old new w field : ℕ)
    → m old ≡ some w
    → m (old + 8) ≡ some field
    → old + 16 < 2 ^ 64
    → (m' : Mem) × (obj_fwd old new m ≡ ok m')
      × (obj_isfwd old m' ≡ ok new)
      × (obj_skip old m' ≡ obj_skip old m)
      × ((b : ℕ) → b ≢ old → b ≢ old + 8 → m' b ≡ m b)
unfolding read_header
obj_isfwd-obj_fwd m old new w field header first fits = (
  update m1 (old + 8) new,
  fwd_lem m m1 old new size field (read_header w) (load_header_lem m old w header) keeps_size
      (retype_lem m old obj_mps_type_forward size w header) field_there fits,
  isfwd_lem (update m1 (old + 8) new) old new (retyped obj_mps_type_forward size w) loads refl
      (update_self m1 (old + 8) new) fits,
  skip_lem (update m1 (old + 8) new) old (retyped obj_mps_type_forward size w) loads
      ∙ sym (skip_lem m old (read_header w) (load_header_lem m old w header)),
  λ b ne ne'. update_ne m1 (old + 8) new b ne' ∙ update_ne m old word b ne,
)
  where
    size : ℕ
    size = (read_header w).size

    word : ℕ
    word = write_header (retyped obj_mps_type_forward size w)

    m1 : Mem
    m1 = update m old word

    there : update m1 (old + 8) new old ≡ some word
    there = update_ne m1 (old + 8) new old (λ e. omega arith) ∙ update_self m old word

    loads : load_header (update m1 (old + 8) new) old ≡ ok (retyped obj_mps_type_forward size w)
    loads =
        load_retyped (update m1 (old + 8) new) old obj_mps_type_forward size w there (omega arith)
          (omega arith)

    field_there : m1 (old + 8) ≡ some field
    field_there = update_ne m old word (old + 8) (λ e. omega arith) ∙ first

    keeps_size : u32 (u64 (old + size) + 2 ^ 64 - old) ≡ size
    keeps_size = omega arith

-- Padding a mapped word: skipping then gives the address behind the padding, and the forwarding test
-- says that it has not moved; the rest of memory is as it was.
pub obj_skip-obj_pad :
    (m : Mem) (addr size w : ℕ)
    → m addr ≡ some w
    → size < 2 ^ 32
    → addr + size < 2 ^ 64
    → (m' : Mem) × (obj_pad addr size m ≡ ok m')
      × (obj_skip addr m' ≡ ok (addr + size))
      × (obj_isfwd addr m' ≡ ok 0)
      × ((b : ℕ) → b ≢ addr → m' b ≡ m b)
unfolding obj_pad obj_isfwd
obj_skip-obj_pad m addr size w header small fits = (
  m',
  rw (obj_pad, same) (retype_lem m addr obj_mps_type_padding size w header),
  skip_lem m' addr (retyped obj_mps_type_padding size w) loads ∙ ap (λ (n : ℕ). ok n) inside,
  rw (obj_isfwd, loads) refl,
  λ b ne. update_ne m addr word b ne,
)
  where
    word : ℕ
    word = write_header (retyped obj_mps_type_padding size w)

    m' : Mem
    m' = update m addr word

    same : u32 size ≡ size
    same = omega arith

    inside : u64 (addr + size) ≡ addr + size
    inside = omega arith

    loads : load_header m' addr ≡ ok (retyped obj_mps_type_padding size w)
    loads =
        load_retyped m' addr obj_mps_type_padding size w (update_self m addr word) (omega arith)
          small
