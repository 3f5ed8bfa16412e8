-- ===== src/Memory.antt =====
-- The memory of heap objects, and the object header of alloc.h. Memory is a map from addresses to
-- 64-bit words; an access at an address that is not the start of a mapped word is a fault.
pub mod Headers
pub mod Alloc
pub mod Zero
pub mod Objects
pub mod Retries
mod Tests
use clojit_cvm.Common.{
  ◌≡◌, refl, ℕ, ◌+◌, ◌-◌, ◌*◌, ◌/◌, ◌%◌, ◌^◌, Option, none, some, ◌==◌, if◌then◌else◌, u8, u16, u32,
  u64, ◌>>>◌, ◌<<<◌, Res, ok, fault, or_fault, and_then,
}

abbrev pub Mem : Type 0
Mem = ℕ → Option ℕ

-- `*(uint64_t *)a` and `*(uint64_t *)a = v`
unfoldable pub load : Mem → ℕ → Res ℕ
load m a = or_fault (m a)

abbrev pub update : Mem → ℕ → ℕ → Mem
update m a v b = if b == a then some v else m b

unfoldable pub store : Mem → ℕ → ℕ → Res Mem
store m a v = elim (m a) [ none ↦ fault | some _ ↦ ok (update m a v) ]

pub load_lem : (m : Mem) (a v : ℕ) → m a ≡ some v → load m a ≡ ok v
unfolding load
load_lem m a v e = rw e refl

pub store_lem : (m : Mem) (a v old : ℕ) → m a ≡ some old → store m a v ≡ ok (update m a v)
unfolding store
store_lem m a v old e = rw (store, e) refl

abbrev pub header_size : ℕ
header_size = 8

-- `struct obj_stub`, packed into one word, the lowest byte first: `type`, a spare byte, `cljtype`
-- and `size`.
pub record Header : Type 0 where
  pub type : ℕ
  pub spare : ℕ
  pub cljtype : ℕ
  pub size : ℕ

unfoldable pub read_header : ℕ → Header
read_header w = record {
  type = u8 w;
  spare = u8 (w >>> 8);
  cljtype = u16 (w >>> 16);
  size = u32 (w >>> 32);
}

unfoldable pub write_header : Header → ℕ
write_header h = h.type + (h.spare <<< 8) + (h.cljtype <<< 16) + (h.size <<< 32)

-- `&obj->ref[i]`, and `obj->ref[i]` read and written
abbrev pub ref_address : ℕ → ℕ → ℕ
ref_address obj i = u64 (obj + header_size + 8 * i)

unfoldable pub load_header : Mem → ℕ → Res Header
unfolding load read_header
load_header m obj = and_then (load m obj) λ w. ok (read_header w)
