-- ===== src/Format.antt =====
-- vm.c: the object format that the collector calls back, on one object.
pub mod Forward
pub mod Scan
mod Tests
use clojit_cvm.Common.{ℕ, ◌+◌, ◌-◌, ◌^◌, ◌==◌, if◌then◌else◌, u32, u64, Res, ok, and_then}
use clojit_cvm.Memory.{
  Mem, load, store, Header, read_header, write_header, load_header, ref_address,
}

abbrev pub obj_mps_type_padding : ℕ
obj_mps_type_padding = 0

abbrev pub obj_mps_type_forward : ℕ
obj_mps_type_forward = 1

-- The address behind the object.
unfoldable pub obj_skip : ℕ → Mem → Res ℕ
unfolding load_header
obj_skip base m = and_then (load_header m base) λ obj. ok (u64 (base + obj.size))

-- `obj->type = type; obj->size = size;`
unfoldable pub retype : ℕ → ℕ → ℕ → Mem → Res Mem
unfolding load_header store write_header
retype type size obj m =
    and_then (load_header m obj)
      λ header. store m obj (write_header (record header { type = type; size = size }))

unfoldable pub obj_fwd : ℕ → ℕ → Mem → Res Mem
unfolding obj_skip retype store
obj_fwd old new m = and_then (obj_skip old m) λ limit.
    and_then (retype obj_mps_type_forward (u32 (limit + 2 ^ 64 - old)) old m)
      λ m'. store m' (ref_address old 0) new

-- The new address of an object that has moved, or 0.
unfoldable pub obj_isfwd : ℕ → Mem → Res ℕ
unfolding load_header load
obj_isfwd addr m =
    and_then (load_header m addr)
      λ obj. if obj.type == obj_mps_type_forward then load m (ref_address addr 0) else ok 0

unfoldable pub obj_pad : ℕ → ℕ → Mem → Res Mem
unfolding retype
obj_pad addr size m = retype obj_mps_type_padding (u32 size) addr m
