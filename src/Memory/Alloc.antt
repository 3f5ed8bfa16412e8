-- ===== src/Memory/Alloc.antt =====
-- alloc.c: `mps_alloc_obj`.
use clojit_cvm.Common.{
  ℕ, zero, suc, ◌+◌, ◌-◌, ◌*◌, ◌/◌, ◌%◌, ◌^◌, true, false, [], ltb, if◌then◌else◌, u64, Res, ok,
  exit, out_of_fuel, and_then,
}
use clojit_cvm.Memory.{Mem, store, header_size, write_header, read_header, load, ref_address}
use clojit_cvm.Host.{Mps, reserved, refused}

abbrev pub mps_res_ok : ℕ
mps_res_ok = 0

-- The whole words of `memset(obj->ref, 0, size - HEADER_SIZE)`
unfoldable pub zero_fields : ℕ → ℕ → Mem → Res Mem
zero_fields zero a m = ok m
zero_fields (suc n) a m = and_then (store m a 0) (zero_fields n (u64 (a + 8)))

-- The `r` bytes behind the whole words, fewer than 8, which are the low ones of their word.
unfoldable pub zero_bytes : ℕ → ℕ → Mem → Res Mem
unfolding store load
zero_bytes zero a m = ok m
zero_bytes (suc r) a m = and_then (load m a) λ w. store m a (w - w % 2 ^ (8 * suc r))

-- The header and the fields of the object at `obj`; the spare byte of the header is left as it was.
unfoldable pub write_object : ℕ → ℕ → ℕ → ℕ → Mem → Res Mem
unfolding store load zero_fields zero_bytes read_header write_header
write_object obj size cljtype mpstype m = and_then (load m obj) λ w.
    let header = record (read_header w) { type = mpstype; cljtype = cljtype; size = size } in
    let words = (size - header_size) / 8 in
    and_then (store m obj (write_header header)) λ m1.
      and_then (zero_fields words (ref_address obj 0) m1)
        (zero_bytes ((size - header_size) % 8) (ref_address obj words))

-- `abort()`, as a status of the shell.
abbrev pub aborted : ℕ
aborted = 134

pub record Allocated (P : Mps) : Type 0 where
  pub result : ℕ
  pub address : ℕ
  pub mem : Mem
  pub ap : P.Ap

module _ (P : Mps) where
  -- The loop: reserve, write the object, and try again unless the commit succeeds. `address` is
  -- `*addr_o`, which a refused reservation leaves as it was.
  unfoldable pub reserve_until_committed : ℕ → ℕ → ℕ → ℕ → ℕ → Mem → P.Ap → Res (Allocated P)
  unfolding write_object
  reserve_until_committed zero address size cljtype mpstype m ap = out_of_fuel
  reserve_until_committed (suc fuel) address size cljtype mpstype m ap =
      elim (P.reserve ap m size) [
        | refused code ap' ↦ ok (record { result = code; address = address; mem = m; ap = ap' })
        | reserved obj m' ap' ↦ and_then (write_object obj size cljtype mpstype m') λ m''.
            let (kept, ap'') = P.commit ap' obj size in
            elim kept [
              | true ↦ ok (record { result = mps_res_ok; address = obj; mem = m''; ap = ap'' })
              | false ↦ reserve_until_committed fuel obj size cljtype mpstype m'' ap''
            ]
      ]

  -- `assert(addr_o != NULL)` holds at every call, which passes the address of a local variable.
  unfoldable pub mps_alloc_obj : ℕ → ℕ → ℕ → ℕ → ℕ → Mem → P.Ap → Res (Allocated P)
  unfolding reserve_until_committed
  mps_alloc_obj fuel address size cljtype mpstype m ap =
      if ltb header_size size
      then reserve_until_committed fuel address size cljtype mpstype m ap
      else exit aborted []
