-- ===== src/Memory/Retries.antt =====
-- `mps_alloc_obj` where commits fail: each time the object is written again, into the block of the next
-- reservation.
use clojit_cvm.Common.{
  ℕ, zero, suc, ◌+◌, ◌*◌, ◌%◌, ◌^◌, ◌<◌, ◌≤◌, ◌≡◌, refl, arith, true, false, lt→ltb, ok,
}
use clojit_cvm.Host.{Mps, reserved}
use clojit_cvm.Memory.{Mem, header_size}
use clojit_cvm.Memory.Alloc.{Allocated, reserve_until_committed, mps_res_ok, mps_alloc_obj}
use clojit_cvm.Memory.Zero.{Mapped}
use clojit_cvm.Memory.Objects.{fields, Object, write_object_lem}

module _ (P : Mps) (size cljtype mpstype : ℕ) where
  -- The reservation gives a block below 2 ^ 64 whose words are mapped.
  pub record Gives (m : Mem) (point : P.Ap) : Type 0 where
    pub obj : ℕ
    pub mem : Mem
    pub next : P.Ap
    pub gives : P.reserve point m size ≡ reserved obj mem next
    pub fits : obj + size < 2 ^ 64
    pub mapped : (i : ℕ) → i ≤ fields size → Mapped mem (obj + 8 * i)

  -- Every reservation gives such a block; the commits fail so many times, whatever the object's spare byte
  -- was, and then one succeeds.
  pub data Commits : ℕ → Mem → P.Ap → Type 0 where
    kept :
        {m : Mem} {point : P.Ap} (g : Gives m point)
        → (P.commit g.next g.obj size).0 ≡ true
        → Commits 0 m point
    failed :
        {n : ℕ} {m : Mem} {point : P.Ap} (g : Gives m point)
        → (P.commit g.next g.obj size).0 ≡ false
        → ((m' : Mem)
            → Object g.obj size cljtype mpstype g.mem m'
            → Commits n m' (P.commit g.next g.obj size).1)
        → Commits (suc n) m point

  -- The last round: the object is in the block that its reservation gave.
  pub record Last (r : Allocated P) : Type 0 where
    pub before : Mem
    pub point : P.Ap
    pub block : Gives before point
    pub committed : (P.commit block.next block.obj size).0 ≡ true
    pub address : r.address ≡ block.obj
    pub object : Object block.obj size cljtype mpstype block.mem r.mem

  module _ (big : header_size < size) (small : size < 2 ^ 32) (whole : size % 8 ≡ 0)
      (ht : mpstype < 2 ^ 8) (hc : cljtype < 2 ^ 16) where
    reserve_until_committed_lem :
        (n fuel address : ℕ) (m : Mem) (point : P.Ap)
        → Commits n m point
        → n < fuel
        → (r : Allocated P) × (reserve_until_committed P fuel address size cljtype mpstype m point
            ≡ ok r)
          × (r.result ≡ mps_res_ok)
          × Last r
    unfolding reserve_until_committed
    reserve_until_committed_lem n zero address m point c h = absurd (omega arith)
    reserve_until_committed_lem zero (suc fuel) address m point (kept g holds) h =
        let (m', runs, object) =
          write_object_lem g.obj size cljtype mpstype g.mem big g.fits ht hc small whole g.mapped in
        (
          record {
            result = mps_res_ok;
            address = g.obj;
            mem = m';
            ap = (P.commit g.next g.obj size).1;
          },
          rw (reserve_until_committed, g.gives, runs, holds) refl,
          refl,
          record {
            before = m;
            point = point;
            block = g;
            committed = holds;
            address = refl;
            object = object;
          },
        )
    reserve_until_committed_lem (suc n) (suc fuel) address m point (failed g fails later) h =
        let (m', runs, object) =
          write_object_lem g.obj size cljtype mpstype g.mem big g.fits ht hc small whole g.mapped in
        let (r, is, result, last) =
          reserve_until_committed_lem n fuel g.obj m' (P.commit g.next g.obj size).1
            (later m' object) (omega arith) in
        (r, rw (reserve_until_committed, g.gives, runs, fails) is, result, last)

-- For a size above 8 and below 2 ^ 32, a multiple of 8, and types that fit into their bytes: if every reservation gives a mapped
-- block below 2 ^ 64, and after n failed commits one succeeds, then with more than n rounds allocating succeeds:
-- the address is that of the last block, the object's header holds the size and the types, its fields are zero,
-- and the rest of memory is as the last reservation left it.
pub mps_alloc_obj-Commits :
    (P : Mps) (n fuel address size cljtype mpstype : ℕ) (m : Mem) (point : P.Ap)
    → header_size < size
    → size < 2 ^ 32
    → size % 8 ≡ 0
    → mpstype < 2 ^ 8
    → cljtype < 2 ^ 16
    → Commits P size cljtype mpstype n m point
    → n < fuel
    → (r : Allocated P) × (mps_alloc_obj P fuel address size cljtype mpstype m point ≡ ok r)
      × (r.result ≡ mps_res_ok)
      × Last P size cljtype mpstype r
unfolding mps_alloc_obj
mps_alloc_obj-Commits P n fuel address size cljtype mpstype m point big small whole ht hc c h =
    let (r, is, result, last) =
      reserve_until_committed_lem P size cljtype mpstype big small whole ht hc n fuel address m
        point c h in
    (r, rw (lt→ltb header_size size big) is, result, last)
