-- ===== src/Format/Scan/Block.antt =====
-- The references that a scan reports.
use clojit_cvm.Common.{
  ℕ, zero, suc, ◌+◌, ◌^◌, ◌≤◌, ◌<◌, ◌≡◌, refl, arith, Bool, true, false, List, [], ◌∷◌, length,
  ◌==◌, lt→ltb, if◌then◌else◌, u64, Res, ok,
}
use clojit_cvm.Memory.{Mem, Header, load_header, ref_address}
use clojit_cvm.Handlers.Objects.{obj_mps_type_object}
use clojit_cvm.Format.Scan.{
  Fixer, Scanned, mps_res_ok, scan_refs, scan_object, scan_objects, obj_scan,
}

-- `n` addresses from `a` on, each one byte behind the last, reported to the state.
abbrev pub reported : {S : Type 0} → (S → ℕ → S) → ℕ → ℕ → S → S
reported log zero a ss = ss
reported log (suc n) a ss = reported log n (a + 1) (log ss a)

-- Objects one behind the other, from `base` to `limit`.
pub data Block (m : Mem) : ℕ → ℕ → List Header → Type 0 where
  end : (a : ℕ) → Block m a a []
  object :
      {base limit : ℕ} {hs : List Header} (h : Header)
      → load_header m base ≡ ok h
      → 0 < h.size
      → base + h.size + 8 < 2 ^ 64
      → Block m (base + h.size) limit hs
      → Block m base limit (h ∷ hs)

-- What is reported of a block: of an object, as many addresses as its size has bytes, from its first
-- field on; of anything else, nothing.
abbrev pub reported_of : {S : Type 0} → (S → ℕ → S) → ℕ → List Header → S → S
reported_of log base [] ss = ss
reported_of log base (h ∷ hs) ss =
    reported_of log (base + h.size) hs
      (if h.type == obj_mps_type_object then reported log h.size (base + 8) ss else ss)

-- A collector that accepts every reference, moves nothing and leaves the reference as it is.
module _ (F : Fixer) (log : F.State → ℕ → F.State)
    (quiet : (ss : F.State) (m : Mem) (ref : ℕ)
      → F.fix ss m ref ≡ (ref, record { code = mps_res_ok; state = log ss ref; mem = m })) where
  abbrev pub accepted : F.State → Mem → Res (Scanned F.State)
  accepted ss m = ok (record { code = mps_res_ok; state = ss; mem = m })

  refs_lem :
      (n fuel a limit : ℕ) (ss : F.State) (m : Mem)
      → n ≤ fuel
      → limit ≡ a + n
      → limit < 2 ^ 64
      → scan_refs F fuel a limit ss m
        ≡ ok (record { code = mps_res_ok; state = reported log n a ss; mem = m })
  unfolding scan_refs
  refs_lem zero zero a limit ss m h e fits = ground arith
  refs_lem zero (suc fuel) a limit ss m h e fits = ground arith
  refs_lem (suc n) zero a limit ss m h e fits = absurd (omega arith)
  refs_lem (suc n) (suc fuel) a limit ss m h e fits =
      let next : u64 (a + 1) ≡ a + 1 = omega arith in
      rw (lt→ltb a limit (omega arith), quiet ss m a, next)
        (refs_lem n fuel (a + 1) limit (log ss a) m (omega arith) (omega arith) fits)

  object_lem :
      (fuel base : ℕ) (h : Header) (ss : F.State) (m : Mem)
      → load_header m base ≡ ok h
      → base + h.size + 8 < 2 ^ 64
      → h.size ≤ fuel
      → scan_object F fuel base ss m
        ≡ ok (record {
          code = mps_res_ok;
          state = if h.type == obj_mps_type_object then reported log h.size (base + 8) ss else ss;
          mem = m;
        })
  unfolding scan_object
  object_lem fuel base h ss m header fits enough =
      let first : ref_address base 0 ≡ base + 8 = omega arith in
      let last : u64 (base + 8 + h.size) ≡ base + 8 + h.size = omega arith in
      let refs =
        refs_lem h.size fuel (base + 8) (base + 8 + h.size) ss m enough refl (omega arith) in
      rw (header, first, last, refs) (both (h.type == obj_mps_type_object) _ _)
    where
      both :
          (b : Bool) (x y : F.State)
          → (if b then accepted x m else accepted y m) ≡ accepted (if b then x else y) m
      both true x y = refl
      both false x y = refl

  abbrev pub AllWithin : ℕ → List Header → Type 0
  AllWithin fuel [] = Unit
  AllWithin fuel (h ∷ hs) = (h.size ≤ fuel) × AllWithin fuel hs

  -- The block goes no further than its limit.
  Block-le :
      {m : Mem} {base limit : ℕ} {hs : List Header}
      → Block m base limit hs
      → base + length hs ≤ limit
  Block-le (Block.end a) = omega arith
  Block-le (Block.object h header pos fits block) = omega (arith, Block-le block)

  objects_lem :
      (fuel rounds : ℕ) {m : Mem} {base limit : ℕ} {hs : List Header} (ss : F.State)
      → Block m base limit hs
      → AllWithin fuel hs
      → length hs ≤ rounds
      → scan_objects F fuel rounds base limit ss m
        ≡ ok (record { code = mps_res_ok; state = reported_of log base hs ss; mem = m })
  unfolding scan_objects
  objects_lem fuel zero {m} ss (Block.end a) within h = ground arith
  objects_lem fuel (suc rounds) {m} ss (Block.end a) within h = ground arith
  objects_lem fuel zero ss (Block.object h header pos fits block) within enough =
      absurd (omega arith)
  objects_lem fuel (suc rounds) {m} {base} {limit} ss (Block.object h header pos fits block) within
        enough =
      let next : u64 (base + h.size) ≡ base + h.size = omega arith in
      rw
        (
          lt→ltb base limit (omega (arith, Block-le block)),
          object_lem fuel base h ss m header fits within.0,
          header,
          next,
        )
        (objects_lem fuel rounds _ block within.1 (omega arith))

  -- A collector that accepts every reference, moves nothing and leaves the reference as it is: scanning
  -- a block of objects, each of a size above 0 and with 8 bytes behind it below 2 ^ 64, ends with MPS_RES_OK, given
  -- fuel for the number of objects and for the size of each. It has reported, of each object, as many addresses
  -- as its size has bytes, one byte apart, from that of its first field on; of forwarded objects, paddings
  -- and arrays, none. Memory is as it was.
  pub obj_scan-Block :
      {m : Mem} {base limit : ℕ} {hs : List Header} (fuel : ℕ) (ss : F.State)
      → Block m base limit hs
      → AllWithin fuel hs
      → length hs ≤ fuel
      → obj_scan F fuel base limit ss m
        ≡ ok (record { code = mps_res_ok; state = reported_of log base hs ss; mem = m })
  unfolding obj_scan
  obj_scan-Block fuel ss block within enough = objects_lem fuel fuel ss block within enough
