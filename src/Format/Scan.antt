-- ===== src/Format/Scan.antt =====
-- vm.c, `obj_scan`: the collector's callback on a block of objects, which calls the collector back
-- for each reference. That call may move objects, so it changes memory; and it is given the address
-- of the loop's own variable, so it may change that.
pub mod Block
use clojit_cvm.Common.{
  ℕ, zero, suc, ◌+◌, Bool, true, false, ◌==◌, ltb, if◌then◌else◌, u64, Res, ok, out_of_fuel,
  and_then,
}
use clojit_cvm.Memory.{Mem, Header, load_header, ref_address}
use clojit_cvm.Handlers.Objects.{obj_mps_type_object}

-- `MPS_RES_OK`
abbrev pub mps_res_ok : ℕ
mps_res_ok = 0

-- What a call comes to: the result code, the scan state and the memory.
pub record Scanned (S : Type 0) : Type 0 where
  pub code : ℕ
  pub state : S
  pub mem : Mem

-- `MPS_FIX12(ss, &ref)`, with `ref` as it leaves it.
pub record Fixer : Type 1 where
  pub State : Type 0
  pub fix : State → Mem → ℕ → ℕ × Scanned State

module _ (F : Fixer) where
  -- `for (ref = ...; ref < ref_limit; ref++)`: a `void *` goes up by one byte.
  unfoldable pub scan_refs : ℕ → ℕ → ℕ → F.State → Mem → Res (Scanned F.State)
  scan_refs zero ref ref_limit ss m =
      if ltb ref ref_limit
      then out_of_fuel
      else ok (record { code = mps_res_ok; state = ss; mem = m })
  scan_refs (suc fuel) ref ref_limit ss m =
      let (ref', fixed) = F.fix ss m ref in
      let rest = scan_refs fuel (u64 (ref' + 1)) ref_limit fixed.state fixed.mem in
      if ltb ref ref_limit
      then if fixed.code == mps_res_ok then rest else ok fixed
      else ok (record { code = mps_res_ok; state = ss; mem = m })

  -- The references of one object, if it is an object.
  unfoldable pub scan_object : ℕ → ℕ → F.State → Mem → Res (Scanned F.State)
  unfolding scan_refs load_header
  scan_object fuel base ss m = and_then (load_header m base) λ obj.
      let ref_base = ref_address base 0 in
      if obj.type == obj_mps_type_object
      then scan_refs fuel ref_base (u64 (ref_base + obj.size)) ss m
      else ok (record { code = mps_res_ok; state = ss; mem = m })

  -- `while (base < limit)` within a number of rounds. The size is read once more behind the references.
  unfoldable pub scan_objects : ℕ → ℕ → ℕ → ℕ → F.State → Mem → Res (Scanned F.State)
  unfolding scan_object
  scan_objects fuel zero base limit ss m =
      if ltb base limit then out_of_fuel else ok (record { code = mps_res_ok; state = ss; mem = m })
  scan_objects fuel (suc rounds) base limit ss m =
      let rest = and_then (scan_object fuel base ss m) λ scanned.
        elim (scanned.code == mps_res_ok) [
          | true ↦ and_then (load_header scanned.mem base) λ obj.
              scan_objects fuel rounds (u64 (base + obj.size)) limit scanned.state scanned.mem
          | false ↦ ok scanned
        ] in
      if ltb base limit then rest else ok (record { code = mps_res_ok; state = ss; mem = m })

  unfoldable pub obj_scan : ℕ → ℕ → ℕ → F.State → Mem → Res (Scanned F.State)
  unfolding scan_objects
  obj_scan fuel base limit ss m = scan_objects fuel fuel base limit ss m
