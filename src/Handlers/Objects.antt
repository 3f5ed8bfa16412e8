-- ===== src/Handlers/Objects.antt =====
-- ALLOC, SETFIELD and GETFIELD.
use clojit_cvm.Common.{
  ℕ, ◌==◌, [], ◌∷◌, if◌then◌else◌, u16, text, some, Cmd, lift, or_fault, ◌>>=◌, ◌>>◌,
}
use clojit_cvm.Store.{Store}
use clojit_cvm.Host.{Host}
use clojit_cvm.Program.{Program, types_at}
use clojit_cvm.Memory.{load, store, ref_address}
use clojit_cvm.Memory.Alloc.{mps_alloc_obj, mps_res_ok}
use clojit_cvm.Vm.{Vm, attempt, get, set, next, print, get_mem, set_mem, get_ap, set_ap}

abbrev pub obj_mps_type_object : ℕ
obj_mps_type_object = 2

module _ {S : Store} {H : Host} where
  -- `alloc_slot` is a local variable: the address of the object is not stored in a slot.
  unfoldable pub alloc : Program H.uthash → ℕ → ℕ → ℕ → Cmd (Vm S H) (Unit {0})
  alloc p fuel a d = do
    type ← lift (types_at p d)
    alloc_slot ← get a
    m ← get_mem
    amc ← get_ap
    ap ← lift (or_fault amc)
    r ← attempt (
        mps_alloc_obj H.mps fuel alloc_slot type.type_size (u16 type.type_id) obj_mps_type_object m
          ap)
    set_mem r.mem
    set_ap (some r.ap)
    print (if r.result == mps_res_ok then [] else text "Could't not allocate obj\n" ∷ [])
    next

  unfoldable pub setfield : ℕ → ℕ → ℕ → Cmd (Vm S H) (Unit {0})
  setfield a b c = do
    obj ← get a
    value ← get c
    m ← get_mem
    m' ← lift (store m (ref_address obj b) value)
    set_mem m'
    next

  unfoldable pub getfield : ℕ → ℕ → ℕ → Cmd (Vm S H) (Unit {0})
  getfield a b c = do
    obj ← get b
    m ← get_mem
    value ← lift (load m (ref_address obj c))
    set a value
    next
