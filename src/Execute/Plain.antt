-- ===== src/Execute/Plain.antt =====
-- The calls of vm.c over the plain store, as equations: the lemmas by which the instructions run.
use clojit_cvm.Common.{
  ℕ, zero, suc, ◌+◌, ◌^◌, ◌<◌, ◌≡◌, refl, arith, List, [], ◌∷◌, Option, some, lt→ltb, u32,
  get_elem?, get_or, length, ok,
}
use clojit_cvm.Slots.Holds.{put}
use clojit_cvm.Host.{Host}
use clojit_cvm.Store.Lists.{list_store, get_list}
use clojit_cvm.Vm.{Vm, get, move, next, pop}
use clojit_cvm.Vm

abbrev pub PlainVm : Host → Type 0
PlainVm H = Vm list_store H

-- The slot at an index of the current frame.
abbrev pub slot? : {H : Host} → PlainVm H → ℕ → Option ℕ
slot? vm i = get_elem? vm.slots (vm.base + i)

found : (xs : List ℕ) (i v : ℕ) → get_elem? xs i ≡ some v → (i < length xs) × (get_or xs i 0 ≡ v)
found [] i v e = cc
found (x ∷ xs) zero v e = (omega arith, cc)
found (x ∷ xs) (suc i) v e = let (below, is) = found xs i v e in (omega arith, is)

get_list_lem : (xs : List ℕ) (i v : ℕ) → get_elem? xs i ≡ some v → get_list xs i ≡ ok (v, xs)
get_list_lem xs i v e = let (below, is) = found xs i v e in rw (lt→ltb i (length xs) below, is) refl

module _ {H : Host} (vm : PlainVm H) where
  pub get_lem : (i v : ℕ) → vm.base + i < 2 ^ 32 → slot? vm i ≡ some v → get i vm ≡ ok (v, vm)
  unfolding get
  get_lem i v h e =
      let inside : u32 (vm.base + i) ≡ vm.base + i = omega arith in
      rw (inside, get_list_lem vm.slots (vm.base + i) v e) refl

  pub set_lem :
      (i v : ℕ)
      → vm.base + i < 2 ^ 31
      → Vm.set i v vm ≡ ok (tt, record vm { slots = put vm.slots (vm.base + i) v })
  unfolding Vm.set
  set_lem i v h =
      let inside : u32 (vm.base + i) ≡ vm.base + i = omega arith in
      rw (inside, lt→ltb (vm.base + i) (2 ^ 31) h) refl
