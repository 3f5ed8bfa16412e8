-- ===== src/Execute/Clearing.antt =====
-- Slots set to nil, one after the other.
use clojit_cvm.Common.{
  ℕ, zero, suc, ◌+◌, ◌^◌, ◌<◌, ◌≤◌, ◌≡◌, refl, ◌∙◌, subst, arith, List, some, Bool-cases, inl, inr,
  ◌==◌, get_elem?, ok,
}
use clojit_cvm.Slots.Holds.{put, get_elem?-put_self, get_elem?-put_ne}
use clojit_cvm.Host.{Host}
use clojit_cvm.Handlers.Calls.{clear_slots}
use clojit_cvm.Execute.Plain.{PlainVm, set_lem}

-- The slots with `n` of them, from `at` on, set to nil.
abbrev pub cleared : ℕ → ℕ → List ℕ → List ℕ
cleared zero at xs = xs
cleared (suc n) at xs = cleared n (at + 1) (put xs at 0)

pub clear_lem :
    {H : Host} (n first : ℕ) (vm : PlainVm H)
    → vm.base + first + n < 2 ^ 31
    → clear_slots n first vm ≡ ok (tt, record vm { slots = cleared n (vm.base + first) vm.slots })
unfolding clear_slots
clear_lem zero first vm fits = refl
clear_lem (suc n) first vm fits =
    let next_at : vm.base + (first + 1) ≡ vm.base + first + 1 = omega arith in
    rw (set_lem vm first 0 (omega arith)) (
      clear_lem n (first + 1) (record vm { slots = put vm.slots (vm.base + first) 0 }) (omega arith)
      ∙ rw next_at refl)

-- What is left alone, and what is set to nil.
pub cleared_kept :
    (n at j w : ℕ) (xs : List ℕ)
    → j < at
    → get_elem? xs j ≡ some w
    → get_elem? (cleared n at xs) j ≡ some w
cleared_kept zero at j w xs below is = is
cleared_kept (suc n) at j w xs below is =
    cleared_kept n (at + 1) j w (put xs at 0) (omega arith)
      (get_elem?-put_ne xs at j 0 w (λ e. omega arith) is)

pub cleared_nil :
    (n at j : ℕ) (xs : List ℕ) → at ≤ j → j < at + n → get_elem? (cleared n at xs) j ≡ some 0
cleared_nil zero at j xs lo hi = absurd (omega arith)
cleared_nil (suc n) at j xs lo hi = elim (Bool-cases (j == at)) [
  | inl same ↦
      let e : at ≡ j = ground arith in
      cleared_kept n (at + 1) j 0 (put xs at 0) (omega arith)
        (subst (λ (i : ℕ). get_elem? (put xs at 0) i ≡ some 0) e (get_elem?-put_self xs at 0))
  | inr other ↦ cleared_nil n (at + 1) j (put xs at 0) (ground arith) (omega arith)
]
