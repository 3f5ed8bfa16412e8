-- ===== src/Execute/Jumps.antt =====
-- The jumps: where the program goes on.
use clojit_cvm.Common.{
  ℕ, ◌+◌, ◌-◌, ◌/◌, ◌%◌, ◌^◌, ◌<◌, ◌≡◌, refl, ap, ◌∙◌, arith, some, ◌++◌, Bool, true, false, not,
  if◌then◌else◌, ltb, ◌==◌, ◌&&◌, ◌||◌, u32, sign_extend16_32, ok,
}
use clojit_cvm.Slot.{is_falsy, is_truthy}
use clojit_cvm.Host.{Host}
use clojit_cvm.Vm.{get_pc, set_pc, next, print}
use clojit_cvm.Handlers.Control.{jump, jumpf, jumpt}
use clojit_cvm.Slot.Truth.{is_falsy_lem}
use clojit_cvm.Execute.Plain.{PlainVm, slot?, get_lem}

-- Where a jump leads whose offset is the 16-bit pattern `d`: `d` instructions ahead, or 2 ^ 16 less `d` behind
-- if the highest bit is set; a place before the first instruction counts from 2 ^ 32 down.
abbrev pub landing : ℕ → ℕ → ℕ
landing pc d =
    if ltb d (2 ^ 15)
    then (pc + d) % 2 ^ 32
    else (if ltb (pc + d) (2 ^ 16) then pc + d + (2 ^ 32 - 2 ^ 16) else (pc + d - 2 ^ 16) % 2 ^ 32)

-- Nil, or a slot tagged as a Boolean whose lowest bit is clear.
abbrev pub nil_or_false : ℕ → Bool
nil_or_false s = s == 0 || (s / 2 ^ 48 == 0xFFFD && s % 2 == 0)

landing_lem : (pc d : ℕ) → d < 2 ^ 16 → u32 (pc + sign_extend16_32 d) ≡ landing pc d
landing_lem pc d h = ground arith

branch :
    {H : Host} (t : Bool) (vm : PlainVm H) (d : ℕ)
    → d < 2 ^ 16
    → (if t then jump d else next) vm
      ≡ ok (tt, record vm { pc = if t then landing vm.pc d else u32 (vm.pc + 1) })
unfolding jump get_pc set_pc next
branch true vm d h = rw (landing_lem vm.pc d h) refl
branch false vm d h = refl

-- For an offset below 2 ^ 16 and a slot below 2 ^ 64 in reach: JUMPF goes to where the offset leads (ahead, or behind
-- for an offset with the highest bit set) if its slot is nil or a Boolean with a clear lowest bit, and to the next
-- instruction if not; JUMPT does the opposite; JUMP always goes there. The conditional ones print what their test prints.
pub jumps_lem :
    {H : Host} (vm : PlainVm H) (a d s : ℕ)
    → vm.base + a < 2 ^ 32
    → d < 2 ^ 16
    → s < 2 ^ 64
    → slot? vm a ≡ some s
    → (jump d vm ≡ ok (tt, record vm { pc = landing vm.pc d }))
      × (jumpf a d vm
          ≡ ok (
            tt,
            record vm {
              pc = if nil_or_false s then landing vm.pc d else u32 (vm.pc + 1);
              out = vm.out ++ (is_falsy s).0;
            },
          ))
      × (jumpt a d vm
          ≡ ok (
            tt,
            record vm {
              pc = if nil_or_false s then u32 (vm.pc + 1) else landing vm.pc d;
              out = vm.out ++ (is_truthy s).0;
            },
          ))
unfolding jump jumpf jumpt get_pc set_pc print is_truthy
jumps_lem {H} vm a d s h small word e = (
  branch true vm d small,
  rw (get_lem vm a s h e, ← is_falsy_lem s word)
      (branch (is_falsy s).1 (record vm { out = vm.out ++ (is_falsy s).0 }) d small),
  rw (get_lem vm a s h e, ← is_falsy_lem s word)
      (branch (is_truthy s).1 (record vm { out = vm.out ++ (is_truthy s).0 }) d small
        ∙ ap (λ n. ok (tt, record vm { pc = n; out = vm.out ++ (is_truthy s).0 }))
            (swapped (is_falsy s).1 (landing vm.pc d) (u32 (vm.pc + 1)))),
)
  where
    swapped : (t : Bool) (x y : ℕ) → (if not t then x else y) ≡ (if t then y else x)
    swapped true x y = refl
    swapped false x y = refl
