-- ===== src/Execute/Calls.antt =====
-- CALL of a function of the program, and RET.
use clojit_cvm.Common.{
  ℕ, ◌+◌, ◌^◌, ◌<◌, ◌≡◌, refl, ap, ◌∙◌, arith, List, ◌∷◌, some, true, false, ◌==◌, leb, lt→ltb, u32,
  get_elem?, length, take, get_elem?-take, lt-of_get_elem?, ok,
}
use clojit_cvm.Slot.{to_small_int, get_small_int, to_fnew}
use clojit_cvm.Slot.Ints.{get_small_int-to_small_int}
use clojit_cvm.Slot.Codes.{to_fnew_lem}
use clojit_cvm.Slots.Holds.{put, get_elem?-put_self, get_elem?-put_ne, length-put}
use clojit_cvm.Stack.{Context}
use clojit_cvm.Stack.Holds.{depth_limit}
use clojit_cvm.Host.{Host}
use clojit_cvm.Vm.{get_pc, set_pc, get_context, set_context, push, pop, move, set_size}
use clojit_cvm.Handlers.Calls.{callee, call, ret}
use clojit_cvm.Execute.Plain.{PlainVm, slot?, get_lem, set_lem}

module _ {H : Host} (vm : PlainVm H) where
  abbrev pub here : Context
  here = record { base_slot = vm.base; ip = vm.ip }

  -- The machine inside the called function.
  abbrev pub entered : ℕ → ℕ → PlainVm H
  entered localbase f = record vm {
    pc = f;
    ip = f;
    base = vm.base + localbase;
    slots = put vm.slots (vm.base + localbase) (to_small_int vm.pc);
    stack = here ∷ vm.stack;
  }

  callee_lem : (fuel f : ℕ) → f < 2 ^ 15 → (v : PlainVm H) → callee fuel (to_fnew f) v ≡ ok (f, v)
  unfolding callee
  callee_lem fuel f h v =
      let (value, tagged, _) = to_fnew_lem f (omega arith) in
      rw (tagged ∙ lt→ltb f (2 ^ 15) h, value) refl

  pub call_lem :
      (fuel localbase f : ℕ)
      → vm.base + localbase + 1 < 2 ^ 31
      → slot? vm (localbase + 1) ≡ some (to_fnew f)
      → 0 < f
      → f < 2 ^ 15
      → length vm.stack < depth_limit
      → call fuel localbase vm ≡ ok (tt, entered localbase f)
  unfolding call get_pc get_context push set_context set_pc
  call_lem fuel localbase f fits holds pos small shallow =
      let vm' : PlainVm H = record vm {
        slots = put vm.slots (vm.base + localbase) (to_small_int vm.pc);
      } in
      let there : slot? vm' (localbase + 1) ≡ some (to_fnew f) =
        get_elem?-put_ne vm.slots (vm.base + localbase) (vm.base + (localbase + 1))
          (to_small_int vm.pc) (to_fnew f) (λ e. omega arith) holds in
      let not_builtin : (f == 0) ≡ false = ground arith in
      let same : u32 f ≡ f = omega arith in
      let frame : u32 (vm.base + localbase) ≡ vm.base + localbase = omega arith in
      rw
        (
          set_lem vm localbase (to_small_int vm.pc) (omega arith),
          get_lem vm' (localbase + 1) (to_fnew f) (omega arith) there,
          callee_lem fuel f small vm',
          lt→ltb (length vm.stack) depth_limit shallow,
          not_builtin,
          same,
          frame,
        )
        refl

-- Returning slot `a` from a frame.
pub ret_lem :
    {H : Host} (vm : PlainVm H) (a r v : ℕ) (ctx : Context) (rest : List Context)
    → vm.base + a < 2 ^ 31
    → 0 < a
    → slot? vm 0 ≡ some r
    → slot? vm a ≡ some v
    → vm.stack ≡ ctx ∷ rest
    → ret a vm
      ≡ ok (
        tt,
        record vm {
          pc = u32 (get_small_int r + 1);
          ip = ctx.ip;
          base = ctx.base_slot;
          slots = take (vm.base + a) (put vm.slots vm.base v);
          stack = rest;
        },
      )
unfolding ret move set_size pop set_context set_pc
ret_lem {H} vm a r v ctx rest fits pos first result top =
    let vm' : PlainVm H = record vm { slots = put vm.slots vm.base v } in
    let bottom : vm.base + 0 ≡ vm.base = omega arith in
    let below : vm.base + a < length vm.slots = lt-of_get_elem? vm.slots (vm.base + a) v result in
    let keeps : leb (u32 (vm.base + a)) (length (put vm.slots vm.base v)) ≡ true =
      ground (arith, length-put vm.slots vm.base v) in
    let end : u32 (vm.base + a) ≡ vm.base + a = omega arith in
    rw
      (
        get_lem vm 0 r (omega arith) first,
        get_lem vm a v (omega arith) result,
        set_lem vm 0 v (omega arith),
        bottom,
        keeps,
        end,
        top,
      )
      refl

-- What a call comes to once the body has run: `vm` is the machine at the CALL, and `after` the one at
-- the RET.
pub record Returned {H : Host} (vm after : PlainVm H) (localbase v : ℕ) (result : PlainVm H)
    : Type 0 where
  pub pc_next : result.pc ≡ u32 (vm.pc + 1)
  pub base_back : result.base ≡ vm.base
  pub ip_back : result.ip ≡ vm.ip
  pub stack_back : result.stack ≡ vm.stack
  pub value_left : slot? result localbase ≡ some v
  pub others_kept :
      (j w : ℕ)
      → j < vm.base + localbase
      → get_elem? after.slots j ≡ some w
      → get_elem? result.slots j ≡ some w

-- With fewer than 2 ^ 30 contexts, and the frames' slots below 2 ^ 31: CALL of function number f
-- (0 < f < 2 ^ 15) enters it at instruction f, in a frame that begins at
-- `localbase`. If the body then reaches a RET of slot a (a > 0), holding v, with its frame, the stack of
-- contexts and the return address in slot 0 as the call left them, RET goes on behind the CALL, with the caller's
-- frame and stack back, v in slot `localbase` of it, and the slots below as the body left them.
pub ret-call :
    {H : Host} (vm after : PlainVm H) (fuel localbase f a v : ℕ)
    → vm.pc < 2 ^ 32
    → vm.base + localbase + 1 < 2 ^ 31
    → slot? vm (localbase + 1) ≡ some (to_fnew f)
    → 0 < f
    → f < 2 ^ 15
    → length vm.stack < depth_limit
    → after.base ≡ (entered vm localbase f).base
    → after.stack ≡ (entered vm localbase f).stack
    → slot? after 0 ≡ some (to_small_int vm.pc)
    → after.base + a < 2 ^ 31
    → 0 < a
    → slot? after a ≡ some v
    → (call fuel localbase vm ≡ ok (tt, entered vm localbase f))
      × ((result : PlainVm H) × (ret a after ≡ ok (tt, result))
          × Returned vm after localbase v result)
ret-call {H} vm after fuel localbase f a v hpc fits holds pos small shallow frame saved address
      inside some_a value =
    (
      call_lem vm fuel localbase f fits holds pos small shallow,
      (
        record after {
          pc = u32 (get_small_int (to_small_int vm.pc) + 1);
          ip = vm.ip;
          base = vm.base;
          slots = take (after.base + a) (put after.slots after.base v);
          stack = vm.stack;
        },
        ret_lem after a (to_small_int vm.pc) v (here vm) vm.stack inside some_a address value saved,
        record {
          pc_next = ap (λ (n : ℕ). u32 (n + 1)) (get_small_int-to_small_int vm.pc hpc);
          base_back = refl;
          ip_back = refl;
          stack_back = refl;
          value_left = rw (← frame) (
              get_elem?-take (after.base + a) (put after.slots after.base v) after.base
                (omega arith)
              ∙ get_elem?-put_self after.slots after.base v);
          others_kept = λ j w below is.
              get_elem?-take (after.base + a) (put after.slots after.base v) j (omega arith)
              ∙ get_elem?-put_ne after.slots after.base j v w (λ e. omega arith) is;
        },
      ),
    )
