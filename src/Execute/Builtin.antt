-- ===== src/Execute/Builtin.antt =====
-- CALL of the built-in function `println`.
use clojit_cvm.Common.{
  ℕ, ◌+◌, ◌^◌, ◌<◌, ◌≤◌, ◌≡◌, refl, subst, arith, List, [], ◌∷◌, ◌++◌, some, true, false, ◌==◌,
  lt→ltb, u32, get_elem?, length, Out, text, ok,
}
use clojit_cvm.Slot.{to_small_int, to_builtin, is_fnew, is_builtin, get_builtin}
use clojit_cvm.Slot.Codes.{to_builtin_lem}
use clojit_cvm.Slots.Holds.{put, get_elem?-put_self, get_elem?-put_ne}
use clojit_cvm.Stack.{Context}
use clojit_cvm.Stack.Holds.{depth_limit}
use clojit_cvm.Host.{Host}
use clojit_cvm.Print.{println_slot}
use clojit_cvm.Builtin.{builtin_println, call_builtin}
use clojit_cvm.Vm.{get_pc, next, get_mem, print, push, pop, get_context, set_context}
use clojit_cvm.Handlers.Calls.{call, callee, run_builtin}
use clojit_cvm.Execute.Plain.{PlainVm, slot?, get_lem, set_lem}
use clojit_cvm.Execute.Calls.{here}
use clojit_cvm.Execute.Clearing.{cleared, clear_lem, cleared_kept, cleared_nil}

builtin_println_lem :
    {H : Host} (vm : PlainVm H) (fuel v : ℕ) (shown : List Out)
    → vm.base + 2 < 2 ^ 31
    → slot? vm 2 ≡ some v
    → println_slot fuel vm.mem v ≡ ok shown
    → builtin_println fuel vm
      ≡ ok (
        tt,
        record vm { slots = put vm.slots (vm.base + 0) 0; out = vm.out ++ shown ++ text "\n" ∷ [] },
      )
unfolding builtin_println get_mem print
builtin_println_lem vm fuel v shown fits is prints =
    rw (get_lem vm 2 v (omega arith) is, prints)
      (set_lem (record vm { out = vm.out ++ shown ++ text "\n" ∷ [] }) 0 0 (omega arith))

-- What the call leaves: the frame is the caller's, slot `localbase` is nil, and so are the slots from the
-- third of the callee's frame on.
pub record Printed {H : Host} (vm : PlainVm H) (localbase : ℕ) (shown : List Out)
    (result : PlainVm H) : Type 0 where
  pub pc_next : result.pc ≡ u32 (vm.pc + 1)
  pub base_back : result.base ≡ vm.base
  pub ip_back : result.ip ≡ vm.ip
  pub stack_back : result.stack ≡ vm.stack
  pub out_is : result.out ≡ vm.out ++ shown ++ text "\n" ∷ []
  pub value_left : slot? result localbase ≡ some 0
  pub cleared_are :
      (j : ℕ)
      → vm.base + localbase + 2 ≤ j
      → j < vm.base + localbase + localbase + 10
      → get_elem? result.slots j ≡ some 0
  pub others_kept :
      (j w : ℕ)
      → j < vm.base + localbase
      → get_elem? vm.slots j ≡ some w
      → get_elem? result.slots j ≡ some w

not_fnew_lem : (s : ℕ) → is_builtin s ≡ true → is_fnew s ≡ false
unfolding is_builtin is_fnew
not_fnew_lem s h = ground arith

address_lem : (a : ℕ) → a < 2 ^ 32 → get_builtin (to_builtin a) ≡ a
address_lem a h = let (_, value, _) = to_builtin_lem a (omega arith) in omega (arith, value)

call_builtin_lem :
    {H : Host} (vm : PlainVm H) (fuel v : ℕ) (shown : List Out)
    → H.println_address < 2 ^ 32
    → vm.base + 2 < 2 ^ 31
    → slot? vm 2 ≡ some v
    → println_slot fuel vm.mem v ≡ ok shown
    → call_builtin fuel (get_builtin (to_builtin H.println_address)) vm
      ≡ ok (
        tt,
        record vm { slots = put vm.slots (vm.base + 0) 0; out = vm.out ++ shown ++ text "\n" ∷ [] },
      )
unfolding call_builtin
call_builtin_lem {H} vm fuel v shown near fits is prints =
    let same : (H.println_address == H.println_address) ≡ true = ground arith in
    rw (address_lem H.println_address near, same)
      (builtin_println_lem vm fuel v shown fits is prints)

-- Inside the callee's frame.
run_builtin_lem :
    {H : Host} (vm : PlainVm H) (fuel localbase v : ℕ) (shown : List Out) (ctx : Context)
    (rest : List Context)
    → H.println_address < 2 ^ 32
    → vm.base + localbase + 10 < 2 ^ 31
    → slot? vm 2 ≡ some v
    → println_slot fuel vm.mem v ≡ ok shown
    → vm.stack ≡ ctx ∷ rest
    → run_builtin fuel localbase (to_builtin H.println_address) vm
      ≡ ok (
        tt,
        record vm {
          pc = u32 (vm.pc + 1);
          base = ctx.base_slot;
          ip = ctx.ip;
          slots = cleared (localbase + 8) (vm.base + 2) (put vm.slots (vm.base + 0) 0);
          stack = rest;
          out = vm.out ++ shown ++ text "\n" ∷ [];
        },
      )
unfolding run_builtin pop set_context next
run_builtin_lem vm fuel localbase v shown ctx rest near fits is prints top =
    rw
      (
        call_builtin_lem vm fuel v shown near (omega arith) is prints,
        clear_lem (localbase + 8) 2
            (record vm {
              slots = put vm.slots (vm.base + 0) 0;
              out = vm.out ++ shown ++ text "\n" ∷ [];
            })
            (omega arith),
        top,
      )
      refl

module _ {H : Host} (vm : PlainVm H) (localbase : ℕ) where
  -- The slots with the return address stored, and those that the call leaves.
  abbrev marked : List ℕ
  marked = put vm.slots (vm.base + localbase) (to_small_int vm.pc)

  abbrev left : List ℕ
  left = cleared (localbase + 8) (vm.base + localbase + 2) (put marked (vm.base + localbase + 0) 0)

  -- The machine inside the built-in function, and behind the call.
  abbrev inside : PlainVm H
  inside = record vm {
    base = vm.base + localbase;
    ip = 0;
    slots = marked;
    stack = here vm ∷ vm.stack;
  }

  abbrev behind : List Out → PlainVm H
  behind shown = record vm {
    pc = u32 (vm.pc + 1);
    slots = left;
    out = vm.out ++ shown ++ text "\n" ∷ [];
  }

  call_println_runs :
      (fuel v : ℕ) (shown : List Out)
      → H.println_address < 2 ^ 32
      → vm.base + localbase + localbase + 10 < 2 ^ 31
      → length vm.stack < depth_limit
      → slot? vm (localbase + 1) ≡ some (to_builtin H.println_address)
      → slot? vm (localbase + 2) ≡ some v
      → println_slot fuel vm.mem v ≡ ok shown
      → call fuel localbase vm ≡ ok (tt, behind shown)
  unfolding call get_pc get_context push set_context callee
  call_println_runs fuel v shown near fits shallow holds argument prints =
      let (tagged, _, _) = to_builtin_lem H.println_address (omega arith) in
      let vm' : PlainVm H = record vm { slots = marked } in
      let there : slot? vm' (localbase + 1) ≡ some (to_builtin H.println_address) =
        get_elem?-put_ne vm.slots (vm.base + localbase) (vm.base + (localbase + 1))
          (to_small_int vm.pc) (to_builtin H.println_address) (λ e. omega arith) holds in
      let at_two : vm.base + (localbase + 2) ≡ vm.base + localbase + 2 = omega arith in
      let argument' : slot? inside 2 ≡ some v =
        subst (λ (i : ℕ). get_elem? marked i ≡ some v) at_two
          (get_elem?-put_ne vm.slots (vm.base + localbase) (vm.base + (localbase + 2))
            (to_small_int vm.pc) v (λ e. omega arith) argument) in
      let frame : u32 (vm.base + localbase) ≡ vm.base + localbase = omega arith in
      let not_fnew : is_fnew (to_builtin H.println_address) ≡ false =
        not_fnew_lem (to_builtin H.println_address) tagged in
      rw
        (
          set_lem vm localbase (to_small_int vm.pc) (omega arith),
          get_lem vm' (localbase + 1) (to_builtin H.println_address) (omega arith) there,
          not_fnew,
          tagged,
          lt→ltb (length vm.stack) depth_limit shallow,
          frame,
        )
        (run_builtin_lem inside fuel localbase v shown (here vm) vm.stack near (omega arith)
          argument' prints refl)

  -- CALL of a slot that holds `println`, with indices in range, fewer than 2 ^ 30 contexts, and the address of
  -- the function below 2 ^ 32: if printing the argument, the slot behind the function, returns, then the call
  -- does; it has printed the argument and a newline, and goes on behind the CALL in the caller's frame,
  -- with the stack as it was; slot `localbase` is nil, and so are the slots of the callee's frame from the third
  -- to number `localbase` + 9; the slots below the frame are kept.
  pub call_println :
      (fuel v : ℕ) (shown : List Out)
      → H.println_address < 2 ^ 32
      → vm.base + localbase + localbase + 10 < 2 ^ 31
      → length vm.stack < depth_limit
      → slot? vm (localbase + 1) ≡ some (to_builtin H.println_address)
      → slot? vm (localbase + 2) ≡ some v
      → println_slot fuel vm.mem v ≡ ok shown
      → (result : PlainVm H) × (call fuel localbase vm ≡ ok (tt, result))
        × Printed vm localbase shown result
  call_println fuel v shown near fits shallow holds argument prints = (
    behind shown,
    call_println_runs fuel v shown near fits shallow holds argument prints,
    record {
      pc_next = refl;
      base_back = refl;
      ip_back = refl;
      stack_back = refl;
      out_is = refl;
      value_left =
          cleared_kept (localbase + 8) (vm.base + localbase + 2) (vm.base + localbase) 0 _
            (omega arith)
            (let at : vm.base + localbase + 0 ≡ vm.base + localbase = omega arith in
              rw at (get_elem?-put_self marked (vm.base + localbase) 0));
      cleared_are =
          λ j lo hi. cleared_nil (localbase + 8) (vm.base + localbase + 2) j _ lo (omega arith);
      others_kept = λ j w below is.
          cleared_kept (localbase + 8) (vm.base + localbase + 2) j w _ (omega arith) (
            get_elem?-put_ne marked (vm.base + localbase + 0) j 0 w (λ e. omega arith)
              (get_elem?-put_ne vm.slots (vm.base + localbase) j (to_small_int vm.pc) w
                (λ e. omega arith) is));
    },
  )
