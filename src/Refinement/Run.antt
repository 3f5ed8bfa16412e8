-- ===== src/Refinement/Run.antt =====
-- Steps and runs.
use clojit_cvm.Common.{
  ℕ, zero, suc, ◌≡◌, refl, Cmd, Res, Follows, runs_out, returns, Follows-bind, ok,
}
use clojit_cvm.Store.{Store}
use clojit_cvm.Store.Refines.{Implements, arrays_implement_lists}
use clojit_cvm.Slots.{Codes, AllGranted}
use clojit_cvm.Host.{Host}
use clojit_cvm.Program.{Program, Instr}
use clojit_cvm.Vm.{Vm}
use clojit_cvm.Vm.Refines.{
  Refines, Agrees, Same, with_out, vm_blank-Agrees, then-Refines, bind-Refines, pure-Refines,
  next-Refines, lift-Refines, get_pc-Refines,
}
use clojit_cvm.Handlers.Numeric.{Control, goes_on, returned}
use clojit_cvm.Store.Arrays.{array_store}
use clojit_cvm.Store.Lists.{list_store}
use clojit_cvm.Builtin.{vm_init}
use clojit_cvm.Execute.{execute, step, run, continues, boot, observe}
use clojit_cvm.Execute.Ops.{Op, op_of}
use clojit_cvm.Refinement.Handlers
use clojit_cvm.Refinement.Calls.{call-Refines, ret-Refines, add_builtin_function-Refines}

module _ {C L : Store} (impl : Implements C L) {H : Host} where
  continues-Refines :
      {m : Cmd (Vm C H) (Unit {0})} {n : Cmd (Vm L H) (Unit {0})}
      → Refines impl m n
      → Refines impl (continues m) (continues n)
  continues-Refines h = then-Refines impl h (pure-Refines impl goes_on)

  execute-Refines :
      (fuel : ℕ) (p : Program H.uthash) (op : Op) (i : Instr)
      → Refines impl {H = H} (execute fuel p op i) (execute fuel p op i)
  unfolding execute
  execute-Refines fuel p Op.cstr i = continues-Refines (Handlers.cstr-Refines impl i.a i.d)
  execute-Refines fuel p Op.ckey i = continues-Refines (Handlers.ckey-Refines impl p i.a i.d)
  execute-Refines fuel p Op.ctype i = continues-Refines (Handlers.ctype-Refines impl i.a i.d)
  execute-Refines fuel p Op.cbool i = continues-Refines (Handlers.cbool-Refines impl i.a i.d)
  execute-Refines fuel p Op.cnil i = continues-Refines (Handlers.cnil-Refines impl i.a)
  execute-Refines fuel p Op.cshort i = continues-Refines (Handlers.cshort-Refines impl i.a i.d)
  execute-Refines fuel p Op.nsset i = continues-Refines (Handlers.nsset-Refines impl p i.a i.d)
  execute-Refines fuel p Op.nsget i = continues-Refines (Handlers.nsget-Refines impl p i.a i.d)
  execute-Refines fuel p Op.addvv i = continues-Refines (Handlers.addvv-Refines impl i.a i.b i.c)
  execute-Refines fuel p Op.subvv i = continues-Refines (Handlers.subvv-Refines impl i.a i.b i.c)
  execute-Refines fuel p Op.mulvv i = continues-Refines (Handlers.mulvv-Refines impl i.a i.b i.c)
  execute-Refines fuel p Op.divvv i = continues-Refines (Handlers.divvv-Refines impl i.a i.b i.c)
  execute-Refines fuel p Op.modvv i = continues-Refines (Handlers.modvv-Refines impl i.a i.b i.c)
  execute-Refines fuel p Op.mov i = continues-Refines (Handlers.mov-Refines impl i.a i.d)
  execute-Refines fuel p Op.jump i = continues-Refines (Handlers.jump-Refines impl i.d)
  execute-Refines fuel p Op.jumpf i = continues-Refines (Handlers.jumpf-Refines impl i.a i.d)
  execute-Refines fuel p Op.jumpt i = continues-Refines (Handlers.jumpt-Refines impl i.a i.d)
  execute-Refines fuel p Op.fnew i = continues-Refines (Handlers.fnew-Refines impl i.a i.d)
  execute-Refines fuel p Op.loop i = continues-Refines (Handlers.loop-Refines impl)
  execute-Refines fuel p Op.bulkmov i =
      continues-Refines (Handlers.bulkmov-Refines impl i.a i.b i.c)
  execute-Refines fuel p Op.alloc i = continues-Refines (Handlers.alloc-Refines impl p fuel i.a i.d)
  execute-Refines fuel p Op.setfield i =
      continues-Refines (Handlers.setfield-Refines impl i.a i.b i.c)
  execute-Refines fuel p Op.getfield i =
      continues-Refines (Handlers.getfield-Refines impl i.a i.b i.c)
  execute-Refines fuel p Op.skip i = continues-Refines (Handlers.skip-Refines impl)
  execute-Refines fuel p Op.iseq i = Handlers.iseq-Refines impl i.a i.b i.c
  execute-Refines fuel p Op.call i = continues-Refines (call-Refines impl fuel i.a)
  execute-Refines fuel p Op.ret i = continues-Refines (ret-Refines impl i.a)
  execute-Refines fuel p Op.exit i =
      then-Refines impl (next-Refines impl) (pure-Refines impl (returned 1))

  pub step-Refines :
      (fuel : ℕ) (p : Program H.uthash) → Refines impl {H = H} (step fuel p) (step fuel p)
  unfolding step
  step-Refines fuel p =
      bind-Refines impl (get_pc-Refines impl)
        λ pc. bind-Refines impl (lift-Refines impl _) λ i. execute-Refines fuel p (op_of i.op) i

  -- The end of a round: the status, or the rounds that follow.
  onward :
      (k : Control) (c : Vm C H) (l : Vm L H) {x : Res (ℕ × Vm C H)} {y : Res (ℕ × Vm L H)}
      → Agrees impl c l
      → Follows (Same impl) x y
      → Follows
          (Same impl)
          (elim k [ goes_on ↦ x | returned status ↦ ok (status, c) ])
          (elim k [ goes_on ↦ y | returned status ↦ ok (status, l) ])
  onward goes_on c l s h = h
  onward (returned status) c l s h = returns (refl, s)

  pub run-Refines :
      (fuel rounds : ℕ) (p : Program H.uthash)
      → Refines impl {H = H} (run fuel rounds p) (run fuel rounds p)
  unfolding run
  run-Refines fuel zero p c l s = runs_out
  run-Refines fuel (suc rounds) p c l s =
      Follows-bind (step-Refines fuel p c l s)
        λ a b r. rw r.0 (onward b.0 a.1 b.1 r.1 (run-Refines fuel rounds p a.1 b.1 r.1))

  pub vm_init-Follows : Follows (Same impl) (vm_init {S = C} {H = H}) (vm_init {S = L} {H = H})
  unfolding vm_init
  vm_init-Follows =
      add_builtin_function-Refines impl _ _ (with_out impl refl (vm_blank-Agrees impl))

  boot-Refines :
      (fuel rounds : ℕ) (p : Program H.uthash)
      → Follows (Same impl) (boot C H fuel rounds p) (boot L H fuel rounds p)
  unfolding boot
  boot-Refines fuel rounds p =
      Follows-bind vm_init-Follows λ a b r. run-Refines fuel rounds p a.1 b.1 r.1

pub observe-Follows :
    {C L : Store} (impl : Implements C L) {H : Host} {x : Res (ℕ × Vm C H)} {y : Res (ℕ × Vm L H)}
    → Follows (Same impl) x y
    → Follows ◌≡◌ (observe x) (observe y)
observe-Follows impl h = Follows-bind h λ a b r. returns (λ i. (r.0 i, r.1.out i))

-- Where the system makes a root of every array: for every program, every number of rounds and every host: the machine of the code, over the
-- growing arrays of slots.c and stack.c, returns the status and has printed the output of the same
-- machine over plain lists; it exits as that does, with the same status and output; and it is still
-- running where that is. Nothing is said of runs in which the plain machine meets a fault.
boot-Follows :
    {codes : Codes} (H : Host) (fuel rounds : ℕ) (p : Program H.uthash)
    → AllGranted codes
    → Follows ◌≡◌
        (observe (boot (array_store codes) H fuel rounds p))
        (observe (boot list_store H fuel rounds p))
boot-Follows H fuel rounds p granted =
    observe-Follows (arrays_implement_lists granted)
      (boot-Refines (arrays_implement_lists granted) fuel rounds p)
