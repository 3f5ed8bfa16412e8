-- ===== src/Execute.antt =====
-- execute.c, the function `start`: the switch over the operation of an instruction, and the loop.
pub mod Ops
pub mod Plain
pub mod Arithmetic
pub mod Calls
pub mod Errors
pub mod Clearing
pub mod Builtin
pub mod Names
pub mod Jumps
pub mod Equality
pub mod Blocks
pub mod Loop
mod Tests
use clojit_cvm.Common.{
  ℕ, zero, suc, List, Out, Res, ok, out_of_fuel, and_then, Cmd, lift, pure, ◌>>=◌, ◌>>◌,
}
use clojit_cvm.Store.{Store}
use clojit_cvm.Host.{Host}
use clojit_cvm.Program.{Program, Instr, fetch}
use clojit_cvm.Vm.{Vm, next, get_pc}
use clojit_cvm.Builtin.{vm_init}
use clojit_cvm.Handlers.Constants.{
  cstr, ckey, ctype, cbool, cnil, cshort, nsset, nsget, fnew, mov, bulkmov,
}
use clojit_cvm.Handlers.Numeric.{
  Control, goes_on, returned, addvv, subvv, mulvv, divvv, modvv, iseq,
}
use clojit_cvm.Handlers.Control.{jump, jumpf, jumpt, loop, skip}
use clojit_cvm.Handlers.Calls.{call, ret}
use clojit_cvm.Handlers.Objects.{alloc, setfield, getfield}
use clojit_cvm.Execute.Ops.{Op, op_of}

module _ {S : Store} {H : Host} where
  abbrev pub continues : Cmd (Vm S H) (Unit {0}) → Cmd (Vm S H) Control
  continues m = m >> pure goes_on

  -- The switch. The fuel is for the loops inside a case.
  unfoldable pub execute : ℕ → Program H.uthash → Op → Instr → Cmd (Vm S H) Control
  execute fuel p Op.cstr i = continues (cstr i.a i.d)
  execute fuel p Op.ckey i = continues (ckey p i.a i.d)
  execute fuel p Op.ctype i = continues (ctype i.a i.d)
  execute fuel p Op.cbool i = continues (cbool i.a i.d)
  execute fuel p Op.cnil i = continues (cnil i.a)
  execute fuel p Op.cshort i = continues (cshort i.a i.d)
  execute fuel p Op.nsset i = continues (nsset p i.a i.d)
  execute fuel p Op.nsget i = continues (nsget p i.a i.d)
  execute fuel p Op.addvv i = continues (addvv i.a i.b i.c)
  execute fuel p Op.subvv i = continues (subvv i.a i.b i.c)
  execute fuel p Op.mulvv i = continues (mulvv i.a i.b i.c)
  execute fuel p Op.divvv i = continues (divvv i.a i.b i.c)
  execute fuel p Op.modvv i = continues (modvv i.a i.b i.c)
  execute fuel p Op.iseq i = iseq i.a i.b i.c
  execute fuel p Op.mov i = continues (mov i.a i.d)
  execute fuel p Op.jump i = continues (jump i.d)
  execute fuel p Op.jumpf i = continues (jumpf i.a i.d)
  execute fuel p Op.jumpt i = continues (jumpt i.a i.d)
  execute fuel p Op.call i = continues (call fuel i.a)
  execute fuel p Op.ret i = continues (ret i.a)
  execute fuel p Op.fnew i = continues (fnew i.a i.d)
  execute fuel p Op.loop i = continues loop
  execute fuel p Op.bulkmov i = continues (bulkmov i.a i.b i.c)
  execute fuel p Op.alloc i = continues (alloc p fuel i.a i.d)
  execute fuel p Op.setfield i = continues (setfield i.a i.b i.c)
  execute fuel p Op.getfield i = continues (getfield i.a i.b i.c)
  execute fuel p Op.exit i = next >> pure (returned 1)
  execute fuel p Op.skip i = continues skip

  -- One round of `while (1)`.
  unfoldable pub step : ℕ → Program H.uthash → Cmd (Vm S H) Control
  unfolding execute
  step fuel p = do pc ← get_pc; i ← lift (fetch p pc); execute fuel p (op_of i.op) i

  -- `while (1)` within a number of rounds: the status that `start` returns, and the last state.
  unfoldable pub run : ℕ → ℕ → Program H.uthash → Cmd (Vm S H) ℕ
  unfolding step
  run fuel zero p vm = out_of_fuel
  run fuel (suc rounds) p vm =
      and_then (step fuel p vm)
        λ r. elim r.0 [ goes_on ↦ run fuel rounds p r.1 | returned status ↦ ok (status, r.1) ]

-- `start`, once the file is loaded: the machine is set up, and the loop runs.
unfoldable pub boot : (S : Store) (H : Host) → ℕ → ℕ → Program H.uthash → Res (ℕ × Vm S H)
unfolding run vm_init
boot S H fuel rounds p = and_then vm_init λ r. run fuel rounds p r.1

-- What can be seen of a run: the status returned, and the output.
abbrev pub observe : {S : Store} {H : Host} → Res (ℕ × Vm S H) → Res (ℕ × List Out)
observe r = and_then r λ p. ok (p.0, p.1.out)
