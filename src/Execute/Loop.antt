-- ===== src/Execute/Loop.antt =====
-- The instruction LOOP.
use clojit_cvm.Common.{ℕ, zero, suc, ◌≡◌, refl, ok, out_of_fuel}
use clojit_cvm.Store.{Store}
use clojit_cvm.Host.{Host}
use clojit_cvm.Program.{Program, Instr, fetch}
use clojit_cvm.Vm.{Vm, get_pc}
use clojit_cvm.Handlers.Control.{loop}
use clojit_cvm.Handlers.Numeric.{goes_on}
use clojit_cvm.Execute.{step, run}
use clojit_cvm.Execute.Ops.{op_of}

module _ {S : Store} {H : Host} (fuel : ℕ) (p : Program H.uthash) (vm : Vm S H) (i : Instr)
    (found : fetch p vm.pc ≡ ok i) (is_loop : i.op ≡ 36) where
  step_stays : step fuel p vm ≡ ok (goes_on, vm)
  unfolding step op_of loop get_pc
  step_stays = rw (found, is_loop) refl

  -- At an instruction LOOP the machine stays for ever: no number of rounds ends the run.
  pub run-loop : (rounds : ℕ) → run fuel rounds p vm ≡ out_of_fuel
  unfolding run
  run-loop zero = refl
  run-loop (suc rounds) = rw step_stays (run-loop rounds)
