-- ===== src/Refinement/Calls.antt =====
-- The handlers of CALL and RET, with what they call.
use clojit_cvm.Common.{ℕ, zero, suc, ◌+◌, exits, Follows-bind, Follows-said}
use clojit_cvm.Store.{Store}
use clojit_cvm.Store.Refines.{Implements}
use clojit_cvm.Host.{Host}
use clojit_cvm.Builtin.{builtin_println, call_builtin, add_builtin_function}
use clojit_cvm.Vm.Refines.{Refines, then-Refines, pure-Refines, set-Refines}
use clojit_cvm.Handlers.Calls.{call_error, callee, clear_slots, run_builtin, call, ret}
use clojit_cvm.Refinement.Rules.{commands}
use clojit_cvm.Refinement.Printing.{print_slots-Follows}

module _ {C L : Store} (impl : Implements C L) {H : Host} where
  pub add_builtin_function-Refines : Refines impl {H = H} add_builtin_function add_builtin_function
  unfolding add_builtin_function
  add_builtin_function-Refines = search commands

  builtin_println-Refines :
      (fuel : ℕ) → Refines impl {H = H} (builtin_println fuel) (builtin_println fuel)
  unfolding builtin_println
  builtin_println-Refines fuel = search commands depth 10

  call_builtin-Refines :
      (fuel address : ℕ)
      → Refines impl {H = H} (call_builtin fuel address) (call_builtin fuel address)
  unfolding call_builtin
  call_builtin-Refines fuel address = search (commands, builtin_println-Refines)

  call_error-Refines : (fuel : ℕ) → Refines impl {H = H} (call_error fuel) (call_error fuel)
  unfolding call_error
  call_error-Refines fuel c l s =
      rw (s.mem, s.base)
        (Follows-bind
          (Follows-said s.out (print_slots-Follows impl fuel l.mem l.base c.slots l.slots s.slots))
          λ p q r. rw (r.0, s.out) exits)

  callee-Refines : (fuel f : ℕ) → Refines impl {H = H} (callee fuel f) (callee fuel f)
  unfolding callee
  callee-Refines fuel f = search (commands, call_error-Refines)

  clear_slots-Refines :
      (n first : ℕ) → Refines impl {H = H} (clear_slots n first) (clear_slots n first)
  unfolding clear_slots
  clear_slots-Refines zero first = pure-Refines impl tt
  clear_slots-Refines (suc n) first =
      then-Refines impl (set-Refines impl first 0) (clear_slots-Refines n (first + 1))

  run_builtin-Refines :
      (fuel a f : ℕ) → Refines impl {H = H} (run_builtin fuel a f) (run_builtin fuel a f)
  unfolding run_builtin
  run_builtin-Refines fuel a f =
      search (commands, call_builtin-Refines, clear_slots-Refines) depth 10

  pub call-Refines : (fuel a : ℕ) → Refines impl {H = H} (call fuel a) (call fuel a)
  unfolding call
  call-Refines fuel a = search (commands, callee-Refines, run_builtin-Refines) depth 10

  pub ret-Refines : (a : ℕ) → Refines impl {H = H} (ret a) (ret a)
  unfolding ret
  ret-Refines a = search commands depth 10
