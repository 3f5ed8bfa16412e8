-- ===== src/Handlers/Control.antt =====
-- JUMP, JUMPF, JUMPT, LOOP, and the cases that only step on.
use clojit_cvm.Common.{ℕ, ◌+◌, if◌then◌else◌, sign_extend16_32, Cmd, pure, ◌>>=◌, ◌>>◌}
use clojit_cvm.Slot.{is_falsy, is_truthy}
use clojit_cvm.Store.{Store}
use clojit_cvm.Host.{Host}
use clojit_cvm.Vm.{Vm, get, get_pc, set_pc, next, print}

module _ {S : Store} {H : Host} where
  -- `vm.pc + offset`, with an `int16_t` offset
  unfoldable pub jump : ℕ → Cmd (Vm S H) (Unit {0})
  jump d = do pc ← get_pc; set_pc (pc + sign_extend16_32 d)

  unfoldable pub jumpf : ℕ → ℕ → Cmd (Vm S H) (Unit {0})
  unfolding jump
  jumpf a d = do slot ← get a; print (is_falsy slot).0; if (is_falsy slot).1 then jump d else next

  unfoldable pub jumpt : ℕ → ℕ → Cmd (Vm S H) (Unit {0})
  unfolding jump
  jumpt a d = do slot ← get a; print (is_truthy slot).0; if (is_truthy slot).1 then jump d else next

  -- The case has no `vm.pc++`.
  unfoldable pub loop : Cmd (Vm S H) (Unit {0})
  loop = pure tt

  -- NOT, APPLY, VFNEW, GETFREEVAR, UCLO, NEWARRAY, GETARRAY, SETARRAY, FUNCF, FUNCV, BREAK, DROP, TRANC,
  -- and the default
  unfoldable pub skip : Cmd (Vm S H) (Unit {0})
  skip = next
