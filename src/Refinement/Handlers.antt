-- ===== src/Refinement/Handlers.antt =====
-- The handlers of one instruction each.
use clojit_cvm.Common.{ℕ, zero, suc, ◌+◌, Res}
use clojit_cvm.Store.{Store}
use clojit_cvm.Store.Refines.{Implements}
use clojit_cvm.Host.{Host}
use clojit_cvm.Program.{Program}
use clojit_cvm.Vm.Refines.{Refines, then-Refines, move-Refines, pure-Refines}
use clojit_cvm.Handlers.Constants.{
  cstr, ckey, ctype, cbool, cnil, cshort, nsset, nsget, fnew, mov, move_slots, bulkmov,
}
use clojit_cvm.Handlers.Numeric.{
  get_double, arithmetic, addvv, subvv, mulvv, divvv, modvv, equality, iseq,
}
use clojit_cvm.Handlers.Control.{jump, jumpf, jumpt, loop, skip}
use clojit_cvm.Handlers.Objects.{alloc, setfield, getfield}
use clojit_cvm.Refinement.Rules.{commands}

module _ {C L : Store} (impl : Implements C L) {H : Host} where
  pub cstr-Refines : (a d : ℕ) → Refines impl {H = H} (cstr a d) (cstr a d)
  unfolding cstr
  cstr-Refines a d = search commands

  pub ckey-Refines :
      (p : Program H.uthash) (a d : ℕ) → Refines impl {H = H} (ckey p a d) (ckey p a d)
  unfolding ckey
  ckey-Refines p a d = search commands

  pub ctype-Refines : (a d : ℕ) → Refines impl {H = H} (ctype a d) (ctype a d)
  unfolding ctype
  ctype-Refines a d = search commands

  pub cbool-Refines : (a d : ℕ) → Refines impl {H = H} (cbool a d) (cbool a d)
  unfolding cbool
  cbool-Refines a d = search commands

  pub cnil-Refines : (a : ℕ) → Refines impl {H = H} (cnil a) (cnil a)
  unfolding cnil
  cnil-Refines a = search commands

  pub cshort-Refines : (a d : ℕ) → Refines impl {H = H} (cshort a d) (cshort a d)
  unfolding cshort
  cshort-Refines a d = search commands

  pub nsset-Refines :
      (p : Program H.uthash) (a d : ℕ) → Refines impl {H = H} (nsset p a d) (nsset p a d)
  unfolding nsset
  nsset-Refines p a d = search commands

  pub nsget-Refines :
      (p : Program H.uthash) (a d : ℕ) → Refines impl {H = H} (nsget p a d) (nsget p a d)
  unfolding nsget
  nsget-Refines p a d = search commands

  pub fnew-Refines : (a d : ℕ) → Refines impl {H = H} (fnew a d) (fnew a d)
  unfolding fnew
  fnew-Refines a d = search commands

  pub mov-Refines : (a d : ℕ) → Refines impl {H = H} (mov a d) (mov a d)
  unfolding mov
  mov-Refines a d = search commands

  move_slots-Refines :
      (n to from : ℕ) → Refines impl {H = H} (move_slots n to from) (move_slots n to from)
  unfolding move_slots
  move_slots-Refines zero to from = pure-Refines impl tt
  move_slots-Refines (suc n) to from =
      then-Refines impl (move-Refines impl to from) (move_slots-Refines n (to + 1) (from + 1))

  pub bulkmov-Refines : (a b c : ℕ) → Refines impl {H = H} (bulkmov a b c) (bulkmov a b c)
  unfolding bulkmov
  bulkmov-Refines a b c = search (commands, move_slots-Refines)

  get_double-Refines : (slot : ℕ) → Refines impl {H = H} (get_double slot) (get_double slot)
  unfolding get_double
  get_double-Refines slot = search commands

  pub arithmetic-Refines :
      (f : ℕ → ℕ → Res ℕ) (g : ℕ → ℕ → ℕ) (target b c : ℕ)
      → Refines impl {H = H} (arithmetic f g target b c) (arithmetic f g target b c)
  unfolding arithmetic
  arithmetic-Refines f g target b c = search (commands, get_double-Refines) depth 12

  pub addvv-Refines : (a b c : ℕ) → Refines impl {H = H} (addvv a b c) (addvv a b c)
  unfolding addvv
  addvv-Refines a b c = search (commands, arithmetic-Refines)

  pub subvv-Refines : (a b c : ℕ) → Refines impl {H = H} (subvv a b c) (subvv a b c)
  unfolding subvv
  subvv-Refines a b c = search (commands, arithmetic-Refines)

  pub mulvv-Refines : (a b c : ℕ) → Refines impl {H = H} (mulvv a b c) (mulvv a b c)
  unfolding mulvv
  mulvv-Refines a b c = search (commands, arithmetic-Refines)

  pub divvv-Refines : (a b c : ℕ) → Refines impl {H = H} (divvv a b c) (divvv a b c)
  unfolding divvv
  divvv-Refines a b c = search (commands, arithmetic-Refines)

  pub modvv-Refines : (a b c : ℕ) → Refines impl {H = H} (modvv a b c) (modvv a b c)
  unfolding modvv
  modvv-Refines a b c = search commands

  pub equality-Refines : (a b c : ℕ) → Refines impl {H = H} (equality a b c) (equality a b c)
  unfolding equality
  equality-Refines a b c = search (commands, get_double-Refines) depth 8

  pub iseq-Refines : (a b c : ℕ) → Refines impl {H = H} (iseq a b c) (iseq a b c)
  unfolding iseq
  iseq-Refines a b c = search (commands, equality-Refines)

  pub jump-Refines : (d : ℕ) → Refines impl {H = H} (jump d) (jump d)
  unfolding jump
  jump-Refines d = search commands

  pub jumpf-Refines : (a d : ℕ) → Refines impl {H = H} (jumpf a d) (jumpf a d)
  unfolding jumpf
  jumpf-Refines a d = search (commands, jump-Refines)

  pub jumpt-Refines : (a d : ℕ) → Refines impl {H = H} (jumpt a d) (jumpt a d)
  unfolding jumpt
  jumpt-Refines a d = search (commands, jump-Refines)

  pub loop-Refines : Refines impl {H = H} loop loop
  unfolding loop
  loop-Refines = search commands

  pub skip-Refines : Refines impl {H = H} skip skip
  unfolding skip
  skip-Refines = search commands

  pub alloc-Refines :
      (p : Program H.uthash) (fuel : ℕ) (a d : ℕ)
      → Refines impl {H = H} (alloc p fuel a d) (alloc p fuel a d)
  unfolding alloc
  alloc-Refines p fuel a d = search commands depth 10

  pub setfield-Refines : (a b c : ℕ) → Refines impl {H = H} (setfield a b c) (setfield a b c)
  unfolding setfield
  setfield-Refines a b c = search commands depth 8

  pub getfield-Refines : (a b c : ℕ) → Refines impl {H = H} (getfield a b c) (getfield a b c)
  unfolding getfield
  getfield-Refines a b c = search commands depth 8
