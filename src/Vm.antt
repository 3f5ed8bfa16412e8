-- ===== src/Vm.antt =====
-- vm.h and vm.c: the machine's state, over a store and what the host provides, and the calls on it.
-- `get` changes the state: reading a slot may halve the array. What slots.c prints goes to the machine's output.
pub mod Refines
use clojit_cvm.Common.{
  ℕ, zero, suc, ◌+◌, Option, none, List, [], ◌∷◌, ◌++◌, u32, Out, Res, ok, and_then, said,
  and_print, Cmd, ◌>>=◌, ◌>>◌,
}
use clojit_cvm.Stack.{Context}
use clojit_cvm.Store.{Store}
use clojit_cvm.Memory.{Mem}
use clojit_cvm.Host.{Host}

pub record Vm (S : Store) (H : Host) : Type 0 where
  pub pc : ℕ
  pub ip : ℕ
  pub base : ℕ
  pub slots : S.Slots
  pub stack : S.Stack
  pub symbol_table : H.glib.Table
  pub mem : Mem
  -- what `amc->ap` gives: `none` where the pointer `amc` dangles
  pub ap : Option H.mps.Ap
  pub out : List Out

-- `VM vm = {0};` and the fields that `vm_init` sets, before the built-in function is added. `amc` points
-- to a local variable of `vm_init`, which is gone when that has returned.
abbrev pub vm_blank : (S : Store) (H : Host) → Vm S H
vm_blank S H = record {
  pc = 0;
  ip = 0;
  base = 0;
  slots = S.slots_init;
  stack = S.stack_init;
  symbol_table = H.glib.new;
  mem = H.memory;
  ap = none;
  out = [];
}

module _ {S : Store} {H : Host} where
  -- `vm.pc`, and an assignment to it, which is to a `uint32_t`
  unfoldable pub get_pc : Cmd (Vm S H) ℕ
  get_pc = λ vm. ok (vm.pc, vm)

  unfoldable pub set_pc : ℕ → Cmd (Vm S H) (Unit {0})
  set_pc pc = λ vm. ok (tt, record vm { pc = u32 pc })

  -- `vm.pc++`
  unfoldable pub next : Cmd (Vm S H) (Unit {0})
  next = λ vm. ok (tt, record vm { pc = u32 (vm.pc + 1) })

  -- `printf`
  unfoldable pub print : List Out → Cmd (Vm S H) (Unit {0})
  print pieces = λ vm. ok (tt, record vm { out = vm.out ++ pieces })

  -- A call that may end the process.
  unfoldable pub attempt : {A : Type 0} → Res A → Cmd (Vm S H) A
  attempt r = λ vm. and_then (said vm.out r) λ a. ok (a, vm)

  unfoldable pub get_mem : Cmd (Vm S H) Mem
  get_mem = λ vm. ok (vm.mem, vm)

  unfoldable pub set_mem : Mem → Cmd (Vm S H) (Unit {0})
  set_mem m = λ vm. ok (tt, record vm { mem = m })

  unfoldable pub get_ap : Cmd (Vm S H) (Option H.mps.Ap)
  get_ap = λ vm. ok (vm.ap, vm)

  unfoldable pub set_ap : Option H.mps.Ap → Cmd (Vm S H) (Unit {0})
  set_ap ap = λ vm. ok (tt, record vm { ap = ap })

  unfoldable pub set_context : Context → Cmd (Vm S H) (Unit {0})
  set_context ctx = λ vm. ok (tt, record vm { base = ctx.base_slot; ip = ctx.ip })

  unfoldable pub get_context : Cmd (Vm S H) Context
  get_context = λ vm. ok (record { base_slot = vm.base; ip = vm.ip }, vm)

  unfoldable pub get : ℕ → Cmd (Vm S H) ℕ
  get index = λ vm. and_then (said vm.out (S.slots_get vm.slots (u32 (vm.base + index)))) λ r.
      let (printed, slots) = S.flush r.1 in
      ok (r.0, record vm { slots = slots; out = and_print vm.out printed })

  unfoldable pub set : ℕ → ℕ → Cmd (Vm S H) (Unit {0})
  set index value = λ vm.
      and_then (said vm.out (S.slots_set vm.slots (u32 (vm.base + index)) value)) λ s.
        let (printed, slots) = S.flush s in
        ok (tt, record vm { slots = slots; out = and_print vm.out printed })

  unfoldable pub move : ℕ → ℕ → Cmd (Vm S H) (Unit {0})
  unfolding get set
  move to from = get from >>= set to

  -- `vm.slots.size = vm.base + a`
  unfoldable pub set_size : ℕ → Cmd (Vm S H) (Unit {0})
  set_size a = λ vm.
      and_then (S.set_size vm.slots (u32 (vm.base + a)))
        λ slots. ok (tt, record vm { slots = slots })

  -- `push(&vm.stack, ctx)` and `pop(&vm.stack)`
  unfoldable pub push : Context → Cmd (Vm S H) (Unit {0})
  push ctx = λ vm.
      and_then (said vm.out (S.push vm.stack ctx)) λ stack. ok (tt, record vm { stack = stack })

  unfoldable pub pop : Cmd (Vm S H) Context
  pop = λ vm. and_then (said vm.out (S.pop vm.stack)) λ r. ok (r.0, record vm { stack = r.1 })

  unfoldable pub get_symbol_table : List ℕ → Cmd (Vm S H) ℕ
  get_symbol_table key = λ vm. ok (H.glib.lookup vm.symbol_table key, vm)

  unfoldable pub add_symbol_table_pair : List ℕ → ℕ → Cmd (Vm S H) (Unit {0})
  add_symbol_table_pair key value =
      λ vm. ok (tt, record vm { symbol_table = H.glib.insert vm.symbol_table key value })
