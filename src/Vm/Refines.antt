-- ===== src/Vm/Refines.antt =====
-- A command over one store that follows the same command over a store that the first implements.
use clojit_cvm.Common.{
  Option, ℕ, ◌+◌, ◌≡◌, refl, ap, ap₂, and_print, subst, ◌++◌, List, Bool, true, false,
  if◌then◌else◌, u32, Out, Res, ok, Cmd, lift, pure, ◌>>=◌, ◌>>◌, Follows, returns, exits, runs_out,
  faults, Follows-bind, Follows-said, Follows-same,
}
use clojit_cvm.Stack.{Context}
use clojit_cvm.Store.{Store}
use clojit_cvm.Store.Refines.{Implements}
use clojit_cvm.Memory.{Mem}
use clojit_cvm.Host.{Host}
use clojit_cvm.Vm.{
  Vm, attempt, vm_blank, get, set, move, set_size, push, pop, get_pc, set_pc, next, print, get_mem,
  set_mem, get_ap, set_ap, get_context, set_context, get_symbol_table, add_symbol_table_pair,
}

module _ {C L : Store} (impl : Implements C L) {H : Host} where
  -- Two machines that agree on all but the stores, which are related.
  pub record Agrees (c : Vm C H) (l : Vm L H) : Type 0 where
    pub pc : c.pc ≡ l.pc
    pub ip : c.ip ≡ l.ip
    pub base : c.base ≡ l.base
    pub slots : impl.Slots c.slots l.slots
    pub stack : impl.Stack c.stack l.stack
    pub symbol_table : c.symbol_table ≡ l.symbol_table
    pub mem : c.mem ≡ l.mem
    pub ap : c.ap ≡ l.ap
    pub out : c.out ≡ l.out

  with_pc :
      {c : Vm C H} {l : Vm L H} {n m : ℕ}
      → n ≡ m
      → Agrees c l
      → Agrees (record c { pc = n }) (record l { pc = m })
  with_pc {c} {l} h s = record {
    pc = h;
    ip = s.ip;
    base = s.base;
    slots = s.slots;
    stack = s.stack;
    symbol_table = s.symbol_table;
    mem = s.mem;
    ap = s.ap;
    out = s.out;
  }

  with_slots :
      {c : Vm C H} {l : Vm L H} {a : C.Slots} {b : L.Slots}
      → impl.Slots a b
      → Agrees c l
      → Agrees (record c { slots = a }) (record l { slots = b })
  with_slots {c} {l} h s = record {
    pc = s.pc;
    ip = s.ip;
    base = s.base;
    slots = h;
    stack = s.stack;
    symbol_table = s.symbol_table;
    mem = s.mem;
    ap = s.ap;
    out = s.out;
  }

  with_stack :
      {c : Vm C H} {l : Vm L H} {a : C.Stack} {b : L.Stack}
      → impl.Stack a b
      → Agrees c l
      → Agrees (record c { stack = a }) (record l { stack = b })
  with_stack {c} {l} h s = record {
    pc = s.pc;
    ip = s.ip;
    base = s.base;
    slots = s.slots;
    stack = h;
    symbol_table = s.symbol_table;
    mem = s.mem;
    ap = s.ap;
    out = s.out;
  }

  with_mem :
      {c : Vm C H} {l : Vm L H} (m : Mem)
      → Agrees c l
      → Agrees (record c { mem = m }) (record l { mem = m })
  with_mem {c} {l} m s = record {
    pc = s.pc;
    ip = s.ip;
    base = s.base;
    slots = s.slots;
    stack = s.stack;
    symbol_table = s.symbol_table;
    mem = refl;
    ap = s.ap;
    out = s.out;
  }

  with_ap :
      {c : Vm C H} {l : Vm L H} (a : Option H.mps.Ap)
      → Agrees c l
      → Agrees (record c { ap = a }) (record l { ap = a })
  with_ap {c} {l} a s = record {
    pc = s.pc;
    ip = s.ip;
    base = s.base;
    slots = s.slots;
    stack = s.stack;
    symbol_table = s.symbol_table;
    mem = s.mem;
    ap = refl;
    out = s.out;
  }

  pub with_out :
      {c : Vm C H} {l : Vm L H} {o o' : List Out}
      → o ≡ o'
      → Agrees c l
      → Agrees (record c { out = o }) (record l { out = o' })
  with_out {c} {l} h s = record {
    pc = s.pc;
    ip = s.ip;
    base = s.base;
    slots = s.slots;
    stack = s.stack;
    symbol_table = s.symbol_table;
    mem = s.mem;
    ap = s.ap;
    out = h;
  }

  flushed :
      {c : Vm C H} {l : Vm L H} (a : C.Slots) (b : L.Slots)
      → impl.Slots a b
      → Agrees c l
      → Agrees
          (record c { slots = (C.flush a).1; out = and_print c.out (C.flush a).0 })
          (record l { slots = (L.flush b).1; out = and_print l.out (L.flush b).0 })
  flushed {c} {l} a b h s =
      let (same, held) = impl.flush-Follows a b h in
      with_out (ap₂ and_print s.out same) (with_slots held s)

  with_context :
      {c : Vm C H} {l : Vm L H} (x : Context)
      → Agrees c l
      → Agrees
          (record c { base = x.base_slot; ip = x.ip })
          (record l { base = x.base_slot; ip = x.ip })
  with_context {c} {l} x s = record {
    pc = s.pc;
    ip = refl;
    base = refl;
    slots = s.slots;
    stack = s.stack;
    symbol_table = s.symbol_table;
    mem = s.mem;
    ap = s.ap;
    out = s.out;
  }

  with_symbol_table :
      {c : Vm C H} {l : Vm L H} {t u : H.glib.Table}
      → t ≡ u
      → Agrees c l
      → Agrees (record c { symbol_table = t }) (record l { symbol_table = u })
  with_symbol_table {c} {l} h s = record {
    pc = s.pc;
    ip = s.ip;
    base = s.base;
    slots = s.slots;
    stack = s.stack;
    symbol_table = h;
    mem = s.mem;
    ap = s.ap;
    out = s.out;
  }

  abbrev pub Same : {A : Type 0} → A × Vm C H → A × Vm L H → Type 0
  Same p q = (p.0 ≡ q.0) × Agrees p.1 q.1

  abbrev pub Refines : {A : Type 0} → Cmd (Vm C H) A → Cmd (Vm L H) A → Type 0
  Refines m n = (c : Vm C H) (l : Vm L H) → Agrees c l → Follows Same (m c) (n l)

  pub vm_blank-Agrees : Agrees (vm_blank C H) (vm_blank L H)
  vm_blank-Agrees = record {
    pc = refl;
    ip = refl;
    base = refl;
    slots = impl.slots_init-Follows;
    stack = impl.stack_init-Follows;
    symbol_table = refl;
    mem = refl;
    ap = refl;
    out = refl;
  }

  pub bind-Refines :
      {A B : Type 0} {m : Cmd (Vm C H) A} {n : Cmd (Vm L H) A} {f : A → Cmd (Vm C H) B}
      {g : A → Cmd (Vm L H) B}
      → Refines m n
      → ((a : A) → Refines (f a) (g a))
      → Refines (m >>= f) (n >>= g)
  bind-Refines {B} {f} {g} h k c l s =
      Follows-bind (h c l s)
        λ p q r. subst (λ a. Follows Same (f p.0 p.1) (g a q.1)) r.0 (k p.0 p.1 q.1 r.1)

  pub then-Refines :
      {A B : Type 0} {m : Cmd (Vm C H) A} {n : Cmd (Vm L H) A} {m' : Cmd (Vm C H) B}
      {n' : Cmd (Vm L H) B}
      → Refines m n
      → Refines m' n'
      → Refines (m >> m') (n >> n')
  then-Refines h k = bind-Refines h (λ _. k)

  pub pure-Refines : {A : Type 0} (a : A) → Refines (pure a) (pure a)
  pure-Refines a c l s = returns (refl, s)

  pub lift-Refines : {A : Type 0} (r : Res A) → Refines (lift r) (lift r)
  lift-Refines (ok a) c l s = returns (refl, s)
  lift-Refines (Res.exit n m) c l s = exits
  lift-Refines Res.fault c l s = faults
  lift-Refines Res.out_of_fuel c l s = runs_out

  pub attempt-Refines : {A : Type 0} (r : Res A) → Refines (attempt r) (attempt r)
  unfolding attempt
  attempt-Refines r c l s =
      Follows-bind (Follows-said s.out (Follows-same r)) λ a b e. returns (e, s)

  pub if_Refines :
      {A : Type 0} (b : Bool) {m m' : Cmd (Vm C H) A} {n n' : Cmd (Vm L H) A}
      → Refines m n
      → Refines m' n'
      → Refines (if b then m else m') (if b then n else n')
  if_Refines true h k = h
  if_Refines false h k = k

  pub get_pc-Refines : Refines get_pc get_pc
  unfolding get_pc
  get_pc-Refines c l s = returns (s.pc, s)

  pub set_pc-Refines : (n : ℕ) → Refines (set_pc n) (set_pc n)
  unfolding set_pc
  set_pc-Refines n c l s = returns (refl, with_pc refl s)

  pub next-Refines : Refines next next
  unfolding next
  next-Refines c l s = returns (refl, with_pc (ap (λ n. u32 (n + 1)) s.pc) s)

  pub print-Refines : (o : List Out) → Refines (print o) (print o)
  unfolding print
  print-Refines o c l s = returns (refl, with_out (ap (λ x. x ++ o) s.out) s)

  pub get_mem-Refines : Refines get_mem get_mem
  unfolding get_mem
  get_mem-Refines c l s = returns (s.mem, s)

  pub set_mem-Refines : (m : Mem) → Refines (set_mem m) (set_mem m)
  unfolding set_mem
  set_mem-Refines m c l s = returns (refl, with_mem m s)

  pub get_ap-Refines : Refines get_ap get_ap
  unfolding get_ap
  get_ap-Refines c l s = returns (s.ap, s)

  pub set_ap-Refines : (a : Option H.mps.Ap) → Refines (set_ap a) (set_ap a)
  unfolding set_ap
  set_ap-Refines a c l s = returns (refl, with_ap a s)

  pub get_context-Refines : Refines get_context get_context
  unfolding get_context
  get_context-Refines c l s = returns ((λ i. record { base_slot = s.base i; ip = s.ip i }), s)

  pub set_context-Refines : (x : Context) → Refines (set_context x) (set_context x)
  unfolding set_context
  set_context-Refines x c l s = returns (refl, with_context x s)

  pub get-Refines : (i : ℕ) → Refines (get i) (get i)
  unfolding get
  get-Refines i c l s =
      Follows-bind
        (Follows-said s.out (
          subst
            (λ b.
              Follows (λ p q. (p.0 ≡ q.0) × impl.Slots p.1 q.1)
                (C.slots_get c.slots (u32 (c.base + i))) (L.slots_get l.slots (u32 (b + i))))
            s.base (impl.slots_get-Follows c.slots l.slots (u32 (c.base + i)) s.slots)))
        λ p q r. returns (r.0, flushed p.1 q.1 r.1 s)

  pub set-Refines : (i v : ℕ) → Refines (set i v) (set i v)
  unfolding set
  set-Refines i v c l s =
      Follows-bind
        (Follows-said s.out (
          subst
            (λ b.
              Follows impl.Slots (C.slots_set c.slots (u32 (c.base + i)) v)
                (L.slots_set l.slots (u32 (b + i)) v))
            s.base (impl.slots_set-Follows c.slots l.slots (u32 (c.base + i)) v s.slots)))
        λ p q r. returns (refl, flushed p q r s)

  pub move-Refines : (i j : ℕ) → Refines (move i j) (move i j)
  unfolding move
  move-Refines i j = bind-Refines (get-Refines j) (λ v. set-Refines i v)

  pub set_size-Refines : (a : ℕ) → Refines (set_size a) (set_size a)
  unfolding set_size
  set_size-Refines a c l s =
      Follows-bind
        (subst
          (λ b.
            Follows impl.Slots (C.set_size c.slots (u32 (c.base + a)))
              (L.set_size l.slots (u32 (b + a))))
          s.base (impl.set_size-Follows c.slots l.slots (u32 (c.base + a)) s.slots))
        λ p q r. returns (refl, with_slots r s)

  pub push-Refines : (x : Context) → Refines (push x) (push x)
  unfolding push
  push-Refines x c l s =
      Follows-bind (Follows-said s.out (impl.push-Follows c.stack l.stack x s.stack))
        λ p q r. returns (refl, with_stack r s)

  pub pop-Refines : Refines pop pop
  unfolding pop
  pop-Refines c l s =
      Follows-bind (Follows-said s.out (impl.pop-Follows c.stack l.stack s.stack))
        λ p q r. returns (r.0, with_stack r.1 s)

  pub get_symbol_table-Refines : (k : List ℕ) → Refines (get_symbol_table k) (get_symbol_table k)
  unfolding get_symbol_table
  get_symbol_table-Refines k c l s = returns (ap (λ t. H.glib.lookup t k) s.symbol_table, s)

  pub add_symbol_table_pair-Refines :
      (k : List ℕ) (v : ℕ) → Refines (add_symbol_table_pair k v) (add_symbol_table_pair k v)
  unfolding add_symbol_table_pair
  add_symbol_table_pair-Refines k v c l s =
      returns (refl, with_symbol_table (ap (λ t. H.glib.insert t k v) s.symbol_table) s)
