-- ===== src/Handlers/Constants.antt =====
-- CSTR, CKEY, CTYPE, CBOOL, CNIL, CSHORT, FNEW, MOV and BULKMOV, NSSET and NSGET.
use clojit_cvm.Common.{ℕ, zero, suc, ◌+◌, ◌==◌, not, u64, Cmd, lift, pure, ◌>>=◌, ◌>>◌}
use clojit_cvm.Slot.{to_small_int, to_type, to_bool, get_nil, to_fnew}
use clojit_cvm.Store.{Store}
use clojit_cvm.Host.{Host}
use clojit_cvm.Program.{Program, cstr_at, cstr_text}
use clojit_cvm.Vm.{Vm, get, set, move, next, get_symbol_table, add_symbol_table_pair}

module _ {S : Store} {H : Host} where
  unfoldable pub cstr : ℕ → ℕ → Cmd (Vm S H) (Unit {0})
  unfolding to_small_int
  cstr a d = set a (to_small_int d) >> next

  -- The slot is the address of the string in the mapped file.
  unfoldable pub ckey : Program H.uthash → ℕ → ℕ → Cmd (Vm S H) (Unit {0})
  ckey p a d = do offset ← lift (cstr_at p d); set a (u64 (H.file_address + offset)); next

  unfoldable pub ctype : ℕ → ℕ → Cmd (Vm S H) (Unit {0})
  unfolding to_type
  ctype a d = set a (to_type d) >> next

  unfoldable pub cbool : ℕ → ℕ → Cmd (Vm S H) (Unit {0})
  unfolding to_bool
  cbool a d = set a (to_bool (not (d == 0))) >> next

  unfoldable pub cnil : ℕ → Cmd (Vm S H) (Unit {0})
  cnil a = set a get_nil >> next

  unfoldable pub cshort : ℕ → ℕ → Cmd (Vm S H) (Unit {0})
  unfolding to_small_int
  cshort a d = set a (to_small_int d) >> next

  unfoldable pub nsset : Program H.uthash → ℕ → ℕ → Cmd (Vm S H) (Unit {0})
  nsset p a d = do key ← lift (cstr_text p d); value ← get a; add_symbol_table_pair key value; next

  unfoldable pub nsget : Program H.uthash → ℕ → ℕ → Cmd (Vm S H) (Unit {0})
  nsget p a d = do key ← lift (cstr_text p d); value ← get_symbol_table key; set a value; next

  unfoldable pub fnew : ℕ → ℕ → Cmd (Vm S H) (Unit {0})
  unfolding to_fnew
  fnew a d = set a (to_fnew d) >> next

  unfoldable pub mov : ℕ → ℕ → Cmd (Vm S H) (Unit {0})
  mov a d = move a d >> next

  -- `for(int i = 0; i != n; i++) move(&vm, to + i, from + i);`
  unfoldable pub move_slots : ℕ → ℕ → ℕ → Cmd (Vm S H) (Unit {0})
  move_slots zero to from = pure tt
  move_slots (suc n) to from = move to from >> move_slots n (to + 1) (from + 1)

  unfoldable pub bulkmov : ℕ → ℕ → ℕ → Cmd (Vm S H) (Unit {0})
  unfolding move_slots
  bulkmov a b c = move_slots c a b >> next
