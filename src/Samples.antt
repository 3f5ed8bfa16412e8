-- ===== src/Samples.antt =====
-- A host, a program and machines for the tests and the instances.
pub mod Trees
pub mod Adding
use mathlib.Core.Logic.{ite, if_pos, if_neg}
use native.Mathlib.Decide.{ℕ_discrete}
use mathlib.Core.Option
use clojit_cvm.Common.{
  ℕ, ◌+◌, ◌≡◌, ◌≢◌, refl, arith, true, Option, none, some, List, [], ◌∷◌, ◌++◌, ◌==◌, u64,
  if◌then◌else◌,
}
use clojit_cvm.Common.Int.{pos_part}
use clojit_cvm.Host.{Host, Glib, Mps, Floats, Uthash, reserved}
use clojit_cvm.Program.{Program, no_sections}
use clojit_cvm.Memory.{Mem}
use clojit_cvm.Setup.{Manager, mps_res_ok}
use clojit_cvm.Execute.Plain.{PlainVm}

pub key_discrete : Discrete (List ℕ)
key_discrete = hlevel ℕ_discrete

-- A table of names as a function.
abbrev pub insert_name : (List ℕ → ℕ) → List ℕ → ℕ → List ℕ → ℕ
insert_name t k v j = ite (key_discrete k j) v (t j)

pub insert_self : (t : List ℕ → ℕ) (k : List ℕ) (v : ℕ) → insert_name t k v k ≡ v
insert_self t k v = if_pos (key_discrete k k) refl v (t k)

pub insert_ne : (t : List ℕ → ℕ) (k j : List ℕ) (v : ℕ) → k ≢ j → insert_name t k v j ≡ t j
insert_ne t k j v ne = if_neg (key_discrete k j) ne v (t j)

abbrev pub names : Glib
names = record {
  Table = List ℕ → ℕ;
  new = λ _. 0;
  lookup = λ t k. t k;
  insert = insert_name;
  lookup-new = λ k. refl;
  lookup-insert_self = insert_self;
  lookup-insert_ne = insert_ne;
}

-- Records in the order in which they were added.
abbrev pub find_record : {R : Type 0} → List (ℕ × R) → ℕ → Option R
find_record [] k = none
find_record ((j, r) ∷ t) k = if j == k then some r else find_record t k

abbrev pub first_record : {R : Type 0} → List (ℕ × R) → Option R
first_record [] = none
first_record ((j, r) ∷ t) = some r

pub find_added :
    {R : Type 0} (t : List (ℕ × R)) (k : ℕ) (r : R)
    → find_record t k ≡ none
    → find_record (t ++ (k, r) ∷ []) k ≡ some r
find_added [] k r e = ground arith
find_added ((j, q) ∷ t) k r e = ground (arith, find_added t k r)

pub find_others :
    {R : Type 0} (t : List (ℕ × R)) (k j : ℕ) (r : R)
    → k ≢ j
    → find_record (t ++ (k, r) ∷ []) j ≡ find_record t j
find_others [] k j r ne = ground arith
find_others ((i, q) ∷ t) k j r ne = ground (arith, find_others t k j r ne)

pub first_added :
    {R : Type 0} (t : List (ℕ × R)) (k : ℕ) (r : R)
    → first_record (t ++ (k, r) ∷ []) ≡ some (Option.get_or (first_record t) r)
first_added [] k r = refl
first_added ((j, q) ∷ t) k r = refl

abbrev pub records : Uthash
records = record {
  Table = λ R. List (ℕ × R);
  null = [];
  add = λ t k r. t ++ (k, r) ∷ [];
  find = find_record;
  head = first_record;
  find-null = λ k. refl;
  find-add_self = find_added;
  find-add_ne = find_others;
  head-null = refl;
  head-add = first_added;
}

-- Four words at address 4096, given out by every reservation and always committed.
abbrev pub four_words : Mem
four_words a =
    if a == 4096
    then some 0
    else if a == 4104
    then some 7
    else if a == 4112
    then some 7
    else if a == 4120
    then some 7
    else none

-- An object of two fields, 5 and nil, at address 4096, and a padding of 16 bytes behind it.
abbrev pub pair_memory : Mem
pair_memory a =
    if a == 4096
    then some 0x0000_0018_0007_0002
    else if a == 4104
    then some 0xFFFE_0000_0000_0005
    else if a == 4112
    then some 0
    else if a == 4120
    then some 0x0000_0010_0000_0000
    else none

abbrev pub arena : Mps
arena = record {
  Ap = Unit {0};
  reserve = λ ap m size. reserved 4096 four_words tt;
  commit = λ ap a size. (true, tt);
}

abbrev pub arithmetic : Floats
arithmetic = record {
  add = λ x y. u64 x;
  sub = λ x y. u64 x;
  mul = λ x y. u64 x;
  div = λ x y. u64 x;
  of_int = λ z. pos_part z;
  eq = λ x y. x == y;
}

-- A memory manager that grants everything, and numbers what it creates.
abbrev pub granting : Manager
granting = record {
  State = ℕ;
  answer = λ s request old. record { code = mps_res_ok; value = s + 1; state = s + 1 };
  release = λ s request. s;
}

abbrev pub host : Host
host = record {
  glib = names;
  mps = arena;
  uthash = records;
  floats = arithmetic;
  memory = λ _. none;
  manager = granting;
  manager_state = 0;
  marker = 0x7ffe_0000_0000;
  slots_data = 0x60_0000;
  println_address = 4_198_400;
  file_address = 0x7f00_0000_0000;
}

-- CSHORT 0 2; CSHORT 1 3; ADDVV 2 0 1; EXIT
abbrev pub adding : Program records
adding = record {
  file = 7 ∷ 0 ∷ 0 ∷ 2 ∷ 7 ∷ 1 ∷ 0 ∷ 3 ∷ 11 ∷ 2 ∷ 0 ∷ 1 ∷ 47 ∷ 0 ∷ 0 ∷ 0 ∷ [];
  sec = record no_sections { instr = some 0; instr_cnt = 4 };
}

-- A machine between instructions, with a few slots.
abbrev pub machine : ℕ → ℕ → List ℕ → PlainVm host
machine pc base slots = record {
  pc = pc;
  ip = 0;
  base = base;
  slots = slots;
  stack = [];
  symbol_table = λ _. 0;
  mem = four_words;
  ap = none;
  out = [];
}
