-- ===== src/Host.antt =====
-- What the program calls and the repository does not implement, as parameters: the hash tables of
-- GLib, the allocation points of the Memory Pool System, the arithmetic of `double`, and the places
-- at which the process is loaded. A law states what a library documents.
use mathlib.Core.Option
use clojit_cvm.Common.{ℕ, ◌≡◌, ◌≢◌, Bool, List, Option, none, some}
use clojit_cvm.Common.Int.{ℤ}
use clojit_cvm.Memory.{Mem}
use clojit_cvm.Setup.{Manager}

-- `GHashTable` with `g_str_hash` and `g_str_equal`: keys are compared by their characters, and the
-- lookup of a key that is not there gives NULL.
pub record Glib : Type 1 where
  pub Table : Type 0
  pub new : Table
  pub lookup : Table → List ℕ → ℕ
  pub insert : Table → List ℕ → ℕ → Table
  pub lookup-new : (k : List ℕ) → lookup new k ≡ 0
  pub lookup-insert_self : (t : Table) (k : List ℕ) (v : ℕ) → lookup (insert t k v) k ≡ v
  pub lookup-insert_ne :
      (t : Table) (k j : List ℕ) (v : ℕ) → k ≢ j → lookup (insert t k v) j ≡ lookup t j

-- `mps_reserve` gives the address of a block, with the memory in which it is mapped, or refuses with
-- a result code that is not `MPS_RES_OK`. `mps_commit` says whether the block may be kept.
pub data Reserved (Ap : Type 0) : Type 0 where
  reserved : ℕ → Mem → Ap → Reserved Ap
  refused : ℕ → Ap → Reserved Ap

pub record Mps : Type 1 where
  pub Ap : Type 0
  pub reserve : Ap → Mem → ℕ → Reserved Ap
  pub commit : Ap → ℕ → ℕ → Bool × Ap

-- The hash table of uthash.h, for records under a key of four bytes: its head is the record that was
-- added first, and a record is found under the key under which alone it was added.
pub record Uthash : Type 1 where
  pub Table : Type 0 → Type 0
  pub null : {R : Type 0} → Table R
  pub add : {R : Type 0} → Table R → ℕ → R → Table R
  pub find : {R : Type 0} → Table R → ℕ → Option R
  pub head : {R : Type 0} → Table R → Option R
  pub find-null : {R : Type 0} (k : ℕ) → find {R = R} null k ≡ none
  pub find-add_self :
      {R : Type 0} (t : Table R) (k : ℕ) (r : R) → find t k ≡ none → find (add t k r) k ≡ some r
  pub find-add_ne :
      {R : Type 0} (t : Table R) (k j : ℕ) (r : R) → k ≢ j → find (add t k r) j ≡ find t j
  pub head-null : {R : Type 0} → head {R = R} null ≡ none
  pub head-add :
      {R : Type 0} (t : Table R) (k : ℕ) (r : R)
      → head (add t k r) ≡ some (Option.get_or (head t) r)

-- `double`, by its bits.
pub record Floats : Type 0 where
  pub add : ℕ → ℕ → ℕ
  pub sub : ℕ → ℕ → ℕ
  pub mul : ℕ → ℕ → ℕ
  pub div : ℕ → ℕ → ℕ
  pub of_int : ℤ → ℕ
  pub eq : ℕ → ℕ → Bool

pub record Host : Type 1 where
  pub glib : Glib
  pub mps : Mps
  pub uthash : Uthash
  pub floats : Floats
  -- the words of memory that can be read when the program starts
  pub memory : Mem
  -- the memory manager that is set up, its state before, and the address of the variable `marker`
  pub manager : Manager
  pub manager_state : manager.State
  pub marker : ℕ
  -- the address that `malloc` gives for the first array of slots
  pub slots_data : ℕ
  -- the address of the function `builtin_println`
  pub println_address : ℕ
  -- the address at which the program's file is mapped
  pub file_address : ℕ
