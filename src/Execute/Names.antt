-- ===== src/Execute/Names.antt =====
-- The symbol table and the fields of objects: what is stored is found again.
use clojit_cvm.Common.{ℕ, ◌+◌, ◌^◌, ◌<◌, ◌≡◌, refl, arith, List, some, u32, ok}
use clojit_cvm.Slots.Holds.{put}
use clojit_cvm.Memory.{load_lem, store_lem, update, ref_address}
use clojit_cvm.Host.{Host}
use clojit_cvm.Program.{Program, cstr_text}
use clojit_cvm.Vm.{next, get_mem, set_mem, get_symbol_table, add_symbol_table_pair}
use clojit_cvm.Handlers.Constants.{nsset, nsget}
use clojit_cvm.Handlers.Objects.{setfield, getfield}
use clojit_cvm.Execute.Plain.{PlainVm, slot?, get_lem, set_lem}

-- With slot indices in range, NSSET enters the slot's value in the symbol table under the name, and changes no slot. NSGET of the
-- same name, in any machine with the table that it leaves, puts that value into its slot.
pub nsget-nsset :
    {H : Host} (p : Program H.uthash) (vm later : PlainVm H) (a b d e v : ℕ) (key : List ℕ)
    → vm.base + a < 2 ^ 32
    → slot? vm a ≡ some v
    → cstr_text p d ≡ ok key
    → cstr_text p e ≡ ok key
    → later.base + b < 2 ^ 31
    → later.symbol_table ≡ H.glib.insert vm.symbol_table key v
    → (nsset p a d vm
        ≡ ok (
          tt,
          record vm { symbol_table = H.glib.insert vm.symbol_table key v; pc = u32 (vm.pc + 1) },
        ))
      × (nsget p b e later
          ≡ ok (
            tt,
            record later { slots = put later.slots (later.base + b) v; pc = u32 (later.pc + 1) },
          ))
unfolding nsset nsget next get_symbol_table add_symbol_table_pair
nsget-nsset {H} p vm later a b d e v key h is name name' h' table =
    (rw (name, get_lem vm a v h is) refl, rw (name', found, set_lem later b v h') refl)
  where
    found : H.glib.lookup later.symbol_table key ≡ v
    found = rw table (H.glib.lookup-insert_self vm.symbol_table key v)

-- With slot indices in range, SETFIELD writes a slot's value into a mapped field of an object, and GETFIELD of that field, in any
-- machine with the memory that it leaves and the object in a slot, puts the value into its slot.
pub getfield-setfield :
    {H : Host} (vm later : PlainVm H) (a b c a' b' obj v old : ℕ)
    → vm.base + a < 2 ^ 32
    → vm.base + c < 2 ^ 32
    → slot? vm a ≡ some obj
    → slot? vm c ≡ some v
    → vm.mem (ref_address obj b) ≡ some old
    → later.base + a' < 2 ^ 31
    → later.base + b' < 2 ^ 32
    → slot? later b' ≡ some obj
    → later.mem ≡ update vm.mem (ref_address obj b) v
    → (setfield a b c vm
        ≡ ok (tt, record vm { mem = update vm.mem (ref_address obj b) v; pc = u32 (vm.pc + 1) }))
      × (getfield a' b' b later
          ≡ ok (
            tt,
            record later { slots = put later.slots (later.base + a') v; pc = u32 (later.pc + 1) },
          ))
unfolding setfield getfield get_mem set_mem next
getfield-setfield {H} vm later a b c a' b' obj v old ha hc is_obj is_v mapped ha' hb' is_obj' same =
    (
      rw
          (
            get_lem vm a obj ha is_obj,
            get_lem vm c v hc is_v,
            store_lem vm.mem (ref_address obj b) v old mapped,
          )
          refl,
      rw
          (
            get_lem later b' obj hb' is_obj',
            load_lem later.mem (ref_address obj b) v there,
            set_lem later a' v ha',
          )
          refl,
    )
  where
    update_self : update vm.mem (ref_address obj b) v (ref_address obj b) ≡ some v
    update_self = ground arith

    there : later.mem (ref_address obj b) ≡ some v
    there = rw same update_self
