-- ===== src/Execute/Tests.antt =====
-- The instructions on concrete machines.
use clojit_cvm.Common.{
  ℕ, zero, suc, ◌≡◌, refl, inl, arith, List, some, [], ◌∷◌, ◌++◌, text, dec, ok, exit, out_of_fuel,
}
use clojit_cvm.Slot.{
  to_small_int, to_fnew, to_builtin, is_fnew, is_builtin, is_small_int, get_small_int, tag,
  is_falsy, is_truthy,
}
use clojit_cvm.Slots.Holds.{put}
use clojit_cvm.Memory.{update}
use clojit_cvm.Program.{Program, no_sections, instr_of, cstr_text, fetch}
use clojit_cvm.Handlers.Numeric.{addvv, subvv, mulvv, divvv, modvv, iseq, returned}
use clojit_cvm.Handlers.Control.{jump, jumpf, jumpt}
use clojit_cvm.Handlers.Calls.{call, ret}
use clojit_cvm.Handlers.Constants.{nsset, nsget, bulkmov}
use clojit_cvm.Handlers.Objects.{setfield, getfield}
use clojit_cvm.Store.Lists.{list_store}
use clojit_cvm.Execute.{run}
use clojit_cvm.Execute.Plain.{PlainVm}
use clojit_cvm.Execute.Calls.{entered, Returned, ret-call}
use clojit_cvm.Execute.Arithmetic.{after, arithmetic_lem}
use clojit_cvm.Execute.Jumps.{jumps_lem}
use clojit_cvm.Execute.Equality.{iseq_lem}
use clojit_cvm.Execute.Blocks.{Stand, KeptOutside, bulkmov_lem}
use clojit_cvm.Execute.Names.{nsget-nsset, getfield-setfield}
use clojit_cvm.Execute.Loop.{run-loop}
use clojit_cvm.Samples.{host, machine, insert_name, records, four_words, pair_memory}
use clojit_cvm.Samples.Trees.{pair_tree, pair-Shows, pair_deep}
use clojit_cvm.Print.{println_slot}
use clojit_cvm.Print.Tree.{Shows, leaf, depth}
use clojit_cvm.Print.All.{AllShow, render_slots}
use clojit_cvm.Execute.Errors.{call_rejects}
use clojit_cvm.Execute.Builtin.{Printed, call_println}

-- A caller at instruction 7 with a function in slot 2, and the machine at the end of the body.
abbrev caller : PlainVm host
caller = machine 7 0 (1 ∷ 2 ∷ to_fnew 5 ∷ [])

abbrev body_done : PlainVm host
body_done = record (entered caller 1 5) { pc = 6; slots = 1 ∷ to_small_int 7 ∷ to_fnew 5 ∷ 9 ∷ [] }

ret-call_example :
    (call 0 1 caller ≡ ok (tt, entered caller 1 5))
    × ((result : PlainVm host) × (ret 2 body_done ≡ ok (tt, result))
        × Returned caller body_done 1 9 result)
ret-call_example =
    ret-call caller body_done 0 1 5 2 9 (omega arith) (omega arith) refl (omega arith) (omega arith)
      (omega arith) refl refl refl (omega arith) (omega arith) refl

-- 3 and 5 in two slots.
abbrev operands : PlainVm host
operands = machine 0 0 (to_small_int 3 ∷ to_small_int 5 ∷ [])

arithmetic_example :
    (addvv 2 0 1 operands ≡ after operands 2 8)
    × (subvv 2 0 1 operands ≡ after operands 2 0xFFFF_FFFE)
    × (mulvv 2 0 1 operands ≡ after operands 2 15)
    × (divvv 2 0 1 operands ≡ after operands 2 0)
    × (modvv 2 0 1 operands ≡ after operands 2 3)
arithmetic_example =
    arithmetic_lem operands 2 0 1 3 5 (omega arith) (omega arith) (omega arith) (omega arith)
      (omega arith) refl refl

-- 3 and -2, the slot of which is a pointer.
abbrev mixed : PlainVm host
mixed = machine 0 0 (to_small_int 3 ∷ to_small_int 0xFFFF_FFFE ∷ [])

iseq_example :
    iseq 2 0 1 mixed
    ≡ ok (
      returned 1,
      record mixed {
        pc = 1;
        out = text "Type Error ISEQ can only called with all Ints or all Double" ∷ [];
      },
    )
iseq_example =
    iseq_lem mixed 2 0 1 3 0xFFFF_FFFE (omega arith) (omega arith) (omega arith) (omega arith)
      (omega arith) refl refl

-- The slots 1 to 3, copied one place down.
abbrev row : PlainVm host
row = machine 0 0 (4 ∷ 5 ∷ 6 ∷ 7 ∷ 8 ∷ [])

row-Stand : Stand (4 ∷ 5 ∷ 6 ∷ 7 ∷ 8 ∷ []) 1 (5 ∷ 6 ∷ 7 ∷ [])
row-Stand zero v e = e
row-Stand (suc zero) v e = e
row-Stand (suc (suc zero)) v e = e
row-Stand (suc (suc (suc j))) v e = cc

bulkmov_example :
    (ys : List ℕ) × (bulkmov 0 1 3 row ≡ ok (tt, record row { slots = ys; pc = 1 }))
    × Stand ys 0 (5 ∷ 6 ∷ 7 ∷ [])
    × KeptOutside (4 ∷ 5 ∷ 6 ∷ 7 ∷ 8 ∷ []) 0 3 ys
bulkmov_example =
    bulkmov_lem row (5 ∷ 6 ∷ 7 ∷ []) 0 1 (omega arith) (omega arith) (inl (omega arith)) row-Stand

jumps_example :
    (jump 0xFFFD (machine 10 0 (0 ∷ [])) ≡ ok (tt, machine 7 0 (0 ∷ [])))
    × (jumpf 0 0xFFFD (machine 10 0 (0 ∷ []))
        ≡ ok (tt, record (machine 7 0 (0 ∷ [])) { out = (is_falsy 0).0 }))
    × (jumpt 0 0xFFFD (machine 10 0 (0 ∷ []))
        ≡ ok (tt, record (machine 11 0 (0 ∷ [])) { out = (is_truthy 0).0 }))
unfolding is_falsy
jumps_example =
    jumps_lem (machine 10 0 (0 ∷ [])) 0 0xFFFD 0 (omega arith) (omega arith) (omega arith) refl

-- A file with the name "x" at offset 0.
abbrev named : Program records
named = record {
  file = 120 ∷ 0 ∷ [];
  sec = record no_sections { cstr = some (0 ∷ []); cstr_cnt = 1 };
}

abbrev with_name : PlainVm host
with_name = record (machine 3 0 []) { symbol_table = insert_name (λ _. 0) (120 ∷ []) 9 }

nsget-nsset_example :
    (nsset named 0 0 (machine 1 0 (9 ∷ []))
      ≡ ok (tt, record (machine 2 0 (9 ∷ [])) { symbol_table = insert_name (λ _. 0) (120 ∷ []) 9 }))
    × (nsget named 1 0 with_name ≡ ok (tt, record with_name { slots = put [] 1 9; pc = 4 }))
unfolding cstr_text
nsget-nsset_example =
    nsget-nsset named (machine 1 0 (9 ∷ [])) with_name 0 1 0 0 9 (120 ∷ []) (omega arith) refl refl
      refl (omega arith) refl

abbrev with_field : PlainVm host
with_field = record (machine 3 0 (4096 ∷ [])) { mem = update four_words 4112 9 }

getfield-setfield_example :
    (setfield 0 1 1 (machine 1 0 (4096 ∷ 9 ∷ []))
      ≡ ok (tt, record (machine 2 0 (4096 ∷ 9 ∷ [])) { mem = update four_words 4112 9 }))
    × (getfield 1 0 1 with_field
        ≡ ok (tt, record with_field { slots = put (4096 ∷ []) 1 9; pc = 4 }))
getfield-setfield_example =
    getfield-setfield (machine 1 0 (4096 ∷ 9 ∷ [])) with_field 0 1 1 1 0 4096 9 7 (omega arith)
      (omega arith) refl refl refl (omega arith) (omega arith) refl refl

-- LOOP as the first instruction of a file.
abbrev looping : Program records
looping = record {
  file = 36 ∷ 0 ∷ 0 ∷ 0 ∷ [];
  sec = record no_sections { instr = some 0; instr_cnt = 1 };
}

run-loop_example : run {S = list_store} {H = host} 0 1000 looping (machine 0 0 []) ≡ out_of_fuel
unfolding fetch
run-loop_example =
    run-loop {S = list_store} {H = host} 0 looping (machine 0 0 []) (instr_of 36 0 0 0) refl refl
      1000

-- A caller whose slot 1 holds an object.
abbrev mistaken : PlainVm host
mistaken = record (machine 3 0 (0 ∷ 4096 ∷ [])) { mem = pair_memory }

three-Shows : Shows pair_memory (to_small_int 3) (leaf (text "i" ∷ dec 3 ∷ []))
unfolding to_small_int tag get_small_int
three-Shows = Shows.integer (to_small_int 3) refl

call_rejects_example :
    call 2 0 mistaken
    ≡ exit 0 (
        render_slots 0 0 (leaf (text "i" ∷ dec 3 ∷ []) ∷ pair_tree ∷ [])
        ++ text "\nCALL ERROR NO FUNC\n\n" ∷ [])
unfolding is_fnew is_builtin tag depth
call_rejects_example =
    call_rejects mistaken 2 0 4096 (leaf (text "i" ∷ dec 3 ∷ []) ∷ pair_tree ∷ []) (omega arith)
      refl refl refl
      (AllShow.cons three-Shows (omega arith) (AllShow.cons pair-Shows pair_deep AllShow.nil))
      (omega arith) (omega arith)

-- A caller with `println` in slot 2 and 5 in slot 3.
abbrev printing : PlainVm host
printing = machine 7 0 (1 ∷ 2 ∷ to_builtin 4_198_400 ∷ to_small_int 5 ∷ [])

call_println_example :
    (result : PlainVm host) × (call 0 1 printing ≡ ok (tt, result))
    × Printed printing 1 (dec 5 ∷ []) result
unfolding println_slot is_small_int tag to_small_int get_small_int
call_println_example =
    call_println printing 1 0 (to_small_int 5) (dec 5 ∷ []) (omega arith) (omega arith)
      (omega arith) refl refl refl
