-- ===== src/Print/Tests.antt =====
-- Printing at concrete addresses.
use clojit_cvm.Common.{ℕ, ◌≡◌, ◌↔◌, arith, [], ◌∷◌, ok}
use clojit_cvm.Slot.{to_small_int}
use clojit_cvm.Store.Lists.{list_store}
use clojit_cvm.Print.{print_slot, println_slot, print_slots}
use clojit_cvm.Print.Tree.{Tree, Shows, render, print_slot-Shows}
use clojit_cvm.Print.Finite.{Shows-print_slot}
use clojit_cvm.Print.Line.{Line, println_slot-Line}
use clojit_cvm.Print.All.{AllShow, render_slots, print_slots-AllShow}
use clojit_cvm.Samples.{pair_memory}
use clojit_cvm.Samples.Trees.{pair_tree, pair-Shows, pair_deep, five_tree, five-Shows, five_deep}

print_slot-Shows_example : print_slot 2 pair_memory 4096 ≡ ok (render pair_tree)
print_slot-Shows_example = print_slot-Shows 2 pair-Shows pair_deep

Shows-print_slot_example : (t : Tree) × Shows pair_memory 4096 t × (render t ≡ render pair_tree)
Shows-print_slot_example =
    Shows-print_slot 2 pair_memory 4096 (render pair_tree) (print_slot-Shows 2 pair-Shows pair_deep)

print_slots-AllShow_example :
    print_slots list_store 2 pair_memory 1 (4096 ∷ to_small_int 5 ∷ [])
    ≡ ok (render_slots 1 0 (pair_tree ∷ five_tree ∷ []), 4096 ∷ to_small_int 5 ∷ [])
print_slots-AllShow_example =
    print_slots-AllShow 1
      (AllShow.cons pair-Shows pair_deep (AllShow.cons five-Shows five_deep AllShow.nil))
      (omega arith) (omega arith) (omega arith)

println_slot-Line_example :
    ((fuel : ℕ) × (println_slot fuel pair_memory 4096 ≡ ok (render pair_tree)))
    ↔ Line pair_memory 4096 (render pair_tree)
println_slot-Line_example = println_slot-Line pair_memory 4096 (render pair_tree)
