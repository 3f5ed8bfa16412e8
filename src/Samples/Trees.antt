-- ===== src/Samples/Trees.antt =====
-- An object of two fields, and what it shows.
use clojit_cvm.Common.{◌≡◌, ◌≤◌, refl, arith, inl, [], ◌∷◌, text, dec, ok}
use clojit_cvm.Slot.{tag, to_small_int, get_small_int}
use clojit_cvm.Memory.{Header, load_header}
use clojit_cvm.Print.Tree.{Tree, leaf, object, end, field, Shows, Fields, depth}
use clojit_cvm.Samples.{pair_memory}

abbrev pub pair_header : Header
pair_header = record { type = 2; spare = 0; cljtype = 7; size = 24 }

pub load_header-pair : load_header pair_memory 4096 ≡ ok pair_header
unfolding load_header
load_header-pair = refl

abbrev pub five_tree : Tree
five_tree = leaf (text "i" ∷ dec 5 ∷ [])

pub five-Shows : Shows pair_memory (to_small_int 5) five_tree
unfolding tag to_small_int get_small_int
five-Shows = Shows.integer (to_small_int 5) refl

abbrev pub pair_tree : Tree
pair_tree = object pair_header (field five_tree (field (leaf (text "n0" ∷ [])) end))

pub pair-Shows : Shows pair_memory 4096 pair_tree
unfolding tag to_small_int
pair-Shows =
    Shows.pointer 4096 pair_header _ (omega arith) (inl refl) load_header-pair (omega arith) (
      Fields.next 4104 (to_small_int 5) refl five-Shows
        (Fields.next 4112 0 refl Shows.nothing (Fields.none 4120)))

pub five_deep : depth five_tree ≤ 2
unfolding depth
five_deep = omega arith

pub pair_deep : depth pair_tree ≤ 2
unfolding depth
pair_deep = omega arith
