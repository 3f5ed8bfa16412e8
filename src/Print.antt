-- ===== src/Print.antt =====
-- print.c: what is printed of a slot, and of all slots. The fields of an object are printed by
-- recursion, which a cyclic object does not end, so it takes fuel.
pub mod Tree
pub mod Finite
pub mod Line
pub mod All
mod Tests
use clojit_cvm.Common.{
  sign_extend16_32, leb, ◌-◌, ℕ, zero, suc, ◌+◌, ◌-◌, ◌/◌, ◌^◌, true, false, List, [], ◌∷◌, ◌++◌,
  ◌==◌, ltb, if◌then◌else◌, u32, u64, Out, text, dec, flt, Res, ok, fault, out_of_fuel, and_then,
}
use clojit_cvm.Slot.{
  is_small_int, get_small_int, is_nil, is_fnew, get_fnew, is_builtin, get_builtin, is_type,
  get_type, is_pointer, is_double, invert_non_negative,
}
use clojit_cvm.Memory.{Mem, load, load_header, ref_address}
use clojit_cvm.Store.{Store}

-- `*((double *)(void*) bits.ptr)`: the bits are taken for an address, and the word there is read.
-- What is printed comes with the bits of the result; 0.0 has the bits 0.
unfoldable pub get_double : Mem → ℕ → Res (List Out × ℕ)
unfolding is_double invert_non_negative load
get_double m slot =
    if is_double slot
    then (and_then (load m (invert_non_negative slot)) λ bits. ok ([], bits))
    else ok (text "get_double called with nondouble\n" ∷ [], 0)

-- `n` fields, from the one at `a` on
unfoldable pub print_fields : (ℕ → Res (List Out)) → Mem → ℕ → ℕ → Res (List Out)
print_fields print_one m zero a = ok []
print_fields print_one m (suc n) a = and_then (load m a) λ field.
    and_then (print_one field)
      λ first. and_then (print_fields print_one m n (u64 (a + 8))) λ rest. ok (first ++ rest)

-- `(obj->size / 8) - 1`, for a size that is not below 8
abbrev pub field_count : ℕ → ℕ
field_count size = size / 8 - 1

-- For a size below 8 the count is 2 ^ 32 - 1, before which the `int i` overflows.
unfoldable pub print_object : (ℕ → Res (List Out)) → Mem → ℕ → Res (List Out)
unfolding print_fields
print_object print_one m obj = and_then (load_header m obj) λ header.
    if ltb header.size 8
    then fault
    else (and_then (print_fields print_one m (field_count header.size) (ref_address obj 0))
        λ fields. ok (
          text "( [cljtype: "
          ∷ dec header.cljtype
          ∷ text ", size: "
          ∷ dec header.size
          ∷ text "] "
          ∷ (fields ++ text ") " ∷ [])))

unfoldable pub print_double : Mem → ℕ → Res (List Out)
unfolding get_double
print_double m slot = and_then (get_double m slot) λ r. ok (r.0 ++ text "f" ∷ flt r.1 ∷ [])

unfoldable pub print_slot : ℕ → Mem → ℕ → Res (List Out)
unfolding print_object print_double
print_slot zero m slot = out_of_fuel
print_slot (suc fuel) m slot =
    let object = print_object (print_slot fuel m) m slot in
    if is_small_int slot
    then ok (text "i" ∷ dec (get_small_int slot) ∷ [])
    else if is_nil slot
    then ok (text "n0" ∷ [])
    else if is_fnew slot
    then ok (text "fn" ∷ dec (sign_extend16_32 (get_fnew slot)) ∷ [])
    else if is_builtin slot
    then ok (text "bfn" ∷ dec (get_builtin slot) ∷ [])
    else if is_type slot
    then ok (text "t" ∷ dec (get_type slot) ∷ [])
    else if is_pointer slot
    then object
    else if is_double slot
    then print_double m slot
    else ok (text "-" ∷ [])

-- `printf("f%", …)` has a `%` with no conversion behind it, which C leaves undefined.
unfoldable pub println_slot : ℕ → Mem → ℕ → Res (List Out)
unfolding print_object print_slot
println_slot fuel m slot =
    if is_small_int slot
    then ok (dec (get_small_int slot) ∷ [])
    else if is_nil slot
    then ok (text "nil" ∷ [])
    else if is_fnew slot
    then ok (text "fn" ∷ dec (sign_extend16_32 (get_fnew slot)) ∷ [])
    else if is_builtin slot
    then ok (text "bfn" ∷ dec (get_builtin slot) ∷ [])
    else if is_type slot
    then ok (text "t" ∷ dec (get_type slot) ∷ [])
    else if is_pointer slot
    then print_object (print_slot fuel m) m slot
    else if is_double slot
    then fault
    else ok []

module _ (S : Store) where
  -- One round of the loop of `print_slots`, before the index goes up.
  unfoldable pub print_at : ℕ → Mem → ℕ → ℕ → S.Slots → Res (List Out × S.Slots)
  unfolding print_slot
  print_at fuel m base index s =
      let bar : List Out = if base == index then text "| " ∷ [] else [] in
      if ltb index (S.size s)
      then (and_then (S.slots_get s index) λ r.
          let (printed, slots) = S.flush r.1 in
          and_then (print_slot fuel m r.0)
            λ shown. ok (bar ++ (printed ++ (shown ++ text " " ∷ [])), slots))
      else ok (bar, s)

  -- The loop ends when the index meets the size, which it passes at once if there are no slots. `index` is an
  -- `int`, and `index++` overflows at 2 ^ 31.
  unfoldable pub print_from : ℕ → ℕ → Mem → ℕ → ℕ → S.Slots → Res (List Out × S.Slots)
  unfolding print_at
  print_from fuel zero m base index s = out_of_fuel
  print_from fuel (suc rounds) m base index s = and_then (print_at fuel m base index s) λ p.
      elim (leb (2 ^ 31) (index + 1)) [
        | true ↦ fault
        | false ↦ elim (index + 1 == S.size p.1) [
          | true ↦ ok (p.0 ++ text "\n" ∷ [], p.1)
          | false ↦
              and_then (print_from fuel rounds m base (index + 1) p.1) λ q. ok (p.0 ++ q.0, q.1)
        ]
      ]

  unfoldable pub print_slots : ℕ → Mem → ℕ → S.Slots → Res (List Out × S.Slots)
  unfolding print_from
  print_slots fuel m base s = print_from fuel fuel m base 0 s
