-- ===== src/Slots.antt =====
-- slots.c, the growing array of slots (`Slots`). The array is a list of cells of length `capacity`,
-- in which `none` is a cell that `malloc` has left unwritten; `malloc` does not fail. A new array is made a
-- root of the garbage collector, which may refuse; what is printed then waits in the field `printed`,
-- until the machine takes it into its output. The request of `slots_init` is made in Setup.antt.
pub mod Holds
pub mod Copy
pub mod Grow
pub mod Access
pub mod Roots
mod Tests
use clojit_cvm.Common.{
  ℕ, zero, suc, ◌+◌, ◌*◌, ◌/◌, Bool, ◌&&◌, not, Option, none, some, List, [], ◌∷◌, ltb, leb, ◌==◌,
  ◌≡◌, if◌then◌else◌, u32, get_elem?, set, length, replicate, Out, text, dec, Res, ok, exit, fault,
  out_of_fuel, and_then, or_fault, ◌++◌,
}
use clojit_cvm.Setup.{complaint, mps_res_ok}

abbrev pub slots_initial_capacity : ℕ
slots_initial_capacity = 10

-- The result codes of the requests that the reallocations make, in their order.
abbrev pub Codes : Type 0
Codes = ℕ → ℕ

-- The system makes a root of every array.
abbrev pub AllGranted : Codes → Type 0
AllGranted codes = (k : ℕ) → codes k ≡ mps_res_ok

-- The calls for the roots. A root, also one that is refused, is named by the number of the request that it was asked for with: 0 is that of
-- `slots_init`, and the reallocations follow.
pub data RootCall : Type 0 where
  root_create_table_masked : (root count : ℕ) → RootCall
  root_destroy : (root : ℕ) → RootCall

-- `slots->root_o` is the root of the last request, of the number `requests`.
pub record Slots (codes : Codes) : Type 0 where
  pub size : ℕ
  pub capacity : ℕ
  pub cells : List (Option ℕ)
  pub requests : ℕ
  pub calls : List RootCall
  pub printed : List Out

-- `malloc(sizeof(uint64_t) * n)`
abbrev pub malloc : ℕ → List (Option ℕ)
malloc n = replicate n none

-- `for(int i = 0; i != n; i++) data[i] = old[i];`, a fault past the end of either array.
unfoldable pub copy : ℕ → List (Option ℕ) → List (Option ℕ) → Res (List (Option ℕ))
copy zero old fresh = ok fresh
copy (suc n) (c ∷ old) (_ ∷ fresh) = and_then (copy n old fresh) λ fresh'. ok (c ∷ fresh')
copy (suc n) _ _ = fault

abbrev pub out_of_bounds : ℕ → ℕ → List Out
out_of_bounds index size =
    text "Index " ∷ dec index ∷ text " out of bounds for slots of size " ∷ dec size ∷ text "\n" ∷ []

module _ {codes : Codes} where
  unfoldable pub slots_init : Slots codes
  slots_init = record {
    size = 0;
    capacity = slots_initial_capacity;
    cells = malloc slots_initial_capacity;
    requests = 0;
    calls = [];
    printed = [];
  }

  -- What both changes of the capacity do: the slots go over to a fresh array of the new capacity, which becomes a
  -- root, and the old root is given up.
  unfoldable pub reallocate : Out → ℕ → Slots codes → Res (Slots codes)
  unfolding copy
  reallocate message capacity s =
      let fresh = RootCall.root_create_table_masked (suc s.requests) capacity in
      and_then (copy s.size s.cells (malloc capacity)) λ cells. ok (record s {
        capacity = capacity;
        cells = cells;
        requests = suc s.requests;
        calls = s.calls ++ fresh ∷ RootCall.root_destroy s.requests ∷ [];
        printed = s.printed ++ complaint (codes s.requests) message;
      })

  unfoldable pub slots_double_capacity_if_full : Slots codes → Res (Slots codes)
  unfolding reallocate
  slots_double_capacity_if_full s =
      if leb s.capacity s.size
      then reallocate (text "Couldn't create root for decreased slots\n") (u32 (s.capacity * 2)) s
      else ok s

  unfoldable pub slots_half_capacity : Slots codes → Res (Slots codes)
  unfolding reallocate
  slots_half_capacity s =
      reallocate (text "Couldn't create root for increased slots\n") (s.capacity / 2) s

  -- `data[index] = value`
  unfoldable pub write_cell : Slots codes → ℕ → ℕ → Res (Slots codes)
  write_cell s index value =
      if ltb index (length s.cells)
      then ok (record s { cells = set s.cells index (some value) })
      else fault

  -- `data[index]`, a fault out of the array and at a cell that nothing has written.
  unfoldable pub read_cell : Slots codes → ℕ → Res ℕ
  read_cell s index = and_then (or_fault (get_elem? s.cells index)) or_fault

  unfoldable pub slots_append : Slots codes → ℕ → Res (Slots codes)
  unfolding slots_double_capacity_if_full write_cell
  slots_append s value =
      and_then (slots_double_capacity_if_full s)
        λ s. and_then (write_cell s s.size value) λ s. ok (record s { size = u32 (s.size + 1) })

  -- `(uint32_t)(capacity / 2) * 0.6 >= size`. In doubles the product is the multiple of 1 / 5 nearest
  -- to it: for a multiple of 5 it rounds to the integer, and any other lies a fifth off all integers.
  abbrev pub mostly_empty : Slots codes → Bool
  mostly_empty s = leb (5 * s.size) (3 * (s.capacity / 2))

  -- `size_t` indices are never below 0, so that half of the test is left out.
  unfoldable pub slots_get : Slots codes → ℕ → Res (ℕ × Slots codes)
  unfolding slots_half_capacity read_cell
  slots_get s index =
      and_then
        (if not (s.capacity == slots_initial_capacity) && mostly_empty s
          then slots_half_capacity s
          else ok s)
        λ s.
          if leb s.size index
          then exit 1 (s.printed ++ out_of_bounds index s.size)
          else and_then (read_cell s index) λ value. ok (value, s)

  -- `while (index >= size) slots_append(slots, 0);` within a number of rounds.
  unfoldable pub fill : ℕ → ℕ → Slots codes → Res (Slots codes)
  unfolding slots_append
  fill index zero s = if leb s.size index then out_of_fuel else ok s
  fill index (suc n) s =
      let rest = and_then (slots_append s 0) (fill index n) in
      if leb s.size index then rest else ok s

  -- Each round adds one slot, so `index + 1` rounds are enough.
  unfoldable pub slots_set : Slots codes → ℕ → ℕ → Res (Slots codes)
  unfolding fill write_cell
  slots_set s index value = and_then (fill index (index + 1) s) λ s. write_cell s index value
