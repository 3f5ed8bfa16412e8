-- ===== src/Print/Tree.antt =====
-- What a slot shows, as a tree: the fields of an object below it, with no fuel. A slot from which an
-- object leads back to itself shows no tree.
use clojit_cvm.Common.{
  sign_extend16_32, ltb, false, ℕ, zero, suc, ◌+◌, ◌≤◌, ◌<◌, ◌≡◌, ◌⊎◌, inl, inr, refl, arith, true,
  List, [], ◌∷◌, ◌++◌, u64, some, Out, text, dec, flt, Res, ok,
}
use Prim.Native.Nat.{max}
use clojit_cvm.Slot.{
  tag, is_small_int, get_small_int, is_nil, is_fnew, get_fnew, is_builtin, get_builtin, is_type,
  get_type, is_pointer, is_double,
}
use clojit_cvm.Slot.Doubles.{invert_non_negative_lem}
use clojit_cvm.Memory.{Mem, Header, load_lem, load_header, ref_address}
use clojit_cvm.Print.{print_slot, print_object, print_fields, print_double, get_double, field_count}

mutual
  pub data Tree : Type 0 where
    leaf : List Out → Tree
    object : Header → Trees → Tree

  pub data Trees : Type 0 where
    end : Trees
    field : Tree → Trees → Trees

mutual
  -- The slot `s` shows the tree.
  pub data Shows (m : Mem) : ℕ → Tree → Type 0 where
    nothing : Shows m 0 (leaf (text "n0" ∷ []))
    integer : (s : ℕ) → tag s ≡ 0xFFFE → Shows m s (leaf (text "i" ∷ dec (get_small_int s) ∷ []))
    boolean : (s : ℕ) → tag s ≡ 0xFFFD → Shows m s (leaf (text "-" ∷ []))
    type : (s : ℕ) → tag s ≡ 0xFFFC → Shows m s (leaf (text "t" ∷ dec (get_type s) ∷ []))
    function :
        (s : ℕ)
        → tag s ≡ 0xFFFB
        → Shows m s (leaf (text "fn" ∷ dec (sign_extend16_32 (get_fnew s)) ∷ []))
    builtin : (s : ℕ) → tag s ≡ 0xFFFA → Shows m s (leaf (text "bfn" ∷ dec (get_builtin s) ∷ []))
    unknown :
        (s : ℕ) → (tag s ≡ 0xFFF9) ⊎ ((1 ≤ tag s) × (tag s ≤ 6)) → Shows m s (leaf (text "-" ∷ []))
    -- The bits of a double are taken for an address.
    double :
        (s bits : ℕ)
        → 7 ≤ tag s
        → tag s ≤ 0xFFF8
        → m s ≡ some bits
        → Shows m s (leaf (text "f" ∷ flt bits ∷ []))
    pointer :
        (s : ℕ) (h : Header) (ts : Trees)
        → 0 < s
        → (tag s ≡ 0) ⊎ (tag s ≡ 0xFFFF)
        → load_header m s ≡ ok h
        → 8 ≤ h.size
        → Fields m (field_count h.size) (ref_address s 0) ts
        → Shows m s (object h ts)

  -- `n` fields, from the one at the address `a` on, show the trees.
  pub data Fields (m : Mem) : ℕ → ℕ → Trees → Type 0 where
    none : (a : ℕ) → Fields m 0 a end
    next :
        {n : ℕ} (a v : ℕ) {t : Tree} {ts : Trees}
        → m a ≡ some v
        → Shows m v t
        → Fields m n (u64 (a + 8)) ts
        → Fields m (suc n) a (field t ts)

unfoldable mutual
  pub render : Tree → List Out
  render (leaf pieces) = pieces
  render (object h ts) =
      text "( [cljtype: "
      ∷ dec h.cljtype
      ∷ text ", size: "
      ∷ dec h.size
      ∷ text "] "
      ∷ (render_fields ts ++ text ") " ∷ [])

  pub render_fields : Trees → List Out
  render_fields end = []
  render_fields (field t ts) = render t ++ render_fields ts

unfoldable mutual
  pub depth : Tree → ℕ
  depth (leaf pieces) = 1
  depth (object h ts) = suc (depth_fields ts)

  pub depth_fields : Trees → ℕ
  depth_fields end = 0
  depth_fields (field t ts) = max (depth t) (depth_fields ts)

pub print_object_lem :
    (print_one : ℕ → Res (List Out)) (m : Mem) (s : ℕ) (h : Header) (ts : Trees)
    → load_header m s ≡ ok h
    → 8 ≤ h.size
    → print_fields print_one m (field_count h.size) (ref_address s 0) ≡ ok (render_fields ts)
    → print_object print_one m s ≡ ok (render (object h ts))
unfolding print_object render
print_object_lem print_one m s h ts e big fields =
    let low : ltb h.size 8 ≡ false = ground arith in rw (print_object, e, low, fields) refl

print_double_lem :
    (m : Mem) (s bits : ℕ)
    → is_double s ≡ true
    → m s ≡ some bits
    → print_double m s ≡ ok (text "f" ∷ flt bits ∷ [])
unfolding print_double get_double
print_double_lem m s bits yes_double is =
    rw (print_double, get_double, yes_double, invert_non_negative_lem s, load_lem m s bits is) refl

-- What one call prints, by the tag; `fields` is what the fields print.
pub nil_lem : (fuel : ℕ) (m : Mem) → print_slot (suc fuel) m 0 ≡ ok (text "n0" ∷ [])
unfolding print_slot is_small_int is_nil tag
nil_lem fuel m = refl

module _ (fuel : ℕ) (m : Mem) (s : ℕ) where
  pub integer_lem :
      tag s ≡ 0xFFFE → print_slot (suc fuel) m s ≡ ok (text "i" ∷ dec (get_small_int s) ∷ [])
  unfolding print_slot is_small_int
  integer_lem is = rw is refl

  pub type_lem : tag s ≡ 0xFFFC → print_slot (suc fuel) m s ≡ ok (text "t" ∷ dec (get_type s) ∷ [])
  unfolding print_slot is_small_int is_nil is_fnew is_builtin is_type
  type_lem is = ground arith

  pub function_lem :
      tag s ≡ 0xFFFB
      → print_slot (suc fuel) m s ≡ ok (text "fn" ∷ dec (sign_extend16_32 (get_fnew s)) ∷ [])
  unfolding print_slot is_small_int is_nil is_fnew
  function_lem is = ground arith

  pub builtin_lem :
      tag s ≡ 0xFFFA → print_slot (suc fuel) m s ≡ ok (text "bfn" ∷ dec (get_builtin s) ∷ [])
  unfolding print_slot is_small_int is_nil is_fnew is_builtin
  builtin_lem is = ground arith

  pub dash_lem :
      (tag s ≡ 0xFFFD) ⊎ ((tag s ≡ 0xFFF9) ⊎ ((1 ≤ tag s) × (tag s ≤ 6)))
      → print_slot (suc fuel) m s ≡ ok (text "-" ∷ [])
  unfolding print_slot is_small_int is_nil is_fnew is_builtin is_type is_pointer is_double
  dash_lem is = ground arith

  pub double_lem :
      (bits : ℕ)
      → 7 ≤ tag s
      → tag s ≤ 0xFFF8
      → m s ≡ some bits
      → print_slot (suc fuel) m s ≡ ok (text "f" ∷ flt bits ∷ [])
  unfolding print_slot is_small_int is_nil is_fnew is_builtin is_type is_pointer is_double
  double_lem bits lo hi is = ground (arith, print_double_lem m s bits (ground arith) is)

  pub pointer_lem :
      (out : List Out)
      → 0 < s
      → (tag s ≡ 0) ⊎ (tag s ≡ 0xFFFF)
      → print_object (print_slot fuel m) m s ≡ ok out
      → print_slot (suc fuel) m s ≡ ok out
  unfolding print_slot is_small_int is_nil is_fnew is_builtin is_type is_pointer is_double
  pointer_lem out pos is shown = ground arith

depth_positive : (t : Tree) → 0 < depth t
unfolding depth
depth_positive (leaf pieces) = omega arith
depth_positive (object h ts) = omega arith

mutual
  unfolding depth render print_fields

  shown :
      {m : Mem} {s : ℕ} {t : Tree}
      → Shows m s t
      → (fuel : ℕ) → depth t ≤ suc fuel
      → print_slot (suc fuel) m s ≡ ok (render t)
  shown nothing fuel h = nil_lem fuel _
  shown {m} (integer s is) fuel h = integer_lem fuel m s is
  shown {m} (boolean s is) fuel h = dash_lem fuel m s (inl is)
  shown {m} (type s is) fuel h = type_lem fuel m s is
  shown {m} (function s is) fuel h = function_lem fuel m s is
  shown {m} (builtin s is) fuel h = builtin_lem fuel m s is
  shown {m} (unknown s is) fuel h = dash_lem fuel m s (inr is)
  shown {m} (double s bits lo hi is) fuel h = double_lem fuel m s bits lo hi is
  shown {m} (pointer s hd ts pos is header big fields) fuel h =
      pointer_lem fuel m s (render (object hd ts)) pos is (
        print_object_lem (print_slot fuel m) m s hd ts header big
          (shown_fields fields fuel (omega arith)))

  shown_fields :
      {m : Mem} {n a : ℕ} {ts : Trees}
      → Fields m n a ts
      → (fuel : ℕ) → depth_fields ts ≤ fuel
      → print_fields (print_slot fuel m) m n a ≡ ok (render_fields ts)
  shown_fields (none a) fuel h = refl
  shown_fields (next a v {t} {ts} is sh fs) zero h = absurd (omega (arith, depth_positive t))
  shown_fields {m} (next a v {t} {ts} is sh fs) (suc fuel) h =
      rw (load_lem m a v is, shown sh fuel (omega arith), shown_fields fs (suc fuel) (omega arith))
        refl

-- If a slot shows a tree, then printing it returns the tree's text, with any fuel that is not less than
-- the depth of the tree.
pub print_slot-Shows :
    {m : Mem} {s : ℕ} {t : Tree} (fuel : ℕ)
    → Shows m s t
    → depth t ≤ fuel
    → print_slot fuel m s ≡ ok (render t)
print_slot-Shows {t} zero sh h = absurd (omega (arith, depth_positive t))
print_slot-Shows (suc fuel) sh h = shown sh fuel h
