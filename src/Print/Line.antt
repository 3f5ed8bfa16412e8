-- ===== src/Print/Line.antt =====
-- `println_slot`: what it prints of a slot, with no fuel.
use clojit_cvm.Common.{
  sign_extend16_32, ℕ, suc, ◌≤◌, ◌<◌, ◌≡◌, ◌⊎◌, ◌↔◌, inl, inr, refl, ◌∙◌, sym, subst, arith, List,
  [], ◌∷◌, Out, text, dec, Res, ok, fault,
}
use clojit_cvm.Slot.{
  tag, is_small_int, get_small_int, is_nil, is_fnew, get_fnew, is_builtin, get_builtin, is_type,
  get_type, is_pointer, is_double,
}
use clojit_cvm.Memory.{Mem}
use clojit_cvm.Print.{println_slot, print_slot, print_object}
use clojit_cvm.Print.Tree.{Tree, Shows, render, depth, print_slot-Shows}
use clojit_cvm.Print.Finite.{
  nothing, integer, boolean, type, function, builtin, unknown, double, pointer, tag-Kind,
  Shows-print_slot, ok_injective, object_printed,
}

-- The line for a slot. There is none for a double, for which C leaves the conversion undefined.
pub data Line (m : Mem) : ℕ → List Out → Type 0 where
  nil : Line m 0 (text "nil" ∷ [])
  number : (s : ℕ) → tag s ≡ 0xFFFE → Line m s (dec (get_small_int s) ∷ [])
  a_type : (s : ℕ) → tag s ≡ 0xFFFC → Line m s (text "t" ∷ dec (get_type s) ∷ [])
  a_function :
      (s : ℕ) → tag s ≡ 0xFFFB → Line m s (text "fn" ∷ dec (sign_extend16_32 (get_fnew s)) ∷ [])
  a_builtin : (s : ℕ) → tag s ≡ 0xFFFA → Line m s (text "bfn" ∷ dec (get_builtin s) ∷ [])
  -- a boolean, or no kind of slot
  empty :
      (s : ℕ) → (tag s ≡ 0xFFFD) ⊎ ((tag s ≡ 0xFFF9) ⊎ ((1 ≤ tag s) × (tag s ≤ 6))) → Line m s []
  -- an object is printed as `print_slot` does
  tree :
      (s : ℕ) (t : Tree)
      → 0 < s
      → (tag s ≡ 0) ⊎ (tag s ≡ 0xFFFF)
      → Shows m s t
      → Line m s (render t)

module _ (fuel : ℕ) (m : Mem) where
  nil_line : println_slot fuel m 0 ≡ ok (text "nil" ∷ [])
  unfolding println_slot is_small_int is_nil tag
  nil_line = refl

  module _ (s : ℕ) where
    number_line : tag s ≡ 0xFFFE → println_slot fuel m s ≡ ok (dec (get_small_int s) ∷ [])
    unfolding println_slot is_small_int
    number_line is = rw is refl

    type_line : tag s ≡ 0xFFFC → println_slot fuel m s ≡ ok (text "t" ∷ dec (get_type s) ∷ [])
    unfolding println_slot is_small_int is_nil is_fnew is_builtin is_type
    type_line is = ground arith

    function_line :
        tag s ≡ 0xFFFB
        → println_slot fuel m s ≡ ok (text "fn" ∷ dec (sign_extend16_32 (get_fnew s)) ∷ [])
    unfolding println_slot is_small_int is_nil is_fnew
    function_line is = ground arith

    builtin_line :
        tag s ≡ 0xFFFA → println_slot fuel m s ≡ ok (text "bfn" ∷ dec (get_builtin s) ∷ [])
    unfolding println_slot is_small_int is_nil is_fnew is_builtin
    builtin_line is = ground arith

    empty_line :
        (tag s ≡ 0xFFFD) ⊎ ((tag s ≡ 0xFFF9) ⊎ ((1 ≤ tag s) × (tag s ≤ 6)))
        → println_slot fuel m s ≡ ok []
    unfolding println_slot is_small_int is_nil is_fnew is_builtin is_type is_pointer is_double
    empty_line is = ground arith

    double_line : 7 ≤ tag s → tag s ≤ 0xFFF8 → println_slot fuel m s ≡ fault
    unfolding println_slot is_small_int is_nil is_fnew is_builtin is_type is_pointer is_double
    double_line lo hi = ground arith

    object_text_line :
        0 < s
        → (tag s ≡ 0) ⊎ (tag s ≡ 0xFFFF)
        → println_slot fuel m s ≡ print_object (print_slot fuel m) m s
    unfolding println_slot is_small_int is_nil is_fnew is_builtin is_type is_pointer is_double
    object_text_line pos is = ground arith

    -- An object is printed the same in a line as by itself.
    object_line :
        0 < s → (tag s ≡ 0) ⊎ (tag s ≡ 0xFFFF) → println_slot fuel m s ≡ print_slot (suc fuel) m s
    object_line pos is = object_text_line pos is ∙ sym (object_printed fuel m s pos is)

  println-Line : (s : ℕ) (out : List Out) → println_slot fuel m s ≡ ok out → Line m s out
  println-Line s out h = elim (tag-Kind s) [
    | nothing e ↦
        subst (λ (s : ℕ). Line m s out) (sym e)
          (text_is 0 _ out nil_line (subst (λ (s : ℕ). println_slot fuel m s ≡ ok out) e h)
            Line.nil)
    | integer is ↦ text_is s _ out (number_line s is) h (number s is)
    | boolean is ↦ text_is s _ out (empty_line s (inl is)) h (empty s (inl is))
    | type is ↦ text_is s _ out (type_line s is) h (a_type s is)
    | function is ↦ text_is s _ out (function_line s is) h (a_function s is)
    | builtin is ↦ text_is s _ out (builtin_line s is) h (a_builtin s is)
    | unknown is ↦ text_is s _ out (empty_line s (inr is)) h (empty s (inr is))
    | double lo hi ↦ absurd (no_line (sym (double_line s lo hi) ∙ h))
    | pointer pos is ↦
        let (t, shows, e) = Shows-print_slot (suc fuel) m s out (sym (object_line s pos is) ∙ h) in
        subst (λ (out : List Out). Line m s out) e (tree s t pos is shows)
  ]
    where
      text_is :
          (s : ℕ) (out' out : List Out)
          → println_slot fuel m s ≡ ok out'
          → println_slot fuel m s ≡ ok out
          → Line m s out'
          → Line m s out
      text_is s out' out e h line =
          subst (λ (out : List Out). Line m s out) (ok_injective (sym e ∙ h)) line

      no_line : ¬ (◌≡◌ {A = Res (List Out)} fault (ok out))
      no_line e = cc

Line-println :
    {m : Mem} {s : ℕ} {out : List Out}
    → Line m s out
    → (fuel : ℕ) × (println_slot fuel m s ≡ ok out)
Line-println {m} Line.nil = (0, nil_line 0 m)
Line-println {m} (number s is) = (0, number_line 0 m s is)
Line-println {m} (a_type s is) = (0, type_line 0 m s is)
Line-println {m} (a_function s is) = (0, function_line 0 m s is)
Line-println {m} (a_builtin s is) = (0, builtin_line 0 m s is)
Line-println {m} (empty s is) = (0, empty_line 0 m s is)
Line-println {m} (tree s t pos is shows) = (
  depth t,
  object_line (depth t) m s pos is ∙ print_slot-Shows (suc (depth t)) shows (omega arith),
)

-- `println_slot` returns what it prints, with some fuel, exactly where the slot has that line: for an object that
-- shows a finite tree its text, for a boolean nothing, for a double never.
pub println_slot-Line :
    (m : Mem) (s : ℕ) (out : List Out)
    → ((fuel : ℕ) × (println_slot fuel m s ≡ ok out)) ↔ Line m s out
println_slot-Line m s out = (λ h. println-Line h.0 m s out h.1, Line-println)
