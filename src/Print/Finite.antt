-- ===== src/Print/Finite.antt =====
-- Only finite trees are printed: the other direction of `print_slot-Shows`.
use clojit_cvm.Common.{
  ltb, dec, Bool, ap, if◌then◌else◌, ℕ, zero, suc, ◌+◌, ◌^◌, ◌≤◌, ◌<◌, ◌≡◌, ◌⊎◌, inl, inr, refl,
  ◌∙◌, ap₂, sym, arith, true, ◌&&◌, Bool-cases, List, [], ◌∷◌, ◌++◌, ◌==◌, leb, u64, some, Out,
  text, flt, Res, ok, and_then, and_then-eq-ok,
}
use clojit_cvm.Slot.{tag, is_small_int, is_nil, is_fnew, is_builtin, is_type, is_pointer, is_double}
use clojit_cvm.Slot.Doubles.{invert_non_negative_lem}
use clojit_cvm.Memory.{Mem, Header, load, load_header, ref_address}
use clojit_cvm.Print.{print_slot, print_object, print_fields, print_double, get_double, field_count}
use clojit_cvm.Print.Tree.{
  Tree, leaf, object, Trees, end, field, Shows, Fields, render, render_fields, integer_lem,
  type_lem, function_lem, builtin_lem, dash_lem, nil_lem,
}

load-eq-ok : (m : Mem) (a v : ℕ) → load m a ≡ ok v → m a ≡ some v
unfolding load
load-eq-ok m a v h = ground arith

-- What is printed, as the text of a tree.
abbrev pub Printed : Mem → ℕ → List Out → Type 0
Printed m s out = (t : Tree) × Shows m s t × (render t ≡ out)

abbrev FieldsPrinted : Mem → ℕ → ℕ → List Out → Type 0
FieldsPrinted m n a out = (ts : Trees) × Fields m n a ts × (render_fields ts ≡ out)

-- The kinds of slot, by the tag.
pub data Kind (s : ℕ) : Type 0 where
  nothing : s ≡ 0 → Kind s
  integer : tag s ≡ 0xFFFE → Kind s
  boolean : tag s ≡ 0xFFFD → Kind s
  type : tag s ≡ 0xFFFC → Kind s
  function : tag s ≡ 0xFFFB → Kind s
  builtin : tag s ≡ 0xFFFA → Kind s
  unknown : (tag s ≡ 0xFFF9) ⊎ ((1 ≤ tag s) × (tag s ≤ 6)) → Kind s
  double : 7 ≤ tag s → tag s ≤ 0xFFF8 → Kind s
  pointer : 0 < s → (tag s ≡ 0) ⊎ (tag s ≡ 0xFFFF) → Kind s

tag-lt : (s : ℕ) → tag s < 2 ^ 16
unfolding tag
tag-lt s = omega arith

pub tag-Kind : (s : ℕ) → Kind s
tag-Kind zero = nothing refl
tag-Kind (suc n) =
    let s = suc n in
    let bound : tag s < 2 ^ 16 = tag-lt s in
    elim (Bool-cases (tag s == 0xFFFE)) [
      | inl is ↦ integer (ground arith)
      | inr ne ↦ elim (Bool-cases (tag s == 0xFFFD)) [
        | inl is ↦ boolean (ground arith)
        | inr ne' ↦ elim (Bool-cases (tag s == 0xFFFC)) [
          | inl is ↦ type (ground arith)
          | inr ne'' ↦ low s (ground arith) (omega arith)
        ]
      ]
    ]
  where
    low : (s : ℕ) → (tag s < 0xFFFC) ⊎ (tag s ≡ 0xFFFF) → 0 < s → Kind s
    low s (inr high) pos = pointer pos (inr high)
    low s (inl bound) pos = elim (Bool-cases (tag s == 0xFFFB)) [
      | inl is ↦ function (ground arith)
      | inr ne ↦ elim (Bool-cases (tag s == 0xFFFA)) [
        | inl is ↦ builtin (ground arith)
        | inr ne' ↦ elim (Bool-cases (tag s == 0)) [
          | inl is ↦ pointer pos (inl (ground arith))
          | inr ne'' ↦ elim (Bool-cases (leb 7 (tag s) && leb (tag s) 0xFFF8)) [
            | inl inside ↦ double (ground arith) (ground arith)
            | inr outside ↦ unknown (ground arith)
          ]
        ]
      ]
    ]

-- A successful call of `print_slot` on a pointer, or on a double, is one of these.
module _ (fuel : ℕ) (m : Mem) (s : ℕ) where
  pub object_printed :
      0 < s
      → (tag s ≡ 0) ⊎ (tag s ≡ 0xFFFF)
      → print_slot (suc fuel) m s ≡ print_object (print_slot fuel m) m s
  unfolding print_slot is_small_int is_nil is_fnew is_builtin is_type is_pointer is_double
  object_printed pos is = ground arith

  double_printed : 7 ≤ tag s → tag s ≤ 0xFFF8 → print_slot (suc fuel) m s ≡ print_double m s
  unfolding print_slot is_small_int is_nil is_fnew is_builtin is_type is_pointer is_double
  double_printed lo hi = ground arith

  same_text :
      (out out' : List Out)
      → print_slot (suc fuel) m s ≡ ok out'
      → print_slot (suc fuel) m s ≡ ok out
      → out' ≡ out
  same_text out out' e h = cc

leaf_text : (pieces : List Out) → render (leaf pieces) ≡ pieces
unfolding render
leaf_text pieces = refl

pub ok_injective : {A : Type 0} {a b : A} → ok a ≡ ok b → a ≡ b
ok_injective e = cc

double_steps :
    (r : Res ℕ)
    → and_then
        (and_then r λ bits. ok ([], bits))
        (λ (p : List Out × ℕ). ok (p.0 ++ text "f" ∷ flt p.1 ∷ []))
      ≡ and_then r λ bits. ok (text "f" ∷ flt bits ∷ [])
double_steps (ok bits) = refl
double_steps (Res.exit n o) = refl
double_steps Res.fault = refl
double_steps Res.out_of_fuel = refl

is_double_lem : (s : ℕ) → 7 ≤ tag s → tag s ≤ 0xFFF8 → is_double s ≡ true
unfolding is_double
is_double_lem s lo hi = ground arith

print_double-load :
    (m : Mem) (s : ℕ)
    → is_double s ≡ true
    → print_double m s ≡ and_then (load m s) λ bits. ok (text "f" ∷ flt bits ∷ [])
unfolding print_double get_double
print_double-load m s yes_double =
    rw (print_double, get_double, yes_double, invert_non_negative_lem s) (double_steps (load m s))

double_text :
    (m : Mem) (s : ℕ) (out : List Out)
    → 7 ≤ tag s
    → tag s ≤ 0xFFF8
    → print_double m s ≡ ok out
    → Printed m s out
double_text m s out lo hi h =
    let (bits, is, e) =
      and_then-eq-ok (load m s) _ (sym (print_double-load m s (is_double_lem s lo hi)) ∙ h) in
    (
      leaf (text "f" ∷ flt bits ∷ []),
      Shows.double s bits lo hi (load-eq-ok m s bits is),
      leaf_text _ ∙ ok_injective e,
    )

fields_text :
    (print_one : ℕ → Res (List Out)) (m : Mem)
    → ((v : ℕ) (out : List Out) → print_one v ≡ ok out → Printed m v out)
    → (n a : ℕ) (out : List Out) → print_fields print_one m n a ≡ ok out
    → FieldsPrinted m n a out
unfolding print_fields render
fields_text print_one m one zero a out h = (end, Fields.none a, ok_injective h)
fields_text print_one m one (suc n) a out h =
    let (v, is, h') = and_then-eq-ok (load m a) _ h in
    let (first, is', h'') = and_then-eq-ok (print_one v) _ h' in
    let (rest, is'', e) = and_then-eq-ok (print_fields print_one m n (u64 (a + 8))) _ h'' in
    let (t, shows, text_is) = one v first is' in
    let (ts, fields, texts_are) = fields_text print_one m one n (u64 (a + 8)) rest is'' in
    (
      field t ts,
      Fields.next a v (load-eq-ok m a v is) shows fields,
      ap₂ ◌++◌ text_is texts_are ∙ ok_injective e,
    )

never : {A : Type 0} {a : A} → ¬ (◌≡◌ {A = Res A} Res.fault (ok a))
never e = cc

abbrev object_pieces : Header → List Out → List Out
object_pieces h fields =
    text "( [cljtype: "
    ∷ dec h.cljtype
    ∷ text ", size: "
    ∷ dec h.size
    ∷ text "] "
    ∷ (fields ++ text ") " ∷ [])

pub object_text :
    (print_one : ℕ → Res (List Out)) (m : Mem) (s : ℕ) (out : List Out)
    → ((v : ℕ) (out : List Out) → print_one v ≡ ok out → Printed m v out)
    → 0 < s
    → (tag s ≡ 0) ⊎ (tag s ≡ 0xFFFF)
    → print_object print_one m s ≡ ok out
    → Printed m s out
unfolding print_object render
object_text print_one m s out one pos is h =
    let (hd, header, h') = and_then-eq-ok (load_header m s) _ h in
    let branch : Bool → Res (List Out) = λ (b : Bool).
      if b
      then Res.fault
      else (and_then (print_fields print_one m (field_count hd.size) (ref_address s 0))
          λ fields. ok (object_pieces hd fields)) in
    elim (Bool-cases (ltb hd.size 8)) [
      | inl low ↦ absurd (never (sym (ap branch low) ∙ h'))
      | inr big ↦
          let (texts, printed, e) =
            and_then-eq-ok (print_fields print_one m (field_count hd.size) (ref_address s 0)) _
              (sym (ap branch big) ∙ h') in
          let (ts, fields, texts_are) =
            fields_text print_one m one (field_count hd.size) (ref_address s 0) texts printed in
          (
            object hd ts,
            Shows.pointer s hd ts pos is header (ground arith) fields,
            rw texts_are (ok_injective e),
          )
    ]

out_of_fuel_first : (m : Mem) (s : ℕ) (out : List Out) → ¬ (print_slot 0 m s ≡ ok out)
unfolding print_slot
out_of_fuel_first m s out h = cc

zero_text :
    (fuel : ℕ) (m : Mem) (s : ℕ) (out : List Out)
    → s ≡ 0
    → print_slot (suc fuel) m s ≡ ok out
    → Printed m s out
unfolding render
zero_text fuel m s out e h =
    rw e (leaf (text "n0" ∷ []), Shows.nothing, ok_injective (sym (nil_lem fuel m) ∙ rw (sym e) h))

-- A slot whose printing returns, with some fuel, shows a tree, and what is printed is its text.
pub Shows-print_slot :
    (fuel : ℕ) (m : Mem) (s : ℕ) (out : List Out)
    → print_slot fuel m s ≡ ok out
    → (t : Tree) × Shows m s t × (render t ≡ out)
unfolding render
Shows-print_slot zero m s out h = absurd (out_of_fuel_first m s out h)
Shows-print_slot (suc fuel) m s out h = elim (tag-Kind s) [
  | nothing e ↦ zero_text fuel m s out e h
  | integer is ↦ (_, Shows.integer s is, same_text fuel m s out _ (integer_lem fuel m s is) h)
  | boolean is ↦ (_, Shows.boolean s is, same_text fuel m s out _ (dash_lem fuel m s (inl is)) h)
  | type is ↦ (_, Shows.type s is, same_text fuel m s out _ (type_lem fuel m s is) h)
  | function is ↦ (_, Shows.function s is, same_text fuel m s out _ (function_lem fuel m s is) h)
  | builtin is ↦ (_, Shows.builtin s is, same_text fuel m s out _ (builtin_lem fuel m s is) h)
  | unknown is ↦ (_, Shows.unknown s is, same_text fuel m s out _ (dash_lem fuel m s (inr is)) h)
  | double lo hi ↦ double_text m s out lo hi (sym (double_printed fuel m s lo hi) ∙ h)
  | pointer pos is ↦
      object_text (print_slot fuel m) m s out (Shows-print_slot fuel m) pos is
        (sym (object_printed fuel m s pos is) ∙ h)
]
