-- ===== src/Refinement/Printing.antt =====
-- Printing all slots, over related stores.
use clojit_cvm.Common.{
  leb, ◌^◌, fault, faults, ℕ, zero, suc, ◌+◌, ◌≡◌, refl, ap, ap₂, Bool, true, false, List, ◌==◌,
  ltb, Out, Res, Follows, returns, runs_out, Follows-bind, Follows-same, if◌then◌else◌, and_then,
  ok, Bool-cases, inl, inr, ◌++◌, [], ◌∷◌, text,
}
use clojit_cvm.Memory.{Mem}
use clojit_cvm.Store.{Store}
use clojit_cvm.Store.Refines.{Implements}
use clojit_cvm.Print.{print_slot, print_at, print_from, print_slots}

module _ {C L : Store} (impl : Implements C L) where
  abbrev pub Shown : List Out × C.Slots → List Out × L.Slots → Type 0
  Shown p q = (p.0 ≡ q.0) × impl.Slots p.1 q.1

  print_at-Follows :
      (fuel : ℕ) (m : Mem) (base index : ℕ) (s : C.Slots) (t : L.Slots)
      → impl.Slots s t
      → Follows Shown (print_at C fuel m base index s) (print_at L fuel m base index t)
  unfolding print_at
  print_at-Follows fuel m base index s t h = elim (Bool-cases (ltb index (L.size t))) [
    | inl below ↦
        rw (impl.size-Follows s t h, below)
          (Follows-bind (impl.slots_get-Follows s t index h) λ p q r. rw r.0 (
            Follows-bind (Follows-same (print_slot fuel m q.0)) λ a b e.
              let (same, held) = impl.flush-Follows p.1 q.1 r.1 in
              returns (
                ap₂
                    (λ o x.
                      (if base == index then text "| " ∷ [] else []) ++ (o ++ (x ++ text " " ∷ [])))
                    same e,
                held,
              )))
    | inr beyond ↦ rw (impl.size-Follows s t h, beyond) (returns (refl, h))
  ]

  -- The end of a round: an overflow, the last line, or the rounds that follow.
  more :
      (over last last' : Bool) (p : List Out × C.Slots) (q : List Out × L.Slots)
      {x : Res (List Out × C.Slots)} {y : Res (List Out × L.Slots)}
      → last ≡ last'
      → Shown p q
      → Follows Shown x y
      → Follows Shown
          (elim over [
            | true ↦ fault
            | false ↦ elim last [
              | true ↦ ok (p.0 ++ text "\n" ∷ [], p.1)
              | false ↦ and_then x λ r. ok (p.0 ++ r.0, r.1)
            ]
          ])
          (elim over [
            | true ↦ fault
            | false ↦ elim last' [
              | true ↦ ok (q.0 ++ text "\n" ∷ [], q.1)
              | false ↦ and_then y λ r. ok (q.0 ++ r.0, r.1)
            ]
          ])
  more true last last' p q same r h = faults
  more false true true p q same r h = returns (ap (λ o. o ++ text "\n" ∷ []) r.0, r.1)
  more false false false p q same r h = Follows-bind h λ a b e. returns (ap₂ ◌++◌ r.0 e.0, e.1)
  more false true false p q same r h = absurd (cc)
  more false false true p q same r h = absurd (cc)

  pub print_from-Follows :
      (fuel rounds : ℕ) (m : Mem) (base index : ℕ) (s : C.Slots) (t : L.Slots)
      → impl.Slots s t
      → Follows Shown
          (print_from C fuel rounds m base index s)
          (print_from L fuel rounds m base index t)
  unfolding print_from
  print_from-Follows fuel zero m base index s t h = runs_out
  print_from-Follows fuel (suc rounds) m base index s t h =
      Follows-bind (print_at-Follows fuel m base index s t h) λ p q r.
        more (leb (2 ^ 31) (index + 1)) (index + 1 == C.size p.1) (index + 1 == L.size q.1) p q
          (ap (λ n. index + 1 == n) (impl.size-Follows p.1 q.1 r.1)) r
          (print_from-Follows fuel rounds m base (index + 1) p.1 q.1 r.1)

  pub print_slots-Follows :
      (fuel : ℕ) (m : Mem) (base : ℕ) (s : C.Slots) (t : L.Slots)
      → impl.Slots s t
      → Follows Shown (print_slots C fuel m base s) (print_slots L fuel m base t)
  unfolding print_slots
  print_slots-Follows fuel m base s t h = print_from-Follows fuel fuel m base 0 s t h
