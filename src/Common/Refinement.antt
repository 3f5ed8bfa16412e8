-- ===== src/Common/Refinement.antt =====
-- When a result of the code follows one of its specification.
use Prim.Native.Nat.{ℕ}
use mathlib.Core.Path.{◌≡◌, refl}
use mathlib.Core.List.{List}
use clojit_cvm.Common.Results.{Res, ok, exit, fault, out_of_fuel, Out, Yields, and_then, said}

-- Both return, and the values are related; or both exit, with one status and message; or both loops
-- are cut short. Nothing is promised where the specification faults.
pub data Follows {A B : Type 0} (R : A → B → Type 0) : Res A → Res B → Type 0 where
  returns : {a : A} {b : B} → R a b → Follows R (ok a) (ok b)
  exits : {n : ℕ} {m : List Out} → Follows R (exit n m) (exit n m)
  runs_out : Follows R out_of_fuel out_of_fuel
  faults : {r : Res A} → Follows R r fault

module _ {A B C D : Type 0} where
  pub Follows-bind :
      {R : A → B → Type 0} {Q : C → D → Type 0} {r : Res A} {s : Res B} {f : A → Res C}
      {g : B → Res D}
      → Follows R r s
      → ((a : A) (b : B) → R a b → Follows Q (f a) (g b))
      → Follows Q (and_then r f) (and_then s g)
  Follows-bind (returns h) next = next _ _ h
  Follows-bind exits next = exits
  Follows-bind runs_out next = runs_out
  Follows-bind faults next = faults

pub Follows-said :
    {A B : Type 0} {R : A → B → Type 0} {x : Res A} {y : Res B} {o p : List Out}
    → o ≡ p
    → Follows R x y
    → Follows R (said o x) (said p y)
Follows-said e (returns h) = returns h
Follows-said e (exits {m}) = rw e exits
Follows-said e runs_out = runs_out
Follows-said e faults = faults

pub Follows-returns :
    {A B : Type 0} {R : A → B → Type 0} {r : Res A} (b : B)
    → Yields (λ a. R a b) r
    → Follows R r (ok b)
Follows-returns {R} b (a, e, h) = rw e (returns h)

pub Follows-same : {A : Type 0} (r : Res A) → Follows ◌≡◌ r r
Follows-same (ok a) = returns refl
Follows-same (exit n m) = exits
Follows-same fault = faults
Follows-same out_of_fuel = runs_out
