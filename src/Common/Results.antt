-- ===== src/Common/Results.antt =====
-- What a call of a C function comes to, and state passing over it.
use Prim.Native.Nat.{ℕ}
use mathlib.Core.Path.{◌≡◌, refl, ap, ◌∙◌}
use Prim.Native.String.{String}
use mathlib.Core.List.{List, [], ◌∷◌, ◌++◌}
use mathlib.Core.Option.{Option, none, some}

-- A piece of output: the text of a `printf` format, or one of its arguments (`dec` for `%d`, by
-- the bit pattern passed; `flt` for `%.2f`, by the bits of the `double`).
pub data Out : Type 0 where
  text : String → Out
  dec flt : ℕ → Out

-- `ok` returns. `exit` ends the process with a status, after the call has printed the message; of the machine,
-- after it has printed all of that.
-- `fault` is what C leaves undefined, or the machine traps. `out_of_fuel` is the model's own: a
-- loop had not ended within the bound given.
pub data Res {ℓ} (A : Type ℓ) : Type ℓ where
  ok : A → Res A
  exit : ℕ → List Out → Res A
  fault : Res A
  out_of_fuel : Res A

abbrev pub and_then {ℓ κ} : {A : Type ℓ} {B : Type κ} → Res A → (A → Res B) → Res B
and_then (ok a) f = f a
and_then (exit n m) f = exit n m
and_then fault f = fault
and_then out_of_fuel f = out_of_fuel

-- What was printed before is seen before the last words.
abbrev pub said {ℓ} : {A : Type ℓ} → List Out → Res A → Res A
said out (ok a) = ok a
said out (exit n m) = exit n (out ++ m)
said out fault = fault
said out out_of_fuel = out_of_fuel

-- What is printed next, if anything.
abbrev pub and_print : List Out → List Out → List Out
and_print out [] = out
and_print out (o ∷ rest) = out ++ o ∷ rest

abbrev pub or_fault {ℓ} : {A : Type ℓ} → Option A → Res A
or_fault none = fault
or_fault (some a) = ok a

-- A command reads and changes a state.
abbrev pub Cmd : Type 0 → Type 0 → Type 0
Cmd V A = V → Res (A × V)

module _ {V A : Type 0} where
  abbrev pub pure : A → Cmd V A
  pure a = λ v. ok (a, v)

  abbrev pub lift : Res A → Cmd V A
  lift r = λ v. and_then r λ a. ok (a, v)

  infixl 5 ◌>>=◌ ◌>>◌
  abbrev pub ◌>>=◌ : {B : Type 0} → Cmd V A → (A → Cmd V B) → Cmd V B
  m >>= f = λ v. and_then (m v) λ p. f p.0 p.1

  abbrev pub ◌>>◌ : {B : Type 0} → Cmd V A → Cmd V B → Cmd V B
  m >> n = m >>= λ _. n

-- The call returns, with a value that has the property.
abbrev pub Yields {ℓ κ} : {A : Type ℓ} → (A → Type κ) → Res A → Type (ℓ ⊔ κ)
Yields {A} P r = (a : A) × (r ≡ ok a) × P a

pub Yields-bind {ℓ κ μ ν} :
    {A : Type ℓ} {B : Type κ} (P : A → Type μ) (Q : B → Type ν) (r : Res A) (f : A → Res B)
    → Yields P r
    → ((a : A) → P a → Yields Q (f a))
    → Yields Q (and_then r f)
Yields-bind P Q r f (a, e, p) next =
    let (b, e', q) = next a p in (b, ap (λ x. and_then x f) e ∙ e', q)

-- The outcome of a successful bind, taken apart.
pub and_then-eq-ok :
    {A B : Type 0} (r : Res A) (f : A → Res B) {b : B}
    → and_then r f ≡ ok b
    → (a : A) × (r ≡ ok a) × (f a ≡ ok b)
and_then-eq-ok (ok a) f h = (a, refl, h)
and_then-eq-ok r f h = cc
