-- ===== src/Start/Code.antt =====
-- A file of instructions, run from its bytes and from the list of the instructions.
use clojit_cvm.Common.{
  ℕ, zero, suc, ◌+◌, ◌*◌, ◌^◌, ◌≤◌, ◌<◌, ◌≡◌, refl, ap, ◌∙◌, sym, subst, arith, List, [], ◌∷◌,
  Option, none, some, get_elem?, length, Res, ok, fault, exit, out_of_fuel, and_then, or_fault, Cmd,
  lift, ◌>>=◌,
}
use clojit_cvm.Store.{Store}
use clojit_cvm.Host.{Host, Uthash}
use clojit_cvm.Program.{Program, no_sections, Instr, instr_of, fetch}
use clojit_cvm.Loader.{mapped}
use clojit_cvm.Loader.Code.{code_file, code_bytes, with_code, fetch-loadfile, load_lem}
use clojit_cvm.Vm.{Vm, get_pc}
use clojit_cvm.Builtin.{vm_init}
use clojit_cvm.Handlers.Numeric.{Control, goes_on, returned}
use clojit_cvm.Execute.{execute, step, run}
use clojit_cvm.Execute.Ops.{op_of}
use clojit_cvm.Start.{start}

-- The two bytes behind the first operand are the second and third, and the long one.
abbrev pub AllEncoded : List Instr → Type 0
AllEncoded [] = Unit
AllEncoded (i ∷ is) = (i.d ≡ i.b * 256 + i.c) × AllEncoded is

-- The program that the loader makes of the file.
abbrev pub code_program : (U : Uthash) → List Instr → Program U
code_program U is = record { file = code_file is; sec = with_code no_sections (length is) }

encoded_self : (i : Instr) → i.d ≡ i.b * 256 + i.c → i ≡ instr_of i.op i.a i.b i.c
encoded_self i h t = record { op = i.op; a = i.a; b = i.b; c = i.c; d = h t }

encoded_lem :
    (is : List Instr) (k : ℕ) (i : Instr)
    → AllEncoded is
    → get_elem? is k ≡ some i
    → i ≡ instr_of i.op i.a i.b i.c
encoded_lem [] k i all e = cc
encoded_lem (j ∷ is) zero i all e =
    let same : j ≡ i = cc in
    encoded_self i (subst (λ (k : Instr). k.d ≡ k.b * 256 + k.c) same all.0)
encoded_lem (j ∷ is) (suc k) i all e = encoded_lem is k i all.1 e

length-le-of_none : {A : Type 0} (xs : List A) (k : ℕ) → get_elem? xs k ≡ none → length xs ≤ k
length-le-of_none [] k e = omega arith
length-le-of_none (x ∷ xs) zero e = cc
length-le-of_none (x ∷ xs) (suc k) e = omega (arith, length-le-of_none xs k e)

none-of_length-le : {A : Type 0} (xs : List A) (k : ℕ) → length xs ≤ k → get_elem? xs k ≡ none
none-of_length-le [] k h = refl
none-of_length-le (x ∷ xs) zero h = absurd (omega arith)
none-of_length-le (x ∷ xs) (suc k) h = none-of_length-le xs k (omega arith)

length-code_bytes : (is : List Instr) → length (code_bytes is) ≡ 4 * length is
length-code_bytes [] = refl
length-code_bytes (i ∷ is) = omega (arith, length-code_bytes is)

length-code_file : (is : List Instr) → length (code_file is) ≡ 16 + 4 * length is
length-code_file is = omega (arith, length-code_bytes is)

module _ (U : Uthash) (is : List Instr) where
  past_end : (k : ℕ) → get_elem? is k ≡ none → fetch (code_program U is) k ≡ fault
  unfolding fetch
  past_end k e =
      let beyond : get_elem? (code_file is) (16 + 4 * k) ≡ none =
        none-of_length-le (code_file is) (16 + 4 * k)
          (omega (arith, length-le-of_none is k e, length-code_file is)) in
      rw beyond refl

  fetch_code :
      (small : length is < 2 ^ 32)
      → AllEncoded is
      → (k : ℕ) (r : Option Instr) → get_elem? is k ≡ r
      → fetch (code_program U is) k ≡ or_fault r
  fetch_code small all k none e = past_end k e
  fetch_code small all k (some i) e =
      let (_, fetched) = fetch-loadfile {U = U} is 0 no_sections k i small e in
      fetched ∙ ap (λ (i : Instr). ok i) (sym (encoded_lem is k i all e))

-- The interpreter on a list of instructions: no file, no bytes, no offsets.
module _ {S : Store} {H : Host} (fuel : ℕ) (p : Program H.uthash) (is : List Instr) where
  unfoldable pub step_code : Cmd (Vm S H) Control
  step_code = do pc ← get_pc; i ← lift (or_fault (get_elem? is pc)); execute fuel p (op_of i.op) i

  unfoldable pub run_code : ℕ → Cmd (Vm S H) ℕ
  unfolding step_code
  run_code zero vm = out_of_fuel
  run_code (suc rounds) vm =
      and_then (step_code vm)
        λ r. elim r.0 [ goes_on ↦ run_code rounds r.1 | returned status ↦ ok (status, r.1) ]

and_then_cong :
    {A B : Type 0} (r : Res A) {f g : A → Res B}
    → ((a : A) → f a ≡ g a)
    → and_then r f ≡ and_then r g
and_then_cong (ok a) h = h a
and_then_cong (exit n m) h = refl
and_then_cong fault h = refl
and_then_cong out_of_fuel h = refl

-- The end of a round, before rounds that come to the same.
onward_cong :
    {V : Type 0} (k : Control) (vm : V) {x y : Res (ℕ × V)}
    → x ≡ y
    → elim k [ goes_on ↦ x | returned status ↦ ok (status, vm) ]
      ≡ elim k [ goes_on ↦ y | returned status ↦ ok (status, vm) ]
onward_cong goes_on vm h = h
onward_cong (returned status) vm h = refl

module _ {S : Store} {H : Host} (fuel : ℕ) (is : List Instr) (small : length is < 2 ^ 32)
    (all : AllEncoded is) where
  step-code_program :
      (vm : Vm S H)
      → step fuel (code_program H.uthash is) vm ≡ step_code fuel (code_program H.uthash is) is vm
  unfolding step step_code get_pc
  step-code_program vm = rw (fetch_code H.uthash is small all vm.pc (get_elem? is vm.pc) refl) refl

  run-code_program :
      (rounds : ℕ) (vm : Vm S H)
      → run fuel rounds (code_program H.uthash is) vm
        ≡ run_code fuel (code_program H.uthash is) is rounds vm
  unfolding run run_code
  run-code_program zero vm = refl
  run-code_program (suc rounds) vm =
      ap
        (λ (r : Res (Control × Vm S H)). and_then r λ (q : Control × Vm S H). elim q.0 [
          | goes_on ↦ run fuel rounds (code_program H.uthash is) q.1
          | returned status ↦ ok (status, q.1)
        ])
        (step-code_program vm)
      ∙ and_then_cong (step_code fuel (code_program H.uthash is) is vm)
          λ q. onward_cong q.0 q.1 (run-code_program rounds q.1)

  -- Started on a file of one section of instructions (fewer than 2 ^ 32, each with its long operand
  -- made of the two short ones), over any store, `start` is the machine's set-up followed by the
  -- interpreter on the list of the instructions: the same result and the same final state, faults past the end
  -- of the code included.
  pub start-run_code :
      (rounds errno : ℕ)
      → start S H fuel rounds (mapped (code_file is)) errno
        ≡ and_then vm_init λ r. run_code fuel (code_program H.uthash is) is rounds r.1
  unfolding start
  start-run_code rounds errno =
      rw (load_lem {U = H.uthash} is errno no_sections small)
        (and_then_cong vm_init λ r. run-code_program rounds r.1)
