-- ===== src/Loader/Code.antt =====
-- A file that holds one section, of instructions: what is loaded from it, and what is fetched.
use clojit_cvm.Common.{
  ℕ, zero, suc, ◌+◌, ◌*◌, ◌/◌, ◌%◌, ◌^◌, ◌<◌, ◌≡◌, refl, ap, arith, some, List, [], ◌∷◌, ◌++◌,
  length, get_elem?, ok,
}
use clojit_cvm.Host.{Uthash}
use clojit_cvm.Program.{Program, Sections, Instr, instr_of, fetch}
use clojit_cvm.Loader.{mapped, loadfile}

-- `htonl`
abbrev pub to_be32 : ℕ → List ℕ
to_be32 n = n / 2 ^ 24 % 256 ∷ n / 2 ^ 16 % 256 ∷ n / 2 ^ 8 % 256 ∷ n % 256 ∷ []

-- The four bytes of each instruction.
abbrev pub code_bytes : List Instr → List ℕ
code_bytes [] = []
code_bytes (i ∷ is) = i.op ∷ i.a ∷ i.b ∷ i.c ∷ code_bytes is

abbrev pub code_file : List Instr → List ℕ
code_file is =
    to_be32 1 ++ to_be32 0 ++ to_be32 (4 * length is) ++ to_be32 (length is) ++ code_bytes is

pub value_lem :
    (n : ℕ)
    → n < 2 ^ 32
    → ((n / 2 ^ 24 % 256 * 256 + n / 2 ^ 16 % 256) * 256 + n / 2 ^ 8 % 256) * 256 + n % 256 ≡ n
value_lem n h = omega arith

-- What is left in the sections when the code is loaded: the counter and the pointer of the
-- instructions, and those of the integers, which become the same.
abbrev pub with_code : {U : Uthash} → Sections U → ℕ → Sections U
with_code sec n = record sec { instr_cnt = n; instr = some 16; cint_cnt = n; cint = some 16 }

pub load_lem :
    {U : Uthash} (is : List Instr) (errno : ℕ) (sec : Sections U)
    → length is < 2 ^ 32
    → loadfile (mapped (code_file is)) errno sec
      ≡ ok (record { code = 0; sec = with_code sec (length is) })
unfolding loadfile
load_lem is errno sec h =
    ap (λ (n : ℕ). ok (record { code = 0; sec = with_code sec n })) (value_lem (length is) h)

pub behind :
    (xs ys : List ℕ) (i j : ℕ) {v : ℕ}
    → i ≡ length xs + j
    → get_elem? ys j ≡ some v
    → get_elem? (xs ++ ys) i ≡ some v
behind [] ys i j e h = let same : i ≡ j = omega arith in rw same h
behind (x ∷ xs) ys zero j e h = absurd (omega arith)
behind (x ∷ xs) ys (suc i) j e h = behind xs ys i j (omega arith) h

-- The four bytes of an instruction stand at four times its number.
pub record StandsAt (bytes : List ℕ) (start k : ℕ) (i : Instr) : Type 0 where
  pub op_is : get_elem? bytes (start + 4 * k) ≡ some i.op
  pub a_is : get_elem? bytes (start + 4 * k + 1) ≡ some i.a
  pub b_is : get_elem? bytes (start + 4 * k + 2) ≡ some i.b
  pub c_is : get_elem? bytes (start + 4 * k + 3) ≡ some i.c

behind_StandsAt :
    (xs ys : List ℕ) (at k m : ℕ) (i : Instr)
    → at + 4 * m ≡ length xs + 4 * k
    → StandsAt ys 0 k i
    → StandsAt (xs ++ ys) at m i
behind_StandsAt xs ys at k m i e h = record {
  op_is = behind xs ys (at + 4 * m) (0 + 4 * k) (omega arith) h.op_is;
  a_is = behind xs ys (at + 4 * m + 1) (0 + 4 * k + 1) (omega arith) h.a_is;
  b_is = behind xs ys (at + 4 * m + 2) (0 + 4 * k + 2) (omega arith) h.b_is;
  c_is = behind xs ys (at + 4 * m + 3) (0 + 4 * k + 3) (omega arith) h.c_is;
}

pub code_bytes-StandsAt :
    (is : List Instr) (k : ℕ) (i : Instr) → get_elem? is k ≡ some i → StandsAt (code_bytes is) 0 k i
code_bytes-StandsAt [] k i e = absurd (cc)
code_bytes-StandsAt (j ∷ is) zero i e =
    let same : j ≡ i = cc in
    record {
      op_is = λ t. some (same t).op;
      a_is = λ t. some (same t).a;
      b_is = λ t. some (same t).b;
      c_is = λ t. some (same t).c;
    }
code_bytes-StandsAt (j ∷ is) (suc k) i e =
    behind_StandsAt (j.op ∷ j.a ∷ j.b ∷ j.c ∷ []) (code_bytes is) 0 k (suc k) i (omega arith)
      (code_bytes-StandsAt is k i e)

pub fetch_lem :
    {U : Uthash} (p : Program U) (start k : ℕ) (i : Instr)
    → p.sec.instr ≡ some start
    → StandsAt p.file start k i
    → fetch p k ≡ ok (instr_of i.op i.a i.b i.c)
unfolding fetch
fetch_lem p start k i e h = rw (e, h.op_is, h.a_is, h.b_is, h.c_is) refl

-- A file of one section, with fewer than 2 ^ 32 instructions, is loaded with status 0: the
-- counter and the pointer of the instructions are set, and those of the integers to the same. From
-- what is loaded, each instruction is fetched at its number, byte for byte.
pub fetch-loadfile :
    {U : Uthash} (is : List Instr) (errno : ℕ) (sec : Sections U) (k : ℕ) (i : Instr)
    → length is < 2 ^ 32
    → get_elem? is k ≡ some i
    → (loadfile (mapped (code_file is)) errno sec
        ≡ ok (record { code = 0; sec = with_code sec (length is) }))
      × (fetch (record { file = code_file is; sec = with_code sec (length is) }) k
          ≡ ok (instr_of i.op i.a i.b i.c))
fetch-loadfile is errno sec k i small e = (
  load_lem is errno sec small,
  fetch_lem (record { file = code_file is; sec = with_code sec (length is) }) 16 k i refl
      (behind_StandsAt header (code_bytes is) 16 k k i (omega arith)
        (code_bytes-StandsAt is k i e)),
)
  where
    header : List ℕ
    header = to_be32 1 ++ to_be32 0 ++ to_be32 (4 * length is) ++ to_be32 (length is)
