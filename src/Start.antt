-- ===== src/Start.antt =====
-- main.c, and the function `start` of execute.c from the file's name on: the loader, the machine's
-- set-up and the loop, one after the other.
pub mod Code
pub mod Refines
pub mod Bounds
mod Tests
use clojit_cvm.Common.{
  ℕ, ◌+◌, List, [], ◌∷◌, ◌++◌, ◌==◌, ltb, if◌then◌else◌, length, get_or, Out, text, Res, ok,
  and_then,
}
use clojit_cvm.Store.{Store}
use clojit_cvm.Host.{Host}
use clojit_cvm.Program.{Program, Sections, no_sections}
use clojit_cvm.Loader.{Opened, mapped, failed, unmapped, loadfile}
use clojit_cvm.Vm.{Vm}
use clojit_cvm.Builtin.{vm_init}
use clojit_cvm.Execute.{run, observe}

-- The bytes that the sections point into.
abbrev pub file_bytes : Opened → List ℕ
file_bytes (mapped buf) = buf
file_bytes (failed code) = []
file_bytes unmapped = []

-- `MPS_RES_OK`
abbrev pub mps_res_ok : ℕ
mps_res_ok = 0

-- `if (res != MPS_RES_OK) printf("Couldn't load file");`
abbrev pub load_message : ℕ → List Out
load_message res = if res == mps_res_ok then [] else text "Couldn't load file" ∷ []

-- The file is given by what the system answers, with the value of `errno`.
unfoldable pub start : (S : Store) (H : Host) → ℕ → ℕ → Opened → ℕ → Res (ℕ × Vm S H)
start S H fuel rounds opened errno = and_then (loadfile opened errno no_sections) λ loaded.
    and_then vm_init λ r.
      run fuel rounds (record { file = file_bytes opened; sec = loaded.sec })
        (record r.1 { out = load_message loaded.code ++ r.1.out })

-- The arguments are the program's name and, behind it, those of the user; `answer` is what the system
-- answers for a file.
-- What can be seen is the exit code and the output.
unfoldable pub main :
    (S : Store) (H : Host) → ℕ → ℕ → (List ℕ → Opened) → ℕ → List (List ℕ) → Res (ℕ × List Out)
main S H fuel rounds answer errno argv =
    if ltb 1 (length argv)
    then observe (start S H fuel rounds (answer (get_or argv 1 [])) errno)
    else ok (mps_res_ok, [])
