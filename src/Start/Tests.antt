-- ===== src/Start/Tests.antt =====
-- The whole program on small files.
use clojit_cvm.Common.{ok, ◌≡◌, refl, arith, [], ◌∷◌, and_then, Follows}
use clojit_cvm.Slots.{Codes}
use clojit_cvm.Store.Arrays.{array_store}
use clojit_cvm.Store.Lists.{list_store}
use clojit_cvm.Loader.{mapped}
use clojit_cvm.Loader.Code.{code_file}
use clojit_cvm.Builtin.{vm_init}
use clojit_cvm.Start.{start, main}
use clojit_cvm.Start.Code.{code_program, run_code, start-run_code}
use clojit_cvm.Start.Refines.{main-Follows}
use clojit_cvm.Start.Bounds.{IsSound, start-IsSound}
use clojit_cvm.Vm.{Vm}
use clojit_cvm.Samples.{host, records}
use clojit_cvm.Samples.Adding.{adding_code, ended, ending_lem}

-- A system that refuses no root.
abbrev granting : Codes
granting k = 0

start-run_code_example :
    start list_store host 5 10 (mapped (code_file adding_code)) 0
    ≡ and_then vm_init λ r. run_code 5 (code_program records adding_code) adding_code 10 r.1
start-run_code_example =
    start-run_code 5 adding_code (omega arith) (refl, (refl, (refl, (refl, tt)))) 10 0

main-Follows_example :
    Follows ◌≡◌
      (main
        (array_store granting)
        host
        5
        10
        (λ _. mapped (code_file adding_code))
        0
        ((99 ∷ []) ∷ (102 ∷ []) ∷ []))
      (main list_store host 5 10
        (λ _. mapped (code_file adding_code))
        0
        ((99 ∷ []) ∷ (102 ∷ []) ∷ []))
main-Follows_example =
    main-Follows host 5 10 (λ _. mapped (code_file adding_code)) 0 ((99 ∷ []) ∷ (102 ∷ []) ∷ [])
      (λ k. refl)

start-IsSound_example :
    (a : Vm (array_store granting) host) × (start
        (array_store granting)
        host
        5
        10
        (mapped (code_file adding_code))
        0
      ≡ ok (1, a))
    × IsSound a ended
start-IsSound_example =
    start-IsSound 5 10 (mapped (code_file adding_code)) 0 1 ended (λ k. refl) ending_lem
