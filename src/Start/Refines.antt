-- ===== src/Start/Refines.antt =====
-- The whole program over the arrays, against the whole program over the lists.
use clojit_cvm.Common.{
  ℕ, ◌≡◌, ◌++◌, refl, ap, List, [], Bool, true, false, if◌then◌else◌, ltb, length, get_or, Out, Res,
  ok, Follows, returns, Follows-bind, Follows-same,
}
use clojit_cvm.Store.Arrays.{array_store}
use clojit_cvm.Store.Lists.{list_store}
use clojit_cvm.Store.{Store}
use clojit_cvm.Store.Refines.{Implements, arrays_implement_lists}
use clojit_cvm.Slots.{Codes, AllGranted}
use clojit_cvm.Host.{Host}
use clojit_cvm.Vm.Refines.{Same, with_out}
use clojit_cvm.Loader.{Opened, loadfile}
use clojit_cvm.Program.{no_sections}
use clojit_cvm.Start.{start, main, file_bytes, load_message, mps_res_ok}
use clojit_cvm.Refinement.Run.{vm_init-Follows, run-Refines, observe-Follows}

pub start-Follows :
    {C L : Store} (impl : Implements C L) (H : Host) (fuel rounds : ℕ) (opened : Opened) (errno : ℕ)
    → Follows (Same impl) (start C H fuel rounds opened errno) (start L H fuel rounds opened errno)
unfolding start
start-Follows impl H fuel rounds opened errno =
    Follows-bind (Follows-same (loadfile opened errno no_sections)) λ l l' e. rw e (
      Follows-bind (vm_init-Follows impl) λ a b r.
        run-Refines impl fuel rounds (record { file = file_bytes opened; sec = l'.sec })
          (record a.1 { out = load_message l'.code ++ a.1.out })
          (record b.1 { out = load_message l'.code ++ b.1.out })
          (with_out impl (ap (λ o. load_message l'.code ++ o) r.1.out) r.1))

branches :
    (b : Bool) {x y : Res (ℕ × List Out)}
    → Follows ◌≡◌ x y
    → Follows ◌≡◌ (if b then x else ok (mps_res_ok, [])) (if b then y else ok (mps_res_ok, []))
branches true h = h
branches false h = returns refl

-- Where the Memory Pool System makes a root of every array that slots.c reallocates: for all arguments, every file and every answer of the system, every host and every number of rounds: the
-- program over the growing arrays of slots.c and stack.c ends with the exit code, and has printed the output,
-- of the program over plain lists, also without an argument and with a file that cannot be loaded; it
-- exits as that does, with the same status and output, and it is still running where that is. Nothing is said of runs in which the plain
-- machine meets a fault.
pub main-Follows :
    {codes : Codes} (H : Host) (fuel rounds : ℕ) (answer : List ℕ → Opened) (errno : ℕ)
    (argv : List (List ℕ))
    → AllGranted codes
    → Follows ◌≡◌
        (main (array_store codes) H fuel rounds answer errno argv)
        (main list_store H fuel rounds answer errno argv)
unfolding main
main-Follows H fuel rounds answer errno argv granted = branches (ltb 1 (length argv)) (
    observe-Follows (arrays_implement_lists granted) (
      start-Follows (arrays_implement_lists granted) H fuel rounds (answer (get_or argv 1 []))
        errno))
