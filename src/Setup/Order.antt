-- ===== src/Setup/Order.antt =====
-- In which order `free_vm` ends the Memory Pool System's parts.
use clojit_cvm.Common.{ℕ, ◌≡◌, refl, Bool, true, List, [], ◌∷◌, ◌++◌, Option, none, some, ok, fault}
use clojit_cvm.Setup.{Manager, Release, Collector, Pool, free_vm}

-- A system that answers nothing, and whose state is the list of the parts that were ended, the last first.
abbrev recorder : Manager
recorder = record {
  State = List Release;
  answer = λ s request old. record { code = 1; value = old; state = s };
  release = λ s request. request ∷ s;
}

-- A part that lives in the arena.
data LivesIn (c : Collector) : Release → Type 0 where
  pool : (p : ℕ) → LivesIn c (Release.pool_destroy p)
  ap : (p : ℕ) → LivesIn c (Release.ap_destroy p)

-- In the order of time, the arena is destroyed, and a part that lives in it afterwards.
data TooLate (c : Collector) : List Release → Type 0 where
  too_late :
      (earlier between later : List Release) (r : Release)
      → LivesIn c r
      → TooLate c (later ++ (r ∷ between ++ (Release.arena_destroy c.arena ∷ earlier)))

-- On the machine that `vm_init` leaves, `free_vm` has no defined behaviour.
dangling :
    (M : Manager) (b : Bool) (amcz : Option Pool) (c : Collector) (s : M.State)
    → free_vm M b none amcz c s ≡ fault
unfolding free_vm
dangling M b amcz c s = refl

-- Were the two pools still there, and the machine on the heap, `free_vm` would destroy a part that lives in the arena after the arena.
free_vm-TooLate :
    (amc amcz : Pool) (c : Collector)
    → (calls : List Release) × (free_vm recorder true (some amc) (some amcz) c [] ≡ ok calls)
      × TooLate c calls
unfolding free_vm
free_vm-TooLate amc amcz c = (
  _,
  refl,
  too_late _ []
      (Release.pool_destroy amcz.pool
        ∷ Release.ap_destroy amcz.ap
        ∷ Release.pool_destroy amc.pool
        ∷ [])
      (Release.ap_destroy amc.ap) (LivesIn.ap amc.ap),
)
