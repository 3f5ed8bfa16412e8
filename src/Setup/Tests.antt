-- ===== src/Setup/Tests.antt =====
-- The set-up with a memory manager that has no threads.
use clojit_cvm.Common.{ℕ, ◌+◌, ◌≡◌, refl, [], ◌∷◌, text}
use clojit_cvm.Setup.{Manager, Answer, Request, set_up, mps_res_ok}

-- The state is the number of the last result.
abbrev threadless_answer : ℕ → Request → ℕ → Answer ℕ
threadless_answer s (Request.thread_reg arena) old = record { code = 1; value = old; state = s }
threadless_answer s request old = record { code = mps_res_ok; value = s + 1; state = s + 1 }

abbrev threadless : Manager
threadless = record { State = ℕ; answer = threadless_answer; release = λ s request. s }

-- The refused thread is reported, and the root is asked for all the same, with thread 0.
thread_reported : (set_up threadless 33_554_432 4096 0).out ≡ text "Couldn't register thread" ∷ []
unfolding set_up
thread_reported = refl

eight_results : (set_up threadless 33_554_432 4096 0).state ≡ 8
unfolding set_up
eight_results = refl
