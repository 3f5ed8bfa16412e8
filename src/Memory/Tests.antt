-- ===== src/Memory/Tests.antt =====
-- An object of two fields at address 4096, kept at the second commit.
use clojit_cvm.Common.{
  ℕ, zero, suc, ◌+◌, ◌*◌, ◌≤◌, ◌≡◌, refl, arith, true, false, ok, if◌then◌else◌, ◌==◌,
}
use clojit_cvm.Memory.{Mem}
use clojit_cvm.Host.{Mps, reserved}
use clojit_cvm.Memory.Alloc.{Allocated, mps_alloc_obj, mps_res_ok}
use clojit_cvm.Memory.Zero.{Mapped}
use clojit_cvm.Memory.Retries.{Gives, kept, failed, Last, mps_alloc_obj-Commits}
use clojit_cvm.Samples.{four_words}

block_Mapped : (i : ℕ) → i ≤ 2 → Mapped four_words (4096 + 8 * i)
block_Mapped zero h = (0, refl)
block_Mapped (suc zero) h = (7, refl)
block_Mapped (suc (suc zero)) h = (7, refl)
block_Mapped (suc (suc (suc i))) h = absurd (omega arith)

-- The allocation point is the number of commits; the first one fails.
abbrev hesitant : Mps
hesitant = record {
  Ap = ℕ;
  reserve = λ ap m size. reserved 4096 four_words ap;
  commit = λ ap a size. (if ap == 0 then false else true, ap + 1);
}

block_given : (m : Mem) (point : ℕ) → Gives hesitant 24 300 1 m point
block_given m point = record {
  obj = 4096;
  mem = four_words;
  next = point;
  gives = refl;
  fits = omega arith;
  mapped = block_Mapped;
}

mps_alloc_obj-Commits_example :
    (r : Allocated hesitant) × (mps_alloc_obj hesitant 2 0 24 300 1 four_words 0 ≡ ok r)
    × (r.result ≡ mps_res_ok)
    × Last hesitant 24 300 1 r
unfolding block_given
mps_alloc_obj-Commits_example =
    mps_alloc_obj-Commits hesitant 1 2 0 24 300 1 four_words 0 (omega arith) (omega arith)
      (omega arith) (omega arith) (omega arith)
      (failed (block_given four_words 0) refl λ m object. kept (block_given m 1) refl) (omega arith)
