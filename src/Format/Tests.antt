-- ===== src/Format/Tests.antt =====
-- The four words at address 4096, forwarded and padded, and an object with a padding behind it, scanned.
use clojit_cvm.Common.{ℕ, ◌≡◌, ◌≢◌, refl, arith, List, [], ◌∷◌, ok}
use clojit_cvm.Memory.{Mem, Header, load_header}
use clojit_cvm.Format.{obj_skip, obj_fwd, obj_isfwd, obj_pad}
use clojit_cvm.Format.Forward.{obj_isfwd-obj_fwd, obj_skip-obj_pad}
use clojit_cvm.Format.Scan.{Fixer, mps_res_ok, obj_scan}
use clojit_cvm.Format.Scan.Block.{Block, reported_of, obj_scan-Block}
use clojit_cvm.Samples.{four_words, pair_memory}
use clojit_cvm.Samples.Trees.{pair_header, load_header-pair}

obj_fwd_example :
    (m' : Mem) × (obj_fwd 4096 8192 four_words ≡ ok m')
    × (obj_isfwd 4096 m' ≡ ok 8192)
    × (obj_skip 4096 m' ≡ obj_skip 4096 four_words)
    × ((b : ℕ) → b ≢ 4096 → b ≢ 4104 → m' b ≡ four_words b)
obj_fwd_example = obj_isfwd-obj_fwd four_words 4096 8192 0 7 refl refl (omega arith)

obj_pad_example :
    (m' : Mem) × (obj_pad 4096 32 four_words ≡ ok m')
    × (obj_skip 4096 m' ≡ ok 4128)
    × (obj_isfwd 4096 m' ≡ ok 0)
    × ((b : ℕ) → b ≢ 4096 → m' b ≡ four_words b)
obj_pad_example = obj_skip-obj_pad four_words 4096 32 0 refl (omega arith) (omega arith)

-- A collector that notes what is reported.
abbrev noting : Fixer
noting = record {
  State = List ℕ;
  fix = λ ss m ref. (ref, record { code = mps_res_ok; state = ref ∷ ss; mem = m });
}

abbrev padding_header : Header
padding_header = record { type = 0; spare = 0; cljtype = 0; size = 16 }

load_header-padding : load_header pair_memory 4120 ≡ ok padding_header
unfolding load_header
load_header-padding = refl

obj_scan-Block_example :
    obj_scan noting 24 4096 4136 [] pair_memory
    ≡ ok (record {
      code = mps_res_ok;
      state = reported_of (λ ss r. r ∷ ss) 4096 (pair_header ∷ padding_header ∷ []) [];
      mem = pair_memory;
    })
obj_scan-Block_example =
    obj_scan-Block noting (λ ss r. r ∷ ss) (λ ss m ref. refl) 24 []
      (Block.object pair_header load_header-pair (omega arith) (omega arith) (
        Block.object padding_header load_header-padding (omega arith) (omega arith)
          (Block.end 4136)))
      (omega arith, (omega arith, tt)) (omega arith)
