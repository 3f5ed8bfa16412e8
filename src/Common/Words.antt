-- ===== src/Common/Words.antt =====
-- The fixed widths of C: casts, shifts, and sign extension, on bit patterns.
use Prim.Native.Nat.{ℕ, ◌+◌, ◌-◌, ◌*◌, ◌/◌, ◌%◌, ◌^◌}
use clojit_cvm.Common.Compare.{ltb, if◌then◌else◌}

abbrev pub u8 : ℕ → ℕ
u8 n = n % 2 ^ 8

abbrev pub u16 : ℕ → ℕ
u16 n = n % 2 ^ 16

abbrev pub u32 : ℕ → ℕ
u32 n = n % 2 ^ 32

abbrev pub u64 : ℕ → ℕ
u64 n = n % 2 ^ 64

-- `x << k` and `x >> k`; a caller cuts the result of `<<` to its width.
infixl 75 ◌<<<◌ ◌>>>◌
abbrev pub ◌<<<◌ : ℕ → ℕ → ℕ
x <<< k = x * 2 ^ k

abbrev pub ◌>>>◌ : ℕ → ℕ → ℕ
x >>> k = x / 2 ^ k

-- The conversion of an `int32_t`, or of an `int16_t`, to `uint64_t` copies the sign.
abbrev pub sign_extend32 : ℕ → ℕ
sign_extend32 n = if ltb n (2 ^ 31) then n else n + (2 ^ 64 - 2 ^ 32)

abbrev pub sign_extend16 : ℕ → ℕ
sign_extend16 n = if ltb n (2 ^ 15) then n else n + (2 ^ 64 - 2 ^ 16)

-- The conversion of an `int16_t` to `uint32_t`.
abbrev pub sign_extend16_32 : ℕ → ℕ
sign_extend16_32 n = if ltb n (2 ^ 15) then n else n + (2 ^ 32 - 2 ^ 16)
