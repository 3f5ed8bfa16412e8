-- ===== src/Loader/Swap.antt =====
-- loader.c, `swap` and `swap_int64`: the change of the byte order of eight bytes. A `double` and an
-- `int64_t` are their 64 bits, of which byte 0 is the lowest, as on the hosts that the program is built for.
pub mod Masks
pub mod Bytes
use clojit_cvm.Common.{
  ℕ, ◌+◌, ◌*◌, ◌/◌, ◌%◌, ◌^◌, List, [], ◌∷◌, bit_and, bit_or, u8, u64, ◌<<<◌, ◌>>>◌,
}

-- `((unsigned char *)&d)[j]`
abbrev pub byte : ℕ → ℕ → ℕ
byte d j = u8 (d >>> (8 * j))

-- The word whose bytes these are, from the lowest on.
abbrev pub join : List ℕ → ℕ
join [] = 0
join (b ∷ bs) = join bs * 2 ^ 8 + b

unfoldable pub swap : ℕ → ℕ
swap d =
    join
      (byte d 7 ∷ byte d 6 ∷ byte d 5 ∷ byte d 4 ∷ byte d 3 ∷ byte d 2 ∷ byte d 1 ∷ byte d 0 ∷ [])

unfoldable pub swap_int64 : ℕ → ℕ
swap_int64 in' =
    let val = u64 in' in
    let val =
      bit_or (bit_and (u64 (val <<< 8)) 0xFF00_FF00_FF00_FF00)
        (bit_and (val >>> 8) 0x00FF_00FF_00FF_00FF) in
    let val =
      bit_or (bit_and (u64 (val <<< 16)) 0xFFFF_0000_FFFF_0000)
        (bit_and (val >>> 16) 0x0000_FFFF_0000_FFFF) in
    bit_or (u64 (val <<< 32)) (bit_and (val >>> 32) 0xFFFF_FFFF)
