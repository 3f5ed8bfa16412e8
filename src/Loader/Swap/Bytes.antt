-- ===== src/Loader/Swap/Bytes.antt =====
-- The byte order, byte by byte.
use clojit_cvm.Common.{
  ℕ, ◌/◌, ◌^◌, ◌<◌, ◌≡◌, refl, ◌∙◌, sym, ap, arith, true, false, [], ◌∷◌, bit_and, bit_or, u64,
  ◌<<<◌, ◌>>>◌,
}
use clojit_cvm.Loader.Swap.{byte, join, swap, swap_int64}
use clojit_cvm.Loader.Swap.Masks.{AllBytes, others, bit_and-join, bit_or-join, round_lem}

u64-below : (x : ℕ) → x < 2 ^ 64 → u64 x ≡ x
u64-below x h = omega arith

zero_fits : 0 < 256
zero_fits = omega arith

eight :
    {a b c d e f g h : ℕ}
    → a < 256
    → b < 256
    → c < 256
    → d < 256
    → e < 256
    → f < 256
    → g < 256
    → h < 256
    → AllBytes (a ∷ b ∷ c ∷ d ∷ e ∷ f ∷ g ∷ h ∷ [])
eight ha hb hc hd he hf hg hh = (ha, (hb, (hc, (hd, (he, (hf, (hg, (hh, tt))))))))

module _ (a b c d e f g h : ℕ) (ha : a < 256) (hb : b < 256) (hc : c < 256) (hd : d < 256)
    (he : e < 256) (hf : f < 256) (hg : g < 256) (hh : h < 256) where
  first_round :
      let word = join (a ∷ b ∷ c ∷ d ∷ e ∷ f ∷ g ∷ h ∷ []) in
      bit_or
        (bit_and (u64 (word <<< 8)) 0xFF00_FF00_FF00_FF00)
        (bit_and (word >>> 8) 0x00FF_00FF_00FF_00FF)
      ≡ join (b ∷ a ∷ d ∷ c ∷ f ∷ e ∷ h ∷ g ∷ [])
  first_round =
      let word : ℕ = join (a ∷ b ∷ c ∷ d ∷ e ∷ f ∷ g ∷ h ∷ []) in
      let up : u64 (word <<< 8) ≡ join (0 ∷ a ∷ b ∷ c ∷ d ∷ e ∷ f ∷ g ∷ []) = omega arith in
      let down : word >>> 8 ≡ join (b ∷ c ∷ d ∷ e ∷ f ∷ g ∷ h ∷ 0 ∷ []) = omega arith in
      rw (up, down)
        (round_lem (false ∷ true ∷ false ∷ true ∷ false ∷ true ∷ false ∷ true ∷ [])
          (0 ∷ a ∷ b ∷ c ∷ d ∷ e ∷ f ∷ g ∷ []) (b ∷ c ∷ d ∷ e ∷ f ∷ g ∷ h ∷ 0 ∷ []) refl refl
          (eight zero_fits ha hb hc hd he hf hg) (eight hb hc hd he hf hg hh zero_fits))

  second_round :
      let word = join (a ∷ b ∷ c ∷ d ∷ e ∷ f ∷ g ∷ h ∷ []) in
      bit_or
        (bit_and (u64 (word <<< 16)) 0xFFFF_0000_FFFF_0000)
        (bit_and (word >>> 16) 0x0000_FFFF_0000_FFFF)
      ≡ join (c ∷ d ∷ a ∷ b ∷ g ∷ h ∷ e ∷ f ∷ [])
  second_round =
      let word : ℕ = join (a ∷ b ∷ c ∷ d ∷ e ∷ f ∷ g ∷ h ∷ []) in
      let up : u64 (word <<< 16) ≡ join (0 ∷ 0 ∷ a ∷ b ∷ c ∷ d ∷ e ∷ f ∷ []) = omega arith in
      let down : word >>> 16 ≡ join (c ∷ d ∷ e ∷ f ∷ g ∷ h ∷ 0 ∷ 0 ∷ []) = omega arith in
      rw (up, down)
        (round_lem (false ∷ false ∷ true ∷ true ∷ false ∷ false ∷ true ∷ true ∷ [])
          (0 ∷ 0 ∷ a ∷ b ∷ c ∷ d ∷ e ∷ f ∷ []) (c ∷ d ∷ e ∷ f ∷ g ∷ h ∷ 0 ∷ 0 ∷ []) refl refl
          (eight zero_fits zero_fits ha hb hc hd he hf)
          (eight hc hd he hf hg hh zero_fits zero_fits))

  third_round :
      let word = join (a ∷ b ∷ c ∷ d ∷ e ∷ f ∷ g ∷ h ∷ []) in
      bit_or (u64 (word <<< 32)) (bit_and (word >>> 32) 0xFFFF_FFFF)
      ≡ join (e ∷ f ∷ g ∷ h ∷ a ∷ b ∷ c ∷ d ∷ [])
  third_round =
      let word : ℕ = join (a ∷ b ∷ c ∷ d ∷ e ∷ f ∷ g ∷ h ∷ []) in
      let halves = false ∷ false ∷ false ∷ false ∷ true ∷ true ∷ true ∷ true ∷ [] in
      let up : u64 (word <<< 32) ≡ join (0 ∷ 0 ∷ 0 ∷ 0 ∷ a ∷ b ∷ c ∷ d ∷ []) = omega arith in
      let down : word >>> 32 ≡ join (e ∷ f ∷ g ∷ h ∷ 0 ∷ 0 ∷ 0 ∷ 0 ∷ []) = omega arith in
      let low =
        bit_and-join (others halves) (e ∷ f ∷ g ∷ h ∷ 0 ∷ 0 ∷ 0 ∷ 0 ∷ []) refl
          (eight he hf hg hh zero_fits zero_fits zero_fits zero_fits) in
      rw (up, down, low)
        (bit_or-join halves (0 ∷ 0 ∷ 0 ∷ 0 ∷ a ∷ b ∷ c ∷ d ∷ [])
          (e ∷ f ∷ g ∷ h ∷ 0 ∷ 0 ∷ 0 ∷ 0 ∷ []) refl refl
          (eight zero_fits zero_fits zero_fits zero_fits ha hb hc hd)
          (eight he hf hg hh zero_fits zero_fits zero_fits zero_fits))

  bytes_below : join (a ∷ b ∷ c ∷ d ∷ e ∷ f ∷ g ∷ h ∷ []) < 2 ^ 64
  bytes_below = omega arith

  -- The bytes of a word are those that it is made of.
  byte-join :
      (x : ℕ)
      → x ≡ join (a ∷ b ∷ c ∷ d ∷ e ∷ f ∷ g ∷ h ∷ [])
      → swap x ≡ join (h ∷ g ∷ f ∷ e ∷ d ∷ c ∷ b ∷ a ∷ [])
  unfolding swap
  byte-join x is =
      let b0 : byte x 0 ≡ a = omega arith in
      let b1 : byte x 1 ≡ b = omega arith in
      let b2 : byte x 2 ≡ c = omega arith in
      let b3 : byte x 3 ≡ d = omega arith in
      let b4 : byte x 4 ≡ e = omega arith in
      let b5 : byte x 5 ≡ f = omega arith in
      let b6 : byte x 6 ≡ g = omega arith in
      let b7 : byte x 7 ≡ h = omega arith in rw (b0, b1, b2, b3, b4, b5, b6, b7) refl

module _ (a b c d e f g h : ℕ) (ha : a < 256) (hb : b < 256) (hc : c < 256) (hd : d < 256)
    (he : e < 256) (hf : f < 256) (hg : g < 256) (hh : h < 256) where
  swap_int64-join :
      swap_int64 (join (a ∷ b ∷ c ∷ d ∷ e ∷ f ∷ g ∷ h ∷ []))
      ≡ join (h ∷ g ∷ f ∷ e ∷ d ∷ c ∷ b ∷ a ∷ [])
  unfolding swap_int64
  swap_int64-join =
      rw
        (
          u64-below (join (a ∷ b ∷ c ∷ d ∷ e ∷ f ∷ g ∷ h ∷ []))
              (bytes_below a b c d e f g h ha hb hc hd he hf hg hh),
          first_round a b c d e f g h ha hb hc hd he hf hg hh,
          second_round b a d c f e h g hb ha hd hc hf he hh hg,
        )
        (third_round d c b a h g f e hd hc hb ha hh hg hf he)

-- A word of 64 bits is made of its bytes.
join-byte :
    (n : ℕ)
    → n < 2 ^ 64
    → n
      ≡ join (
          byte n 0
          ∷ byte n 1
          ∷ byte n 2
          ∷ byte n 3
          ∷ byte n 4
          ∷ byte n 5
          ∷ byte n 6
          ∷ byte n 7
          ∷ [])
join-byte n below =
    let e1 : n / 2 ^ 16 ≡ (n / 2 ^ 8) / 2 ^ 8 = omega arith in
    let e2 : n / 2 ^ 24 ≡ (n / 2 ^ 16) / 2 ^ 8 = omega arith in
    let e3 : n / 2 ^ 32 ≡ (n / 2 ^ 24) / 2 ^ 8 = omega arith in
    let e4 : n / 2 ^ 40 ≡ (n / 2 ^ 32) / 2 ^ 8 = omega arith in
    let e5 : n / 2 ^ 48 ≡ (n / 2 ^ 40) / 2 ^ 8 = omega arith in
    let e6 : n / 2 ^ 56 ≡ (n / 2 ^ 48) / 2 ^ 8 = omega arith in omega arith

byte-lt : (n j : ℕ) → byte n j < 256
byte-lt n j = omega arith

-- On words of 64 bits, `swap_int64`, which swaps the neighbouring bytes, then pairs of bytes, then
-- the halves, is `swap`, which takes the bytes one by one.
pub swap_int64-swap : (n : ℕ) → n < 2 ^ 64 → swap_int64 n ≡ swap n
unfolding swap
swap_int64-swap n below =
    ap swap_int64 (join-byte n below)
    ∙ swap_int64-join (byte n 0) (byte n 1) (byte n 2) (byte n 3) (byte n 4) (byte n 5) (byte n 6)
        (byte n 7) (byte-lt n 0) (byte-lt n 1) (byte-lt n 2) (byte-lt n 3) (byte-lt n 4)
        (byte-lt n 5) (byte-lt n 6) (byte-lt n 7)

-- Swapped twice, a word of 64 bits is the word it was.
swap-swap : (n : ℕ) → n < 2 ^ 64 → swap (swap n) ≡ n
unfolding swap
swap-swap n below =
    byte-join (byte n 7) (byte n 6) (byte n 5) (byte n 4) (byte n 3) (byte n 2) (byte n 1)
      (byte n 0) (byte-lt n 7) (byte-lt n 6) (byte-lt n 5) (byte-lt n 4) (byte-lt n 3) (byte-lt n 2)
      (byte-lt n 1) (byte-lt n 0) (swap n) refl
    ∙ sym (join-byte n below)
