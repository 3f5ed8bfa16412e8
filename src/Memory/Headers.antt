-- ===== src/Memory/Headers.antt =====
-- The object header: packing and unpacking.
use clojit_cvm.Common.{◌^◌, ◌<◌, ◌≡◌, arith}
use clojit_cvm.Memory.{Header, read_header, write_header}

-- The fields fit into their bytes.
pub record Fits (h : Header) : Type 0 where
  pub type_fits : h.type < 2 ^ 8
  pub spare_fits : h.spare < 2 ^ 8
  pub cljtype_fits : h.cljtype < 2 ^ 16
  pub size_fits : h.size < 2 ^ 32

same_header :
    {h k : Header}
    → h.type ≡ k.type
    → h.spare ≡ k.spare
    → h.cljtype ≡ k.cljtype
    → h.size ≡ k.size
    → h ≡ k
same_header a b c d t = record { type = a t; spare = b t; cljtype = c t; size = d t }

-- A header whose fields fit into their bytes takes one word, from which it is read back.
pub read_header-write_header :
    (h : Header) → Fits h → (write_header h < 2 ^ 64) × (read_header (write_header h) ≡ h)
unfolding read_header write_header
read_header-write_header h fits = (
  omega (arith, fits.type_fits, fits.spare_fits, fits.cljtype_fits, fits.size_fits),
  same_header (omega (arith, fits.type_fits, fits.spare_fits, fits.cljtype_fits, fits.size_fits))
      (omega (arith, fits.type_fits, fits.spare_fits, fits.cljtype_fits, fits.size_fits))
      (omega (arith, fits.type_fits, fits.spare_fits, fits.cljtype_fits, fits.size_fits))
      (omega (arith, fits.type_fits, fits.spare_fits, fits.cljtype_fits, fits.size_fits)),
)
