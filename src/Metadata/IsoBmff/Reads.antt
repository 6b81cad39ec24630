-- ===== src/Metadata/IsoBmff/Reads.antt =====
-- The bounds of the reads in src/metadata/src/iso_bmff_reader.cpp.
use pimio.Metadata.IsoBmff.{Bytes, Read, wild, read_uint, wrap, sign_bit}
use pimio.Base.{ℕ, ◌+◌, ◌<◌, ◌≡◌, ◌≢◌, leb, pos, int_ltb, length, arith, if_cases}

pub wrap_small : (n : ℕ) → n < sign_bit → wrap n ≡ pos n
wrap_small n h = ground arith

pub wrap-pos : (n x : ℕ) → wrap n ≡ pos x → (n ≡ x) × (n < sign_bit)
wrap-pos n x h = ground arith

-- A read whose end has no overflow is not wild.
pub read_uint-tame :
    (width : ℕ) (bytes : Bytes) (offset : ℕ)
    → offset + width < sign_bit
    → read_uint width bytes (pos offset) ≢ wild
read_uint-tame width bytes offset h = rw (wrap_small (offset + width) h) (
    if_cases P (int_ltb (pos (length bytes)) (pos (offset + width))) _ _ (λ _ e. cc)
      λ fits.
        if_cases P (leb (offset + width) (length bytes)) _ _ (λ _ e. cc)
          (λ beyond. absurd (ground (arith, fits, beyond))))
  where
    P : Read ℕ → Type 0
    P r = r ≢ wild
