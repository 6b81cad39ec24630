-- ===== src/Metadata/Signature.antt =====
-- src/metadata/src/media_signature.cpp: what kind of file the first bytes announce.
use pimio.Metadata.IsoBmff.{Bytes, mid4}
use pimio.Base.{
  ℕ, ◌+◌, ◌≤◌, ◌≡◌, refl, Bool, true, false, ◌&&◌, ◌||◌, List, [], ◌∷◌, ◌++◌, leb, ◌==◌,
  if◌then◌else◌, Text, codes, text_eq, length, take, drop, any, arith,
}

pub data MediaSignature : Type 0 where
  unknown jpeg png tiff iso_bmff heif_image : MediaSignature

abbrev pub image_brands : List Text
image_brands =
    codes "avif"
    ∷ codes "avis"
    ∷ codes "heic"
    ∷ codes "heix"
    ∷ codes "heim"
    ∷ codes "heis"
    ∷ codes "hevc"
    ∷ codes "heif"
    ∷ codes "mif1"
    ∷ codes "msf1"
    ∷ codes "miaf"
    ∷ []

unfoldable pub is_heif_image_brand : Bytes → Bool
is_heif_image_brand brand = any (text_eq brand) image_brands

-- The loop, from an offset on; the bytes are those from there.
unfoldable pub declares : ℕ → Bytes → Bool
declares offset (a ∷ b ∷ c ∷ d ∷ rest) =
    let later = declares (offset + 4) rest in
    if offset == 12 then later else if is_heif_image_brand (a ∷ b ∷ c ∷ d ∷ []) then true else later
declares offset _ = false

unfoldable pub ftyp_declares_image : Bytes → Bool
unfolding declares
ftyp_declares_image header = declares 8 (drop 8 header)

abbrev pub starts_with : Bytes → Bytes → Bool
starts_with header prefix = text_eq (take (length prefix) header) prefix

unfoldable pub signature_of : Bytes → MediaSignature
unfolding ftyp_declares_image
signature_of header =
    if leb 3 (length header) && starts_with header (255 ∷ 216 ∷ 255 ∷ [])
    then jpeg
    else if starts_with header (137 ∷ 80 ∷ 78 ∷ 71 ∷ 13 ∷ 10 ∷ 26 ∷ 10 ∷ [])
    then png
    else if starts_with header (73 ∷ 73 ∷ 42 ∷ 0 ∷ []) || starts_with header (77 ∷ 77 ∷ 0 ∷ 42 ∷ [])
    then tiff
    else if leb 8 (length header) && text_eq (mid4 header 4) (codes "ftyp")
    then if ftyp_declares_image header then heif_image else iso_bmff
    else unknown

-- The groups of four bytes.
pub fours : Bytes → List Bytes
fours (a ∷ b ∷ c ∷ d ∷ rest) = (a ∷ b ∷ c ∷ d ∷ []) ∷ fours rest
fours _ = []

-- The brands of a box `ftyp`: the major one, and the compatible ones behind the minor version.
pub brands : Bytes → List Bytes
unfolding fours
brands header = take 1 (fours (drop 8 header)) ++ drop 2 (fours (drop 8 header))

declares-fours :
    (offset : ℕ) (rest : Bytes)
    → 13 ≤ offset
    → declares offset rest ≡ any is_heif_image_brand (fours rest)
unfolding declares fours
declares-fours offset [] h = refl
declares-fours offset (a ∷ []) h = refl
declares-fours offset (a ∷ b ∷ []) h = refl
declares-fours offset (a ∷ b ∷ c ∷ []) h = refl
declares-fours offset (a ∷ b ∷ c ∷ d ∷ rest) h =
    ground (arith, declares-fours (offset + 4) rest (omega arith))

declares-major :
    (rest : Bytes)
    → declares 8 rest ≡ any is_heif_image_brand (take 1 (fours rest) ++ drop 2 (fours rest))
unfolding declares fours
declares-major [] = refl
declares-major (a ∷ []) = refl
declares-major (a ∷ b ∷ []) = refl
declares-major (a ∷ b ∷ c ∷ []) = refl
declares-major (a ∷ b ∷ c ∷ d ∷ []) = refl
declares-major (a ∷ b ∷ c ∷ d ∷ e ∷ []) = refl
declares-major (a ∷ b ∷ c ∷ d ∷ e ∷ f ∷ []) = refl
declares-major (a ∷ b ∷ c ∷ d ∷ e ∷ f ∷ g ∷ []) = refl
declares-major (a ∷ b ∷ c ∷ d ∷ e ∷ f ∷ g ∷ h ∷ rest) =
    rw (declares-fours 16 rest (omega arith)) refl

-- `ftypDeclaresImage` says of every header whether one of its brands, the major one or a compatible
-- one, is an image brand; the minor version and bytes that make no whole brand do not count.
pub ftyp_declares_image-brands :
    (header : Bytes) → ftyp_declares_image header ≡ any is_heif_image_brand (brands header)
unfolding ftyp_declares_image brands
ftyp_declares_image-brands header = declares-major (drop 8 header)
