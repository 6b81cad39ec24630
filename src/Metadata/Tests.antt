-- ===== src/Metadata/Tests.antt =====
-- The readers of src/metadata on small files.
use pimio.Metadata.IsoBmff.{
  Bytes, value, wild, Box, FieldSet, and_then, read_u32, read_u64, read_box, movie_of,
  read_track_header,
}
use pimio.Metadata.IsoBmff.Scans.{read_iso_bmff}
use pimio.Metadata.IsoBmff.Boxes.{Fits, read_box-Fits}
use pimio.Metadata.IsoBmff.Walks.{read_iso_bmff-ends}
use pimio.Metadata.IsoBmff.Tame.{reads_tame, oversized_track_wild}
use pimio.Metadata.Tiff.{TiffEntry, read_ifd, read_head, resolve, read_entries, size_of_type}
use pimio.Metadata.Tiff.Entries.{IsResolved, read_ifd-IsResolved}
use pimio.Base.{
  All, length, ◌≤◌, ℕ, ◌≡◌, ◌≢◌, refl, Bool, true, false, none, some, [], ◌∷◌, ◌++◌, pos, arith,
  codes,
}

abbrev size : ℕ → Bytes
size n = 0 ∷ 0 ∷ 0 ∷ n ∷ []

-- A file with an empty box "moov" behind the box "ftyp".
abbrev movie : Bytes
movie = size 16 ++ codes "ftypavif" ++ size 0 ++ size 8 ++ codes "moov"

-- A box "tkhd" at offset 8 whose size is 2 ^ 63 - 4, and 8 bytes behind its header.
abbrev crafted : Bytes
crafted =
    size 16
    ++ codes "ftyp"
    ++ size 1
    ++ codes "tkhd"
    ++ (127 ∷ 255 ∷ 255 ∷ 255 ∷ 255 ∷ 255 ∷ 255 ∷ 252 ∷ [])
    ++ size 0
    ++ size 0

abbrev no_fields : FieldSet
no_fields = record {
  duration_ms = none;
  capture_time = none;
  pixel_width = none;
  pixel_height = none;
  has_audio = none;
  fault = false;
}

abbrev header_box : Box
header_box = record {
  type_ = codes "mvhd";
  payload_offset = 8;
  payload_size = 16;
  next_offset = pos 24;
}

read_box-Fits_example : Fits 16 24 (read_box movie (pos 16) (pos 24))
read_box-Fits_example = read_box-Fits movie 16 24

read_iso_bmff-ends_example :
    (r : FieldSet × Bool) × (read_iso_bmff (λ v. true) movie no_fields ≡ some r)
read_iso_bmff-ends_example = read_iso_bmff-ends (λ v. true) movie no_fields

reads_tame_example :
    (read_box movie (pos 0) (pos 24) ≢ wild)
    × (and_then (read_u32 movie (pos 8)) (movie_of movie header_box) ≢ wild)
    × (read_track_header movie header_box ≢ wild)
reads_tame_example = reads_tame movie 0 24 header_box (omega arith) (omega arith) (omega arith)

oversized_track_wild_example :
    (b : Box) × (read_box crafted (pos 8) (pos 32) ≡ value b) × (read_track_header crafted b ≡ wild)
unfolding read_u32 read_u64
oversized_track_wild_example =
    oversized_track_wild crafted 8 32 9223372036854775804 0 (omega arith) (omega arith) refl refl
      refl (omega arith) (omega arith) (omega arith) (omega arith)

-- A directory with one entry: the width, 16, as a short number.
abbrev directory : Bytes
directory = 0 ∷ 1 ∷ 1 ∷ 0 ∷ 0 ∷ 3 ∷ 0 ∷ 0 ∷ 0 ∷ 1 ∷ 0 ∷ 16 ∷ 0 ∷ 0 ∷ []

abbrev width_entry : TiffEntry
width_entry = record { tag = 256; type_ = 3; count_ = 1; value = 0 ∷ 16 ∷ [] }

read_ifd-IsResolved_example :
    (length (width_entry ∷ []) ≤ 512) × All (IsResolved directory) (width_entry ∷ [])
unfolding read_ifd pimio.Metadata.Tiff.read_u32
read_ifd-IsResolved_example = read_ifd-IsResolved directory 0 true (width_entry ∷ []) refl
