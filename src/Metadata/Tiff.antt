-- ===== src/Metadata/Tiff.antt =====
-- src/metadata/src/tiff_reader.cpp: the directories of a TIFF block and the numbers in them. The
-- offsets are numbers of 32 bits with at most 6,200 added to them, so that no sum overflows.
pub mod Entries
use pimio.Metadata.IsoBmff.{Bytes, big_endian}
use pimio.Metadata.IsoBmff.Heif.{to_int}
use pimio.Metadata.IsoBmff.{FieldSet}
use pimio.Metadata.Signature.{starts_with}
use pimio.Base.{
  ℕ, zero, suc, ◌+◌, ◌*◌, Bool, true, false, Option, none, some, not, ◌&&◌, ◌||◌, List, [], ◌∷◌,
  ltb, leb, ◌==◌, if◌then◌else◌, ℤ, pos, length, take, drop, codes,
}

-- QByteArray::mid.
abbrev pub mid : Bytes → ℕ → ℕ → Bytes
mid bytes offset n = take n (drop offset bytes)

abbrev pub little_endian : Bytes → ℕ
little_endian [] = 0
little_endian (b ∷ rest) = b + 256 * little_endian rest

-- The common text of `readU16` and `readU32`.
abbrev pub read_number : ℕ → Bytes → ℕ → Bool → Option ℕ
read_number width bytes offset is_big =
    if ltb (length bytes) (offset + width)
    then none
    else some (
        if is_big
        then big_endian 0 (mid bytes offset width)
        else little_endian (mid bytes offset width))

unfoldable pub read_u16 : Bytes → ℕ → Bool → Option ℕ
read_u16 = read_number 2

unfoldable pub read_u32 : Bytes → ℕ → Bool → Option ℕ
read_u32 = read_number 4

unfoldable pub size_of_type : ℕ → ℕ
size_of_type type_ =
    if type_ == 1 || type_ == 2 || type_ == 7
    then 1
    else if type_ == 3
    then 2
    else if type_ == 4 || type_ == 9
    then 4
    else if type_ == 5 || type_ == 10
    then 8
    else 0

pub record TiffEntry : Type 0 where
  pub tag : ℕ
  pub type_ : ℕ
  pub count_ : ℕ
  pub value : Bytes

abbrev pub bind : {A B : Type 0} → Option A → (A → Option B) → Option B
bind none next = none
bind (some a) next = next a

-- The numbers of an entry: its tag, type, count and value offset.
pub record EntryHead : Type 0 where
  pub tag : ℕ
  pub type_ : ℕ
  pub count_ : ℕ
  pub value_offset : ℕ

unfoldable pub read_head : Bytes → ℕ → Bool → Option EntryHead
read_head tiff offset is_big = bind (read_u16 tiff offset is_big) (λ tag.
    bind (read_u16 tiff (offset + 2) is_big) (λ type_.
      bind (read_u32 tiff (offset + 4) is_big) (λ count_.
        bind (read_u32 tiff (offset + 8) is_big) (λ value_offset.
          some
            (record { tag = tag; type_ = type_; count_ = count_; value_offset = value_offset })))))

-- The last check of an entry's value.
abbrev pub checked : EntryHead → ℕ → Bytes → List TiffEntry
checked h byte_count value =
    if length value == byte_count
    then record { tag = h.tag; type_ = h.type_; count_ = h.count_; value = value } ∷ []
    else []

-- The entry, or nothing where the loop goes on without it.
unfoldable pub resolve : Bytes → ℕ → EntryHead → List TiffEntry
unfolding size_of_type
resolve tiff offset h =
    let byte_count = size_of_type h.type_ * h.count_ in
    if size_of_type h.type_ == 0
    then []
    else if ltb (length tiff) byte_count
    then []
    else if leb byte_count 4
    then checked h byte_count (mid tiff (offset + 8) byte_count)
    else if ltb (length tiff) (h.value_offset + byte_count)
    then []
    else checked h byte_count (mid tiff h.value_offset byte_count)

abbrev pub prepend : List TiffEntry → Option (List TiffEntry) → Option (List TiffEntry)
prepend es none = none
prepend [] (some rest) = some rest
prepend (e ∷ es) (some rest) = some (e ∷ rest)

-- The loop, for a number of entries from an offset on; `none` is the `false` of the source.
pub read_entries : ℕ → Bytes → ℕ → Bool → Option (List TiffEntry)
unfolding read_head resolve
read_entries zero tiff offset is_big = some []
read_entries (suc n) tiff offset is_big =
    bind (read_head tiff offset is_big)
      (λ h. prepend (resolve tiff offset h) (read_entries n tiff (offset + 12) is_big))

abbrev pub max_ifd_entries : ℕ
max_ifd_entries = 512

unfoldable pub read_ifd : Bytes → ℕ → Bool → Option (List TiffEntry)
unfolding read_u16 read_entries
read_ifd tiff ifd_offset is_big = bind (read_u16 tiff ifd_offset is_big) (λ entry_count.
    if ltb max_ifd_entries entry_count
    then none
    else read_entries entry_count tiff (ifd_offset + 2) is_big)

pub find : List TiffEntry → ℕ → Option TiffEntry
find [] tag = none
find (e ∷ rest) tag = if e.tag == tag then some e else find rest tag

abbrev pub first_byte : Bytes → Option ℕ
first_byte [] = none
first_byte (b ∷ rest) = some b

unfoldable pub integer_value : TiffEntry → Bool → Option ℕ
unfolding read_u16 read_u32
integer_value e is_big =
    if e.type_ == 3
    then read_u16 e.value 0 is_big
    else if e.type_ == 4 || e.type_ == 9
    then read_u32 e.value 0 is_big
    else if e.type_ == 1
    then first_byte e.value
    else none

unfoldable pub rotation_for_exif_orientation : ℕ → ℕ
rotation_for_exif_orientation orientation =
    if orientation == 3 || orientation == 4
    then 180
    else if orientation == 5 || orientation == 6
    then 90
    else if orientation == 7 || orientation == 8
    then 270
    else 0

-- The value of a tag, if it is a number above 0.
abbrev pub positive_value : List TiffEntry → ℕ → Bool → Option ℕ
positive_value ifd tag is_big =
    bind (find ifd tag) (λ e. bind (integer_value e is_big) (λ n. if ltb 0 n then some n else none))

abbrev pub set_width : Option ℕ → FieldSet → FieldSet
set_width none f = f
set_width (some n) f = record f { pixel_width = some (to_int n) }

abbrev pub set_height : Option ℕ → FieldSet → FieldSet
set_height none f = f
set_height (some n) f = record f { pixel_height = some (to_int n) }

abbrev pub set_dimensions : Bool → Option (List TiffEntry) → FieldSet → FieldSet
set_dimensions is_big none f = f
set_dimensions is_big (some ifd) f =
    set_height (positive_value ifd 257 is_big) (set_width (positive_value ifd 256 is_big) f)

unfoldable pub apply_primary_tiff_dimensions : Bytes → FieldSet → FieldSet
unfolding read_u32 read_ifd find integer_value
apply_primary_tiff_dimensions bytes f =
    let is_big = starts_with bytes (codes "MM") in
    set_dimensions is_big (bind (read_u32 bytes 4 is_big) (λ offset. read_ifd bytes offset is_big))
      f
