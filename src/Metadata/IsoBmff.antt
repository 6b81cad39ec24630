-- ===== src/Metadata/IsoBmff.antt =====
-- src/metadata/src/iso_bmff_reader.cpp: the box tree of an ISO base media file. A byte is a number
-- below 256. An offset is a qsizetype, of 64 bits with a sign: the sum of two is `wrap` of the exact
-- one, although C++ leaves that overflow undefined. A read that the source's check lets through
-- outside the bytes is `wild`. Whether Qt takes an instant for a valid date is the parameter
-- `is_valid`.
pub mod Reads
pub mod Boxes
pub mod Scans
pub mod Walks
pub mod Tame
pub mod Heif
use pimio.Base.{
  ℕ, zero, suc, ◌+◌, ◌-◌, ◌*◌, ◌/◌, ◌%◌, Bool, true, false, Option, none, some, not, ◌&&◌, ◌||◌,
  List, [], ◌∷◌, ltb, leb, ◌==◌, if◌then◌else◌, Text, codes, text_eq, length, take, drop, ℤ, pos,
  negsuc, int_ltb,
}

abbrev pub Bytes : Type 0
Bytes = List ℕ

-- 2 ^ 63 and 2 ^ 64.
abbrev pub sign_bit : ℕ
sign_bit = 9223372036854775808

abbrev pub word : ℕ
word = 18446744073709551616

-- A number below 2 ^ 64 as a signed one.
abbrev pub wrap : ℕ → ℤ
wrap n = if ltb n sign_bit then pos n else negsuc (word - 1 - n)

pub data Read (A : Type 0) : Type 0 where
  value : A → Read A
  refused : Read A
  wild : Read A

abbrev pub and_then : {A B : Type 0} → Read A → (A → Read B) → Read B
and_then (value a) next = next a
and_then refused next = refused
and_then wild next = wild

abbrev pub big_endian : ℕ → Bytes → ℕ
big_endian n [] = n
big_endian n (b ∷ rest) = big_endian (n * 256 + b) rest

-- The common text of `readU32` and `readU64`.
abbrev pub read_uint : ℕ → Bytes → ℤ → Read ℕ
read_uint width bytes (negsuc n) = refused
read_uint width bytes (pos offset) =
    if int_ltb (pos (length bytes)) (wrap (offset + width))
    then refused
    else if leb (offset + width) (length bytes)
    then value (big_endian 0 (take width (drop offset bytes)))
    else wild

unfoldable pub read_u32 : Bytes → ℤ → Read ℕ
read_u32 = read_uint 4

unfoldable pub read_u64 : Bytes → ℤ → Read ℕ
read_u64 = read_uint 8

-- QByteArray::mid(offset, 4).
abbrev pub mid4 : Bytes → ℕ → Bytes
mid4 bytes offset = take 4 (drop offset bytes)

pub record Box : Type 0 where
  pub type_ : Bytes
  pub payload_offset : ℕ
  pub payload_size : ℕ
  pub next_offset : ℤ

abbrev pub payload_limit : Box → ℤ
payload_limit b = wrap (b.payload_offset + b.payload_size)

-- The end of `readBox`: the checks of the size.
abbrev pub box_of : Bytes → ℕ → ℕ → ℕ → ℕ → Read Box
box_of type_ offset limit header total =
    if ltb total header || int_ltb (pos limit) (wrap (offset + total))
    then refused
    else value (record {
      type_ = type_;
      payload_offset = offset + header;
      payload_size = total - header;
      next_offset = wrap (offset + total);
    })

abbrev pub large_box : Bytes → ℕ → ℕ → ℕ → Read Box
large_box type_ offset limit size64 =
    if leb sign_bit size64 then refused else box_of type_ offset limit 16 size64

abbrev pub box_sized : Bytes → ℕ → ℕ → ℕ → Read Box
box_sized bytes offset limit size32 =
    if size32 == 1
    then and_then (read_u64 bytes (pos (offset + 8)))
        (large_box (mid4 bytes (offset + 4)) offset limit)
    else if size32 == 0
    then box_of (mid4 bytes (offset + 4)) offset limit 8 (limit - offset)
    else box_of (mid4 bytes (offset + 4)) offset limit 8 size32

-- A negative offset or limit leaves no room for a box.
unfoldable pub read_box : Bytes → ℤ → ℤ → Read Box
read_box bytes (negsuc n) limit = refused
read_box bytes (pos offset) (negsuc n) = refused
read_box bytes (pos offset) (pos limit) =
    if int_ltb (pos limit) (wrap (offset + 8))
    then refused
    else and_then (read_u32 bytes (pos offset)) (box_sized bytes offset limit)

-- What the walks collect; `fault` is set by a wild read.
pub record FieldSet : Type 0 where
  pub duration_ms : Option ℤ
  pub capture_time : Option ℤ
  pub pixel_width : Option ℤ
  pub pixel_height : Option ℤ
  pub has_audio : Option Bool
  pub fault : Bool

abbrev pub update_fields : {A : Type 0} → Read A → (A → FieldSet → FieldSet) → FieldSet → FieldSet
update_fields (value a) set_ f = set_ a f
update_fields refused set_ f = f
update_fields wild set_ f = record f { fault = true }

pub record Movie : Type 0 where
  pub creation : ℕ
  pub timescale : ℕ
  pub duration : ℕ

-- Seconds since 1904 as seconds since 1970.
abbrev pub unix_seconds : ℕ → ℤ
unix_seconds n = if leb 2082844800 n then pos (n - 2082844800) else negsuc (2082844800 - n - 1)

unfoldable pub movie_of : Bytes → Box → ℕ → Read Movie
movie_of bytes b version_and_flags =
    if version_and_flags / 16777216 == 1
    then and_then (read_u64 bytes (pos (b.payload_offset + 4))) (λ creation.
      and_then (read_u32 bytes (pos (b.payload_offset + 20))) (λ timescale.
        and_then (read_u64 bytes (pos (b.payload_offset + 24))) (λ duration.
          value (record { creation = creation; timescale = timescale; duration = duration }))))
    else and_then (read_u32 bytes (pos (b.payload_offset + 4))) (λ creation.
      and_then (read_u32 bytes (pos (b.payload_offset + 12))) (λ timescale.
        and_then (read_u32 bytes (pos (b.payload_offset + 16))) (λ duration.
          value (record { creation = creation; timescale = timescale; duration = duration }))))

abbrev pub is_positive_int64 : ℕ → Bool
is_positive_int64 n = ltb 0 n && ltb n sign_bit

module _ (is_valid : ℤ → Bool) where
  abbrev pub set_movie : Movie → FieldSet → FieldSet
  set_movie m f = record f {
    duration_ms =
        if ltb 0 m.timescale && ltb 0 m.duration
        then some (wrap (m.duration * 1000 % word / m.timescale))
        else f.duration_ms;
    capture_time =
        if is_positive_int64 m.creation && is_valid (unix_seconds m.creation)
        then some (unix_seconds m.creation)
        else f.capture_time;
  }

  unfoldable pub read_movie_header : Bytes → Box → FieldSet → FieldSet
  read_movie_header bytes b =
      update_fields (and_then (read_u32 bytes (pos b.payload_offset)) (movie_of bytes b)) set_movie

-- The width and the height of a track, where they are not zero.
abbrev pub track_size : ℕ → ℕ → Read (ℤ × ℤ)
track_size width height =
    if ltb 0 (width / 65536) && ltb 0 (height / 65536)
    then value (pos (width / 65536), pos (height / 65536))
    else refused

-- `dimensionsOffset`, and the offset of the height: the sums are taken as the machine does.
abbrev pub track_dimensions : Bytes → Box → ℕ → Read (ℤ × ℤ)
track_dimensions bytes b version_and_flags =
    if ltb b.payload_size (if version_and_flags / 16777216 == 1 then 92 else 80)
    then refused
    else and_then (read_u32 bytes (wrap (b.payload_offset + b.payload_size - 8))) (λ width.
      and_then (read_u32 bytes (wrap (b.payload_offset + b.payload_size - 4)))
        (λ height. track_size width height))

unfoldable pub read_track_header : Bytes → Box → Read (ℤ × ℤ)
read_track_header bytes b =
    and_then (read_u32 bytes (pos b.payload_offset)) (track_dimensions bytes b)

-- The first visual track gives the size.
abbrev pub set_size : ℤ × ℤ → FieldSet → FieldSet
set_size (w, h) f = elim f.pixel_width [
  | none ↦ record f { pixel_width = some w; pixel_height = some h }
  | some _ ↦ f
]
