-- ===== src/Metadata/IsoBmff/Scans.antt =====
-- The walks of src/metadata/src/iso_bmff_reader.cpp over the boxes of a movie, up to `readIsoBmff`.
use pimio.Metadata.IsoBmff.{
  payload_limit, Bytes, Read, mid4, Box, read_box, FieldSet, update_fields, read_movie_header,
  read_track_header, set_size, value, refused, wild,
}
use pimio.Base.{
  ℕ, zero, suc, ◌+◌, Bool, true, false, Option, none, some, not, ◌||◌, ltb, if◌then◌else◌, codes,
  text_eq, length, ℤ, pos, int_ltb,
}

-- The boxes that `walkTrack` and `walk` look into.
pub data TrackBox : Type 0 where
  tkhd hdlr media other_box : TrackBox

pub data MovieBox : Type 0 where
  moov mvhd trak any_box : MovieBox

abbrev pub track_box : Bytes → TrackBox
track_box type_ =
    if text_eq type_ (codes "tkhd")
    then tkhd
    else if text_eq type_ (codes "hdlr")
    then hdlr
    else if text_eq type_ (codes "mdia") || text_eq type_ (codes "minf")
    then media
    else other_box

abbrev pub movie_box : Bytes → MovieBox
movie_box type_ =
    if text_eq type_ (codes "moov")
    then moov
    else if text_eq type_ (codes "mvhd")
    then mvhd
    else if text_eq type_ (codes "trak")
    then trak
    else any_box

abbrev pub read_handler : Bytes → Box → FieldSet → FieldSet
read_handler bytes b f =
    if text_eq (mid4 bytes (b.payload_offset + 8)) (codes "soun")
    then record f { has_audio = some true }
    else f

abbrev pub then_walk : {A : Type 0} → Option A → (A → Option A) → Option A
then_walk none next = none
then_walk (some a) next = next a

-- A turn of the loop of `walkTrack`, by what `readBox` found; `go` is a walk from an offset to a
-- limit at a depth.
abbrev pub TrackWalk : Type 0
TrackWalk = ℤ → ℤ → ℕ → FieldSet → Option FieldSet

abbrev pub track_inner : TrackWalk → Bytes → ℕ → FieldSet → Box → TrackBox → Option FieldSet
track_inner go bytes depth f b tkhd = some (update_fields (read_track_header bytes b) set_size f)
track_inner go bytes depth f b hdlr = some (read_handler bytes b f)
track_inner go bytes depth f b media = go (pos b.payload_offset) (payload_limit b) (depth + 1) f
track_inner go bytes depth f b other_box = some f

abbrev pub track_turn : TrackWalk → Bytes → ℤ → ℕ → FieldSet → Read Box → Option FieldSet
track_turn go bytes limit depth f refused = some f
track_turn go bytes limit depth f wild = some (record f { fault = true })
track_turn go bytes limit depth f (value b) =
    then_walk (track_inner go bytes depth f b (track_box b.type_)) (go b.next_offset limit depth)

-- The loops, on fuel; `none` is the end of the fuel. Nested boxes and the next box cost one each.
unfoldable pub walk_track : ℕ → Bytes → ℤ → ℤ → ℕ → FieldSet → Option FieldSet
walk_track zero bytes offset limit depth f = none
walk_track (suc n) bytes offset limit depth f =
    if ltb 8 depth || not (int_ltb offset limit)
    then some f
    else track_turn (walk_track n bytes) bytes limit depth f (read_box bytes offset limit)

-- The fields and `sawTrack`.
pub record Scan : Type 0 where
  pub fields : FieldSet
  pub saw_track : Bool

abbrev pub with_fields : Option FieldSet → Bool → Option Scan
with_fields none saw = none
with_fields (some f) saw = some (record { fields = f; saw_track = saw })

abbrev pub MovieWalk : Type 0
MovieWalk = ℤ → ℤ → ℕ → Scan → Option Scan

module _ (is_valid : ℤ → Bool) where
  abbrev pub movie_inner : MovieWalk → TrackWalk → Bytes → ℕ → Scan → Box → MovieBox → Option Scan
  movie_inner go track bytes depth s b moov =
      go (pos b.payload_offset) (payload_limit b) (depth + 1) s
  movie_inner go track bytes depth s b mvhd =
      some (record s { fields = read_movie_header is_valid bytes b s.fields })
  movie_inner go track bytes depth s b trak =
      with_fields (track (pos b.payload_offset) (payload_limit b) (depth + 1) s.fields) true
  movie_inner go track bytes depth s b any_box = some s

  abbrev pub movie_turn : MovieWalk → TrackWalk → Bytes → ℤ → ℕ → Scan → Read Box → Option Scan
  movie_turn go track bytes limit depth s refused = some s
  movie_turn go track bytes limit depth s wild =
      some (record s { fields = record s.fields { fault = true } })
  movie_turn go track bytes limit depth s (value b) =
      then_walk (movie_inner go track bytes depth s b (movie_box b.type_))
        (go b.next_offset limit depth)

  unfoldable pub walk : ℕ → Bytes → ℤ → ℤ → ℕ → Scan → Option Scan
  walk zero bytes offset limit depth s = none
  walk (suc n) bytes offset limit depth s =
      if ltb 8 depth || not (int_ltb offset limit)
      then some s
      else movie_turn (walk n bytes) (walk_track n bytes) bytes limit depth s
          (read_box bytes offset limit)

  -- The end of `readIsoBmff`, without its warning.
  abbrev pub settle_audio : Scan → FieldSet
  settle_audio s =
      if s.saw_track
      then elim s.fields.has_audio [
        | none ↦ record s.fields { has_audio = some false }
        | some a ↦ s.fields
      ]
      else s.fields

  abbrev pub scan_fields : Option Scan → Option (FieldSet × Bool)
  scan_fields none = none
  scan_fields (some s) = some (settle_audio s, true)

  -- The fields and the result of the function.
  unfoldable pub read_iso_bmff : Bytes → FieldSet → Option (FieldSet × Bool)
  unfolding walk
  read_iso_bmff bytes f =
      if ltb (length bytes) 8 || not (text_eq (mid4 bytes 4) (codes "ftyp"))
      then some (f, false)
      else scan_fields (
          walk (length bytes + 1) bytes (pos 0) (pos (length bytes)) 0
            (record { fields = f; saw_track = false }))
