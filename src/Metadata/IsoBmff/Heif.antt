-- ===== src/Metadata/IsoBmff/Heif.antt =====
-- The still images of src/metadata/src/iso_bmff_reader.cpp: `readHeifImage`.
use pimio.Metadata.IsoBmff.{
  payload_limit, Bytes, Read, value, refused, wild, Box, read_box, read_u32, and_then, FieldSet,
  mid4, update_fields,
}
use pimio.Metadata.IsoBmff.Scans.{TrackWalk, then_walk}
use pimio.Metadata.IsoBmff.Boxes.{Fits, read_box-Fits}
use pimio.Metadata.IsoBmff.Walks.{Ends, span, shorter, then_walk-Ends}
use pimio.Base.{
  ℕ, zero, suc, ◌+◌, ◌-◌, ◌≤◌, ◌<◌, ◌≡◌, refl, Bool, true, false, true≢false, not, ◌||◌, ◌&&◌,
  Option, none, some, ltb, if◌then◌else◌, ℤ, pos, negsuc, int_ltb, length, arith, if_cases, text_eq,
  codes,
}

-- static_cast<int> of a number below 2 ^ 32.
abbrev pub to_int : ℕ → ℤ
to_int n = if ltb n 2147483648 then pos n else negsuc (4294967295 - n)

abbrev pub set_extent : ℕ × ℕ → FieldSet → FieldSet
set_extent (width, height) f =
    if ltb 0 width && ltb 0 height
    then elim f.pixel_width [
      | none ↦ record f { pixel_width = some (to_int width); pixel_height = some (to_int height) }
      | some _ ↦ f
    ]
    else f

abbrev pub read_image_spatial_extent : Bytes → Box → FieldSet → FieldSet
read_image_spatial_extent bytes b =
    update_fields
      (and_then (read_u32 bytes (pos (b.payload_offset + 4))) (λ width.
        and_then (read_u32 bytes (pos (b.payload_offset + 8))) (λ height. value (width, height))))
      set_extent

pub data ImageBox : Type 0 where
  ispe meta container plain_box : ImageBox

abbrev pub image_box : Bytes → ImageBox
image_box type_ =
    if text_eq type_ (codes "ispe")
    then ispe
    else if text_eq type_ (codes "meta")
    then meta
    else if text_eq type_ (codes "iprp") || text_eq type_ (codes "ipco")
    then container
    else plain_box

abbrev pub heif_inner : TrackWalk → Bytes → ℕ → FieldSet → Box → ImageBox → Option FieldSet
heif_inner go bytes depth f b ispe = some (read_image_spatial_extent bytes b f)
heif_inner go bytes depth f b meta = go (pos (b.payload_offset + 4)) (payload_limit b) (depth + 1) f
heif_inner go bytes depth f b container = go (pos b.payload_offset) (payload_limit b) (depth + 1) f
heif_inner go bytes depth f b plain_box = some f

abbrev pub heif_turn : TrackWalk → Bytes → ℤ → ℕ → FieldSet → Read Box → Option FieldSet
heif_turn go bytes limit depth f refused = some f
heif_turn go bytes limit depth f wild = some (record f { fault = true })
heif_turn go bytes limit depth f (value b) =
    then_walk (heif_inner go bytes depth f b (image_box b.type_)) (go b.next_offset limit depth)

pub walk_heif_image : ℕ → Bytes → ℤ → ℤ → ℕ → FieldSet → Option FieldSet
walk_heif_image zero bytes offset limit depth f = none
walk_heif_image (suc n) bytes offset limit depth f =
    if ltb 8 depth || not (int_ltb offset limit)
    then some f
    else heif_turn (walk_heif_image n bytes) bytes limit depth f (read_box bytes offset limit)

abbrev pub image_fields : Option FieldSet → Option (FieldSet × Bool)
image_fields none = none
image_fields (some f) = some (f, true)

-- The fields and the result of the function.
unfoldable pub read_heif_image : Bytes → FieldSet → Option (FieldSet × Bool)
unfolding walk_heif_image
read_heif_image bytes f =
    if ltb (length bytes) 8 || not (text_eq (mid4 bytes 4) (codes "ftyp"))
    then some (f, false)
    else image_fields (walk_heif_image (length bytes + 1) bytes (pos 0) (pos (length bytes)) 0 f)

span_later : (o : ℕ) (limit : ℤ) → span (pos (o + 4)) limit ≤ span (pos o) limit
span_later o (pos l) = omega arith
span_later o (negsuc n) = omega arith

heif_inner-Ends :
    (go : TrackWalk) (bytes : Bytes) (depth : ℕ) (f : FieldSet) (b : Box) (k : ImageBox)
    → Ends (go (pos b.payload_offset) (payload_limit b) (depth + 1) f)
    → Ends (go (pos (b.payload_offset + 4)) (payload_limit b) (depth + 1) f)
    → Ends (heif_inner go bytes depth f b k)
heif_inner-Ends go bytes depth f b ispe h k = tt
heif_inner-Ends go bytes depth f b meta h k = k
heif_inner-Ends go bytes depth f b container h k = h
heif_inner-Ends go bytes depth f b plain_box h k = tt

heif_turn-Ends :
    (n : ℕ) (go : TrackWalk) (bytes : Bytes) (o l depth : ℕ) (f : FieldSet) (r : Read Box)
    → o < l
    → l - o ≤ n
    → Fits o l r
    → ((offset limit : ℤ) (d : ℕ) (g : FieldSet)
        → span offset limit < n
        → Ends (go offset limit d g))
    → Ends (heif_turn go bytes (pos l) depth f r)
heif_turn-Ends n go bytes o l depth f refused less fuel fits all = tt
heif_turn-Ends n go bytes o l depth f wild less fuel fits all = tt
heif_turn-Ends n go bytes o l depth f (value b) less fuel fits all =
    let (inner, outer) = shorter o l b less fits in
    then_walk-Ends _ (go b.next_offset (pos l) depth)
      (heif_inner-Ends go bytes depth f b (image_box b.type_)
        (all _ _ (depth + 1) f (omega (arith, inner)))
        (all _ _ (depth + 1) f
          (omega (arith, inner, span_later b.payload_offset (payload_limit b)))))
      (λ g. all _ _ depth g (omega (arith, outer)))

walk_heif_image-Ends :
    (n : ℕ) (bytes : Bytes) (offset limit : ℤ) (depth : ℕ) (f : FieldSet)
    → span offset limit < n
    → Ends (walk_heif_image n bytes offset limit depth f)
unfolding walk_heif_image read_box
walk_heif_image-Ends zero bytes offset limit depth f h = absurd (omega arith)
walk_heif_image-Ends (suc n) bytes (negsuc x) limit depth f h =
    if_cases Ends (ltb 8 depth || not (int_ltb (negsuc x) limit)) _ _ (λ _. tt) (λ _. tt)
walk_heif_image-Ends (suc n) bytes (pos o) (negsuc x) depth f h =
    if_cases Ends (ltb 8 depth || true) _ _ (λ _. tt) (λ _. tt)
walk_heif_image-Ends (suc n) bytes (pos o) (pos l) depth f h =
    if_cases Ends (ltb 8 depth || not (int_ltb (pos o) (pos l))) _ _ (λ _. tt)
      λ e.
        heif_turn-Ends n (walk_heif_image n bytes) bytes o l depth f _ (ground (arith, e))
          (omega arith) (read_box-Fits bytes o l)
          (λ offset limit d g k. walk_heif_image-Ends n bytes offset limit d g k)

imaged : (o : Option FieldSet) → Ends o → (r : FieldSet × Bool) × (image_fields o ≡ some r)
imaged none h = absurd (true≢false h)
imaged (some f) h = (_, refl)

-- `readHeifImage` ends on every sequence of bytes, within as many turns as there are bytes, and one.
pub read_heif_image-ends :
    (bytes : Bytes) (f : FieldSet) → (r : FieldSet × Bool) × (read_heif_image bytes f ≡ some r)
unfolding read_heif_image
read_heif_image-ends bytes f =
    if_cases (λ (o : Option (FieldSet × Bool)). (r : FieldSet × Bool) × (o ≡ some r))
      (ltb (length bytes) 8 || not (text_eq (mid4 bytes 4) (codes "ftyp"))) _ _ (λ _. (_, refl))
      (λ _. imaged _ (walk_heif_image-Ends (length bytes + 1) bytes _ _ 0 f (omega arith)))
