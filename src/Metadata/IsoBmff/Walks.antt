-- ===== src/Metadata/IsoBmff/Walks.antt =====
-- The walks of src/metadata/src/iso_bmff_reader.cpp end.
use pimio.Metadata.IsoBmff.{
  payload_limit, Bytes, Read, value, refused, wild, Box, read_box, FieldSet, mid4,
}
use pimio.Metadata.IsoBmff.Scans.{
  TrackWalk, TrackBox, tkhd, hdlr, media, other_box, track_box, track_inner, track_turn, walk_track,
  then_walk, Scan, MovieWalk, MovieBox, moov, mvhd, trak, any_box, movie_box, movie_inner,
  movie_turn, walk, with_fields, read_iso_bmff, scan_fields,
}
use pimio.Metadata.IsoBmff.Boxes.{Fits, read_box-Fits}
use pimio.Metadata.IsoBmff.Reads.{wrap-pos}
use pimio.Base.{
  true≢false, ℕ, zero, suc, ◌+◌, ◌-◌, ◌≤◌, ◌<◌, ◌≡◌, refl, sym, ◌∙◌, Bool, true, false, not, ◌||◌,
  Option, none, some, ltb, ℤ, pos, negsuc, int_ltb, length, arith, if_cases, text_eq, codes,
}

-- A result.
abbrev pub Ends : {A : Type 0} → Option A → Type 0
Ends none = true ≡ false
Ends (some a) = Unit

pub then_walk-Ends :
    {A : Type 0} (o : Option A) (next : A → Option A)
    → Ends o
    → ((a : A) → Ends (next a))
    → Ends (then_walk o next)
then_walk-Ends none next h k = h
then_walk-Ends (some a) next h k = k a

-- The bytes that a walk has before it.
abbrev pub span : ℤ → ℤ → ℕ
span (pos o) (pos l) = l - o
span (pos o) (negsuc n) = 0
span (negsuc n) limit = 0

-- The payload of a box and what follows it are shorter than the bytes that hold both.
pub shorter :
    (o l : ℕ) (b : Box)
    → o < l
    → Fits o l (value b)
    → (span (pos b.payload_offset) (payload_limit b) < l - o) × (span b.next_offset (pos l) < l - o)
shorter o l b less (header, same, within) = go b.next_offset refl
  where
    go :
        (v : ℤ)
        → b.next_offset ≡ v
        → (span (pos b.payload_offset) (payload_limit b) < l - o)
          × (span b.next_offset (pos l) < l - o)
    go (negsuc n) e = rw (← same, e) (omega arith, omega arith)
    go (pos x) e =
        let sum = wrap-pos (b.payload_offset + b.payload_size) x (sym same ∙ e) in
        let top : int_ltb (pos l) (pos x) ≡ false = rw e at within in
        rw (← same, e) (ground (arith, top, sum), ground (arith, top, sum))

track_inner-Ends :
    (go : TrackWalk) (bytes : Bytes) (depth : ℕ) (f : FieldSet) (b : Box) (k : TrackBox)
    → Ends (go (pos b.payload_offset) (payload_limit b) (depth + 1) f)
    → Ends (track_inner go bytes depth f b k)
track_inner-Ends go bytes depth f b tkhd h = tt
track_inner-Ends go bytes depth f b hdlr h = tt
track_inner-Ends go bytes depth f b media h = h
track_inner-Ends go bytes depth f b other_box h = tt

track_turn-Ends :
    (n : ℕ) (go : TrackWalk) (bytes : Bytes) (o l depth : ℕ) (f : FieldSet) (r : Read Box)
    → o < l
    → l - o ≤ n
    → Fits o l r
    → ((offset limit : ℤ) (d : ℕ) (g : FieldSet)
        → span offset limit < n
        → Ends (go offset limit d g))
    → Ends (track_turn go bytes (pos l) depth f r)
track_turn-Ends n go bytes o l depth f refused less fuel fits all = tt
track_turn-Ends n go bytes o l depth f wild less fuel fits all = tt
track_turn-Ends n go bytes o l depth f (value b) less fuel fits all =
    let (inner, outer) = shorter o l b less fits in
    then_walk-Ends _ (go b.next_offset (pos l) depth)
      (track_inner-Ends go bytes depth f b (track_box b.type_)
        (all _ _ (depth + 1) f (omega (arith, inner))))
      (λ g. all _ _ depth g (omega (arith, outer)))

walk_track-Ends :
    (n : ℕ) (bytes : Bytes) (offset limit : ℤ) (depth : ℕ) (f : FieldSet)
    → span offset limit < n
    → Ends (walk_track n bytes offset limit depth f)
unfolding walk_track read_box
walk_track-Ends zero bytes offset limit depth f h = absurd (omega arith)
walk_track-Ends (suc n) bytes (negsuc x) limit depth f h =
    if_cases Ends (ltb 8 depth || not (int_ltb (negsuc x) limit)) _ _ (λ _. tt) (λ _. tt)
walk_track-Ends (suc n) bytes (pos o) (negsuc x) depth f h =
    if_cases Ends (ltb 8 depth || true) _ _ (λ _. tt) (λ _. tt)
walk_track-Ends (suc n) bytes (pos o) (pos l) depth f h =
    if_cases Ends (ltb 8 depth || not (int_ltb (pos o) (pos l))) _ _ (λ _. tt)
      λ e.
        track_turn-Ends n (walk_track n bytes) bytes o l depth f _ (ground (arith, e)) (omega arith)
          (read_box-Fits bytes o l)
          (λ offset limit d g k. walk_track-Ends n bytes offset limit d g k)

with_fields-Ends : (o : Option FieldSet) (saw : Bool) → Ends o → Ends (with_fields o saw)
with_fields-Ends none saw h = h
with_fields-Ends (some f) saw h = tt

module _ (is_valid : ℤ → Bool) where
  movie_inner-Ends :
      (go : MovieWalk) (track : TrackWalk) (bytes : Bytes) (depth : ℕ) (s : Scan) (b : Box)
      (k : MovieBox)
      → Ends (go (pos b.payload_offset) (payload_limit b) (depth + 1) s)
      → Ends (track (pos b.payload_offset) (payload_limit b) (depth + 1) s.fields)
      → Ends (movie_inner is_valid go track bytes depth s b k)
  movie_inner-Ends go track bytes depth s b moov h t = h
  movie_inner-Ends go track bytes depth s b mvhd h t = tt
  movie_inner-Ends go track bytes depth s b trak h t = with_fields-Ends _ true t
  movie_inner-Ends go track bytes depth s b any_box h t = tt

  movie_turn-Ends :
      (n : ℕ) (go : MovieWalk) (bytes : Bytes) (o l depth : ℕ) (s : Scan) (r : Read Box)
      → o < l
      → l - o ≤ n
      → Fits o l r
      → ((offset limit : ℤ) (d : ℕ) (t : Scan) → span offset limit < n → Ends (go offset limit d t))
      → Ends (movie_turn is_valid go (walk_track n bytes) bytes (pos l) depth s r)
  movie_turn-Ends n go bytes o l depth s refused less fuel fits all = tt
  movie_turn-Ends n go bytes o l depth s wild less fuel fits all = tt
  movie_turn-Ends n go bytes o l depth s (value b) less fuel fits all =
      let (inner, outer) = shorter o l b less fits in
      then_walk-Ends _ (go b.next_offset (pos l) depth)
        (movie_inner-Ends go (walk_track n bytes) bytes depth s b (movie_box b.type_)
          (all _ _ (depth + 1) s (omega (arith, inner)))
          (walk_track-Ends n bytes _ _ (depth + 1) s.fields (omega (arith, inner))))
        (λ t. all _ _ depth t (omega (arith, outer)))

  walk-Ends :
      (n : ℕ) (bytes : Bytes) (offset limit : ℤ) (depth : ℕ) (s : Scan)
      → span offset limit < n
      → Ends (walk is_valid n bytes offset limit depth s)
  unfolding walk read_box
  walk-Ends zero bytes offset limit depth s h = absurd (omega arith)
  walk-Ends (suc n) bytes (negsuc x) limit depth s h =
      if_cases Ends (ltb 8 depth || not (int_ltb (negsuc x) limit)) _ _ (λ _. tt) (λ _. tt)
  walk-Ends (suc n) bytes (pos o) (negsuc x) depth s h =
      if_cases Ends (ltb 8 depth || true) _ _ (λ _. tt) (λ _. tt)
  walk-Ends (suc n) bytes (pos o) (pos l) depth s h =
      if_cases Ends (ltb 8 depth || not (int_ltb (pos o) (pos l))) _ _ (λ _. tt)
        λ e.
          movie_turn-Ends n (walk is_valid n bytes) bytes o l depth s _ (ground (arith, e))
            (omega arith) (read_box-Fits bytes o l)
            (λ offset limit d t k. walk-Ends n bytes offset limit d t k)

  scanned : (o : Option Scan) → Ends o → (r : FieldSet × Bool) × (scan_fields is_valid o ≡ some r)
  scanned none h = absurd (true≢false h)
  scanned (some s) h = (_, refl)

  -- `readIsoBmff` ends with a result on every sequence of bytes, whatever sizes its boxes claim. A box
  -- inside and the box after are both read on one less fuel, and the number of bytes and one is enough
  -- for each chain of them.
  pub read_iso_bmff-ends :
      (bytes : Bytes) (f : FieldSet)
      → (r : FieldSet × Bool) × (read_iso_bmff is_valid bytes f ≡ some r)
  unfolding read_iso_bmff
  read_iso_bmff-ends bytes f =
      if_cases (λ (o : Option (FieldSet × Bool)). (r : FieldSet × Bool) × (o ≡ some r))
        (ltb (length bytes) 8 || not (text_eq (mid4 bytes 4) (codes "ftyp"))) _ _ (λ _. (_, refl))
        (λ _. scanned _ (walk-Ends (length bytes + 1) bytes _ _ 0 _ (omega arith)))
