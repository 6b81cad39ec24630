-- ===== src/Metadata/IsoBmff/Tame.antt =====
-- Which reads of src/metadata/src/iso_bmff_reader.cpp stay inside the bytes, and which do not.
use pimio.Metadata.IsoBmff.{
  Bytes, Read, value, refused, wild, and_then, read_u32, read_u64, wrap, sign_bit, Box, box_of,
  large_box, box_sized, read_box, mid4, Movie, movie_of, track_size, track_dimensions,
  read_track_header,
}
use pimio.Metadata.IsoBmff.Reads.{read_uint-tame, wrap_small}
use pimio.Base.{
  ℕ, ◌+◌, ◌-◌, ◌/◌, ◌≤◌, ◌<◌, ◌≡◌, ◌≢◌, refl, ap, ◌∙◌, false, ◌||◌, ◌&&◌, ltb, leb, ◌==◌,
  if◌then◌else◌, ℤ, pos, int_ltb, length, arith, if_cases,
}

tame-then :
    {A B : Type 0} (r : Read A) (next : A → Read B)
    → r ≢ wild
    → ((a : A) → next a ≢ wild)
    → and_then r next ≢ wild
tame-then (value a) next h k = k a
tame-then refused next h k = λ e. cc
tame-then wild next h k = absurd (h refl)

module _ (bytes : Bytes) where
  u32_tame : (offset : ℕ) → offset + 4 < sign_bit → read_u32 bytes (pos offset) ≢ wild
  unfolding read_u32
  u32_tame offset h = read_uint-tame 4 bytes offset h

  u64_tame : (offset : ℕ) → offset + 8 < sign_bit → read_u64 bytes (pos offset) ≢ wild
  unfolding read_u64
  u64_tame offset h = read_uint-tame 8 bytes offset h

  box_of-tame :
      (type_ : Bytes) (offset limit header total : ℕ)
      → box_of type_ offset limit header total ≢ wild
  box_of-tame type_ offset limit header total =
      if_cases (λ (r : Read Box). r ≢ wild)
        (ltb total header || int_ltb (pos limit) (wrap (offset + total))) _ _ (λ _ e. cc)
        (λ _ e. cc)

  box_sized-tame :
      (offset limit size32 : ℕ)
      → offset + 16 < sign_bit
      → box_sized bytes offset limit size32 ≢ wild
  box_sized-tame offset limit size32 h =
      if_cases P (size32 == 1) _ _
        (λ _.
          tame-then (read_u64 bytes (pos (offset + 8))) _ (u64_tame (offset + 8) (omega arith))
            λ size64.
              if_cases P (leb sign_bit size64) _ _ (λ _ e. cc)
                (λ _. box_of-tame (mid4 bytes (offset + 4)) offset limit 16 size64))
        λ _.
          if_cases P (size32 == 0) _ _
            (λ _. box_of-tame (mid4 bytes (offset + 4)) offset limit 8 (limit - offset))
            (λ _. box_of-tame (mid4 bytes (offset + 4)) offset limit 8 size32)
    where
      P : Read Box → Type 0
      P r = r ≢ wild

  read_box-tame :
      (offset limit : ℕ) → offset + 16 < sign_bit → read_box bytes (pos offset) (pos limit) ≢ wild
  unfolding read_box
  read_box-tame offset limit h =
      if_cases (λ (r : Read Box). r ≢ wild) (int_ltb (pos limit) (wrap (offset + 8))) _ _
        (λ _ e. cc)
        (λ _.
          tame-then (read_u32 bytes (pos offset)) _ (u32_tame offset (omega arith))
            (λ size32. box_sized-tame offset limit size32 h))

  movie_of-tame : (b : Box) (v : ℕ) → b.payload_offset + 32 < sign_bit → movie_of bytes b v ≢ wild
  unfolding movie_of
  movie_of-tame b v h =
      if_cases (λ (r : Read Movie). r ≢ wild) (v / 16777216 == 1) _ _
        (λ _. tame-then _ _ (u64_tame (b.payload_offset + 4) (omega arith)) λ c.
          tame-then _ _ (u32_tame (b.payload_offset + 20) (omega arith))
            λ t. tame-then _ _ (u64_tame (b.payload_offset + 24) (omega arith)) (λ d e. cc))
        (λ _. tame-then _ _ (u32_tame (b.payload_offset + 4) (omega arith)) λ c.
          tame-then _ _ (u32_tame (b.payload_offset + 12) (omega arith))
            λ t. tame-then _ _ (u32_tame (b.payload_offset + 16) (omega arith)) (λ d e. cc))

  track_size-tame : (w h : ℕ) → track_size w h ≢ wild
  track_size-tame w h =
      if_cases (λ (r : Read (ℤ × ℤ)). r ≢ wild) (ltb 0 (w / 65536) && ltb 0 (h / 65536)) _ _
        (λ _ e. cc) (λ _ e. cc)

  track_dimensions-tame :
      (b : Box) (v : ℕ)
      → b.payload_offset + b.payload_size < sign_bit
      → track_dimensions bytes b v ≢ wild
  track_dimensions-tame b v h =
      if_cases (λ (r : Read (ℤ × ℤ)). r ≢ wild)
        (ltb b.payload_size (if v / 16777216 == 1 then 92 else 80)) _ _ (λ _ e. cc)
        λ e.
          let large : 80 ≤ b.payload_size = ground (arith, e) in
          let end_ = b.payload_offset + b.payload_size in
          rw
            (
              wrap_small (end_ - 8) (omega (arith, large)),
              wrap_small (end_ - 4) (omega (arith, large)),
            )
            (tame-then _ _ (u32_tame (end_ - 8) (omega (arith, large)))
              λ w. tame-then _ _ (u32_tame (end_ - 4) (omega (arith, large))) (track_size-tame w))

  -- No read is wild, neither for the box at an offset nor in a movie header nor in a track header, if
  -- the offset of the box and of the header's payload are so small that 32 more do not overflow, and
  -- the end of the header's payload does not overflow either.
  pub reads_tame :
      (offset limit : ℕ) (b : Box)
      → offset + 32 < sign_bit
      → b.payload_offset + 32 < sign_bit
      → b.payload_offset + b.payload_size < sign_bit
      → (read_box bytes (pos offset) (pos limit) ≢ wild)
        × (and_then (read_u32 bytes (pos b.payload_offset)) (movie_of bytes b) ≢ wild)
        × (read_track_header bytes b ≢ wild)
  unfolding read_track_header
  reads_tame offset limit b h k end_ = (
    read_box-tame offset limit (omega arith),
    tame-then _ _ (u32_tame b.payload_offset (omega arith)) (λ v. movie_of-tame b v k),
    tame-then _ _ (u32_tame b.payload_offset (omega arith)) (λ v. track_dimensions-tame b v end_),
  )

  -- A box whose size of 64 bits makes its end overflow is accepted, since the sum that is compared
  -- with the limit is negative.
  overflow_accepted :
      (type_ : Bytes) (offset limit n : ℕ)
      → 16 ≤ n
      → n < sign_bit
      → sign_bit ≤ offset + n
      → large_box type_ offset limit n
        ≡ value (record {
          type_ = type_;
          payload_offset = offset + 16;
          payload_size = n - 16;
          next_offset = wrap (offset + n);
        })
  overflow_accepted type_ offset limit n low high over =
      let small : leb sign_bit n ≡ false = ground arith in
      let room : (ltb n 16 || int_ltb (pos limit) (wrap (offset + n))) ≡ false = ground arith in
      rw (small, room) refl

  wild_end :
      (offset : ℕ)
      → length bytes < sign_bit - 8
      → sign_bit ≤ offset + 4
      → offset < sign_bit
      → read_u32 bytes (pos offset) ≡ wild
  unfolding read_u32
  wild_end offset short over low =
      let past : int_ltb (pos (length bytes)) (wrap (offset + 4)) ≡ false = ground arith in
      let outside : leb (offset + 4) (length bytes) ≡ false = ground arith in
      rw (past, outside) refl

  -- In fewer than 2 ^ 63 - 8 bytes, a track header whose size of 64 bits puts its end, as an exact sum, at
  -- 2 ^ 63 + 4 to 2 ^ 63 + 7 is accepted as a box, and its dimensions are then read outside the bytes.
  pub oversized_track_wild :
      (offset limit n v : ℕ)
      → length bytes < sign_bit - 8
      → offset + 8 ≤ limit
      → read_u32 bytes (pos offset) ≡ value 1
      → read_u64 bytes (pos (offset + 8)) ≡ value n
      → read_u32 bytes (pos (offset + 16)) ≡ value v
      → 108 ≤ n
      → n < sign_bit
      → sign_bit + 4 ≤ offset + n
      → offset + n < sign_bit + 8
      → (b : Box) × (read_box bytes (pos offset) (pos limit) ≡ value b)
        × (read_track_header bytes b ≡ wild)
  unfolding read_box read_track_header
  oversized_track_wild offset limit n v short room one size version low high from to =
      let b : Box = record {
        type_ = mid4 bytes (offset + 4);
        payload_offset = offset + 16;
        payload_size = n - 16;
        next_offset = wrap (offset + n);
      } in
      let fits : int_ltb (pos limit) (wrap (offset + 8)) ≡ false = ground arith in
      let long : ltb (n - 16) (if v / 16777216 == 1 then 92 else 80) ≡ false = ground arith in
      let dims : wrap (offset + 16 + (n - 16) - 8) ≡ pos (offset + n - 8) =
        wrap_small (offset + 16 + (n - 16) - 8) (omega arith) ∙ ap pos (omega arith) in
      (
        b,
        rw (fits, one, size)
            (overflow_accepted (mid4 bytes (offset + 4)) offset limit n (omega arith) high
              (omega arith)),
        rw (version, long, dims, wild_end (offset + n - 8) short (omega arith) (omega arith)) refl,
      )
