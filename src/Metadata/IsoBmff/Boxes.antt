-- ===== src/Metadata/IsoBmff/Boxes.antt =====
-- `readBox` of src/metadata/src/iso_bmff_reader.cpp: where an accepted box lies.
use pimio.Metadata.IsoBmff.{
  Bytes, Read, value, refused, wild, and_then, read_u32, read_u64, wrap, sign_bit, Box, box_of,
  box_sized, read_box, payload_limit, mid4,
}
use pimio.Base.{
  ℕ, ◌+◌, ◌-◌, ◌≤◌, ◌≡◌, ap, false, ◌||◌, ltb, leb, ◌==◌, pos, int_ltb, arith, if_cases,
}

-- The payload begins behind a header of at least 8 bytes, the next box begins where the payload
-- ends, and that end, as the machine computes it, is not beyond the limit.
abbrev pub Fits : ℕ → ℕ → Read Box → Type 0
Fits offset limit (value b) =
    (offset + 8 ≤ b.payload_offset)
    × (b.next_offset ≡ payload_limit b)
    × (int_ltb (pos limit) b.next_offset ≡ false)
Fits offset limit refused = Unit
Fits offset limit wild = Unit

box_of-Fits :
    (type_ : Bytes) (offset limit header total : ℕ)
    → 8 ≤ header
    → Fits offset limit (box_of type_ offset limit header total)
box_of-Fits type_ offset limit header total h =
    if_cases (Fits offset limit) (ltb total header || int_ltb (pos limit) (wrap (offset + total))) _
      _ (λ _. tt)
      λ e.
        let low : ltb total header ≡ false = ground (arith, e) in
        let high : int_ltb (pos limit) (wrap (offset + total)) ≡ false = ground (arith, e) in
        let sum : offset + total ≡ offset + header + (total - header) = ground (arith, low) in
        (omega (arith, h), ap wrap sum, high)

and_then-Fits :
    {A : Type 0} (offset limit : ℕ) (r : Read A) (next : A → Read Box)
    → ((a : A) → Fits offset limit (next a))
    → Fits offset limit (and_then r next)
and_then-Fits offset limit (value a) next h = h a
and_then-Fits offset limit refused next h = tt
and_then-Fits offset limit wild next h = tt

box_sized-Fits :
    (bytes : Bytes) (offset limit size32 : ℕ)
    → Fits offset limit (box_sized bytes offset limit size32)
box_sized-Fits bytes offset limit size32 =
    if_cases (Fits offset limit) (size32 == 1) _ _
      (λ _. and_then-Fits offset limit (read_u64 bytes (pos (offset + 8))) _ λ size64.
        if_cases (Fits offset limit) (leb sign_bit size64) _ _ (λ _. tt)
          (λ _. box_of-Fits (mid4 bytes (offset + 4)) offset limit 16 size64 (omega arith)))
      λ _.
        if_cases (Fits offset limit) (size32 == 0) _ _
          (λ _. box_of-Fits (mid4 bytes (offset + 4)) offset limit 8 (limit - offset) (omega arith))
          (λ _. box_of-Fits (mid4 bytes (offset + 4)) offset limit 8 size32 (omega arith))

-- A box that `readBox` accepts has its payload behind a header of at least 8 bytes, the next box
-- begins where the payload ends, and that offset, as the machine computes it, is not beyond the
-- limit.
pub read_box-Fits :
    (bytes : Bytes) (offset limit : ℕ) → Fits offset limit (read_box bytes (pos offset) (pos limit))
unfolding read_box
read_box-Fits bytes offset limit =
    if_cases (Fits offset limit) (int_ltb (pos limit) (wrap (offset + 8))) _ _ (λ _. tt)
      (λ _.
        and_then-Fits offset limit (read_u32 bytes (pos offset)) _
          (box_sized-Fits bytes offset limit))
