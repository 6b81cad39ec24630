-- ===== src/Metadata/Tiff/Entries.antt =====
-- The entries that `readIfd` of src/metadata/src/tiff_reader.cpp delivers.
use pimio.Metadata.IsoBmff.{Bytes}
use pimio.Metadata.Tiff.{
  TiffEntry, EntryHead, bind, mid, checked, prepend, read_u16, read_head, resolve, read_entries,
  read_ifd, size_of_type, max_ifd_entries,
}
use pimio.Base.{
  ℕ, zero, suc, ◌+◌, ◌*◌, ◌≤◌, ◌≡◌, refl, sym, ap, subst, ◌∙◌, Bool, Option, none, some, List, [],
  ◌∷◌, ltb, leb, ◌==◌, length, arith, if_cases, All,
}

-- What the loop promises of an entry: its value is as long as its type and count say, not longer than
-- the file, and a part of the file.
pub record IsResolved (tiff : Bytes) (e : TiffEntry) : Type 0 where
  pub known : 1 ≤ size_of_type e.type_
  pub sized : length e.value ≡ size_of_type e.type_ * e.count_
  pub within : length e.value ≤ length tiff
  pub slice : (at : ℕ) × (e.value ≡ mid tiff at (length e.value))

module _ (tiff : Bytes) where
  checked-IsResolved :
      (h : EntryHead) (at n : ℕ)
      → 1 ≤ size_of_type h.type_
      → n ≡ size_of_type h.type_ * h.count_
      → n ≤ length tiff
      → All (IsResolved tiff) (checked h n (mid tiff at n))
  checked-IsResolved h at n known size within =
      if_cases (All (IsResolved tiff)) (length (mid tiff at n) == n) _ _
        (λ e.
          let same : length (mid tiff at n) ≡ n = ground (arith, e) in
          (
            record {
              known = known;
              sized = same ∙ size;
              within = omega (arith, same, within);
              slice = (at, ap (mid tiff at) (sym same));
            },
            tt,
          ))
        (λ _. tt)

  resolve-IsResolved : (offset : ℕ) (h : EntryHead) → All (IsResolved tiff) (resolve tiff offset h)
  unfolding resolve
  resolve-IsResolved offset h =
      let n = size_of_type h.type_ * h.count_ in
      if_cases P (size_of_type h.type_ == 0) _ _ (λ _. tt)
        λ known.
          if_cases P (ltb (length tiff) n) _ _ (λ _. tt)
            λ within.
              if_cases P (leb n 4) _ _
                (λ _.
                  checked-IsResolved h (offset + 8) n (ground (arith, known)) refl
                    (ground (arith, within)))
                λ _.
                  if_cases P (ltb (length tiff) (h.value_offset + n)) _ _ (λ _. tt)
                    (λ _.
                      checked-IsResolved h h.value_offset n (ground (arith, known)) refl
                        (ground (arith, within)))
    where
      P : List TiffEntry → Type 0
      P = All (IsResolved tiff)

  resolve-length : (offset : ℕ) (h : EntryHead) → length (resolve tiff offset h) ≤ 1
  unfolding resolve
  resolve-length offset h = ground arith

  -- A directory of at most n entries.
  abbrev Delivers : ℕ → Option (List TiffEntry) → Type 0
  Delivers n none = Unit
  Delivers n (some es) = (length es ≤ n) × All (IsResolved tiff) es

  prepend-Delivers :
      (n : ℕ) (es : List TiffEntry) (rest : Option (List TiffEntry))
      → length es ≤ 1
      → All (IsResolved tiff) es
      → Delivers n rest
      → Delivers (suc n) (prepend es rest)
  prepend-Delivers n es none short all d = tt
  prepend-Delivers n [] (some rest) short all d = (omega (arith, d.0), d.1)
  prepend-Delivers n (e ∷ []) (some rest) short all d = (omega (arith, d.0), (all.0, d.1))
  prepend-Delivers n (e ∷ f ∷ es) (some rest) short all d = absurd (omega arith)

  bind-Delivers :
      {A : Type 0} (n : ℕ) (o : Option A) (next : A → Option (List TiffEntry))
      → ((a : A) → Delivers n (next a))
      → Delivers n (bind o next)
  bind-Delivers n none next h = tt
  bind-Delivers n (some a) next h = h a

  read_entries-Delivers :
      (n offset : ℕ) (is_big : Bool) → Delivers n (read_entries n tiff offset is_big)
  unfolding read_entries
  read_entries-Delivers zero offset is_big = (omega arith, tt)
  read_entries-Delivers (suc n) offset is_big =
      let rest = read_entries-Delivers n (offset + 12) is_big in
      bind-Delivers (suc n) (read_head tiff offset is_big) _ (λ h.
        prepend-Delivers n (resolve tiff offset h) _ (resolve-length offset h)
          (resolve-IsResolved offset h) rest)

  more : (n m : ℕ) (o : Option (List TiffEntry)) → n ≤ m → Delivers n o → Delivers m o
  more n m none h d = tt
  more n m (some es) h d = (omega (arith, d.0), d.1)

  read_ifd-Delivers :
      (offset : ℕ) (is_big : Bool) → Delivers max_ifd_entries (read_ifd tiff offset is_big)
  unfolding read_ifd
  read_ifd-Delivers offset is_big =
      bind-Delivers max_ifd_entries (read_u16 tiff offset is_big) _ λ n.
        if_cases (Delivers max_ifd_entries) (ltb max_ifd_entries n) _ _ (λ _. tt)
          (λ e.
            more n max_ifd_entries _ (ground (arith, e))
              (read_entries-Delivers n (offset + 2) is_big))

  -- Of every directory that `readIfd` can read, at any offset of any block, there are at most 512
  -- entries, and each has a known type and a value that is as long as its type and count say and is a
  -- part of the block.
  pub read_ifd-IsResolved :
      (offset : ℕ) (is_big : Bool) (entries : List TiffEntry)
      → read_ifd tiff offset is_big ≡ some entries
      → (length entries ≤ 512) × All (IsResolved tiff) entries
  read_ifd-IsResolved offset is_big entries e =
      subst (Delivers max_ifd_entries) e (read_ifd-Delivers offset is_big)
