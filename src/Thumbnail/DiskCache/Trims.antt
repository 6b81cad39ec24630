-- ===== src/Thumbnail/DiskCache/Trims.antt =====
-- `trim` of src/thumbnail/src/thumbnail_disk_cache.cpp: what it keeps.
use pimio.Thumbnail.DiskCache.{
  CacheFile, ThumbnailDiskCache, size_bytes, total_of, total_size_bytes, insert_by_age, by_age,
  remove_oldest, trim,
}
use pimio.Base.{
  ℕ, zero, suc, ◌+◌, ◌-◌, ◌≤◌, ◌<◌, ◌≡◌, refl, subst, ◌⊎◌, inl, inr, Bool, true, List, [], ◌∷◌, ltb,
  leb, pos, drop, arith, All, count, Bool-cases, if_cases,
}

-- No file is older than one before it.
abbrev pub IsByAge : List CacheFile → Type 0
IsByAge [] = Unit
IsByAge (f ∷ rest) = All (λ (g : CacheFile). f.last_modified ≤ g.last_modified) rest × IsByAge rest

total-insert :
    (f : CacheFile) (files : List CacheFile)
    → total_of (insert_by_age f files) ≡ total_of (f ∷ files)
unfolding insert_by_age total_of
total-insert f [] = refl
total-insert f (g ∷ files) = ground (arith, total-insert f files)

total-by_age : (files : List CacheFile) → total_of (by_age files) ≡ total_of files
unfolding by_age total_of
total-by_age [] = refl
total-by_age (f ∷ files) = omega (arith, total-insert f (by_age files), total-by_age files)

All-insert :
    (n : ℕ) (f : CacheFile) (files : List CacheFile)
    → n ≤ f.last_modified
    → All (λ (g : CacheFile). n ≤ g.last_modified) files
    → All (λ (g : CacheFile). n ≤ g.last_modified) (insert_by_age f files)
unfolding insert_by_age
All-insert n f [] h a = (h, tt)
All-insert n f (g ∷ files) h a =
    if_cases (All (λ (k : CacheFile). n ≤ k.last_modified)) (ltb g.last_modified f.last_modified) _
      _ (λ _. (a.0, All-insert n f files h a.1)) (λ _. (h, a))

All-older :
    (m n : ℕ) (files : List CacheFile)
    → m ≤ n
    → All (λ (g : CacheFile). n ≤ g.last_modified) files
    → All (λ (g : CacheFile). m ≤ g.last_modified) files
All-older m n [] h a = tt
All-older m n (g ∷ files) h a = (omega (arith, a.0), All-older m n files h a.1)

insert_by_age-IsByAge :
    (f : CacheFile) (files : List CacheFile) → IsByAge files → IsByAge (insert_by_age f files)
unfolding insert_by_age
insert_by_age-IsByAge f [] h = (tt, tt)
insert_by_age-IsByAge f (g ∷ files) h =
    if_cases IsByAge (ltb g.last_modified f.last_modified) _ _
      (λ e. (
        All-insert g.last_modified f files (ground (arith, e)) h.0,
        insert_by_age-IsByAge f files h.1,
      ))
      (λ e.
        let older : f.last_modified ≤ g.last_modified = ground (arith, e) in
        ((older, All-older f.last_modified g.last_modified files older h.0), h))

by_age-IsByAge : (files : List CacheFile) → IsByAge (by_age files)
unfolding by_age
by_age-IsByAge [] = tt
by_age-IsByAge (f ∷ files) = insert_by_age-IsByAge f (by_age files) (by_age-IsByAge files)

count-insert :
    (p : CacheFile → Bool) (f : CacheFile) (files : List CacheFile)
    → count p (insert_by_age f files) ≡ count p (f ∷ files)
unfolding insert_by_age
count-insert p f [] = refl
count-insert p f (g ∷ files) = ground (arith, count-insert p f files)

count-by_age :
    (p : CacheFile → Bool) (files : List CacheFile) → count p (by_age files) ≡ count p files
unfolding by_age
count-by_age p [] = refl
count-by_age p (f ∷ files) = ground (arith, count-insert p f (by_age files), count-by_age p files)

-- A cut of a list of files by age, at which the rest fits, and no earlier one does.
pub record Cuts (max : ℕ) (files kept : List CacheFile) : Type 0 where
  pub removed : ℕ
  pub rest : kept ≡ drop removed files
  pub fits : total_of kept ≤ max
  pub least : (removed ≡ 0) ⊎ (max < total_of (drop (removed - 1) files))

cut_later :
    (max : ℕ) (f : CacheFile) (files kept : List CacheFile)
    → max < total_of (f ∷ files)
    → Cuts max files kept
    → Cuts max (f ∷ files) kept
cut_later max f files kept over c = record {
  removed = suc c.removed;
  rest = c.rest;
  fits = c.fits;
  least = inr (go c.removed c.least);
}
  where
    go :
        (k : ℕ)
        → (k ≡ 0) ⊎ (max < total_of (drop (k - 1) files))
        → max < total_of (drop (suc k - 1) (f ∷ files))
    go zero h =
        let none_ : 0 ≡ suc zero - 1 = omega arith in
        subst (λ j. max < total_of (drop j (f ∷ files))) none_ over
    go (suc j) (inl e) = absurd (omega arith)
    go (suc j) (inr more) =
        let same : suc j - 1 ≡ j = omega arith in
        let next : suc j ≡ suc (suc j) - 1 = omega arith in
        subst (λ i. max < total_of (drop i (f ∷ files))) next
          (subst (λ i. max < total_of (drop i files)) same more)

remove_oldest-Cuts :
    (max : ℕ) (files : List CacheFile)
    → Cuts max files (remove_oldest (λ f. true) max (total_of files) files)
unfolding remove_oldest total_of
remove_oldest-Cuts max [] = record {
  removed = 0;
  rest = refl;
  fits = omega arith;
  least = inl refl;
}
remove_oldest-Cuts max (f ∷ files) =
    if_cases (Cuts max (f ∷ files)) (leb (total_of (f ∷ files)) max) _ _
      (λ e. record { removed = 0; rest = refl; fits = ground (arith, e); least = inl refl })
      (λ e.
        let same : size_bytes f + total_of files - size_bytes f ≡ total_of files = omega arith in
        rw same (cut_later max f files _ (ground (arith, e)) (remove_oldest-Cuts max files)))

-- Where every file can be removed, `trim` to a limit that is not negative leaves the files alone if
-- they fit; otherwise it removes the oldest ones, as few as will do: the kept files are a tail of the
-- same files by age, they fit, and with the last removed one they would not.
pub trim-Cuts :
    (max : ℕ) (c : ThumbnailDiskCache)
    → c.max_size_bytes ≡ pos max
    → let kept = (trim (λ f. true) c).files in
      ((total_size_bytes c ≤ max) × (kept ≡ c.files))
      ⊎ (Cuts max (by_age c.files) kept
          × IsByAge (by_age c.files)
          × ((p : CacheFile → Bool) → count p (by_age c.files) ≡ count p c.files))
unfolding trim total_size_bytes
trim-Cuts max c e = rw e (elim (Bool-cases (leb (total_of c.files) max)) [
  | inl fits ↦ inl (ground (arith, fits), rw fits refl)
  | inr over ↦
      let cut : Cuts max (by_age c.files)
          (remove_oldest (λ f. true) max (total_of c.files) (by_age c.files)) =
        subst (λ n. Cuts max (by_age c.files) (remove_oldest (λ f. true) max n (by_age c.files)))
          (total-by_age c.files) (remove_oldest-Cuts max (by_age c.files)) in
      inr (rw over cut, by_age-IsByAge c.files, λ p. count-by_age p c.files)
])
