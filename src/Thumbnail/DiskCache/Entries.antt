-- ===== src/Thumbnail/DiskCache/Entries.antt =====
-- The entries of src/thumbnail/src/thumbnail_disk_cache.cpp: what is stored is loaded.
use pimio.Thumbnail.DiskCache.{
  CacheFile, ThumbnailDiskCache, find_file, contains, load, store, is_below, invalidate,
}
use pimio.Base.{
  ℕ, ◌<◌, ◌≡◌, refl, sym, ap, ◌∙◌, inl, inr, Bool, true, false, not, none, some, List, [], ◌∷◌, ltb,
  Text, text_eq, text_eq_refl, text_eq→≡, filter, length, arith, Bool-cases, subst, true≢false,
}

find_other :
    (key other : Text) (files : List CacheFile)
    → text_eq key other ≡ false
    → find_file other (filter (λ (f : CacheFile). not (text_eq f.path key)) files)
      ≡ find_file other files
unfolding find_file
find_other key other [] h = refl
find_other key other (f ∷ files) h = elim (Bool-cases (text_eq f.path key)) [
  | inl e ↦
      let out = subst (λ (k : Text). text_eq k other ≡ false) (sym (text_eq→≡ f.path key e)) h in
      rw (e, out) (find_other key other files h)
  | inr e ↦ rw e (ground (arith, find_other key other files h))
]

-- Bytes that are stored, if there are any and the file system writes them, are loaded again under
-- their key and under no other: what every other key gives is as it was.
pub load-store :
    (now : ℕ) (key other : Text) (bytes : List ℕ) (c : ThumbnailDiskCache)
    → 0 < length bytes
    → text_eq key other ≡ false
    → let (d, stored) = store true now key bytes c in
      (stored ≡ true)
      × (contains key d ≡ true)
      × (load true key d ≡ some bytes)
      × (load true other d ≡ load true other c)
unfolding store contains load
load-store now key other bytes c some_ h =
    let full : ltb 0 (length bytes) ≡ true = ground (arith, some_) in
    rw (full, text_eq_refl key, h, find_other key other c.files h, full) (refl, refl, refl, refl)

find_below :
    (dir key : Text) (files : List CacheFile)
    → is_below dir key ≡ true
    → find_file key (filter (λ (f : CacheFile). not (is_below dir f.path)) files) ≡ none
unfolding find_file
find_below dir key [] h = refl
find_below dir key (f ∷ files) h = elim (Bool-cases (is_below dir f.path)) [
  | inl e ↦ rw e (find_below dir key files h)
  | inr e ↦ rw e (elim (Bool-cases (text_eq f.path key)) [
    | inl same ↦
        absurd (true≢false (sym h ∙ sym (ap (is_below dir) (text_eq→≡ f.path key same)) ∙ e))
    | inr differs ↦ rw differs (find_below dir key files h)
  ])
]

-- After `invalidate` of a valid fingerprint, no key below its directory is there.
pub load-invalidate :
    (dir key : Text) (opens : Bool) (c : ThumbnailDiskCache)
    → is_below dir key ≡ true
    → (load opens key (invalidate true dir c) ≡ none)
      × (contains key (invalidate true dir c) ≡ false)
unfolding load contains invalidate
load-invalidate dir key opens c h =
    let gone = find_below dir key c.files h in (rw gone refl, rw gone refl)
