-- ===== src/Thumbnail/Tests.antt =====
-- The disk cache of src/thumbnail on three files.
use pimio.Thumbnail.DiskCache.{CacheFile, ThumbnailDiskCache, total_size_bytes, by_age, trim}
use pimio.Thumbnail.DiskCache.Trims.{Cuts, IsByAge, trim-Cuts}
use pimio.Base.{ℕ, ◌≤◌, ◌≡◌, ◌⊎◌, refl, Bool, true, List, [], ◌∷◌, Text, codes, count, pos}

abbrev file : Text → List ℕ → ℕ → CacheFile
file path bytes time = record { path = path; bytes = bytes; last_modified = time }

abbrev cache : ThumbnailDiskCache
cache = record {
  max_size_bytes = pos 3;
  files =
      file (codes "x/1") (1 ∷ 2 ∷ []) 30
      ∷ file (codes "y/1") (3 ∷ 4 ∷ []) 10
      ∷ file (codes "x/2") (5 ∷ []) 20
      ∷ [];
}

trim-Cuts_example :
    let kept = (trim (λ f. true) cache).files in
    ((total_size_bytes cache ≤ 3) × (kept ≡ cache.files))
    ⊎ (Cuts 3 (by_age cache.files) kept
        × IsByAge (by_age cache.files)
        × ((p : CacheFile → Bool) → count p (by_age cache.files) ≡ count p cache.files))
trim-Cuts_example = trim-Cuts 3 cache refl
