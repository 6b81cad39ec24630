-- ===== src/Thumbnail/DiskCache.antt =====
-- src/thumbnail/src/thumbnail_disk_cache.cpp: rendered thumbnails as files under a root directory. The
-- files are listed in no particular order, each with its path below the root, its bytes and the time
-- at which it was last modified; directories are not kept. The path separator is '/', so that a key is
-- its path. Whether the file system lets a file be opened, written or removed is an argument. Files of
-- the same time are sorted in the order of the list, which std::sort does not promise.
pub mod Trims
pub mod Entries
use pimio.Base.{
  ℕ, ◌+◌, ◌-◌, Bool, true, false, Option, none, some, not, ◌&&◌, List, [], ◌∷◌, ◌++◌, ltb, leb,
  if◌then◌else◌, Text, codes, text_eq, filter, length, take, ℤ, pos, negsuc,
}

pub record CacheFile : Type 0 where
  pub path : Text
  pub bytes : List ℕ
  pub last_modified : ℕ

-- `max_size_bytes` is negative for a cache without a limit.
pub record ThumbnailDiskCache : Type 0 where
  pub max_size_bytes : ℤ
  pub files : List CacheFile

abbrev pub size_bytes : CacheFile → ℕ
size_bytes f = length f.bytes

unfoldable pub find_file : Text → List CacheFile → Option CacheFile
find_file key [] = none
find_file key (f ∷ rest) = if text_eq f.path key then some f else find_file key rest

abbrev pub is_cached : Option CacheFile → Bool
is_cached none = false
is_cached (some f) = ltb 0 (size_bytes f)

unfoldable pub contains : Text → ThumbnailDiskCache → Bool
unfolding find_file
contains key c = is_cached (find_file key c.files)

abbrev pub read_file : Bool → Option CacheFile → Option (List ℕ)
read_file opens none = none
read_file opens (some f) = if opens && ltb 0 (size_bytes f) then some f.bytes else none

unfoldable pub load : Bool → Text → ThumbnailDiskCache → Option (List ℕ)
unfolding find_file
load opens key c = read_file opens (find_file key c.files)

-- `writes` is whether the directories can be made and the file opened and committed.
unfoldable pub store : Bool → ℕ → Text → List ℕ → ThumbnailDiskCache → ThumbnailDiskCache × Bool
store writes now key bytes c =
    if not (ltb 0 (length bytes)) then (c, false) else if not writes then (c, false) else (
      record c {
        files =
            record { path = key; bytes = bytes; last_modified = now }
            ∷ filter (λ (f : CacheFile). not (text_eq f.path key)) c.files;
      },
      true,
    )

-- Below a directory.
abbrev pub is_below : Text → Text → Bool
is_below dir path = text_eq (take (length (dir ++ codes "/")) path) (dir ++ codes "/")

-- `valid` and `dir` are what the fingerprint answers to isValid and cacheKey.
unfoldable pub invalidate : Bool → Text → ThumbnailDiskCache → ThumbnailDiskCache
invalidate valid dir c =
    if not valid
    then c
    else record c { files = filter (λ (f : CacheFile). not (is_below dir f.path)) c.files }

unfoldable pub total_of : List CacheFile → ℕ
total_of [] = 0
total_of (f ∷ rest) = size_bytes f + total_of rest

unfoldable pub total_size_bytes : ThumbnailDiskCache → ℕ
unfolding total_of
total_size_bytes c = total_of c.files

-- Oldest first.
pub insert_by_age : CacheFile → List CacheFile → List CacheFile
insert_by_age f [] = f ∷ []
insert_by_age f (g ∷ rest) =
    if ltb g.last_modified f.last_modified then g ∷ insert_by_age f rest else f ∷ g ∷ rest

pub by_age : List CacheFile → List CacheFile
unfolding insert_by_age
by_age [] = []
by_age (f ∷ rest) = insert_by_age f (by_age rest)

-- The loop of `trim`.
pub remove_oldest : (CacheFile → Bool) → ℕ → ℕ → List CacheFile → List CacheFile
remove_oldest removes max total [] = []
remove_oldest removes max total (f ∷ rest) =
    let without = remove_oldest removes max (total - size_bytes f) rest in
    let kept = remove_oldest removes max total rest in
    if leb total max then f ∷ rest else if removes f then without else f ∷ kept

abbrev pub trim_to : (CacheFile → Bool) → ℤ → List CacheFile → List CacheFile
trim_to removes (negsuc n) files = files
trim_to removes (pos max) files =
    if leb (total_of files) max
    then files
    else remove_oldest removes max (total_of files) (by_age files)

unfoldable pub trim : (CacheFile → Bool) → ThumbnailDiskCache → ThumbnailDiskCache
unfolding total_of by_age remove_oldest
trim removes c = record c { files = trim_to removes c.max_size_bytes c.files }
