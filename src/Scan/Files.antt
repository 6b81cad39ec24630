-- ===== src/Scan/Files.antt =====
-- src/scan/src/scanner.cpp, its helpers: what a path, a file name and a directory tree say.
use pimio.Core.Error.{Error, is_error}
use pimio.Store.{FileIdentity, ContentFingerprint, MediaKind, unknown, image, video}
use pimio.Base.{
  ℕ, zero, suc, Bool, true, false, not, ◌&&◌, Option, none, some, List, [], ◌∷◌, ◌++◌, any, ◌==◌,
  if◌then◌else◌, Text, codes, is_empty, text_eq, text_lt,
}

pub record DirectoryEntry : Type 0 where
  pub absolute_path : Text
  pub file_name : Text
  pub is_directory : Bool
  pub is_symbolic_link : Bool
  pub identity : FileIdentity

-- What Qt computes from a path: `clean_path` is QDir::cleanPath after QDir::fromNativeSeparators,
-- `case_folded` is toCaseFolded on Windows and does nothing elsewhere, `suffix` is the file name's
-- suffix in lower case, `folder` its absolute directory, and `sha256` the digest of a text in
-- hexadecimal digits.
pub record Paths : Type 0 where
  pub clean_path : Text → Text
  pub case_folded : Text → Text
  pub suffix : Text → Text
  pub base_name : Text → Text
  pub folder : Text → Text
  pub sha256 : Text → Text

unfoldable pub path_key : Paths → Text → Text
path_key q path = q.case_folded (q.clean_path path)

abbrev pub left : ℕ → Text → Text
left zero s = []
left (suc n) [] = []
left (suc n) (c ∷ s) = c ∷ left n s

unfoldable pub managed_original_path : Paths → Text → ContentFingerprint → Text → Text
managed_original_path q id fingerprint file_name =
    let suffix = q.suffix file_name in
    let extension = if is_empty suffix then [] else b'.' ∷ suffix in
    let encoded_id = q.sha256 id in
    codes "originals/"
    ++ (left 2 encoded_id
        ++ (b'/' ∷ (encoded_id ++ (b'/' ∷ (q.sha256 fingerprint.digest ++ extension)))))

abbrev pub ends_with : Text → ℕ → Bool
ends_with [] c = false
ends_with (x ∷ []) c = x == c
ends_with (x ∷ y ∷ s) c = ends_with (y ∷ s) c

abbrev pub starts_with : Text → Text → Bool
starts_with s [] = true
starts_with [] (p ∷ ps) = false
starts_with (x ∷ s) (p ∷ ps) = x == p && starts_with s ps

unfoldable pub is_within_root : Paths → Text → Text → Bool
unfolding path_key
is_within_root q path root =
    let value = path_key q path in
    let root_value = path_key q root in
    if text_eq value root_value
    then true
    else starts_with value
        (if ends_with root_value b'/' then root_value else root_value ++ b'/' ∷ [])

abbrev pub image_exts : List Text
image_exts =
    codes "jpg"
    ∷ codes "jpeg"
    ∷ codes "png"
    ∷ codes "tiff"
    ∷ codes "tif"
    ∷ codes "bmp"
    ∷ codes "gif"
    ∷ codes "webp"
    ∷ codes "heic"
    ∷ codes "heif"
    ∷ codes "avif"
    ∷ codes "cr2"
    ∷ codes "cr3"
    ∷ codes "nef"
    ∷ codes "arw"
    ∷ codes "raf"
    ∷ codes "dng"
    ∷ codes "orf"
    ∷ codes "rw2"
    ∷ codes "pef"
    ∷ []

abbrev pub video_exts : List Text
video_exts =
    codes "mp4"
    ∷ codes "mov"
    ∷ codes "avi"
    ∷ codes "mkv"
    ∷ codes "m4v"
    ∷ codes "wmv"
    ∷ codes "flv"
    ∷ codes "webm"
    ∷ codes "3gp"
    ∷ codes "mts"
    ∷ codes "m2ts"
    ∷ []

unfoldable pub kind_from_extension : Paths → Text → MediaKind
kind_from_extension q file_name =
    let ext = q.suffix file_name in
    if any (text_eq ext) image_exts
    then image
    else if any (text_eq ext) video_exts
    then video
    else unknown

-- `std::sort` by the file name; entries of one directory have different names.
unfoldable pub insert_sorted : DirectoryEntry → List DirectoryEntry → List DirectoryEntry
insert_sorted e [] = e ∷ []
insert_sorted e (x ∷ xs) =
    if text_lt x.file_name e.file_name then x ∷ insert_sorted e xs else e ∷ x ∷ xs

unfoldable pub sort_entries : List DirectoryEntry → List DirectoryEntry
unfolding insert_sorted
sort_entries [] = []
sort_entries (e ∷ es) = insert_sorted e (sort_entries es)

-- The directories below one, to a depth of `fuel`; nothing if they are deeper. `list_directory`
-- returns the entries with an error, which is none on success.
module _ (list_directory : Text → List DirectoryEntry × Error) (follow_symlinks : Bool) where
  unfoldable pub collect_one :
      (Text → List DirectoryEntry → Option (List DirectoryEntry))
      → DirectoryEntry
      → List DirectoryEntry
      → Option (List DirectoryEntry)
  collect_one collect entry result =
      if entry.is_symbolic_link && not follow_symlinks
      then some result
      else if entry.is_directory
      then collect entry.absolute_path result
      else some (result ++ entry ∷ [])

  unfoldable pub collect_each :
      (Text → List DirectoryEntry → Option (List DirectoryEntry))
      → List DirectoryEntry
      → List DirectoryEntry
      → Option (List DirectoryEntry)
  unfolding collect_one
  collect_each collect [] result = some result
  collect_each collect (entry ∷ entries) result = elim (collect_one collect entry result) [
    | none ↦ none
    | some found ↦ collect_each collect entries found
  ]

  unfoldable pub collect_entries : ℕ → Text → List DirectoryEntry → Option (List DirectoryEntry)
  unfolding collect_each
  collect_entries zero dir_path result = none
  collect_entries (suc fuel) dir_path result =
      let (entries, list_error) = list_directory dir_path in
      elim (is_error list_error) [
        | true ↦ some result
        | false ↦ collect_each (collect_entries fuel) (sort_entries entries) result
      ]
