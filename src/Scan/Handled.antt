-- ===== src/Scan/Handled.antt =====
-- src/scan/src/scanner.cpp: the files that a scan counts, and its sets.
use pimio.Core.Error.{is_error}
use pimio.Store.{MediaRecord, is_managed, looks_unchanged_from}
use pimio.Scan.Files.{DirectoryEntry, path_key}
use pimio.Scan.Index.{Environment, ScanResult, Known, fingerprint_file, value_at, is_member, insert}
use pimio.Scan.Steps.{is_indexable_media, count_updated, count_added}
use pimio.Base.{
  ℕ, ◌+◌, ◌≡◌, refl, Bool, true, false, ◌&&◌, ◌||◌, not, ap, ◌∙◌, ◌≤◌, text_eq, text_eq→≡, List, [],
  ◌∷◌, length, Text, if_cases, if◌then◌else◌, Bool-cases, inl, inr, arith,
}

-- The files that a result counts.
abbrev pub handled : ScanResult → ℕ
handled c = c.added + c.updated + c.unchanged

pub updated-handled : (c : ScanResult) → handled (count_updated c) ≡ handled c + 1
updated-handled c = omega arith

pub added-handled : (c : ScanResult) → handled (count_added c) ≡ handled c + 1
added-handled c = omega arith

pub insert-member :
    (k x : Text) (xs : List Text) → is_member k (insert x xs) ≡ (text_eq k x || is_member k xs)
unfolding insert
insert-member k x xs =
    if_cases (λ (l : List Text). is_member k l ≡ (text_eq k x || is_member k xs)) (is_member x xs) _
      _
      (λ member. elim (Bool-cases (text_eq k x)) [
        | inl same ↦ ap (λ (y : Text). is_member y xs) (text_eq→≡ k x same) ∙ rw (member, same) refl
        | inr other ↦ rw other refl
      ])
      (λ _. joined (text_eq k x) _)
  where
    joined : (p q : Bool) → (if p then true else q) ≡ (p || q)
    joined p q = ground arith

pub length-insert : (x : Text) (xs : List Text) → length (insert x xs) ≤ length xs + 1
unfolding insert
length-insert x xs = ground arith

-- The known record of a file has not changed, so that its content is not read.
abbrev pub is_settled : DirectoryEntry → List MediaRecord → Bool
is_settled entry [] = false
is_settled entry (existing ∷ others) =
    looks_unchanged_from entry.identity existing.identity && is_managed existing.original_storage

module _ (v : Environment) where
  abbrev pub key_of : DirectoryEntry → Text
  key_of entry = path_key v.paths entry.absolute_path

  abbrev pub fails_at : List MediaRecord → DirectoryEntry → Bool
  fails_at rs entry =
      not (is_settled entry rs) && is_error (fingerprint_file v entry.absolute_path).1

  -- A media file whose content is to be read and cannot be.
  abbrev pub is_unreadable : Known → DirectoryEntry → Bool
  is_unreadable known entry =
      is_indexable_media v entry.absolute_path
      && fails_at (value_at (key_of entry) known.by_path) entry

  abbrev pub is_handled : Known → DirectoryEntry → Bool
  is_handled known entry =
      is_indexable_media v entry.absolute_path && not (is_unreadable known entry)
