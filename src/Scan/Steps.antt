-- ===== src/Scan/Steps.antt =====
-- src/scan/src/scanner.cpp: the reconciliation of one file. A step returns the state and, if the scan
-- returns there, its error.
use pimio.Core.Error.{Error, no_error, is_error}
use pimio.Store.{
  DurableStore, MediaRecord, MediaMetadata, ContentFingerprint, MediaKind, unknown, image, video,
  referenced, managed, is_managed, is_valid, looks_unchanged_from,
}
use pimio.Scan.Files.{DirectoryEntry, path_key, kind_from_extension, managed_original_path}
use pimio.Base.{
  ℕ, ◌+◌, Bool, true, false, not, ◌&&◌, ◌||◌, Option, none, some, List, [], ◌∷◌, ◌++◌, length, leb,
  if◌then◌else◌, Text, codes, text_eq, negsuc,
}
use pimio.Scan.Index.{
  ScanResult, Environment, fingerprint_file, with_context, Index, value_at, ScanState, is_member,
  insert,
}

-- The metadata of a file, if the reader has it, and the warnings.
unfoldable pub refresh : Environment → Text → MediaMetadata → MediaMetadata × List Error
refresh v path metadata =
    if not (v.has_reader && v.supports path)
    then (metadata, [])
    else let (outcome, meta_error) = v.read path in
      elim outcome [
        | some (found, warnings) ↦ (found, warnings)
        | none ↦ (
          metadata,
          if is_error meta_error then with_context (v.path_context path) meta_error ∷ [] else [],
        )
      ]

unfoldable pub named : Environment → Text → MediaMetadata → MediaMetadata
named v path metadata = record metadata {
  file_name = v.paths.base_name path;
  folder_path = v.paths.folder path;
}

abbrev pub is_known_kind : MediaKind → Bool
is_known_kind unknown = false
is_known_kind image = true
is_known_kind video = true

unfoldable pub is_indexable_media : Environment → Text → Bool
unfolding kind_from_extension
is_indexable_media v path =
    is_known_kind (kind_from_extension v.paths (v.paths.base_name path))
    || (v.has_reader && v.supports path)

-- The record of a known file whose content is read again.
unfoldable pub renewed :
    Environment → DirectoryEntry → ContentFingerprint → MediaRecord → MediaRecord
unfolding refresh named
renewed v entry fp existing = record existing {
  identity = entry.identity;
  fingerprint = fp;
  original_storage = managed;
  managed_original_path =
      managed_original_path v.paths existing.id fp (v.paths.base_name entry.absolute_path);
  metadata = named v entry.absolute_path (refresh v entry.absolute_path existing.metadata).0;
}

-- The record that moved to a new path: the first of the same content whose own path is gone and that
-- no other file has taken.
unfoldable pub find_moved :
    Environment → List Text → List Text → List MediaRecord → Option MediaRecord
unfolding path_key
find_moved v found_paths seen_ids [] = none
find_moved v found_paths seen_ids (candidate ∷ candidates) =
    if not (is_member (path_key v.paths candidate.identity.absolute_path) found_paths)
      && not (is_member candidate.id seen_ids)
    then some candidate
    else find_moved v found_paths seen_ids candidates

abbrev pub fresh : Environment → Text → Text → MediaRecord
fresh v id path = record {
  id = id;
  fingerprint = record { algorithm = []; digest = [] };
  identity = record {
    absolute_path = [];
    volume_id = [];
    file_id = [];
    size_bytes = negsuc 0;
    last_modified = none;
  };
  original_storage = referenced;
  managed_original_path = [];
  metadata = record {
    kind = kind_from_extension v.paths (v.paths.base_name path);
    file_name = [];
    folder_path = [];
    details = [];
  };
  edits = [];
}

abbrev pub count_updated : ScanResult → ScanResult
count_updated c = record c { updated = c.updated + 1 }

abbrev pub count_added : ScanResult → ScanResult
count_added c = record c { added = c.added + 1 }

module _ (D : DurableStore) (v : Environment) (root : Text) (batch_size : ℕ) where
  unfoldable pub commit_batch : ScanState D → ScanState D × Error
  commit_batch s =
      if not (DurableStore.has_staged_changes D s.store)
      then (record s { pending_batch = [] }, no_error)
      else let (store, failure) = DurableStore.commit D (codes "Scan: " ++ root) s.store in
        elim failure [
          | some e ↦ (record s { store = store }, e)
          | none ↦ (
            record s {
              store = store;
              pending_batch = [];
              reported =
                  if v.reports && leb 1 (length s.pending_batch)
                  then s.reported ++ (s.pending_batch, s.result) ∷ []
                  else s.reported;
            },
            no_error,
          )
        ]

  unfoldable pub commit_batch_if_full : ScanState D → ScanState D × Error
  unfolding commit_batch
  commit_batch_if_full s =
      if leb batch_size 0 || not (leb batch_size (length s.pending_batch))
      then (s, no_error)
      else commit_batch s

  -- `if (batchError.isError()) return batchError;`
  abbrev pub stop_on_error : ScanState D × Error → ScanState D × Option Error
  stop_on_error (s, e) = (s, if is_error e then some e else none)

  unfoldable pub warn_unreadable : Text → Error → ScanState D → ScanState D
  unfolding path_key insert
  warn_unreadable path hash_error s = record s {
    failed_paths = insert (path_key v.paths path) s.failed_paths;
    result = record s.result {
      warnings = s.result.warnings ++ with_context (v.path_context path) hash_error ∷ [];
    };
  }

  -- What follows once a record is staged: `moved_on` counts it.
  unfoldable pub after_staging :
      MediaRecord → (ScanResult → ScanResult) → ScanState D → ScanState D × Option Error
  unfolding commit_batch_if_full insert
  after_staging r moved_on s = stop_on_error (
      commit_batch_if_full (record s {
        seen_ids = insert r.id s.seen_ids;
        result = moved_on s.result;
        pending_batch = s.pending_batch ++ r ∷ [];
      }))

  unfoldable pub stage_record :
      Bool
      → MediaRecord
      → Text
      → (ScanResult → ScanResult)
      → ScanState D
      → ScanState D × Option Error
  unfolding after_staging
  stage_record with_original r path moved_on s =
      let (store, failure) =
        if with_original
        then DurableStore.stage_original D r path s.store
        else DurableStore.stage D r s.store in
      elim failure [
        | some e ↦ (record s { store = store }, some e)
        | none ↦ after_staging r moved_on (record s { store = store })
      ]

  abbrev pub add_warnings : List Error → ScanState D → ScanState D
  add_warnings ws s = record s { result = record s.result { warnings = s.result.warnings ++ ws } }

  unfoldable pub update_known :
      DirectoryEntry → ContentFingerprint → MediaRecord → ScanState D → ScanState D × Option Error
  unfolding stage_record renewed refresh
  update_known entry fp existing s =
      let path = entry.absolute_path in
      let r = renewed v entry fp existing in
      stage_record (not (text_eq existing.managed_original_path r.managed_original_path)) r path
        count_updated (add_warnings (refresh v path existing.metadata).1 s)

  unfoldable pub reconcile_known :
      DirectoryEntry → MediaRecord → ScanState D → ScanState D × Option Error
  unfolding looks_unchanged_from fingerprint_file warn_unreadable update_known insert
  reconcile_known entry existing s =
      if looks_unchanged_from entry.identity existing.identity
        && is_managed existing.original_storage
      then (
        record s {
          seen_ids = insert existing.id s.seen_ids;
          result = record s.result { unchanged = s.result.unchanged + 1 };
        },
        none,
      )
      else let (fp, hash_error) = fingerprint_file v entry.absolute_path in
        if is_error hash_error
        then (warn_unreadable entry.absolute_path hash_error s, none)
        else update_known entry fp existing s

  -- A file at a new path: a record that moved there, or a new one.
  unfoldable pub place_new :
      DirectoryEntry
      → ContentFingerprint
      → Option MediaRecord
      → ScanState D
      → ScanState D × Option Error
  unfolding stage_record renewed refresh named
  place_new entry fp (some moved) s =
      let path = entry.absolute_path in
      let r = renewed v entry fp moved in
      let kept =
        is_managed moved.original_storage
        && text_eq moved.managed_original_path r.managed_original_path in
      stage_record (not kept) r path count_updated
        (add_warnings (refresh v path (named v path moved.metadata)).1 s)
  place_new entry fp none s =
      let path = entry.absolute_path in
      let added = fresh v (v.generate s.generated) path in
      stage_record true (renewed v entry fp added) path count_added (
        add_warnings (refresh v path (named v path added.metadata)).1
          (record s { generated = s.generated + 1 }))

  unfoldable pub reconcile_new :
      List Text → Index → DirectoryEntry → ScanState D → ScanState D × Option Error
  unfolding fingerprint_file warn_unreadable find_moved place_new
  reconcile_new found_paths by_digest entry s =
      let (fp, hash_error) = fingerprint_file v entry.absolute_path in
      if is_error hash_error
      then (warn_unreadable entry.absolute_path hash_error s, none)
      else let candidates = if is_valid fp then value_at fp.digest by_digest else [] in
        place_new entry fp (find_moved v found_paths s.seen_ids candidates) s
