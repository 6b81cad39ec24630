-- ===== src/Scan/Run.antt =====
-- src/scan/src/scanner.cpp, Scanner::scan: the loop over the found files, the removal of duplicates
-- and the last commit.
use pimio.Watch.Service.{LibraryRoot}
use pimio.Core.Error.{Error, is_error, not_found, cancelled}
use pimio.Store.{DurableStore, MediaRecord}
use pimio.Scan.Files.{DirectoryEntry, path_key, collect_entries}
use pimio.Base.{ℕ, ◌+◌, not, ◌||◌, Option, none, some, List, [], ◌∷◌, if◌then◌else◌, Text, codes}
use pimio.Scan.Index.{Environment, Index, value_at, Known, load_known, ScanState, is_member}
use pimio.Scan.Steps.{is_indexable_media, reconcile_known, reconcile_new, commit_batch}

-- The texts of the messages are not kept.
abbrev pub cancelled_error : Error
cancelled_error = record { code = cancelled; message = []; context = codes "{}" }

abbrev pub missing_root : Error
missing_root = record { code = not_found; message = []; context = codes "{}" }

-- The keys of all found paths.
unfoldable pub found_keys : Environment → List DirectoryEntry → List Text
unfolding path_key
found_keys v [] = []
found_keys v (entry ∷ entries) = path_key v.paths entry.absolute_path ∷ found_keys v entries

-- What follows a step, unless the scan returns there.
unfoldable pub and_then :
    {D : DurableStore}
    → ScanState D × Option Error
    → (ScanState D → ScanState D × Option Error)
    → ScanState D × Option Error
and_then (s, some e) rest = (s, some e)
and_then (s, none) rest = rest s

module _ (D : DurableStore) (v : Environment) (root : Text) (batch_size : ℕ) where
  -- The flag is read; if it is set, what is staged is discarded and the scan returns.
  unfoldable pub unless_cancelled :
      (ScanState D → ScanState D × Option Error) → ScanState D → ScanState D × Option Error
  unless_cancelled step s =
      if v.is_cancelled s.readings
      then (
        record s { store = DurableStore.discard_staged D s.store; readings = s.readings + 1 },
        some cancelled_error,
      )
      else step (record s { readings = s.readings + 1 })

  unfoldable pub reconcile :
      List Text → Known → DirectoryEntry → ScanState D → ScanState D × Option Error
  unfolding is_indexable_media path_key value_at reconcile_known reconcile_new
  reconcile found_paths known entry s =
      if not (is_indexable_media v entry.absolute_path)
      then (s, none)
      else elim (value_at (path_key v.paths entry.absolute_path) known.by_path) [
        | [] ↦ reconcile_new D v root batch_size found_paths known.by_digest entry s
        | existing ∷ others ↦ reconcile_known D v root batch_size entry existing s
      ]

  unfoldable pub scan_entries :
      List Text → Known → List DirectoryEntry → ScanState D → ScanState D × Option Error
  scan_entries found_paths known [] s = (s, none)
  scan_entries found_paths known (entry ∷ entries) s =
      and_then (unless_cancelled (reconcile found_paths known entry) s)
        (scan_entries found_paths known entries)

  unfoldable pub remove_duplicate :
      List Text → Text → MediaRecord → ScanState D → ScanState D × Option Error
  remove_duplicate found_paths key r s =
      if is_member r.id s.seen_ids
        || not (is_member key found_paths)
        || is_member key s.failed_paths
      then (s, none)
      else let (store, failure) = DurableStore.remove D r.id s.store in
        elim failure [
          | some e ↦ (record s { store = store }, some e)
          | none ↦ (
            record s { store = store; result = record s.result { removed = s.result.removed + 1 } },
            none,
          )
        ]

  unfoldable pub remove_each :
      List Text → Text → List MediaRecord → ScanState D → ScanState D × Option Error
  remove_each found_paths key [] s = (s, none)
  remove_each found_paths key (r ∷ rs) s =
      and_then (unless_cancelled (remove_duplicate found_paths key r) s)
        (remove_each found_paths key rs)

  unfoldable pub remove_all : List Text → Index → ScanState D → ScanState D × Option Error
  remove_all found_paths [] s = (s, none)
  remove_all found_paths ((key, rs) ∷ index) s =
      and_then (remove_each found_paths key rs s) (remove_all found_paths index)

  unfoldable pub finish_scan : ScanState D × Option Error → ScanState D × Error
  unfolding commit_batch
  finish_scan (s, some e) = (s, e)
  finish_scan (s, none) = commit_batch D v root batch_size s

  unfoldable pub reconcile_all : Known → List DirectoryEntry → ScanState D → ScanState D × Error
  reconcile_all known entries s =
      let found_paths = found_keys v entries in
      finish_scan
        (and_then (scan_entries found_paths known entries s) (remove_all found_paths known.by_path))

abbrev pub scan_state : (D : DurableStore) → DurableStore.State D → ScanState D
scan_state D store = record {
  store = store;
  seen_ids = [];
  failed_paths = [];
  pending_batch = [];
  result = record { added = 0; updated = 0; removed = 0; unchanged = 0; warnings = [] };
  generated = 0;
  readings = 0;
  reported = [];
}

-- `fuel` bounds the depth of the directories; nothing is returned if they are deeper.
module _ (D : DurableStore) (v : Environment) (root : LibraryRoot) (batch_size : ℕ) where
  unfoldable pub scan : ℕ → DurableStore.State D → Option (ScanState D × Error)
  scan fuel store =
      if not (v.exists root.absolute_path) || not (v.is_directory root.absolute_path)
      then some (scan_state D store, missing_root)
      else let (ids, load_error) = DurableStore.list_ids D store in
        if is_error load_error
        then some (scan_state D store, load_error)
        else elim (collect_entries v.list_directory root.follow_symlinks fuel root.absolute_path
            []) [
              | none ↦ none
              | some entries ↦ some (
                  reconcile_all D v root.absolute_path batch_size
                    (load_known v root.absolute_path D store ids
                      (record { by_path = []; by_digest = [] }))
                    entries (scan_state D store))
            ]
