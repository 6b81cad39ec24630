-- ===== src/Scan/Keeps.antt =====
-- src/scan/src/scanner.cpp: what every call of the store that a scan makes keeps, the scan keeps.
use pimio.Core.Error.{Error, is_error}
use pimio.Store.{DurableStore, MediaRecord, ContentFingerprint, is_managed, looks_unchanged_from}
use pimio.Scan.Files.{DirectoryEntry, path_key}
use pimio.Scan.Index.{
  Environment, ScanState, ScanResult, Index, Known, is_member, fingerprint_file, value_at,
}
use pimio.Scan.Steps.{
  commit_batch, commit_batch_if_full, after_staging, stage_record, warn_unreadable, reconcile_known,
  reconcile_new, update_known, place_new, is_indexable_media,
}
use pimio.Scan.Run.{
  unless_cancelled, reconcile, scan_entries, remove_duplicate, remove_each, remove_all,
  reconcile_all, and_then, finish_scan, found_keys,
}
use pimio.Base.{
  ℕ, ◌+◌, ◌≡◌, Bool, true, false, not, ◌&&◌, Option, none, some, List, [], ◌∷◌, ◌++◌, All, Text,
  Bool-cases, inl, inr, if_cases, codes, arith,
}

-- P holds on when a record of the index is removed whose path was found.
abbrev pub Removable :
    (D : DurableStore) → (DurableStore.State D → Type 0) → List Text → Index → Type 0
Removable D P found_paths index =
    All
      (λ (g : Text × List MediaRecord).
        is_member g.0 found_paths ≡ true
        → All
            (λ (r : MediaRecord).
              (s : DurableStore.State D) → P s → P (DurableStore.remove D r.id s).0)
            g.1)
      index

module _ (D : DurableStore) (P : DurableStore.State D → Type 0)
    (stage_keeps : (r : MediaRecord) (s : DurableStore.State D)
      → P s
      → P (DurableStore.stage D r s).0)
    (original_keeps : (r : MediaRecord) (path : Text) (s : DurableStore.State D)
      → P s
      → P (DurableStore.stage_original D r path s).0)
    (commit_keeps : (m : Text) (s : DurableStore.State D) → P s → P (DurableStore.commit D m s).0)
    (discard_keeps : (s : DurableStore.State D) → P s → P (DurableStore.discard_staged D s))
    (v : Environment) (root : Text) (batch_size : ℕ) where
  abbrev Kept : ScanState D × Option Error → Type 0
  Kept z = P z.0.store

  commit_batch-Keeps :
      (s : ScanState D) → P s.store → P (commit_batch D v root batch_size s).0.store
  unfolding commit_batch
  commit_batch-Keeps s h =
      if_cases (λ (z : ScanState D × Error). P z.0.store)
        (not (DurableStore.has_staged_changes D s.store)) _ _ (λ _. h)
        (λ _. ground (arith, commit_keeps (codes "Scan: " ++ root) s.store h))

  if_full-Keeps :
      (s : ScanState D) → P s.store → P (commit_batch_if_full D v root batch_size s).0.store
  unfolding commit_batch_if_full
  if_full-Keeps s h = ground (arith, commit_batch-Keeps s h)

  after_staging-Keeps :
      (r : MediaRecord) (moved_on : ScanResult → ScanResult) (s : ScanState D)
      → P s.store
      → Kept (after_staging D v root batch_size r moved_on s)
  unfolding after_staging
  after_staging-Keeps r moved_on s h = if_full-Keeps _ h

  stage_record-Keeps :
      (with_original : Bool) (r : MediaRecord) (path : Text) (moved_on : ScanResult → ScanResult)
      (s : ScanState D)
      → P s.store
      → Kept (stage_record D v root batch_size with_original r path moved_on s)
  unfolding stage_record
  stage_record-Keeps true r path moved_on s h =
      let kept = original_keeps r path s.store h in
      ground (
        arith,
        kept,
        after_staging-Keeps r moved_on
            (record s { store = (DurableStore.stage_original D r path s.store).0 }) kept,
      )
  stage_record-Keeps false r path moved_on s h =
      let kept = stage_keeps r s.store h in
      ground (
        arith,
        kept,
        after_staging-Keeps r moved_on (record s { store = (DurableStore.stage D r s.store).0 })
            kept,
      )

  update_known-Keeps :
      (entry : DirectoryEntry) (fp : ContentFingerprint) (existing : MediaRecord) (s : ScanState D)
      → P s.store
      → Kept (update_known D v root batch_size entry fp existing s)
  unfolding update_known
  update_known-Keeps entry fp existing s h = search (stage_record-Keeps, h)

  place_new-Keeps :
      (entry : DirectoryEntry) (fp : ContentFingerprint) (moved : Option MediaRecord)
      (s : ScanState D)
      → P s.store
      → Kept (place_new D v root batch_size entry fp moved s)
  unfolding place_new
  place_new-Keeps entry fp (some moved) s h = search (stage_record-Keeps, h)
  place_new-Keeps entry fp none s h = search (stage_record-Keeps, h)

  reconcile_known-Keeps :
      (entry : DirectoryEntry) (existing : MediaRecord) (s : ScanState D)
      → P s.store
      → Kept (reconcile_known D v root batch_size entry existing s)
  unfolding reconcile_known warn_unreadable
  reconcile_known-Keeps entry existing s h =
      if_cases Kept
        (looks_unchanged_from entry.identity existing.identity
          && is_managed existing.original_storage)
        _ _ (λ _. h)
        (λ _.
          if_cases Kept (is_error (fingerprint_file v entry.absolute_path).1) _ _ (λ _. h)
            (λ _. update_known-Keeps entry _ existing s h))

  reconcile_new-Keeps :
      (found_paths : List Text) (by_digest : Index) (entry : DirectoryEntry) (s : ScanState D)
      → P s.store
      → Kept (reconcile_new D v root batch_size found_paths by_digest entry s)
  unfolding reconcile_new warn_unreadable
  reconcile_new-Keeps found_paths by_digest entry s h =
      if_cases Kept (is_error (fingerprint_file v entry.absolute_path).1) _ _ (λ _. h)
        (λ _. place_new-Keeps entry _ _ s h)

  reconcile-Keeps :
      (found_paths : List Text) (known : Known) (entry : DirectoryEntry) (s : ScanState D)
      → P s.store
      → Kept (reconcile D v root batch_size found_paths known entry s)
  unfolding reconcile
  reconcile-Keeps found_paths known entry s h =
      if_cases Kept (not (is_indexable_media v entry.absolute_path)) _ _ (λ _. h)
        (λ _. at_path (value_at (path_key v.paths entry.absolute_path) known.by_path))
    where
      at_path :
          (rs : List MediaRecord)
          → Kept (elim rs [
            | [] ↦ reconcile_new D v root batch_size found_paths known.by_digest entry s
            | existing ∷ others ↦ reconcile_known D v root batch_size entry existing s
          ])
      at_path [] = reconcile_new-Keeps found_paths known.by_digest entry s h
      at_path (existing ∷ others) = reconcile_known-Keeps entry existing s h

  unless_cancelled-Keeps :
      (step : ScanState D → ScanState D × Option Error) (s : ScanState D)
      → ((s : ScanState D) → P s.store → Kept (step s))
      → P s.store
      → Kept (unless_cancelled D v root batch_size step s)
  unfolding unless_cancelled
  unless_cancelled-Keeps step s keeps h =
      if_cases Kept (v.is_cancelled s.readings) _ _ (λ _. discard_keeps s.store h)
        (λ _. keeps (record s { readings = s.readings + 1 }) h)

  and_then-Keeps :
      (z : ScanState D × Option Error) (rest : ScanState D → ScanState D × Option Error)
      → Kept z
      → ((s : ScanState D) → P s.store → Kept (rest s))
      → Kept (and_then z rest)
  unfolding and_then
  and_then-Keeps (s, some e) rest h keeps = h
  and_then-Keeps (s, none) rest h keeps = keeps s h

  scan_entries-Keeps :
      (found_paths : List Text) (known : Known) (entries : List DirectoryEntry) (s : ScanState D)
      → P s.store
      → Kept (scan_entries D v root batch_size found_paths known entries s)
  unfolding scan_entries
  scan_entries-Keeps found_paths known [] s h = h
  scan_entries-Keeps found_paths known (entry ∷ entries) s h =
      let step = reconcile D v root batch_size found_paths known entry in
      and_then-Keeps (unless_cancelled D v root batch_size step s)
        (scan_entries D v root batch_size found_paths known entries)
        (unless_cancelled-Keeps step s (reconcile-Keeps found_paths known entry) h)
        (scan_entries-Keeps found_paths known entries)

  remove_duplicate-Keeps :
      (found_paths : List Text) (key : Text) (r : MediaRecord) (s : ScanState D)
      → (is_member key found_paths ≡ true
          → (s : DurableStore.State D) → P s
          → P (DurableStore.remove D r.id s).0)
      → P s.store
      → Kept (remove_duplicate D v root batch_size found_paths key r s)
  unfolding remove_duplicate
  remove_duplicate-Keeps found_paths key r s keeps h =
      elim (Bool-cases (is_member key found_paths)) [
        | inl found ↦ ground (arith, keeps found s.store h)
        | inr absent ↦ ground arith
      ]

  remove_each-Keeps :
      (found_paths : List Text) (key : Text) (rs : List MediaRecord) (s : ScanState D)
      → (is_member key found_paths ≡ true
          → All
              (λ (r : MediaRecord).
                (s : DurableStore.State D) → P s → P (DurableStore.remove D r.id s).0)
              rs)
      → P s.store
      → Kept (remove_each D v root batch_size found_paths key rs s)
  unfolding remove_each
  remove_each-Keeps found_paths key [] s keeps h = h
  remove_each-Keeps found_paths key (r ∷ rs) s keeps h =
      let step = remove_duplicate D v root batch_size found_paths key r in
      and_then-Keeps (unless_cancelled D v root batch_size step s)
        (remove_each D v root batch_size found_paths key rs)
        (unless_cancelled-Keeps step s
          (λ s' h'. remove_duplicate-Keeps found_paths key r s' (λ f. (keeps f).0) h') h)
        (λ s' h'. remove_each-Keeps found_paths key rs s' (λ f. (keeps f).1) h')

  remove_all-Keeps :
      (found_paths : List Text) (index : Index) (s : ScanState D)
      → Removable D P found_paths index
      → P s.store
      → Kept (remove_all D v root batch_size found_paths index s)
  unfolding remove_all
  remove_all-Keeps found_paths [] s keeps h = h
  remove_all-Keeps found_paths ((key, rs) ∷ index) s keeps h =
      and_then-Keeps (remove_each D v root batch_size found_paths key rs s)
        (remove_all D v root batch_size found_paths index)
        (remove_each-Keeps found_paths key rs s keeps.0 h)
        (λ s' h'. remove_all-Keeps found_paths index s' keeps.1 h')

  finish_scan-Keeps :
      (z : ScanState D × Option Error) → Kept z → P (finish_scan D v root batch_size z).0.store
  unfolding finish_scan
  finish_scan-Keeps (s, some e) h = h
  finish_scan-Keeps (s, none) h = commit_batch-Keeps s h

  pub reconcile_all-Keeps :
      (known : Known) (entries : List DirectoryEntry) (s : ScanState D)
      → Removable D P (found_keys v entries) known.by_path
      → P s.store
      → P (reconcile_all D v root batch_size known entries s).0.store
  unfolding reconcile_all
  reconcile_all-Keeps known entries s removable h =
      let found_paths = found_keys v entries in
      finish_scan-Keeps _ (
        and_then-Keeps (scan_entries D v root batch_size found_paths known entries s)
          (remove_all D v root batch_size found_paths known.by_path)
          (scan_entries-Keeps found_paths known entries s h)
          (λ s' h'. remove_all-Keeps found_paths known.by_path s' removable h'))
