-- ===== src/Scan/Counts.antt =====
-- src/scan/src/scanner.cpp: the counts of a scan's result account for every found media file.
use pimio.Scan.Handled.{
  handled, updated-handled, added-handled, insert-member, length-insert, is_settled, key_of,
  fails_at, is_unreadable, is_handled,
}
use pimio.Core.Error.{Error, is_error}
use pimio.Store.{DurableStore, MediaRecord, ContentFingerprint}
use pimio.Scan.Files.{DirectoryEntry, path_key}
use pimio.Scan.Index.{
  Environment, ScanState, ScanResult, Index, Known, fingerprint_file, value_at, is_member, insert,
}
use pimio.Scan.Steps.{
  commit_batch, commit_batch_if_full, after_staging, stage_record, warn_unreadable, update_known,
  place_new, reconcile_known, reconcile_new, is_indexable_media, count_updated, count_added, fresh,
  renewed, refresh, named, add_warnings,
}
use pimio.Scan.Run.{unless_cancelled, reconcile, scan_entries, and_then}
use pimio.Base.{
  ℕ, ◌+◌, ◌≡◌, refl, Bool, true, false, ◌&&◌, ◌||◌, not, any, ◌∙◌, ◌≤◌, text_eq, Option, none, some,
  List, [], ◌∷◌, ◌++◌, length, count, Text, if_cases, if◌then◌else◌, Bool-cases, inl, inr, arith,
}

module _ (D : DurableStore) (v : Environment) (root : Text) (batch_size : ℕ) where
  abbrev SameCounts : ScanState D → ScanState D → Type 0
  SameCounts s' s =
      (s'.result ≡ s.result) × (s'.failed_paths ≡ s.failed_paths) × (s'.seen_ids ≡ s.seen_ids)

  -- After a step that does not return, n more files are counted, the keys that u tells are among the
  -- failed paths, and no more ids are seen than files are counted.
  abbrev Counted : ℕ → (Text → Bool) → ScanState D → ScanState D × Option Error → Type 0
  Counted n u s z =
      z.1 ≡ none
      → (handled z.0.result ≡ handled s.result + n)
        × ((k : Text) → is_member k z.0.failed_paths ≡ (u k || is_member k s.failed_paths))
        × (length z.0.seen_ids + handled s.result ≤ handled z.0.result + length s.seen_ids)

  abbrev nobody : Text → Bool
  nobody k = false

  commit_batch-counts : (s : ScanState D) → SameCounts (commit_batch D v root batch_size s).0 s
  unfolding commit_batch
  commit_batch-counts s = ground arith

  if_full-counts : (s : ScanState D) → SameCounts (commit_batch_if_full D v root batch_size s).0 s
  unfolding commit_batch_if_full
  if_full-counts s = ground (arith, commit_batch-counts s)

  after_staging-Counted :
      (r : MediaRecord) (moved_on : ScanResult → ScanResult) (s : ScanState D)
      → ((c : ScanResult) → handled (moved_on c) ≡ handled c + 1)
      → Counted 1 nobody s (after_staging D v root batch_size r moved_on s)
  unfolding after_staging
  after_staging-Counted r moved_on s h e =
      let (a, b, c) = if_full-counts (record s {
        seen_ids = insert r.id s.seen_ids;
        result = moved_on s.result;
        pending_batch = s.pending_batch ++ r ∷ [];
      }) in
      let grown = length-insert r.id s.seen_ids in
      rw (a, b, c) (omega (arith, h s.result), λ k. refl, omega (arith, h s.result, grown))

  stored-Counted :
      (r : MediaRecord) (moved_on : ScanResult → ScanResult) (s : ScanState D)
      (store : DurableStore.State D) (failure : Option Error)
      → ((c : ScanResult) → handled (moved_on c) ≡ handled c + 1)
      → Counted 1 nobody s (elim failure [
        | some e ↦ (record s { store = store }, some e)
        | none ↦ after_staging D v root batch_size r moved_on (record s { store = store })
      ])
  stored-Counted r moved_on s store none h =
      after_staging-Counted r moved_on (record s { store = store }) h
  stored-Counted r moved_on s store (some e) h = λ q. cc

  stage_record-Counted :
      (with_original : Bool) (r : MediaRecord) (path : Text) (moved_on : ScanResult → ScanResult)
      (s : ScanState D)
      → ((c : ScanResult) → handled (moved_on c) ≡ handled c + 1)
      → Counted 1 nobody s (stage_record D v root batch_size with_original r path moved_on s)
  unfolding stage_record
  stage_record-Counted true r path moved_on s h = stored-Counted r moved_on s _ _ h
  stage_record-Counted false r path moved_on s h = stored-Counted r moved_on s _ _ h

  warn_unreadable-Counted :
      (path : Text) (e : Error) (s : ScanState D)
      → Counted 0
          (λ k. text_eq k (path_key v.paths path))
          s
          (warn_unreadable D v root batch_size path e s, none)
  unfolding warn_unreadable
  warn_unreadable-Counted path e s q =
      (omega arith, (λ k. insert-member k (path_key v.paths path) s.failed_paths), omega arith)

  update_known-Counted :
      (entry : DirectoryEntry) (fp : ContentFingerprint) (existing : MediaRecord) (s : ScanState D)
      → Counted 1 nobody s (update_known D v root batch_size entry fp existing s)
  unfolding update_known
  update_known-Counted entry fp existing s =
      stage_record-Counted _ _ _ count_updated _ updated-handled

  place_new-Counted :
      (entry : DirectoryEntry) (fp : ContentFingerprint) (moved : Option MediaRecord)
      (s : ScanState D)
      → Counted 1 nobody s (place_new D v root batch_size entry fp moved s)
  unfolding place_new
  place_new-Counted entry fp (some moved) s =
      stage_record-Counted _ _ _ count_updated _ updated-handled
  place_new-Counted entry fp none s =
      let path = entry.absolute_path in
      let added = fresh v (v.generate s.generated) path in
      stage_record-Counted true (renewed v entry fp added) path count_added
        (add_warnings D v root batch_size (refresh v path (named v path added.metadata)).1
          (record s { generated = s.generated + 1 }))
        added-handled

  -- What a step has to count of an entry whose known records are these.
  abbrev Accounts :
      List MediaRecord → DirectoryEntry → ScanState D → ScanState D × Option Error → Type 0
  Accounts rs entry s z =
      Counted (if not (fails_at v rs entry) then 1 else 0)
        (λ k. fails_at v rs entry && text_eq k (key_of v entry)) s z

  reconcile_known-Accounts :
      (entry : DirectoryEntry) (existing : MediaRecord) (others : List MediaRecord)
      (s : ScanState D)
      → Accounts (existing ∷ others) entry s (reconcile_known D v root batch_size entry existing s)
  unfolding reconcile_known
  reconcile_known-Accounts entry existing others s =
      elim (Bool-cases (is_settled entry (existing ∷ others))) [
        | inl settled ↦
            let grown = length-insert existing.id s.seen_ids in
            rw settled (λ q. (omega arith, (λ k. refl), omega (arith, grown)))
        | inr changed ↦ elim (Bool-cases (is_error (fingerprint_file v entry.absolute_path).1)) [
          | inl failed ↦
              rw (changed, failed)
                (warn_unreadable-Counted entry.absolute_path
                  (fingerprint_file v entry.absolute_path).1 s)
          | inr hashed ↦ rw (changed, hashed) (update_known-Counted entry _ existing s)
        ]
      ]

  reconcile_new-Accounts :
      (found_paths : List Text) (by_digest : Index) (entry : DirectoryEntry) (s : ScanState D)
      → Accounts [] entry s (reconcile_new D v root batch_size found_paths by_digest entry s)
  unfolding reconcile_new
  reconcile_new-Accounts found_paths by_digest entry s =
      elim (Bool-cases (is_error (fingerprint_file v entry.absolute_path).1)) [
        | inl failed ↦ rw failed (
            warn_unreadable-Counted entry.absolute_path (fingerprint_file v entry.absolute_path).1
              s)
        | inr hashed ↦ rw hashed (place_new-Counted entry _ _ s)
      ]

  at_path-Accounts :
      (found_paths : List Text) (known : Known) (entry : DirectoryEntry) (s : ScanState D)
      (rs : List MediaRecord)
      → Accounts rs entry s (elim rs [
        | [] ↦ reconcile_new D v root batch_size found_paths known.by_digest entry s
        | existing ∷ others ↦ reconcile_known D v root batch_size entry existing s
      ])
  at_path-Accounts found_paths known entry s [] =
      reconcile_new-Accounts found_paths known.by_digest entry s
  at_path-Accounts found_paths known entry s (existing ∷ others) =
      reconcile_known-Accounts entry existing others s

  abbrev weight : Known → DirectoryEntry → ℕ
  weight known entry = if is_handled v known entry then 1 else 0

  abbrev failing : Known → DirectoryEntry → Text → Bool
  failing known entry k = is_unreadable v known entry && text_eq k (key_of v entry)

  reconcile-Counted :
      (found_paths : List Text) (known : Known) (entry : DirectoryEntry) (s : ScanState D)
      → Counted
          (weight known entry)
          (failing known entry)
          s
          (reconcile D v root batch_size found_paths known entry s)
  unfolding reconcile
  reconcile-Counted found_paths known entry s =
      elim (Bool-cases (is_indexable_media v entry.absolute_path)) [
        | inl media ↦
            rw (media, reconcile)
              (at_path-Accounts found_paths known entry s
                (value_at (path_key v.paths entry.absolute_path) known.by_path))
        | inr other ↦ rw (other, reconcile) (λ q. (omega arith, (λ k. refl), omega arith))
      ]

  unless_cancelled-Counted :
      (n : ℕ) (u : Text → Bool) (step : ScanState D → ScanState D × Option Error) (s : ScanState D)
      → ((s : ScanState D) → Counted n u s (step s))
      → Counted n u s (unless_cancelled D v root batch_size step s)
  unfolding unless_cancelled
  unless_cancelled-Counted n u step s counted =
      if_cases (Counted n u s) (v.is_cancelled s.readings) _ _ (λ _ q. cc)
        (λ _. counted (record s { readings = s.readings + 1 }))

  and_then-Counted :
      (m n : ℕ) (t u : Text → Bool) (s : ScanState D) (z : ScanState D × Option Error)
      (rest : ScanState D → ScanState D × Option Error)
      → Counted m t s z
      → ((s : ScanState D) → Counted n u s (rest s))
      → Counted (m + n) (λ k. t k || u k) s (and_then z rest)
  unfolding and_then
  and_then-Counted m n t u s (s', some e) rest h k = λ q. cc
  and_then-Counted m n t u s (s', none) rest h k = λ q.
      let (a, b, c) = h refl in
      let (d, e, f) = k s' q in
      (omega arith, (λ key. either (u key) (t key) _ (e key) (b key)), omega arith)
    where
      either : {p q : Bool} (u t r : Bool) → p ≡ (u || q) → q ≡ (t || r) → p ≡ ((t || u) || r)
      either u t r e b = ground arith

  -- If the loop over the found files runs to its end, then each found media file that could be read,
  -- or whose record shows it unchanged, is counted once in added, updated and unchanged; the keys of
  -- the other media files, and only those, have joined the failed paths; and no more ids have joined
  -- the seen ones than files are counted. All other files are left out.
  pub scan_entries-counts :
      (found_paths : List Text) (known : Known) (entries : List DirectoryEntry) (s : ScanState D)
      → (scan_entries D v root batch_size found_paths known entries s).1 ≡ none
      → let s' = (scan_entries D v root batch_size found_paths known entries s).0 in
        (handled s'.result ≡ handled s.result + count (is_handled v known) entries)
        × ((k : Text)
            → is_member k s'.failed_paths ≡ (
                any
                  (λ (e : DirectoryEntry). is_unreadable v known e && text_eq k (key_of v e))
                  entries
                || is_member k s.failed_paths))
        × (length s'.seen_ids + handled s.result ≤ handled s'.result + length s.seen_ids)
  unfolding scan_entries
  scan_entries-counts found_paths known [] s q = (omega arith, (λ k. refl), omega arith)
  scan_entries-counts found_paths known (entry ∷ entries) s q =
      let step = reconcile D v root batch_size found_paths known entry in
      let (a, b, c) =
        and_then-Counted (weight known entry) (count (is_handled v known) entries)
          (failing known entry) (λ k. any (λ (e : DirectoryEntry). failing known e k) entries) s
          (unless_cancelled D v root batch_size step s)
          (scan_entries D v root batch_size found_paths known entries)
          (unless_cancelled-Counted (weight known entry) (failing known entry) step s
            (reconcile-Counted found_paths known entry))
          (scan_entries-counts found_paths known entries) q in
      (ground arith, (λ k. b k ∙ gather (failing known entry k) _ _), omega arith)
    where
      gather : (p q r : Bool) → ((p || q) || r) ≡ ((if p then true else q) || r)
      gather p q r = ground arith
