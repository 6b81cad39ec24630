-- ===== src/Scan/Survival.antt =====
-- src/scan/src/scanner.cpp: which records of the store outlive a scan.
use pimio.Core.Error.{Error, is_error}
use pimio.Store.{DurableStore, IsDurable, MediaRecord}
use pimio.Watch.Service.{LibraryRoot}
use pimio.Scan.Files.{DirectoryEntry, path_key, is_within_root, collect_entries}
use pimio.Scan.Index.{
  Environment, ScanState, Index, Known, is_member, append_at, index_record, load_known,
}
use pimio.Scan.Run.{reconcile_all, scan, found_keys, scan_state}
use pimio.Scan.Keeps.{Removable, reconcile_all-Keeps}
use mathlib.Core.Option.{some-injective}
use pimio.Base.{
  ℕ, ◌≡◌, ◌≢◌, refl, sym, ap, subst, ◌∙◌, true, false, true≢false, not, ◌||◌, Option, none, some,
  List, [], ◌∷◌, All, All-append, Text, if_cases, text_eq, text_eq→≡,
}

-- The groups of an index hold records of which P holds at the group's key.
abbrev Groups : (Text → MediaRecord → Type 0) → Index → Type 0
Groups P index = All (λ (g : Text × List MediaRecord). All (P g.0) g.1) index

append_at-Groups :
    (P : Text → MediaRecord → Type 0) (key : Text) (r : MediaRecord) (index : Index)
    → P key r
    → Groups P index
    → Groups P (append_at key r index)
unfolding append_at
append_at-Groups P key r [] p h = ((p, tt), tt)
append_at-Groups P key r ((k, rs) ∷ index) p h =
    if_cases (Groups P) (text_eq k key) _ _
      (λ same. (
        All-append (P k) rs _ h.0 (subst (λ (x : Text). P x r) (sym (text_eq→≡ k key same)) p, tt),
        h.1,
      ))
      (λ _. (h.0, append_at-Groups P key r index p h.1))

module _ (D : DurableStore) (d : IsDurable D) (v : Environment) (root : Text)
    (store : DurableStore.State D)
    (keyed : (j : Text) (x : MediaRecord) → DurableStore.load D j store ≡ some x → x.id ≡ j) where
  -- A record that the store has under its own id, at the key of its path.
  abbrev IsLoaded : Text → MediaRecord → Type 0
  IsLoaded key r =
      (DurableStore.load D r.id store ≡ some r) × (path_key v.paths r.identity.absolute_path ≡ key)

  index_record-Groups :
      (r : MediaRecord) (known : Known)
      → DurableStore.load D r.id store ≡ some r
      → Groups IsLoaded known.by_path
      → Groups IsLoaded (index_record v root r known).by_path
  unfolding index_record
  index_record-Groups r known e h =
      if_cases (λ (z : Known). Groups IsLoaded z.by_path)
        (not (is_within_root v.paths r.identity.absolute_path root)) _ _ (λ _. h)
        (λ _. append_at-Groups IsLoaded _ r known.by_path (e, refl) h)

  load_one-Groups :
      (id : Text) (known : Known) (o : Option MediaRecord)
      → DurableStore.load D id store ≡ o
      → Groups IsLoaded known.by_path
      → Groups IsLoaded
          (Known.by_path (elim o [ none ↦ known | some r ↦ index_record v root r known ]))
  load_one-Groups id known none e h = h
  load_one-Groups id known (some r) e h =
      let own = keyed id r e in
      index_record-Groups r known
        (subst (λ (k : Text). DurableStore.load D k store ≡ some r) (sym own) e) h

  load_known-Groups :
      (ids : List Text) (known : Known)
      → Groups IsLoaded known.by_path
      → Groups IsLoaded (load_known v root D store ids known).by_path
  unfolding load_known
  load_known-Groups [] known h = h
  load_known-Groups (id ∷ ids) known h =
      load_known-Groups ids _ (load_one-Groups id known (DurableStore.load D id store) refl h)

  -- The record stays in the store.
  abbrev Survives : Text → DurableStore.State D → Type 0
  Survives k s = (d.committed k s ≡ true) × (d.doomed k s ≡ false)

  module _ (k : Text) (r : MediaRecord) (loaded : DurableStore.load D k store ≡ some r)
      (found_paths : List Text)
      (absent : is_member (path_key v.paths r.identity.absolute_path) found_paths ≡ false) where
    -- A record at a found path has another id.
    other_id :
        (key : Text) (r' : MediaRecord)
        → IsLoaded key r'
        → is_member key found_paths ≡ true
        → k ≢ r'.id
    other_id key r' h found same =
        let one : r' ≡ r =
          some-injective r' r
            (sym h.0 ∙ subst (λ (i : Text). DurableStore.load D i store ≡ some r) same loaded) in
        let here : path_key v.paths r.identity.absolute_path ≡ key =
          subst (λ (x : MediaRecord). path_key v.paths x.identity.absolute_path ≡ key) one h.1 in
        true≢false (sym found ∙ ap (λ (x : Text). is_member x found_paths) (sym here) ∙ absent)

    removable_group :
        (key : Text) (rs : List MediaRecord)
        → All (IsLoaded key) rs
        → is_member key found_paths ≡ true
        → All
            (λ (r' : MediaRecord).
              (s : DurableStore.State D)
              → Survives k s
              → Survives k (DurableStore.remove D r'.id s).0)
            rs
    removable_group key [] h found = tt
    removable_group key (r' ∷ rs) h found = (
      λ s kept.
          let (c, m) = d.remove_dooms k r'.id s (other_id key r' h.0 found) in
          (c ∙ kept.0, m ∙ kept.1),
      removable_group key rs h.1 found,
    )

    removable : (index : Index) → Groups IsLoaded index → Removable D (Survives k) found_paths index
    removable [] h = tt
    removable ((key, rs) ∷ index) h = (removable_group key rs h.0, removable index h.1)

  reconcile_all-Survives :
      (k : Text) (r : MediaRecord) (batch_size : ℕ) (ids : List Text)
      (entries : List DirectoryEntry)
      → DurableStore.load D k store ≡ some r
      → d.doomed k store ≡ false
      → is_member (path_key v.paths r.identity.absolute_path) (found_keys v entries) ≡ false
      → d.committed k
          (reconcile_all D v root batch_size
            (load_known v root D store ids (record { by_path = []; by_digest = [] }))
            entries
            (scan_state D store)).0.store
        ≡ true
  reconcile_all-Survives k r batch_size ids entries loaded clear absent =
      (reconcile_all-Keeps D (Survives k)
        (λ r' s kept. let (c, m) = d.stage_keeps k r' s in (c ∙ kept.0, m ∙ kept.1))
        (λ r' p s kept. let (c, m) = d.stage_original_keeps k r' p s in (c ∙ kept.0, m ∙ kept.1))
        (λ m s kept. d.commit_keeps k m s kept.0 kept.1)
        (λ s kept. let (c, m) = d.discard_keeps k s kept.1 in (c ∙ kept.0, m)) v root batch_size
        (load_known v root D store ids (record { by_path = []; by_digest = [] })) entries
        (scan_state D store)
        (removable k r loaded (found_keys v entries) absent _ (load_known-Groups ids _ tt))
        (d.load_committed k store r loaded, clear)).0

-- In a durable store that has every record under its own id, a record whose source file is not among
-- the files that the walk finds is still in the store after the scan, whatever the scan returns
-- (success, cancellation, or an error of the store at any call), unless its removal was already staged
-- before.
pub scan-keeps_missing :
    (D : DurableStore) (d : IsDurable D) (v : Environment) (root : LibraryRoot)
    (batch_size fuel : ℕ) (store : DurableStore.State D) (k : Text) (r : MediaRecord)
    (entries : List DirectoryEntry) {s : ScanState D} {e : Error}
    → ((j : Text) (x : MediaRecord) → DurableStore.load D j store ≡ some x → x.id ≡ j)
    → DurableStore.load D k store ≡ some r
    → d.doomed k store ≡ false
    → collect_entries v.list_directory root.follow_symlinks fuel root.absolute_path []
      ≡ some entries
    → is_member (path_key v.paths r.identity.absolute_path) (found_keys v entries) ≡ false
    → scan D v root batch_size fuel store ≡ some (s, e)
    → d.committed k s.store ≡ true
unfolding scan
scan-keeps_missing D d v root batch_size fuel store k r entries keyed loaded clear found absent
      done =
    subst Stays done (
      rw found (
        if_cases Stays
          (not (v.exists root.absolute_path) || not (v.is_directory root.absolute_path)) _ _
          (λ _. stays)
          (λ _.
            if_cases Stays (is_error (DurableStore.list_ids D store).1) _ _ (λ _. stays)
              (λ _.
                reconcile_all-Survives D d v root.absolute_path store keyed k r batch_size
                  (DurableStore.list_ids D store).0 entries loaded clear absent))))
  where
    Stays : Option (ScanState D × Error) → Type 0
    Stays none = Unit
    Stays (some z) = d.committed k z.0.store ≡ true

    stays : d.committed k store ≡ true
    stays = d.load_committed k store r loaded
