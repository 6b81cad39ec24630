-- ===== src/Scan/Tests.antt =====
-- A scan of a small tree into the store of tests/support/src/memory_durable_store.cpp.
use pimio.Scan.Ends.{IsAcyclic, collect_entries-Below}
use pimio.Scan.Walk.{Below}
use pimio.Scan.Counts.{scan_entries-counts}
use pimio.Scan.Handled.{is_handled, is_unreadable, key_of, handled}
use pimio.Core.Error.{Error, no_error, is_error}
use pimio.Store.{is_valid, MediaRecord, FileIdentity, managed, image}
use pimio.Store.Memory.{MemoryDurableStore, memory, memory_durable_store}
use pimio.Store.Memory
use pimio.Store.Durable.{memory-IsDurable, has_record}
use pimio.Watch.Service.{LibraryRoot}
use pimio.Scan.Files.{
  managed_original_path, DirectoryEntry, collect_entries, sort_entries, path_key,
}
use pimio.Scan.Index.{is_member, Environment, ScanState, Known}
use pimio.Scan.Run.{
  scan, scan_state, reconcile_all, found_keys, scan_entries, unless_cancelled, reconcile, and_then,
}
use pimio.Scan.Steps.{is_indexable_media}
use pimio.Scan.Survival.{scan-keeps_missing}
use pimio.Watch.Reconcile.{Reconciled, run_reconcile_job, watch_payload, Ends, job-Ends}
use pimio.Base.{
  ◌||◌, any, ◌&&◌, ◌≤◌, List, ◌∷◌, put_at, true≢false, sym, ◌∙◌, length, count, Memᴰ, ◌↔◌,
  Bool-cases, inl, inr, All-mem, ◌<◌, ℕ, ◌+◌, ◌≡◌, refl, true, false, Option, none, some, List, [],
  ◌∷◌, Text, codes, text_eq, text_eq→≡, text_lt, find_at, pos, if◌then◌else◌, arith,
}

-- A suffix of three letters after a dot.
abbrev last_three : Text → Text
last_three [] = []
last_three (x ∷ []) = []
last_three (x ∷ y ∷ []) = []
last_three (x ∷ y ∷ z ∷ []) = x ∷ y ∷ z ∷ []
last_three (x ∷ y ∷ z ∷ w ∷ s) = last_three (y ∷ z ∷ w ∷ s)

abbrev identity_of : Text → ℕ → FileIdentity
identity_of path time = record {
  absolute_path = path;
  volume_id = [];
  file_id = [];
  size_bytes = pos 10;
  last_modified = some time;
}

abbrev entry : Text → ℕ → DirectoryEntry
entry path time = record {
  absolute_path = path;
  file_name = path;
  is_directory = false;
  is_symbolic_link = false;
  identity = identity_of path time;
}

abbrev tree : Text → List DirectoryEntry × Error
tree path =
    if text_eq path (codes "/p")
    then (
      entry (codes "/p/b.jpg") 7 ∷ entry (codes "/p/a.png") 5 ∷ entry (codes "/p/n.txt") 5 ∷ [],
      no_error,
    )
    else ([], no_error)

abbrev environment : Environment
environment = record {
  paths = record {
    clean_path = λ p. p;
    case_folded = λ p. p;
    suffix = last_three;
    base_name = λ p. p;
    folder = λ p. codes "/p";
    sha256 = λ s. s;
  };
  exists = λ p. true;
  is_directory = λ p. true;
  list_directory = tree;
  read_all = λ p. (p, no_error);
  hash_bytes = λ s. s;
  has_reader = false;
  supports = λ p. false;
  read = λ p. (none, no_error);
  generate = λ n. (b'i' + n) ∷ [];
  is_cancelled = λ n. false;
  path_context = λ p. p;
  reports = true;
}

abbrev root : LibraryRoot
root = record { absolute_path = codes "/p"; follow_symlinks = false }

abbrev kept : Text → Text → ℕ → MediaRecord
kept id path time = record {
  id = id;
  fingerprint = record { algorithm = codes "sha256"; digest = path };
  identity = identity_of path time;
  original_storage = managed;
  managed_original_path = codes "originals/x";
  metadata = record { kind = image; file_name = path; folder_path = codes "/p"; details = [] };
  edits = [];
}

abbrev store : MemoryDurableStore
store = record memory_durable_store {
  committed =
      (codes "1", kept (codes "1") (codes "/p/a.png") 5)
      ∷ (codes "2", kept (codes "2") (codes "/p/gone.jpg") 5)
      ∷ [];
}

abbrev finished : Option (ScanState memory × Error) → ScanState memory × Error
finished none = (scan_state memory store, no_error)
finished (some z) = z

scan-finishes :
    scan memory environment root 1 3 store
    ≡ some (finished (scan memory environment root 1 3 store))
unfolding scan reconcile_all scan_entries unless_cancelled reconcile and_then is_indexable_media
    is_error Memory.list_ids collect_entries text_eq sort_entries text_lt
scan-finishes = refl

store-keyed : (j : Text) (x : MediaRecord) → Memory.load j store ≡ some x → x.id ≡ j
unfolding Memory.load find_at
store-keyed j x h = ground (arith, text_eq→≡ (codes "1") j, text_eq→≡ (codes "2") j)

scan-keeps_missing_example :
    has_record (codes "2") (finished (scan memory environment root 1 3 store)).0.store ≡ true
unfolding text_eq found_keys Memory.load find_at collect_entries is_error sort_entries text_lt
    path_key
scan-keeps_missing_example =
    scan-keeps_missing memory memory-IsDurable environment root 1 3 store (codes "2")
      (kept (codes "2") (codes "/p/gone.jpg") 5)
      (entry (codes "/p/a.png") 5 ∷ entry (codes "/p/b.jpg") 7 ∷ entry (codes "/p/n.txt") 5 ∷ [])
      store-keyed refl refl refl refl scan-finishes

-- A media file that is listed twice, and a file of another kind.
abbrev listed_twice : List DirectoryEntry
listed_twice =
    entry (codes "/p/a.png") 5 ∷ entry (codes "/p/n.txt") 5 ∷ entry (codes "/p/a.png") 5 ∷ []

abbrev unknown_files : Known
unknown_files = record { by_path = []; by_digest = [] }

scan_entries-counts_example :
    let s = scan_state memory store in
    let s' = (scan_entries memory environment (codes "/p") 1 [] unknown_files listed_twice s).0 in
    (handled s'.result
      ≡ handled s.result + count (is_handled environment unknown_files) listed_twice)
    × ((k : Text)
        → is_member k s'.failed_paths ≡ (
            any
              (λ (e : DirectoryEntry).
                is_unreadable environment unknown_files e && text_eq k (key_of environment e))
              listed_twice
            || is_member k s.failed_paths))
    × (length s'.seen_ids + handled s.result ≤ handled s'.result + length s.seen_ids)
unfolding scan_entries unless_cancelled reconcile and_then is_indexable_media is_error text_eq
    is_valid Memory.stage_original managed_original_path Memory.has_staged_changes put_at
    Memory.commit
scan_entries-counts_example =
    scan_entries-counts memory environment (codes "/p") 1 [] unknown_files listed_twice
      (scan_state memory store) refl

abbrev directory : Text → DirectoryEntry
directory path = record (entry path 1) { is_directory = true }

-- A root with a file and a directory.
abbrev deep_tree : Text → List DirectoryEntry × Error
deep_tree path =
    if text_eq path (codes "/p")
    then (directory (codes "/p/s") ∷ entry (codes "/p/a.png") 5 ∷ [], no_error)
    else (entry (codes "/p/s/b.png") 5 ∷ [], no_error)

abbrev height : Text → ℕ
height path = if text_eq path (codes "/p") then 1 else 0

abbrev Low : DirectoryEntry → Type 0
Low d = d.is_directory ≡ true → height d.absolute_path < 1

abbrev IsFile : DirectoryEntry → Type 0
IsFile d = d.is_directory ≡ false

deep_tree-IsAcyclic : IsAcyclic deep_tree false height
unfolding text_eq
deep_tree-IsAcyclic dir d listed passed is_dir = elim (Bool-cases (text_eq dir (codes "/p"))) [
  | inl top ↦ rw top (All-mem Low (λ _. omega arith, (λ f. cc, tt)) (rw top at (listed.1)) is_dir)
  | inr other ↦
      elim (true≢false (sym is_dir ∙ All-mem IsFile (refl, tt) (rw other at (listed.1)))) [ ]
]

collect_entries-Below_example :
    (found : List DirectoryEntry) × (collect_entries deep_tree false 2 (codes "/p") [] ≡ some found)
    × ((x : DirectoryEntry) → (Memᴰ x found ↔ Below deep_tree false x (codes "/p")))
unfolding text_eq
collect_entries-Below_example =
    collect_entries-Below deep_tree false height 2 (codes "/p") deep_tree-IsAcyclic (omega arith)

tree-IsAcyclic : IsAcyclic tree false (λ p. 0)
unfolding text_eq
tree-IsAcyclic dir d listed passed is_dir = elim (Bool-cases (text_eq dir (codes "/p"))) [
  | inl top ↦
      absurd
        (true≢false (sym is_dir ∙ All-mem IsFile (refl, (refl, (refl, tt))) (rw top at (listed.1))))
  | inr other ↦ absurd (true≢false (sym is_dir ∙ All-mem IsFile tt (rw other at (listed.1))))
]

-- A projection that counts its rebuilds.
job-Ends_example :
    (s : ScanState memory) × (e : Error) × (o : Reconciled memory ℕ) × (scan memory environment root
        1 1 store
      ≡ some (s, e))
    × (run_reconcile_job memory
          (λ state n. (n + 1, none))
          environment
          1
          1
          (watch_payload root true false)
          (some 0)
          store
        ≡ some o)
    × (o.store ≡ s.store)
    × (o.result ≡ some s.result)
    × Ends memory ℕ (λ state n. (n + 1, none)) environment (some 0) s e o
job-Ends_example =
    job-Ends memory ℕ (λ state n. (n + 1, none)) environment 1 1 (λ p. 0) root true false (some 0)
      store refl tree-IsAcyclic (omega arith)
