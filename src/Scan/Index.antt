-- ===== src/Scan/Index.antt =====
-- src/scan/src/scanner.cpp: what a scan gets from outside, its local state, and its index of the
-- records that the store has.
use pimio.Core.Error.{Error, no_error, is_error}
use pimio.Store.{DurableStore, MediaRecord, MediaMetadata, ContentFingerprint, is_valid}
use pimio.Scan.Files.{Paths, DirectoryEntry, path_key, is_within_root}
use pimio.Base.{
  ℕ, Bool, not, Option, none, some, List, [], ◌∷◌, ◌++◌, any, if◌then◌else◌, Text, codes, text_eq,
}

pub record ScanResult : Type 0 where
  pub added : ℕ
  pub updated : ℕ
  pub removed : ℕ
  pub unchanged : ℕ
  pub warnings : List Error

-- What the scan gets from outside: the files, the metadata reader (if there is one), the generated
-- ids and the readings of the cancellation flag in their order, and the texts of JSON contexts.
-- `fingerprint_file` is MediaHasher::fingerprintFile; a call that fails returns its error.
pub record Environment : Type 0 where
  pub paths : Paths
  pub exists : Text → Bool
  pub is_directory : Text → Bool
  pub list_directory : Text → List DirectoryEntry × Error
  pub read_all : Text → Text × Error
  pub hash_bytes : Text → Text
  pub has_reader : Bool
  pub supports : Text → Bool
  pub read : Text → Option (MediaMetadata × List Error) × Error
  pub generate : ℕ → Text
  pub is_cancelled : ℕ → Bool
  pub path_context : Text → Text
  pub reports : Bool

unfoldable pub fingerprint_file : Environment → Text → ContentFingerprint × Error
fingerprint_file v path =
    let (bytes, read_error) = v.read_all path in
    if is_error read_error
    then (record { algorithm = []; digest = [] }, read_error)
    else (record { algorithm = codes "sha256"; digest = v.hash_bytes bytes }, no_error)

abbrev pub with_context : Text → Error → Error
with_context context e = record e { context = context }

-- A hash from texts to lists: `append_at` is `hash[key].append(r)`, `value_at` is `hash.value(key)`.
-- The order of the keys is that of their insertion.
abbrev pub Index : Type 0
Index = List (Text × List MediaRecord)

unfoldable pub append_at : Text → MediaRecord → Index → Index
append_at key r [] = (key, r ∷ []) ∷ []
append_at key r ((k, rs) ∷ index) =
    if text_eq k key then (k, rs ++ r ∷ []) ∷ index else (k, rs) ∷ append_at key r index

unfoldable pub value_at : Text → Index → List MediaRecord
value_at key [] = []
value_at key ((k, rs) ∷ index) = if text_eq k key then rs else value_at key index

pub record Known : Type 0 where
  pub by_path : Index
  pub by_digest : Index

module _ (v : Environment) (root : Text) where
  unfoldable pub index_record : MediaRecord → Known → Known
  unfolding append_at
  index_record r known =
      if not (is_within_root v.paths r.identity.absolute_path root) then known else record {
        by_path = append_at (path_key v.paths r.identity.absolute_path) r known.by_path;
        by_digest =
            if is_valid r.fingerprint
            then append_at r.fingerprint.digest r known.by_digest
            else known.by_digest;
      }

  unfoldable pub load_known : (D : DurableStore) → DurableStore.State D → List Text → Known → Known
  unfolding index_record
  load_known D s [] known = known
  load_known D s (id ∷ ids) known =
      load_known D s ids
        (elim (DurableStore.load D id s) [ none ↦ known | some r ↦ index_record r known ])

-- The local variables of `scan`, with how many ids it has generated, how often it has read the flag,
-- and what it has reported. The two sets are lists that have each text once.
pub record ScanState (D : DurableStore) : Type 0 where
  pub store : DurableStore.State D
  pub seen_ids : List Text
  pub failed_paths : List Text
  pub pending_batch : List MediaRecord
  pub result : ScanResult
  pub generated : ℕ
  pub readings : ℕ
  pub reported : List (List MediaRecord × ScanResult)

abbrev pub is_member : Text → List Text → Bool
is_member x xs = any (text_eq x) xs

-- `set.insert(x)`.
unfoldable pub insert : Text → List Text → List Text
insert x xs = if is_member x xs then xs else x ∷ xs
