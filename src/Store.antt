-- ===== src/Store.antt =====
-- src/core/include/pimio/core/types.h and durable_store.h: a media record and the boundary of the
-- durable store, as an interface with the laws that its comments promise.
pub mod Memory
pub mod Durable
use pimio.Core.Error.{Error, is_error}
use pimio.Base.{
  ℕ, ◌≡◌, ◌≢◌, ◌⊎◌, Bool, true, false, not, ◌&&◌, Option, none, some, List, ℤ, int_eq, is_negative,
  ◌==◌, Text, is_empty,
}

pub data MediaKind : Type 0 where
  unknown image video : MediaKind

pub record ContentFingerprint : Type 0 where
  pub algorithm : Text
  pub digest : Text

unfoldable pub is_valid : ContentFingerprint → Bool
is_valid f = not (is_empty f.algorithm) && not (is_empty f.digest)

-- `last_modified` is nothing if the date is invalid; the size is -1 if it is not known.
pub record FileIdentity : Type 0 where
  pub absolute_path : Text
  pub volume_id : Text
  pub file_id : Text
  pub size_bytes : ℤ
  pub last_modified : Option ℕ

abbrev pub same_date : Option ℕ → Option ℕ → Bool
same_date none other = false
same_date (some t) none = false
same_date (some t) (some u) = t == u

unfoldable pub looks_unchanged_from : FileIdentity → FileIdentity → Bool
looks_unchanged_from i other =
    not (is_negative i.size_bytes)
    && not (is_negative other.size_bytes)
    && int_eq i.size_bytes other.size_bytes
    && same_date i.last_modified other.last_modified

-- `details` is the JSON text of the fields that the scanner only carries.
pub record MediaMetadata : Type 0 where
  pub kind : MediaKind
  pub file_name : Text
  pub folder_path : Text
  pub details : Text

pub data OriginalStorage : Type 0 where
  referenced managed : OriginalStorage

abbrev pub is_managed : OriginalStorage → Bool
is_managed referenced = false
is_managed managed = true

-- `edits` is the JSON text of the recipe, the derivative and the unrecognized fields.
pub record MediaRecord : Type 0 where
  pub id : Text
  pub fingerprint : ContentFingerprint
  pub identity : FileIdentity
  pub original_storage : OriginalStorage
  pub managed_original_path : Text
  pub metadata : MediaMetadata
  pub edits : Text

-- The calls of a store that a scan makes. A call that can fail returns the error with which it
-- failed, or nothing.
pub record DurableStore : Type 1 where
  pub State : Type 0
  pub list_ids : State → List Text × Error
  pub load : Text → State → Option MediaRecord
  pub stage : MediaRecord → State → State × Option Error
  pub stage_original : MediaRecord → Text → State → State × Option Error
  pub remove : Text → State → State × Option Error
  pub commit : Text → State → State × Option Error
  pub discard_staged : State → State
  pub has_staged_changes : State → Bool

-- What the boundary promises: `load` reads what is committed; staging and discarding leave it alone; a
-- commit drops a record only if its removal was staged, and only `remove` stages the removal of its id.
pub record IsDurable (D : DurableStore) : Type 1 where
  pub committed : Text → DurableStore.State D → Bool
  pub doomed : Text → DurableStore.State D → Bool
  pub load_committed :
      (k : Text) (s : DurableStore.State D) (r : MediaRecord)
      → DurableStore.load D k s ≡ some r
      → committed k s ≡ true
  pub stage_keeps :
      (k : Text) (r : MediaRecord) (s : DurableStore.State D)
      → (committed k (DurableStore.stage D r s).0 ≡ committed k s)
        × (doomed k (DurableStore.stage D r s).0 ≡ doomed k s)
  pub stage_original_keeps :
      (k : Text) (r : MediaRecord) (p : Text) (s : DurableStore.State D)
      → (committed k (DurableStore.stage_original D r p s).0 ≡ committed k s)
        × (doomed k (DurableStore.stage_original D r p s).0 ≡ doomed k s)
  pub remove_dooms :
      (k id : Text) (s : DurableStore.State D)
      → k ≢ id
      → (committed k (DurableStore.remove D id s).0 ≡ committed k s)
        × (doomed k (DurableStore.remove D id s).0 ≡ doomed k s)
  pub commit_keeps :
      (k message : Text) (s : DurableStore.State D)
      → committed k s ≡ true
      → doomed k s ≡ false
      → (committed k (DurableStore.commit D message s).0 ≡ true)
        × (doomed k (DurableStore.commit D message s).0 ≡ false)
  pub discard_keeps :
      (k : Text) (s : DurableStore.State D)
      → doomed k s ≡ false
      → (committed k (DurableStore.discard_staged D s) ≡ committed k s)
        × (doomed k (DurableStore.discard_staged D s) ≡ false)
