-- ===== src/Store/Durable.antt =====
-- tests/support/src/memory_durable_store.cpp keeps what the boundary of the durable store promises.
use pimio.Store.{IsDurable, MediaRecord}
use pimio.Base.{
  refl, text_eq_comm, ◌≡◌, ◌≢◌, refl, Bool, true, false, Option, none, some, List, [], ◌∷◌, Text,
  text_eq_iff, find_at, put_at, without, find-put, find-without, arith,
}
use pimio.Store.Memory.{
  discard_staged, MemoryDurableStore, memory, stage, stage_original, remove, commit, insert_staged,
  drop_removed, load, is_in,
}

abbrev pub is_some : Option MediaRecord → Bool
is_some none = false
is_some (some r) = true

insert-keeps :
    (k : Text) (staged committed : List (Text × MediaRecord))
    → is_some (find_at k committed) ≡ true
    → is_some (find_at k (insert_staged staged committed)) ≡ true
unfolding insert_staged
insert-keeps k [] committed h = h
insert-keeps k ((j, r) ∷ staged) committed h =
    insert-keeps k staged (put_at j r committed) (ground (arith, h, find-put j k r committed))

drop-keeps :
    (k : Text) (ids : List Text) (committed : List (Text × MediaRecord))
    → is_in k ids ≡ false
    → is_some (find_at k committed) ≡ true
    → is_some (find_at k (drop_removed ids committed)) ≡ true
unfolding drop_removed
drop-keeps k [] committed h c = c
drop-keeps k (j ∷ ids) committed h c =
    drop-keeps k ids (without j committed) (ground arith)
      (ground (arith, text_eq_comm j k, find-without j k committed))

abbrev pub has_record : Text → MemoryDurableStore → Bool
has_record k s = is_some (find_at k s.committed)

abbrev pub is_doomed : Text → MemoryDurableStore → Bool
is_doomed k s = is_in k s.staged_removals

pub load-has_record :
    (k : Text) (s : MemoryDurableStore) (r : MediaRecord)
    → load k s ≡ some r
    → has_record k s ≡ true
unfolding load
load-has_record k s r h = ground arith

pub stage-keeps :
    (k : Text) (r : MediaRecord) (s : MemoryDurableStore)
    → (has_record k (stage r s).0 ≡ has_record k s) × (is_doomed k (stage r s).0 ≡ is_doomed k s)
unfolding stage
stage-keeps k r s = ground arith

pub stage_original-keeps :
    (k : Text) (r : MediaRecord) (p : Text) (s : MemoryDurableStore)
    → (has_record k (stage_original r p s).0 ≡ has_record k s)
      × (is_doomed k (stage_original r p s).0 ≡ is_doomed k s)
unfolding stage_original
stage_original-keeps k r p s = ground arith

pub remove-dooms :
    (k id : Text) (s : MemoryDurableStore)
    → k ≢ id
    → (has_record k (remove id s).0 ≡ has_record k s)
      × (is_doomed k (remove id s).0 ≡ is_doomed k s)
unfolding remove
remove-dooms k id s apart = ground (arith, text_eq_iff k id)

pub commit-keeps :
    (k message : Text) (s : MemoryDurableStore)
    → has_record k s ≡ true
    → is_doomed k s ≡ false
    → (has_record k (commit message s).0 ≡ true) × (is_doomed k (commit message s).0 ≡ false)
unfolding commit
commit-keeps k message s c clear = ground (
  arith,
  drop-keeps k s.staged_removals (insert_staged s.staged s.committed) clear
      (insert-keeps k s.staged s.committed c),
)

pub discard-keeps :
    (k : Text) (s : MemoryDurableStore)
    → is_doomed k s ≡ false
    → (has_record k (discard_staged s) ≡ has_record k s) × (is_doomed k (discard_staged s) ≡ false)
unfolding discard_staged
discard-keeps k s clear = (refl, refl)

-- The store keeps the boundary's promises.
abbrev pub memory-IsDurable : IsDurable memory
memory-IsDurable = record {
  committed = has_record;
  doomed = is_doomed;
  load_committed = load-has_record;
  stage_keeps = stage-keeps;
  stage_original_keeps = stage_original-keeps;
  remove_dooms = remove-dooms;
  commit_keeps = commit-keeps;
  discard_keeps = discard-keeps;
}
