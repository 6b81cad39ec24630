-- ===== src/Store/Memory.antt =====
-- tests/support/src/memory_durable_store.cpp: the store that keeps its records in memory. The bytes of
-- originals, the clock and the texts of the errors are not kept; `history` has the messages of the
-- checkpoints, the newest first.
use pimio.Core.Error.{Error, ErrorCode, no_error, storage_unavailable, internal, conflict}
use pimio.Store.{DurableStore, MediaRecord, is_managed}
use pimio.Base.{
  ℕ, ◌+◌, Bool, true, false, not, ◌&&◌, ◌||◌, Option, none, some, List, [], ◌∷◌, map, any, filter,
  if◌then◌else◌, Text, codes, is_empty, text_eq, text_lt, find_at, put_at, without,
}

pub record MemoryDurableStore : Type 0 where
  pub available : Bool
  pub next_commit_failure : Option ErrorCode
  pub committed : List (Text × MediaRecord)
  pub staged : List (Text × MediaRecord)
  pub staged_removals : List Text
  pub committed_originals : List Text
  pub staged_originals : List Text
  pub history : List Text
  pub state_counter : ℕ

abbrev pub memory_durable_store : MemoryDurableStore
memory_durable_store = record {
  available = true;
  next_commit_failure = none;
  committed = [];
  staged = [];
  staged_removals = [];
  committed_originals = [];
  staged_originals = [];
  history = [];
  state_counter = 0;
}

abbrev failure : ErrorCode → Error
failure code = record { code = code; message = []; context = codes "{}" }

-- A set of texts, with the newest member first.
abbrev pub is_in : Text → List Text → Bool
is_in x = any (text_eq x)

abbrev pub put_in : Text → List Text → List Text
put_in x xs = if is_in x xs then xs else x ∷ xs

abbrev pub taken_out : Text → List Text → List Text
taken_out x = filter (λ y. not (text_eq x y))

unfoldable pub stage : MediaRecord → MemoryDurableStore → MemoryDurableStore × Option Error
stage r s =
    if not s.available
    then (s, some (failure storage_unavailable))
    else if is_empty r.id
    then (s, some (failure internal))
    else (record s { staged = put_at r.id r s.staged }, none)

unfoldable pub stage_original :
    MediaRecord → Text → MemoryDurableStore → MemoryDurableStore × Option Error
unfolding stage
stage_original r source_path s =
    if not (is_managed r.original_storage)
      || is_empty r.managed_original_path
      || is_empty source_path
    then (s, some (failure internal))
    else let (s', refused) = stage r s in
      elim refused [
        | some e ↦ (s', some e)
        | none ↦ (record s' { staged_originals = put_in r.id s'.staged_originals }, none)
      ]

unfoldable pub remove : Text → MemoryDurableStore → MemoryDurableStore × Option Error
remove id s = if not s.available then (s, some (failure storage_unavailable)) else (
  record s {
    staged = without id s.staged;
    staged_originals = taken_out id s.staged_originals;
    staged_removals = put_in id s.staged_removals;
  },
  none,
)

-- The loops of `commit`: every staged record is inserted, then every removal is carried out.
unfoldable pub insert_staged :
    List (Text × MediaRecord) → List (Text × MediaRecord) → List (Text × MediaRecord)
insert_staged [] committed = committed
insert_staged ((k, r) ∷ staged) committed = insert_staged staged (put_at k r committed)

unfoldable pub drop_removed : List Text → List (Text × MediaRecord) → List (Text × MediaRecord)
drop_removed [] committed = committed
drop_removed (k ∷ ids) committed = drop_removed ids (without k committed)

abbrev pub unite : List Text → List Text → List Text
unite xs [] = xs
unite xs (y ∷ ys) = unite (put_in y xs) ys

abbrev pub subtract : List Text → List Text → List Text
subtract xs [] = xs
subtract xs (y ∷ ys) = subtract (taken_out y xs) ys

abbrev is_empty_set : List Text → Bool
is_empty_set [] = true
is_empty_set (x ∷ xs) = false

abbrev no_records : List (Text × MediaRecord) → Bool
no_records [] = true
no_records (x ∷ xs) = false

unfoldable pub commit : Text → MemoryDurableStore → MemoryDurableStore × Option Error
unfolding insert_staged drop_removed
commit message s =
    if not s.available
    then (s, some (failure storage_unavailable))
    else elim s.next_commit_failure [
      | some code ↦ (record s { next_commit_failure = none }, some (failure code))
      | none ↦
          if no_records s.staged && is_empty_set s.staged_removals
          then (s, some (failure conflict))
          else (
            record s {
              committed = drop_removed s.staged_removals (insert_staged s.staged s.committed);
              committed_originals =
                  subtract (unite s.committed_originals s.staged_originals) s.staged_removals;
              staged = [];
              staged_originals = [];
              staged_removals = [];
              history = message ∷ s.history;
              state_counter = s.state_counter + 1;
            },
            none,
          )
    ]

unfoldable pub discard_staged : MemoryDurableStore → MemoryDurableStore
discard_staged s = record s { staged = []; staged_originals = []; staged_removals = [] }

unfoldable pub has_staged_changes : MemoryDurableStore → Bool
has_staged_changes s =
    not (no_records s.staged)
    || not (is_empty_set s.staged_originals)
    || not (is_empty_set s.staged_removals)

unfoldable pub load : Text → MemoryDurableStore → Option MediaRecord
load id s = if not s.available then none else find_at id s.committed

abbrev insert_text : Text → List Text → List Text
insert_text x [] = x ∷ []
insert_text x (y ∷ ys) = if text_lt y x then y ∷ insert_text x ys else x ∷ y ∷ ys

abbrev sort_texts : List Text → List Text
sort_texts [] = []
sort_texts (x ∷ xs) = insert_text x (sort_texts xs)

unfoldable pub list_ids : MemoryDurableStore → List Text × Error
list_ids s =
    if not s.available
    then ([], failure storage_unavailable)
    else (sort_texts (map (λ (e : Text × MediaRecord). e.0) s.committed), no_error)

abbrev pub memory : DurableStore
memory = record {
  State = MemoryDurableStore;
  list_ids = list_ids;
  load = load;
  stage = stage;
  stage_original = stage_original;
  remove = remove;
  commit = commit;
  discard_staged = discard_staged;
  has_staged_changes = has_staged_changes;
}
