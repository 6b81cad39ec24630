-- ===== src/Thumbnail/Service.antt =====
-- src/thumbnail/src/thumbnail_service.cpp: requests for thumbnails on a thread pool. The pool's threads
-- and the event loop are sequences of the operations below: `work` is a runnable of the pool up to its
-- next test of the shared flag or its next call of the cache or the renderer, `deliver` is the event
-- loop at the first posted lambda. Which runnable goes on, and when, is the pool's choice: the
-- priorities are kept and its threads are not counted.
pub mod Runs
pub mod Silence
pub mod Tallies
pub mod Sound
pub mod Works
pub mod Calls
pub mod Ends
pub mod Steps
pub mod Turns
pub mod Keeps
pub mod Repeats
mod Tests
use pimio.Core.Error.{Error, is_error}
use pimio.Core.Job.{JobPriority, interactive, user_initiated, background, opportunistic}
use pimio.Thumbnail.DiskCache.{ThumbnailDiskCache, load, store}
use pimio.Thumbnail.Request.{QStringArg, MediaRequest, MediaResult, Size, cache_key}
use pimio.Base.{
  ℕ, zero, suc, ◌+◌, ◌%◌, ◌^◌, Bool, true, false, Option, none, some, not, List, [], ◌∷◌, ◌++◌, map,
  ◌==◌, if◌then◌else◌, Text, codes, any, filter, length, ℤ, pos, negsuc,
}

unfoldable pub pool_priority : JobPriority → ℕ
pool_priority interactive = 8
pool_priority user_initiated = 6
pool_priority background = 4
pool_priority opportunistic = 2

-- `address` is the number of the shared object, under which its flag is kept; `handle` is what
-- `onFinished` captures. The callbacks are the client's, and what they are given is kept.
pub record PendingItem : Type 0 where
  pub address : ℕ
  pub handle : ℕ
  pub request : MediaRequest

-- Where a runnable is in `run`.
pub data Stage : Type 0 where
  beginning loading missed rendering : Stage
  loaded : List ℕ → Stage
  rendered : MediaResult → Error → Stage
  storing stored : MediaResult → Stage

pub record ThumbnailRunnable : Type 0 where
  pub item : PendingItem
  pub priority : ℕ
  pub stage : Stage

pub data Outcome : Type 0 where
  delivers : MediaResult → Outcome
  reports : Error → Outcome

-- A posted lambda, or a call of one of an item's callbacks.
pub record Delivery : Type 0 where
  pub item : PendingItem
  pub outcome : Outcome

-- `cancelled` is the store of the shared flags, of which those from `next_item` on do not exist.
pub record ThumbnailService : Type 0 where
  pub cache : ThumbnailDiskCache
  pub max_concurrency : ℕ
  pub pending : List (ℕ × PendingItem)
  pub next_handle : ℕ
  pub next_item : ℕ
  pub cancelled : ℕ → Bool
  pub runnables : List ThumbnailRunnable
  pub posted : List Delivery
  pub calls : List Delivery

unfoldable pub thumbnail_service : ThumbnailDiskCache → ThumbnailService
thumbnail_service cache = record {
  cache = cache;
  max_concurrency = 2;
  pending = [];
  next_handle = 1;
  next_item = 0;
  cancelled = λ n. false;
  runnables = [];
  posted = [];
  calls = [];
}

-- qMax(1, n).
unfoldable pub set_max_concurrency : ℤ → ThumbnailService → ThumbnailService
set_max_concurrency (pos zero) s = record s { max_concurrency = 1 }
set_max_concurrency (pos (suc n)) s = record s { max_concurrency = suc n }
set_max_concurrency (negsuc n) s = record s { max_concurrency = 1 }

-- QHash::remove, insert, find and keys.
abbrev pub remove_handle : ℕ → List (ℕ × PendingItem) → List (ℕ × PendingItem)
remove_handle h = filter (λ (e : ℕ × PendingItem). not (e.0 == h))

abbrev pub insert_handle : ℕ → PendingItem → List (ℕ × PendingItem) → List (ℕ × PendingItem)
insert_handle h item entries = (h, item) ∷ remove_handle h entries

unfoldable pub find_handle : ℕ → List (ℕ × PendingItem) → Option PendingItem
find_handle h [] = none
find_handle h ((k, item) ∷ rest) = if k == h then some item else find_handle h rest

abbrev pub handles : List (ℕ × PendingItem) → List ℕ
handles = map (λ (e : ℕ × PendingItem). e.0)

abbrev pub set_flag : ℕ → (ℕ → Bool) → ℕ → Bool
set_flag n flags m = if m == n then true else flags m

abbrev pub new_item : MediaRequest → ThumbnailService → PendingItem
new_item r s = record { address = s.next_item; handle = s.next_handle; request = r }

unfoldable pub request : MediaRequest → ThumbnailService → ThumbnailService × ℕ
unfolding pool_priority
request r s = (
  record s {
    next_handle = (s.next_handle + 1) % 2 ^ 64;
    next_item = s.next_item + 1;
    pending = insert_handle s.next_handle (new_item r s) s.pending;
    runnables =
        s.runnables
        ++ record { item = new_item r s; priority = pool_priority r.priority; stage = beginning }
          ∷ [];
  },
  s.next_handle,
)

abbrev pub cancel_found : ℕ → Option PendingItem → ThumbnailService → ThumbnailService
cancel_found h none s = s
cancel_found h (some item) s = record s {
  cancelled = set_flag item.address s.cancelled;
  pending = remove_handle h s.pending;
}

unfoldable pub cancel : ℕ → ThumbnailService → ThumbnailService
unfolding find_handle
cancel h s = cancel_found h (find_handle h s.pending) s

abbrev pub is_kept : List ℕ → ℕ → Bool
is_kept keep h = any (λ (k : ℕ). k == h) keep

pub cancel_each : List ℕ → List ℕ → ThumbnailService → ThumbnailService
cancel_each keep [] s = s
cancel_each keep (h ∷ hs) s = cancel_each keep hs (if is_kept keep h then s else cancel h s)

unfoldable pub cancel_all_except : List ℕ → ThumbnailService → ThumbnailService
cancel_all_except keep s = cancel_each keep (handles s.pending) s

unfoldable pub pending_count : ThumbnailService → ℕ
pending_count s = length s.pending

-- What the file system, the clock and the renderer answer to a runnable.
pub record Answers : Type 0 where
  pub opens : Bool
  pub writes : Bool
  pub now : ℕ
  pub result : MediaResult
  pub error : Error

pub data Progress : Type 0 where
  goes_on : Stage → Progress
  returns : Progress
  posts : Outcome → Progress

-- The result of a cache hit: what is not set is as MediaResult declares it.
abbrev pub cached_result : List ℕ → MediaResult
cached_result bytes = record {
  bytes = bytes;
  format = codes "jpeg";
  actual_size = record { width = negsuc 0; height = negsuc 0 };
  is_progressive_intermediate = false;
}

abbrev pub load_answer : Option (List ℕ) → Stage
load_answer none = missed
load_answer (some bytes) = loaded bytes

unfoldable pub progress : Text → Answers → Bool → ThumbnailDiskCache → Stage → Progress
unfolding is_error
progress key a cancelled cache beginning = if cancelled then returns else goes_on loading
progress key a cancelled cache loading = goes_on (load_answer (load a.opens key cache))
progress key a cancelled cache (loaded bytes) =
    if cancelled then returns else posts (delivers (cached_result bytes))
progress key a cancelled cache missed = if cancelled then returns else goes_on rendering
progress key a cancelled cache rendering = goes_on (rendered a.result a.error)
progress key a cancelled cache (rendered result error) =
    if cancelled
    then returns
    else if is_error error
    then posts (reports error)
    else goes_on (storing result)
progress key a cancelled cache (storing result) = goes_on (stored result)
progress key a cancelled cache (stored result) =
    if cancelled then returns else posts (delivers result)

unfoldable pub cache_after : Text → Answers → Stage → ThumbnailDiskCache → ThumbnailDiskCache
cache_after key a (storing result) cache = (store a.writes a.now key result.bytes cache).0
cache_after key a _ cache = cache

-- The n-th runnable and the others.
abbrev pub put_back :
    ThumbnailRunnable
    → Option (ThumbnailRunnable × List ThumbnailRunnable)
    → Option (ThumbnailRunnable × List ThumbnailRunnable)
put_back r none = none
put_back r (some (u, rest)) = some (u, r ∷ rest)

pub pick : ℕ → List ThumbnailRunnable → Option (ThumbnailRunnable × List ThumbnailRunnable)
pick n [] = none
pick zero (r ∷ rs) = some (r, rs)
pick (suc n) (r ∷ rs) = put_back r (pick n rs)

abbrev pub advance :
    Progress → ThumbnailRunnable → List ThumbnailRunnable → ThumbnailService → ThumbnailService
advance (goes_on stage) r rest s = record s { runnables = record r { stage = stage } ∷ rest }
advance returns r rest s = record s { runnables = rest }
advance (posts outcome) r rest s = record s {
  runnables = rest;
  posted = s.posted ++ record { item = r.item; outcome = outcome } ∷ [];
}

unfoldable pub work_picked :
    QStringArg
    → Answers
    → Option (ThumbnailRunnable × List ThumbnailRunnable)
    → ThumbnailService
    → ThumbnailService
work_picked arg a none s = s
work_picked arg a (some (r, rest)) s =
    let key = cache_key arg r.item.request in
    advance (progress key a (s.cancelled r.item.address) s.cache r.stage) r rest
      (record s { cache = cache_after key a r.stage s.cache })

unfoldable pub work : QStringArg → ℕ → Answers → ThumbnailService → ThumbnailService
unfolding work_picked pick
work arg n a s = work_picked arg a (pick n s.runnables) s

-- The body of a posted lambda: `onFinished`, then the callback.
unfoldable pub run_delivery : Delivery → ThumbnailService → ThumbnailService
run_delivery d s =
    if not (s.cancelled d.item.address)
    then record s { pending = remove_handle d.item.handle s.pending; calls = s.calls ++ d ∷ [] }
    else s

unfoldable pub deliver_first : List Delivery → ThumbnailService → ThumbnailService
unfolding run_delivery
deliver_first [] s = s
deliver_first (d ∷ rest) s = run_delivery d (record s { posted = rest })

unfoldable pub deliver : ThumbnailService → ThumbnailService
unfolding deliver_first
deliver s = deliver_first s.posted s

abbrev pub cancel_items : List (ℕ × PendingItem) → (ℕ → Bool) → ℕ → Bool
cancel_items [] flags = flags
cancel_items (e ∷ rest) flags = cancel_items rest (set_flag e.1.address flags)

-- The destructor: its loop. The pool then runs to its end, and Qt drops what is posted to the object.
unfoldable pub destroy : ThumbnailService → ThumbnailService
destroy s = record s { cancelled = cancel_items s.pending s.cancelled; posted = [] }
