-- ===== src/JobQueue.antt =====
-- src/projection/src/job_queue.cpp and job_queue_operations.cpp: the durable job queue over the
-- SQLite table `job`. The table is the list of its rows; a TEXT column that holds an enumeration is
-- kept as the enumeration (Core.Names). Whether the n-th statement of a call runs is decided by the
-- argument `disk`: a statement that cannot be prepared or executed changes nothing.
pub mod Order
pub mod Claim
pub mod Steps
pub mod Life
pub mod Keys
pub mod Retry
pub mod Coalescing
pub mod Dates
pub mod Batches
pub mod Reading
pub mod Grants
mod Tests
use pimio.Base.{
  ℕ, ◌+◌, Bool, true, false, Option, none, some, not, ◌&&◌, ◌||◌, List, [], ◌∷◌, ◌++◌, map, ltb,
  leb, ◌==◌, if◌then◌else◌, Text, text_eq, text_lt, is_empty, filter, take, length, any,
}
use pimio.Core.Error.{ErrorCode, storage_unavailable, internal, not_found, Error, is_retryable}
use pimio.Core.Job.{
  JobRecord, pending, running, succeeded, failed, cancelled, state_eq, rank, date_eq,
}

abbrev pub Disk : Type 0
Disk = ℕ → Bool

pub data Result (A : Type 0) : Type 0 where
  ok : A → Result A
  err : ErrorCode → Result A

pub record JobQueue : Type 0 where
  pub open_ : Bool
  pub rows : List JobRecord

abbrev pub has_id : Text → JobRecord → Bool
has_id id r = text_eq r.id id

abbrev pub is_pending : JobRecord → Bool
is_pending r = state_eq r.state pending

abbrev pub is_running : JobRecord → Bool
is_running r = state_eq r.state running

-- UPDATE job SET … WHERE …
abbrev pub update_where :
    (JobRecord → Bool) → (JobRecord → JobRecord) → List JobRecord → List JobRecord
update_where test set_ = map (λ r. if test r then set_ r else r)

-- `created_at_ms ASC`: SQLite sorts NULL before every number.
abbrev pub created_before : Option ℕ → Option ℕ → Bool
created_before none none = false
created_before none (some y) = true
created_before (some x) none = false
created_before (some x) (some y) = ltb x y

-- created_at_ms ASC, id ASC
abbrev pub before_by_date : Option ℕ → Text → Option ℕ → Text → Bool
before_by_date d s e t = if date_eq d e then text_lt s t else created_before d e

-- ORDER BY priority ASC, created_at_ms ASC, id ASC
unfoldable pub ordered_before : JobRecord → JobRecord → Bool
ordered_before a b =
    if rank a.priority == rank b.priority
    then before_by_date a.created_at a.id b.created_at b.id
    else ltb (rank a.priority) (rank b.priority)

pub insert_ordered : JobRecord → List JobRecord → List JobRecord
insert_ordered r [] = r ∷ []
insert_ordered r (s ∷ rest) = if ordered_before s r then s ∷ insert_ordered r rest else r ∷ s ∷ rest

pub order : List JobRecord → List JobRecord
unfolding insert_ordered
order [] = []
order (r ∷ rest) = insert_ordered r (order rest)

-- state = 'pending' AND (not_before_ms IS NULL OR not_before_ms <= now)
abbrev pub is_due : ℕ → Option ℕ → Bool
is_due now none = true
is_due now (some t) = leb t now

abbrev pub is_eligible : ℕ → JobRecord → Bool
is_eligible now r = is_pending r && is_due now r.not_before

-- A call of one UPDATE: the guards of every such method, and the table that the statement leaves.
abbrev pub gated : Disk → JobQueue → List JobRecord → JobQueue × Result (Unit {0})
gated disk q rows =
    if not q.open_
    then (q, err storage_unavailable)
    else if not (disk 0)
    then (q, err internal)
    else (record q { rows = rows }, ok tt)

unfoldable pub recover_interrupted_jobs : Disk → JobQueue → JobQueue × Result (Unit {0})
recover_interrupted_jobs disk q =
    gated disk q (update_where is_running (λ r. record r { state = pending }) q.rows)

-- The id of the pending row that a new job with this key joins (LIMIT 1).
pub find_pending_key : Text → List JobRecord → Option Text
find_pending_key key [] = none
find_pending_key key (r ∷ rest) =
    if text_eq r.coalescing_key key && is_pending r then some r.id else find_pending_key key rest

-- The INSERT; the primary key refuses an id that the table holds.
unfoldable pub insert_row : Bool → JobRecord → JobQueue → JobQueue × Result Text
insert_row runs record_ q =
    if runs && not (any (has_id record_.id) q.rows)
    then (record q { rows = q.rows ++ record_ ∷ [] }, ok record_.id)
    else (q, err internal)

-- `enqueue` behind its SELECT: the id that was found, or the INSERT.
unfoldable pub join_or_insert : Option Text → Bool → JobRecord → JobQueue → JobQueue × Result Text
unfolding insert_row
join_or_insert (some id) runs record_ q = (q, ok id)
join_or_insert none runs record_ q = insert_row runs record_ q

unfoldable pub enqueue : Disk → JobRecord → JobQueue → JobQueue × Result Text
unfolding find_pending_key insert_row join_or_insert
enqueue disk record_ q =
    if not q.open_
    then (q, err storage_unavailable)
    else if is_empty record_.coalescing_key
    then insert_row (disk 0) record_ q
    else if not (disk 0)
    then (q, err internal)
    else join_or_insert (find_pending_key record_.coalescing_key q.rows) (disk 1) record_ q

-- UPDATE job SET state = 'running' WHERE id = ? AND state = 'pending'
abbrev pub set_running : Text → List JobRecord → List JobRecord
set_running id = update_where (λ r. has_id id r && is_pending r) (λ r. record r { state = running })

-- The second loop of `claim`; `false` is its early return.
pub mark_running : Disk → ℕ → List JobRecord → List JobRecord → List JobRecord × Bool
mark_running disk n [] rows = (rows, true)
mark_running disk n (r ∷ rest) rows =
    if disk n then mark_running disk (n + 1) rest (set_running r.id rows) else (rows, false)

abbrev pub start : JobRecord → JobRecord
start r = record r { state = running }

abbrev pub finish_claim :
    JobQueue → List JobRecord → List JobRecord × Bool → JobQueue × Result (List JobRecord)
finish_claim q records (rows, true) = (record q { rows = rows }, ok (map start records))
finish_claim q records (rows, false) = (record q { rows = rows }, err internal)

-- The rows that the SELECT of `claim` returns.
pub select_claimable : ℕ → ℕ → List JobRecord → List JobRecord
unfolding order
select_claimable max_jobs now rows = take max_jobs (order (filter (is_eligible now) rows))

-- `max_jobs` is 0 for every count that is not positive.
unfoldable pub claim : Disk → ℕ → ℕ → JobQueue → JobQueue × Result (List JobRecord)
unfolding mark_running select_claimable
claim disk max_jobs now q =
    if not q.open_
    then (q, err storage_unavailable)
    else if max_jobs == 0
    then (q, ok [])
    else if not (disk 0)
    then (q, err internal)
    else let records = select_claimable max_jobs now q.rows in
      finish_claim q records (mark_running disk 1 records q.rows)

-- One UPDATE on the row of an id, where its state passes a test.
abbrev pub update_job :
    Disk
    → Text
    → (JobRecord → Bool)
    → (JobRecord → JobRecord)
    → JobQueue
    → JobQueue × Result (Unit {0})
update_job disk id test set_ q =
    gated disk q (update_where (λ r. has_id id r && test r) set_ q.rows)

abbrev pub succeed : JobRecord → JobRecord
succeed r = record r { state = succeeded; attempts = r.attempts + 1 }

unfoldable pub mark_succeeded : Disk → Text → JobQueue → JobQueue × Result (Unit {0})
mark_succeeded disk id q = update_job disk id is_running succeed q

-- The SET clause of `markFailed`; `attempts` is the value before the update.
unfoldable pub fail : Error → JobRecord → JobRecord
unfolding is_retryable
fail failure r =
    let retries = is_retryable failure.code && ltb (r.attempts + 1) r.max_attempts in
    record r {
      attempts = r.attempts + 1;
      last_error = failure;
      state = if retries then pending else failed;
      not_before = if retries then none else r.not_before;
    }

unfoldable pub mark_failed : Disk → Text → Error → JobQueue → JobQueue × Result (Unit {0})
unfolding fail
mark_failed disk id failure q = update_job disk id is_running (fail failure) q

unfoldable pub mark_cancelled : Disk → Text → JobQueue → JobQueue × Result (Unit {0})
mark_cancelled disk id q =
    update_job disk id (λ r. is_pending r || is_running r) (λ r. record r { state = cancelled }) q

pub find_id : Text → List JobRecord → Option JobRecord
find_id id [] = none
find_id id (r ∷ rest) = if has_id id r then some r else find_id id rest

unfoldable pub load : Disk → Text → JobQueue → Result JobRecord
unfolding find_id
load disk id q =
    if not q.open_
    then err storage_unavailable
    else if not (disk 0)
    then err internal
    else elim (find_id id q.rows) [ none ↦ err not_found | some r ↦ ok r ]

unfoldable pub list_pending : Disk → JobQueue → Result (List JobRecord)
unfolding order
list_pending disk q =
    if not q.open_
    then err storage_unavailable
    else if not (disk 0)
    then err internal
    else ok (order (filter is_pending q.rows))

-- `err` where the source returns -1 with an error.
unfoldable pub pending_count : Disk → JobQueue → Result ℕ
pending_count disk q =
    if not q.open_
    then err storage_unavailable
    else if not (disk 0)
    then err internal
    else ok (length (filter is_pending q.rows))
