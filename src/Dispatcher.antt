-- ===== src/Dispatcher.antt =====
-- src/projection/src/job_dispatcher.cpp: jobs are claimed from the queue, run on a thread pool with
-- bounded concurrency, and their outcomes are written back. The pool's threads and the event loop
-- are sequences of the operations below: `finish` is a thread at the end of a worker, `complete` is
-- the event loop at a posted completion. A null `queue` pointer is a queue that is not open.
pub mod Runs
pub mod Slots
pub mod Flights
pub mod Writes
pub mod Handing
pub mod Signals
pub mod Flags
pub mod Cancels
mod Tests
use pimio.Core.Error.{Error, internal, is_error}
use pimio.Core.Job.{JobRecord, JobKind}
use pimio.Core.Names.{job_kind_to_string}
use pimio.JobQueue.{
  Disk, JobQueue, Result, ok, err, claim, mark_cancelled, mark_failed, mark_succeeded,
  pending_count,
}
use pimio.Base.{
  ℕ, ◌+◌, ◌-◌, Bool, true, false, Option, none, some, not, ◌&&◌, ◌||◌, List, [], ◌∷◌, ◌++◌, ltb,
  leb, ◌==◌, if◌then◌else◌, Text, codes, text_eq, any, filter, zero, suc,
}

abbrev pub kind_number : JobKind → ℕ
kind_number JobKind.unknown = 0
kind_number JobKind.scan_root = 1
kind_number JobKind.reconcile_root = 2
kind_number JobKind.read_metadata = 3
kind_number JobKind.generate_thumbnail = 4
kind_number JobKind.generate_preview = 5
kind_number JobKind.extract_video_frame = 6
kind_number JobKind.write_metadata = 7
kind_number JobKind.export = 8

-- What the lambda given to the pool captures: the job, the shared flag (its number in the store of
-- flags) and the kinds that have a worker.
pub record Task : Type 0 where
  pub job : JobRecord
  pub cancel : ℕ
  pub workers : List JobKind

-- What the posted lambda captures.
pub record Completion : Type 0 where
  pub job : JobRecord
  pub was_cancelled : Bool
  pub result : Error

pub data JobSignal : Type 0 where
  job_started job_succeeded job_failed job_cancelled : Text → JobSignal

-- `flags` is the store of the shared atomic flags, of which those from `next_flag` on do not exist.
pub record JobDispatcher : Type 0 where
  pub queue : JobQueue
  pub workers : List JobKind
  pub max_concurrency : ℕ
  pub timer_active : Bool
  pub running : Bool
  pub cancellations : List (Text × ℕ)
  pub inflight_count : ℕ
  pub flags : ℕ → Bool
  pub next_flag : ℕ
  pub tasks : List Task
  pub posted : List Completion
  pub emitted : List JobSignal

unfoldable pub job_dispatcher : JobQueue → JobDispatcher
job_dispatcher q = record {
  queue = q;
  workers = [];
  max_concurrency = 1;
  timer_active = false;
  running = false;
  cancellations = [];
  inflight_count = 0;
  flags = λ f. false;
  next_flag = 0;
  tasks = [];
  posted = [];
  emitted = [];
}

unfoldable pub register_worker : JobKind → JobDispatcher → JobDispatcher
register_worker kind s = record s { workers = kind ∷ s.workers }

-- qMax(1, n); 0 stands for every n below 1.
unfoldable pub set_max_concurrency : ℕ → JobDispatcher → JobDispatcher
set_max_concurrency n s = record s { max_concurrency = if n == 0 then 1 else n }

-- QHash::remove, insert and find.
abbrev pub hash_remove : Text → List (Text × ℕ) → List (Text × ℕ)
hash_remove id = filter (λ (e : Text × ℕ). not (text_eq e.0 id))

abbrev pub hash_insert : Text → ℕ → List (Text × ℕ) → List (Text × ℕ)
hash_insert id f entries = (id, f) ∷ hash_remove id entries

pub hash_find : Text → List (Text × ℕ) → Option ℕ
hash_find id [] = none
hash_find id ((k, f) ∷ rest) = if text_eq k id then some f else hash_find id rest

abbrev pub set_flag : ℕ → Bool → (ℕ → Bool) → ℕ → Bool
set_flag n b flags m = if m == n then b else flags m

abbrev pub set_cancelled : Option ℕ → JobDispatcher → JobDispatcher
set_cancelled none s = s
set_cancelled (some f) s = record s { flags = set_flag f true s.flags }

unfoldable pub request_cancellation : Text → JobDispatcher → JobDispatcher
unfolding hash_find
request_cancellation id s = set_cancelled (hash_find id s.cancellations) s

unfoldable pub running_count : JobDispatcher → ℕ
running_count s = s.inflight_count

-- The body of the loop of `tryDispatch` for one claimed job.
unfoldable pub launch : JobRecord → JobDispatcher → JobDispatcher
launch job s = record s {
  cancellations = hash_insert job.id s.next_flag s.cancellations;
  flags = set_flag s.next_flag false s.flags;
  next_flag = s.next_flag + 1;
  inflight_count = s.inflight_count + 1;
  emitted = s.emitted ++ job_started job.id ∷ [];
  tasks = s.tasks ++ record { job = job; cancel = s.next_flag; workers = s.workers } ∷ [];
}

pub launch_all : List JobRecord → JobDispatcher → JobDispatcher
unfolding launch
launch_all [] s = s
launch_all (job ∷ jobs) s = launch_all jobs (launch job s)

-- `tryDispatch` behind its claim.
unfoldable pub dispatch_claimed : JobQueue × Result (List JobRecord) → JobDispatcher → JobDispatcher
unfolding launch_all
dispatch_claimed (q, ok jobs) s = launch_all jobs (record s { queue = q })
dispatch_claimed (q, err e) s = record s { queue = q }

unfoldable pub try_dispatch : Disk → ℕ → JobDispatcher → JobDispatcher
unfolding dispatch_claimed
try_dispatch disk now s =
    if not s.running || not s.queue.open_
    then s
    else if leb s.max_concurrency s.inflight_count
    then s
    else dispatch_claimed (claim disk (s.max_concurrency - s.inflight_count) now s.queue) s

unfoldable pub start : Disk → ℕ → JobDispatcher → JobDispatcher
unfolding try_dispatch
start disk now s =
    if s.running
    then s
    else try_dispatch disk now (record s { running = true; timer_active = true })

-- The poll timer's tick.
unfoldable pub poll : Disk → ℕ → JobDispatcher → JobDispatcher
unfolding try_dispatch
poll disk now s = if s.timer_active then try_dispatch disk now s else s

abbrev pub has_kind : JobKind → JobKind → Bool
has_kind a b = kind_number a == kind_number b

unfoldable pub no_worker : JobKind → Error
unfolding job_kind_to_string
no_worker kind = record {
  code = internal;
  message = codes "No worker registered for job kind " ++ job_kind_to_string kind ++ codes ".";
  context = codes "{}";
}

-- The end of a task: `outcome` is what the registered worker returned.
unfoldable pub task_completion : (ℕ → Bool) → Error → Task → Completion
unfolding no_worker
task_completion flags outcome t = record {
  job = t.job;
  was_cancelled = flags t.cancel;
  result = if any (has_kind t.job.kind) t.workers then outcome else no_worker t.job.kind;
}

-- The n-th task and the others.
abbrev pub put_back : Task → Option (Task × List Task) → Option (Task × List Task)
put_back t none = none
put_back t (some (u, rest)) = some (u, t ∷ rest)

pub pick : ℕ → List Task → Option (Task × List Task)
pick n [] = none
pick zero (t ∷ ts) = some (t, ts)
pick (suc n) (t ∷ ts) = put_back t (pick n ts)

unfoldable pub finish_picked : Error → Option (Task × List Task) → JobDispatcher → JobDispatcher
unfolding task_completion
finish_picked outcome none s = s
finish_picked outcome (some (t, rest)) s = record s {
  tasks = rest;
  posted = s.posted ++ task_completion s.flags outcome t ∷ [];
}

unfoldable pub finish : ℕ → Error → JobDispatcher → JobDispatcher
unfolding finish_picked pick
finish n outcome s = finish_picked outcome (pick n s.tasks) s

-- The queue's method that the outcome calls for.
unfoldable pub settle : Disk → Completion → JobQueue → JobQueue
unfolding is_error
settle disk c q =
    if c.was_cancelled
    then (mark_cancelled disk c.job.id q).0
    else if is_error c.result
    then (mark_failed disk c.job.id c.result q).0
    else (mark_succeeded disk c.job.id q).0

unfoldable pub end_signal : Completion → JobSignal
unfolding is_error
end_signal c =
    if c.was_cancelled
    then job_cancelled c.job.id
    else if is_error c.result
    then job_failed c.job.id
    else job_succeeded c.job.id

-- The posted lambda up to its `tryDispatch`.
unfoldable pub finish_job : Disk → Completion → JobDispatcher → JobDispatcher
unfolding settle end_signal
finish_job disk c s = record s {
  queue = settle disk c s.queue;
  cancellations = hash_remove c.job.id s.cancellations;
  inflight_count = s.inflight_count - 1;
  emitted = s.emitted ++ end_signal c ∷ [];
}

abbrev pub complete_posted : Disk → Disk → ℕ → List Completion → JobDispatcher → JobDispatcher
complete_posted disk disk' now [] s = s
complete_posted disk disk' now (c ∷ rest) s =
    try_dispatch disk' now (finish_job disk c (record s { posted = rest }))

unfoldable pub complete : Disk → Disk → ℕ → JobDispatcher → JobDispatcher
complete disk disk' now s = complete_posted disk disk' now s.posted s

-- `stop`: its first statements, the test of its loop, and its last statement.
unfoldable pub begin_stop : JobDispatcher → JobDispatcher
begin_stop s = if s.running then record s { timer_active = false } else s

abbrev pub none_pending : Result ℕ → Bool
none_pending (ok n) = n == 0
none_pending (err e) = true

-- One turn of the loop of `stop` without its `processEvents`, and whether the loop ends there.
unfoldable pub stop_round : Disk → Disk → ℕ → JobDispatcher → JobDispatcher × Bool
unfolding try_dispatch
stop_round disk disk' now s =
    if ltb 0 s.inflight_count
    then (s, false)
    else if none_pending (pending_count disk s.queue)
    then (record s { running = false }, true)
    else (try_dispatch disk' now s, false)
