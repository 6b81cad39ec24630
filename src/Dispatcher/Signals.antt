-- ===== src/Dispatcher/Signals.antt =====
-- The signals of src/projection/src/job_dispatcher.cpp: each job that starts ends once.
use pimio.Core.Job.{JobRecord}
use pimio.Core.Error.{Error}
use pimio.JobQueue.{Disk, JobQueue, Result, ok, err, claim, has_id, pending_count}
use pimio.Dispatcher.{
  JobDispatcher, JobSignal, job_started, job_succeeded, job_failed, job_cancelled, Task, Completion,
  job_dispatcher, register_worker, set_max_concurrency, request_cancellation, set_cancelled, launch,
  launch_all, dispatch_claimed, try_dispatch, start, poll, finish, finish_picked, pick,
  task_completion, complete, complete_posted, finish_job, end_signal, begin_stop, stop_round,
  hash_find, none_pending,
}
use pimio.Dispatcher.Runs.{
  Operation, registers, limits, starts, polls, finishes, completes, requests_cancellation,
  begins_stop, turns_stop, submits, withdraws, operate, serve,
}
use pimio.Dispatcher.Slots.{Picks, pick-Picks}
use pimio.Dispatcher.Flights.{working, returning, count-append}
use pimio.Base.{
  ℕ, ◌+◌, ◌-◌, ◌≡◌, refl, Bool, true, false, not, ◌||◌, Option, none, some, List, [], ◌∷◌, arith,
  ltb, leb, if◌then◌else◌, Text, text_eq, count, if_cases, ap,
}

abbrev pub is_start : Text → JobSignal → Bool
is_start id (job_started k) = text_eq k id
is_start id (job_succeeded k) = false
is_start id (job_failed k) = false
is_start id (job_cancelled k) = false

abbrev pub is_end : Text → JobSignal → Bool
is_end id (job_started k) = false
is_end id (job_succeeded k) = text_eq k id
is_end id (job_failed k) = text_eq k id
is_end id (job_cancelled k) = text_eq k id

-- Of the signals of an id, the starts are the ends and the jobs that are being run.
abbrev pub Balance : Text → JobDispatcher → Type 0
Balance id s =
    count (is_start id) s.emitted
    ≡ count (is_end id) s.emitted + working id s.tasks + returning id s.posted

launch-Balance :
    (id : Text) (job : JobRecord) (s : JobDispatcher) → Balance id s → Balance id (launch job s)
unfolding launch
launch-Balance id job s h =
    let task : Task = record { job = job; cancel = s.next_flag; workers = s.workers } in
    ground (
      arith,
      count-append (λ (t : Task). has_id id t.job) s.tasks (task ∷ []),
      count-append (is_start id) s.emitted (job_started job.id ∷ []),
      count-append (is_end id) s.emitted (job_started job.id ∷ []),
    )

launch_all-Balance :
    (id : Text) (jobs : List JobRecord) (s : JobDispatcher)
    → Balance id s
    → Balance id (launch_all jobs s)
unfolding launch_all
launch_all-Balance id [] s h = h
launch_all-Balance id (job ∷ jobs) s h =
    launch_all-Balance id jobs (launch job s) (launch-Balance id job s h)

dispatch_claimed-Balance :
    (id : Text) (s : JobDispatcher) (z : JobQueue × Result (List JobRecord))
    → Balance id s
    → Balance id (dispatch_claimed z s)
unfolding dispatch_claimed
dispatch_claimed-Balance id s (q, ok jobs) h = launch_all-Balance id jobs (record s { queue = q }) h
dispatch_claimed-Balance id s (q, err e) h = h

try_dispatch-Balance :
    (id : Text) (disk : Disk) (now : ℕ) (s : JobDispatcher)
    → Balance id s
    → Balance id (try_dispatch disk now s)
unfolding try_dispatch
try_dispatch-Balance id disk now s h =
    if_cases (Balance id) (not s.running || not s.queue.open_) _ _ (λ _. h)
      λ _.
        if_cases (Balance id) (leb s.max_concurrency s.inflight_count) _ _ (λ _. h)
          λ _.
            dispatch_claimed-Balance id s
              (claim disk (s.max_concurrency - s.inflight_count) now s.queue) h

one_end :
    (id : Text) (c : Completion)
    → (count (is_start id) (end_signal c ∷ []) ≡ 0)
      × (count (is_end id) (end_signal c ∷ []) ≡ (if has_id id c.job then 1 else 0))
unfolding end_signal
one_end id c = ground arith

finish_job-Balance :
    (id : Text) (disk : Disk) (c : Completion) (rest : List Completion) (s : JobDispatcher)
    → s.posted ≡ c ∷ rest
    → Balance id s
    → Balance id (finish_job disk c (record s { posted = rest }))
unfolding finish_job
finish_job-Balance id disk c rest s e h = ground (
  arith,
  ap (returning id) e,
  one_end id c,
  count-append (is_start id) s.emitted (end_signal c ∷ []),
  count-append (is_end id) s.emitted (end_signal c ∷ []),
)

complete_posted-Balance :
    (id : Text) (disk disk' : Disk) (now : ℕ) (posted : List Completion) (s : JobDispatcher)
    → s.posted ≡ posted
    → Balance id s
    → Balance id (complete_posted disk disk' now posted s)
complete_posted-Balance id disk disk' now [] s e h = h
complete_posted-Balance id disk disk' now (c ∷ rest) s e h =
    try_dispatch-Balance id disk' now (finish_job disk c (record s { posted = rest }))
      (finish_job-Balance id disk c rest s e h)

finish_picked-Balance :
    (id : Text) (outcome : Error) (o : Option (Task × List Task)) (s : JobDispatcher)
    → Picks s.tasks o
    → Balance id s
    → Balance id (finish_picked outcome o s)
unfolding finish_picked task_completion
finish_picked-Balance id outcome none s g h = h
finish_picked-Balance id outcome (some (t, rest)) s g h = ground (
  arith,
  g.1 (λ (u : Task). has_id id u.job),
  count-append (λ (c : Completion). has_id id c.job) s.posted
      (task_completion s.flags outcome t ∷ []),
)

set_cancelled-Balance :
    (id : Text) (found : Option ℕ) (s : JobDispatcher)
    → Balance id s
    → Balance id (set_cancelled found s)
set_cancelled-Balance id none s h = h
set_cancelled-Balance id (some f) s h = h

stop_round-Balance :
    (id : Text) (disk disk' : Disk) (now : ℕ) (s : JobDispatcher)
    → Balance id s
    → Balance id (stop_round disk disk' now s).0
unfolding stop_round
stop_round-Balance id disk disk' now s h =
    if_cases P (ltb 0 s.inflight_count) _ _ (λ _. h)
      λ _.
        if_cases P (none_pending (pending_count disk s.queue)) _ _ (λ _. h)
          (λ _. try_dispatch-Balance id disk' now s h)
  where
    P : JobDispatcher × Bool → Type 0
    P z = Balance id z.0

operate-Balance :
    (id : Text) (o : Operation) (s : JobDispatcher) → Balance id s → Balance id (operate o s)
unfolding operate register_worker set_max_concurrency start poll finish complete
    request_cancellation begin_stop
operate-Balance id (registers kind) s h = h
operate-Balance id (limits n) s h = h
operate-Balance id (starts disk now) s h =
    if_cases (Balance id) s.running _ _ (λ _. h)
      (λ _. try_dispatch-Balance id disk now (record s { running = true; timer_active = true }) h)
operate-Balance id (polls disk now) s h =
    if_cases (Balance id) s.timer_active _ _ (λ _. try_dispatch-Balance id disk now s h) (λ _. h)
operate-Balance id (finishes n outcome) s h =
    finish_picked-Balance id outcome (pick n s.tasks) s (pick-Picks n s.tasks) h
operate-Balance id (completes disk disk' now) s h =
    complete_posted-Balance id disk disk' now s.posted s refl h
operate-Balance id (requests_cancellation job) s h =
    set_cancelled-Balance id (hash_find job s.cancellations) s h
operate-Balance id begins_stop s h = if_cases (Balance id) s.running _ _ (λ _. h) (λ _. h)
operate-Balance id (turns_stop disk disk' now) s h = stop_round-Balance id disk disk' now s h
operate-Balance id (submits disk job) s h = h
operate-Balance id (withdraws disk job) s h = h

serve-Balance :
    (id : Text) (os : List Operation) (s : JobDispatcher) → Balance id s → Balance id (serve os s)
unfolding serve
serve-Balance id [] s h = h
serve-Balance id (o ∷ os) s h = serve-Balance id os (operate o s) (operate-Balance id o s h)

-- Through any run of a new dispatcher, the times that a job was announced as started are the times
-- that it was announced as succeeded, failed or cancelled and the workers and completions that have
-- it now: no end without a start, and none twice.
pub signals_balance :
    (id : Text) (os : List Operation) (q : JobQueue)
    → let s = serve os (job_dispatcher q) in
      count (is_start id) s.emitted
      ≡ count (is_end id) s.emitted + working id s.tasks + returning id s.posted
unfolding job_dispatcher
signals_balance id os q = serve-Balance id os (job_dispatcher q) refl
