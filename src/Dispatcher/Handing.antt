-- ===== src/Dispatcher/Handing.antt =====
-- The invariant of src/projection/src/job_dispatcher.cpp through every operation: no job is handed to
-- two workers, and the cancellation flag of every job that is being run can be found.
use pimio.Core.Error.{Error}
use pimio.JobQueue.{Disk, JobQueue, has_id, pending_count}
use pimio.JobQueue.Grants.{with_id, waiting, waiting-with_id}
use pimio.Dispatcher.{
  JobDispatcher, Task, Completion, job_dispatcher, register_worker, set_max_concurrency,
  request_cancellation, set_cancelled, start, poll, finish, finish_picked, pick, task_completion,
  complete, complete_posted, finish_job, settle, begin_stop, stop_round, hash_find, none_pending,
}
use pimio.Dispatcher.Runs.{
  Operation, registers, limits, starts, polls, finishes, completes, requests_cancellation,
  begins_stop, turns_stop, submits, withdraws, operate, serve,
}
use pimio.Dispatcher.Slots.{Picks, pick-Picks}
use pimio.Dispatcher.Flights.{
  SoundAt, working, returning, cancellable, count-append, cancellable-remove_if,
  try_dispatch-SoundAt,
}
use pimio.Base.{
  ℕ, ◌+◌, ◌≤◌, ◌≡◌, refl, inl, inr, Bool, true, Option, none, some, List, [], ◌∷◌, arith, ltb, Text,
  text_eq, if_cases, Bool-cases, ap,
}
use pimio.Dispatcher.Writes.{settle-Settles, enqueue-Rows, withdraw-Rows}

pub finish_job-SoundAt :
    (id : Text) (disk : Disk) (c : Completion) (rest : List Completion) (s : JobDispatcher)
    → s.posted ≡ c ∷ rest
    → SoundAt id s
    → SoundAt id (finish_job disk c (record s { posted = rest }))
unfolding finish_job
finish_job-SoundAt id disk c rest s e h =
    let left = ap (returning id) e in
    let cleared = cancellable-remove_if id c.job.id s.cancellations in
    let written = settle-Settles id disk c s.queue in
    let most = waiting-with_id id (settle disk c s.queue).rows in
    elim (Bool-cases (text_eq c.job.id id)) [
      | inl p ↦ ground (arith, left, cleared, written.same, most)
      | inr p ↦ ground (arith, left, cleared, written.same, written.less p)
    ]

complete_posted-SoundAt :
    (id : Text) (disk disk' : Disk) (now : ℕ) (posted : List Completion) (s : JobDispatcher)
    → s.posted ≡ posted
    → SoundAt id s
    → SoundAt id (complete_posted disk disk' now posted s)
complete_posted-SoundAt id disk disk' now [] s e h = h
complete_posted-SoundAt id disk disk' now (c ∷ rest) s e h =
    try_dispatch-SoundAt id disk' now (finish_job disk c (record s { posted = rest }))
      (finish_job-SoundAt id disk c rest s e h)

finish_picked-SoundAt :
    (id : Text) (outcome : Error) (o : Option (Task × List Task)) (s : JobDispatcher)
    → Picks s.tasks o
    → SoundAt id s
    → SoundAt id (finish_picked outcome o s)
unfolding finish_picked task_completion
finish_picked-SoundAt id outcome none s g h = h
finish_picked-SoundAt id outcome (some (t, rest)) s g h =
    let moved = g.1 (λ (u : Task). has_id id u.job) in
    let more =
      count-append (λ (c : Completion). has_id id c.job) s.posted
        (task_completion s.flags outcome t ∷ []) in
    ground (arith, moved, more)

set_cancelled-SoundAt :
    (id : Text) (found : Option ℕ) (s : JobDispatcher)
    → SoundAt id s
    → SoundAt id (set_cancelled found s)
set_cancelled-SoundAt id none s h = h
set_cancelled-SoundAt id (some f) s h = h

stop_round-SoundAt :
    (id : Text) (disk disk' : Disk) (now : ℕ) (s : JobDispatcher)
    → SoundAt id s
    → SoundAt id (stop_round disk disk' now s).0
unfolding stop_round
stop_round-SoundAt id disk disk' now s h =
    if_cases P (ltb 0 s.inflight_count) _ _ (λ _. h)
      λ _.
        if_cases P (none_pending (pending_count disk s.queue)) _ _ (λ _. h)
          (λ _. try_dispatch-SoundAt id disk' now s h)
  where
    P : JobDispatcher × Bool → Type 0
    P z = SoundAt id z.0

pub operate-SoundAt :
    (id : Text) (o : Operation) (s : JobDispatcher) → SoundAt id s → SoundAt id (operate o s)
unfolding operate register_worker set_max_concurrency start poll finish complete
    request_cancellation begin_stop
operate-SoundAt id (registers kind) s h = h
operate-SoundAt id (limits n) s h = h
operate-SoundAt id (starts disk now) s h =
    if_cases (SoundAt id) s.running _ _ (λ _. h)
      (λ _. try_dispatch-SoundAt id disk now (record s { running = true; timer_active = true }) h)
operate-SoundAt id (polls disk now) s h =
    if_cases (SoundAt id) s.timer_active _ _ (λ _. try_dispatch-SoundAt id disk now s h) (λ _. h)
operate-SoundAt id (finishes n outcome) s h =
    finish_picked-SoundAt id outcome (pick n s.tasks) s (pick-Picks n s.tasks) h
operate-SoundAt id (completes disk disk' now) s h =
    complete_posted-SoundAt id disk disk' now s.posted s refl h
operate-SoundAt id (requests_cancellation job) s h =
    set_cancelled-SoundAt id (hash_find job s.cancellations) s h
operate-SoundAt id begins_stop s h = if_cases (SoundAt id) s.running _ _ (λ _. h) (λ _. h)
operate-SoundAt id (turns_stop disk disk' now) s h = stop_round-SoundAt id disk disk' now s h
operate-SoundAt id (submits disk job) s h =
    let flying = working id s.tasks + returning id s.posted in
    let (keyed, single) = enqueue-Rows flying id disk job s.queue (h.keyed, h.single) in
    record { keyed = keyed; single = single; held = h.held }
operate-SoundAt id (withdraws disk job) s h =
    let flying = working id s.tasks + returning id s.posted in
    let (keyed, single) = withdraw-Rows flying id disk job s.queue (h.keyed, h.single) in
    record { keyed = keyed; single = single; held = h.held }

serve-SoundAt :
    (id : Text) (os : List Operation) (s : JobDispatcher) → SoundAt id s → SoundAt id (serve os s)
unfolding serve
serve-SoundAt id [] s h = h
serve-SoundAt id (o ∷ os) s h = serve-SoundAt id os (operate o s) (operate-SoundAt id o s h)

-- Through any run of a new dispatcher over a table with one row for an id, or none, in which other
-- clients enqueue and cancel jobs, the id's job is with at most one worker or completion, is not
-- pending meanwhile, and has one cancellation flag while it is there and none otherwise.
pub serve-exclusive :
    (id : Text) (os : List Operation) (q : JobQueue)
    → with_id id q.rows ≤ 1
    → let s = serve os (job_dispatcher q) in
      (working id s.tasks + returning id s.posted + waiting id s.queue.rows ≤ 1)
      × (cancellable id s.cancellations ≡ working id s.tasks + returning id s.posted)
unfolding job_dispatcher
serve-exclusive id os q one =
    let h =
      serve-SoundAt id os (job_dispatcher q)
        (record { keyed = one; single = omega (arith, waiting-with_id id q.rows); held = refl }) in
    (omega (arith, h), h.held)
