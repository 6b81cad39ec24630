-- ===== src/Dispatcher/Slots.antt =====
-- The concurrency bound of src/projection/src/job_dispatcher.cpp.
use pimio.Core.Job.{JobRecord}
use pimio.Core.Error.{Error}
use pimio.JobQueue.{Disk, JobQueue, Result, ok, err, pending_count}
use pimio.JobQueue.Grants.{Grants, claim-Grants}
use pimio.Dispatcher.{
  JobDispatcher, Task, Completion, job_dispatcher, register_worker, set_max_concurrency,
  request_cancellation, launch, launch_all, dispatch_claimed, try_dispatch, start, poll, finish,
  running_count, set_cancelled, pick, complete_posted, put_back, finish_picked, task_completion,
  complete, finish_job, begin_stop, stop_round, hash_find, none_pending,
}
use pimio.Dispatcher.Runs.{
  Operation, registers, limits, starts, polls, finishes, completes, requests_cancellation,
  begins_stop, turns_stop, submits, withdraws, operate, serve,
}
use pimio.Base.{
  ℕ, zero, suc, ◌+◌, ◌-◌, ◌≤◌, ◌≡◌, refl, Bool, true, not, ◌||◌, Option, none, some, List, [], ◌∷◌,
  arith, ltb, leb, if◌then◌else◌, length, length-append, count, ap, if_cases,
}

-- The counter is the number of jobs that the pool or the event loop holds, and a limit bounds it.
pub record Within (limit count_ tasks posted max : ℕ) : Type 0 where
  pub counted : count_ ≡ tasks + posted
  pub inflight : count_ ≤ limit
  pub allowed : max ≤ limit

abbrev pub IsWithin : ℕ → JobDispatcher → Type 0
IsWithin limit s =
    Within limit s.inflight_count (length s.tasks) (length s.posted) s.max_concurrency

launch-IsWithin :
    (limit : ℕ) (job : JobRecord) (s : JobDispatcher)
    → IsWithin limit s
    → s.inflight_count + 1 ≤ limit
    → IsWithin limit (launch job s)
unfolding launch
launch-IsWithin limit job s h room = record {
  counted = omega (
    arith,
    h,
    length-append s.tasks (record { job = job; cancel = s.next_flag; workers = s.workers } ∷ []),
  );
  inflight = room;
  allowed = h.allowed;
}

launch_all-IsWithin :
    (limit : ℕ) (jobs : List JobRecord) (s : JobDispatcher)
    → IsWithin limit s
    → s.inflight_count + length jobs ≤ limit
    → IsWithin limit (launch_all jobs s)
unfolding launch_all launch
launch_all-IsWithin limit [] s h room = h
launch_all-IsWithin limit (job ∷ jobs) s h room =
    launch_all-IsWithin limit jobs (launch job s) (launch-IsWithin limit job s h (omega arith))
      (omega arith)

dispatch_claimed-IsWithin :
    (limit n : ℕ) (s : JobDispatcher) (z : JobQueue × Result (List JobRecord))
    → IsWithin limit s
    → s.inflight_count + n ≤ limit
    → Grants [] n s.queue z
    → IsWithin limit (dispatch_claimed z s)
unfolding dispatch_claimed
dispatch_claimed-IsWithin limit n s (q, ok jobs) h room g =
    launch_all-IsWithin limit jobs (record s { queue = q }) (h) (omega (arith, g.1))
dispatch_claimed-IsWithin limit n s (q, err e) h room g = h

try_dispatch-IsWithin :
    (limit : ℕ) (disk : Disk) (now : ℕ) (s : JobDispatcher)
    → IsWithin limit s
    → IsWithin limit (try_dispatch disk now s)
unfolding try_dispatch
try_dispatch-IsWithin limit disk now s h =
    if_cases (IsWithin limit) (not s.running || not s.queue.open_) _ _ (λ _. h)
      λ _.
        if_cases (IsWithin limit) (leb s.max_concurrency s.inflight_count) _ _ (λ _. h)
          λ e.
            let free = s.max_concurrency - s.inflight_count in
            dispatch_claimed-IsWithin limit free s _ h (ground (arith, h.allowed))
              (claim-Grants [] disk free now s.queue)

-- What `pick` takes out of the tasks.
abbrev pub Picks : List Task → Option (Task × List Task) → Type 0
Picks ts none = Unit
Picks ts (some (t, rest)) =
    (length ts ≡ suc (length rest)) × ((p : Task → Bool) → count p ts ≡ count p (t ∷ rest))

put_back-Picks :
    (u : Task) (ts : List Task) (o : Option (Task × List Task))
    → Picks ts o
    → Picks (u ∷ ts) (put_back u o)
put_back-Picks u ts none h = tt
put_back-Picks u ts (some (t, rest)) (l, c) = (omega (arith, l), λ p. ground (arith, c p))

pub pick-Picks : (n : ℕ) (ts : List Task) → Picks ts (pick n ts)
unfolding pick
pick-Picks n [] = tt
pick-Picks zero (t ∷ ts) = (refl, λ p. refl)
pick-Picks (suc n) (t ∷ ts) = put_back-Picks t ts (pick n ts) (pick-Picks n ts)

finish_picked-IsWithin :
    (limit : ℕ) (outcome : Error) (o : Option (Task × List Task)) (s : JobDispatcher)
    → Picks s.tasks o
    → IsWithin limit s
    → IsWithin limit (finish_picked outcome o s)
unfolding finish_picked
finish_picked-IsWithin limit outcome none s g h = h
finish_picked-IsWithin limit outcome (some (t, rest)) s g h = record {
  counted = omega (arith, h, g.0, length-append s.posted (task_completion s.flags outcome t ∷ []));
  inflight = h.inflight;
  allowed = h.allowed;
}

complete_posted-IsWithin :
    (limit : ℕ) (disk disk' : Disk) (now : ℕ) (posted : List Completion) (s : JobDispatcher)
    → s.posted ≡ posted
    → IsWithin limit s
    → IsWithin limit (complete_posted disk disk' now posted s)
unfolding finish_job
complete_posted-IsWithin limit disk disk' now [] s e h = h
complete_posted-IsWithin limit disk disk' now (c ∷ rest) s e h =
    try_dispatch-IsWithin limit disk' now (finish_job disk c (record s { posted = rest })) (record {
      counted = omega (arith, h, ap length e);
      inflight = omega (arith, h);
      allowed = h.allowed;
    })

stop_round-IsWithin :
    (limit : ℕ) (disk disk' : Disk) (now : ℕ) (s : JobDispatcher)
    → IsWithin limit s
    → IsWithin limit (stop_round disk disk' now s).0
unfolding stop_round
stop_round-IsWithin limit disk disk' now s h =
    if_cases P (ltb 0 s.inflight_count) _ _ (λ _. h)
      λ _.
        if_cases P (none_pending (pending_count disk s.queue)) _ _ (λ _. h)
          (λ _. try_dispatch-IsWithin limit disk' now s h)
  where
    P : JobDispatcher × Bool → Type 0
    P z = IsWithin limit z.0

-- The largest limit that a run sets, and the limit at its start.
abbrev pub raise : Operation → ℕ → ℕ
raise (limits n) limit = if leb limit n then n else limit
raise (registers kind) limit = limit
raise (starts disk now) limit = limit
raise (polls disk now) limit = limit
raise (finishes n outcome) limit = limit
raise (completes disk disk' now) limit = limit
raise (requests_cancellation id) limit = limit
raise begins_stop limit = limit
raise (turns_stop disk disk' now) limit = limit
raise (submits disk job) limit = limit
raise (withdraws disk id) limit = limit

abbrev pub peak : List Operation → ℕ → ℕ
peak [] limit = limit
peak (o ∷ os) limit = peak os (raise o limit)

set_cancelled-IsWithin :
    (limit : ℕ) (found : Option ℕ) (s : JobDispatcher)
    → IsWithin limit s
    → IsWithin limit (set_cancelled found s)
set_cancelled-IsWithin limit none s h = h
set_cancelled-IsWithin limit (some f) s h = h

operate-IsWithin :
    (limit : ℕ) (o : Operation) (s : JobDispatcher)
    → 1 ≤ limit
    → IsWithin limit s
    → IsWithin (raise o limit) (operate o s)
unfolding operate register_worker set_max_concurrency start poll finish complete
    request_cancellation begin_stop
operate-IsWithin limit (registers kind) s one h = h
operate-IsWithin limit (limits n) s one h = record {
  counted = h.counted;
  inflight = ground (arith, h.inflight);
  allowed = ground (arith, h.allowed);
}
operate-IsWithin limit (starts disk now) s one h =
    if_cases (IsWithin limit) s.running _ _ (λ _. h)
      (λ _.
        try_dispatch-IsWithin limit disk now (record s { running = true; timer_active = true }) h)
operate-IsWithin limit (polls disk now) s one h =
    if_cases (IsWithin limit) s.timer_active _ _ (λ _. try_dispatch-IsWithin limit disk now s h)
      (λ _. h)
operate-IsWithin limit (finishes n outcome) s one h =
    finish_picked-IsWithin limit outcome (pick n s.tasks) s (pick-Picks n s.tasks) h
operate-IsWithin limit (completes disk disk' now) s one h =
    complete_posted-IsWithin limit disk disk' now s.posted s refl h
operate-IsWithin limit (requests_cancellation id) s one h =
    set_cancelled-IsWithin limit (hash_find id s.cancellations) s h
operate-IsWithin limit begins_stop s one h =
    if_cases (IsWithin limit) s.running _ _ (λ _. h) (λ _. h)
operate-IsWithin limit (turns_stop disk disk' now) s one h =
    stop_round-IsWithin limit disk disk' now s h
operate-IsWithin limit (submits disk job) s one h = h
operate-IsWithin limit (withdraws disk id) s one h = h

raise-le : (o : Operation) (limit : ℕ) → limit ≤ raise o limit
raise-le o limit = ground arith

serve-IsWithin :
    (os : List Operation) (limit : ℕ) (s : JobDispatcher)
    → 1 ≤ limit
    → IsWithin limit s
    → IsWithin (peak os limit) (serve os s)
unfolding serve
serve-IsWithin [] limit s one h = h
serve-IsWithin (o ∷ os) limit s one h =
    serve-IsWithin os (raise o limit) (operate o s) (omega (arith, raise-le o limit))
      (operate-IsWithin limit o s one h)

-- Through any run of a new dispatcher, `runningCount` is the number of the jobs that were handed to
-- the pool and whose completion has not been delivered, and is at most the largest concurrency limit
-- that was set, or 1.
pub running_count-le_peak :
    (os : List Operation) (q : JobQueue)
    → let s = serve os (job_dispatcher q) in
      (running_count s ≡ length s.tasks + length s.posted) × (running_count s ≤ peak os 1)
unfolding running_count job_dispatcher
running_count-le_peak os q =
    let h =
      serve-IsWithin os 1 (job_dispatcher q) (omega arith)
        (record { counted = refl; inflight = omega arith; allowed = omega arith }) in
    (h.counted, h.inflight)
