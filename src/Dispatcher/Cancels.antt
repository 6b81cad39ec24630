-- ===== src/Dispatcher/Cancels.antt =====
-- Cancellation in src/projection/src/job_dispatcher.cpp reaches the worker of the job.
use pimio.Dispatcher.Flags.{IsHeld, Held, try_dispatch-Held, complete_posted-Held}
use pimio.Core.Error.{Error}
use pimio.JobQueue.{Disk, JobQueue, pending_count}
use pimio.JobQueue.Grants.{with_id, waiting-with_id}
use pimio.Dispatcher.{
  JobDispatcher, Task, job_dispatcher, register_worker, set_max_concurrency, request_cancellation,
  set_cancelled, start, poll, finish, finish_picked, pick, put_back, task_completion, complete,
  begin_stop, stop_round, hash_find, none_pending,
}
use pimio.Dispatcher.Runs.{
  Operation, registers, limits, starts, polls, finishes, completes, requests_cancellation,
  begins_stop, turns_stop, submits, withdraws, operate, serve,
}
use pimio.Dispatcher.Flights.{SoundAt}
use pimio.Dispatcher.Handing.{operate-SoundAt}
use mathlib.Core.Option.{some-injective, none-ne-some}
use pimio.Base.{
  ℕ, zero, suc, ◌≤◌, ◌≡◌, refl, sym, subst, ◌∙◌, inl, inr, Bool, true, not, ◌||◌, Option, none,
  some, List, [], ◌∷◌, arith, ltb, Text, text_eq, text_eq→≡, All, All-of, All-mem, if_cases,
  Bool-cases,
}

-- The tasks that `pick` leaves.
abbrev Left : (Task → Type 0) → Option (Task × List Task) → Type 0
Left P none = Unit
Left P (some (t, rest)) = All P rest

put_back-Left :
    (P : Task → Type 0) (u : Task) (o : Option (Task × List Task))
    → P u
    → Left P o
    → Left P (put_back u o)
put_back-Left P u none h k = tt
put_back-Left P u (some (t, rest)) h k = (h, k)

pick-Left : (P : Task → Type 0) (n : ℕ) (ts : List Task) → All P ts → Left P (pick n ts)
unfolding pick
pick-Left P n [] a = tt
pick-Left P zero (t ∷ ts) a = a.1
pick-Left P (suc n) (t ∷ ts) a = put_back-Left P t (pick n ts) a.0 (pick-Left P n ts a.1)

finish_picked-Held :
    (outcome : Error) (o : Option (Task × List Task)) (s : JobDispatcher)
    → Left (IsHeld s.cancellations) o
    → Held s
    → Held (finish_picked outcome o s)
unfolding finish_picked
finish_picked-Held outcome none s l h = h
finish_picked-Held outcome (some (t, rest)) s l h = l

set_cancelled-Held : (found : Option ℕ) (s : JobDispatcher) → Held s → Held (set_cancelled found s)
set_cancelled-Held none s h = h
set_cancelled-Held (some f) s h = h

stop_round-Held :
    (disk disk' : Disk) (now : ℕ) (s : JobDispatcher)
    → ((id : Text) → SoundAt id s)
    → Held s
    → Held (stop_round disk disk' now s).0
unfolding stop_round
stop_round-Held disk disk' now s sound h =
    if_cases P (ltb 0 s.inflight_count) _ _ (λ _. h)
      λ _.
        if_cases P (none_pending (pending_count disk s.queue)) _ _ (λ _. h)
          (λ _. try_dispatch-Held disk' now s sound h)
  where
    P : JobDispatcher × Bool → Type 0
    P z = Held z.0

operate-Held :
    (o : Operation) (s : JobDispatcher) → ((id : Text) → SoundAt id s) → Held s → Held (operate o s)
unfolding operate register_worker set_max_concurrency start poll finish complete
    request_cancellation begin_stop
operate-Held (registers kind) s sound h = h
operate-Held (limits n) s sound h = h
operate-Held (starts disk now) s sound h =
    if_cases Held s.running _ _ (λ _. h)
      (λ _. try_dispatch-Held disk now (record s { running = true; timer_active = true }) sound h)
operate-Held (polls disk now) s sound h =
    if_cases Held s.timer_active _ _ (λ _. try_dispatch-Held disk now s sound h) (λ _. h)
operate-Held (finishes n outcome) s sound h =
    finish_picked-Held outcome (pick n s.tasks) s (pick-Left (IsHeld s.cancellations) n s.tasks h) h
operate-Held (completes disk disk' now) s sound h =
    complete_posted-Held disk disk' now s.posted s refl sound h
operate-Held (requests_cancellation job) s sound h =
    set_cancelled-Held (hash_find job s.cancellations) s h
operate-Held begins_stop s sound h = if_cases Held s.running _ _ (λ _. h) (λ _. h)
operate-Held (turns_stop disk disk' now) s sound h = stop_round-Held disk disk' now s sound h
operate-Held (submits disk job) s sound h = h
operate-Held (withdraws disk job) s sound h = h

serve-Held :
    (os : List Operation) (s : JobDispatcher)
    → ((id : Text) → SoundAt id s)
    → Held s
    → Held (serve os s)
unfolding serve
serve-Held [] s sound h = h
serve-Held (o ∷ os) s sound h =
    serve-Held os (operate o s) (λ id. operate-SoundAt id o s (sound id)) (operate-Held o s sound h)

held_flag :
    (id : Text) (entries : List (Text × ℕ)) (t : Task)
    → IsHeld entries t
    → text_eq t.job.id id ≡ true
    → hash_find id entries ≡ some t.cancel
held_flag id entries t h same =
    subst (λ k. hash_find k entries ≡ some t.cancel) (text_eq→≡ _ _ same) h

set_cancelled-reaches :
    (id : Text) (s : JobDispatcher) (t : Task) (found : Option ℕ)
    → hash_find id s.cancellations ≡ found
    → IsHeld s.cancellations t
    → (not (text_eq t.job.id id) || (set_cancelled found s).flags t.cancel) ≡ true
set_cancelled-reaches id s t found e h = elim (Bool-cases (text_eq t.job.id id)) [
  | inl same ↦ at_flag found e (held_flag id s.cancellations t h same)
  | inr differs ↦ rw differs refl
]
  where
    at_flag :
        (found : Option ℕ)
        → hash_find id s.cancellations ≡ found
        → hash_find id s.cancellations ≡ some t.cancel
        → (not (text_eq t.job.id id) || (set_cancelled found s).flags t.cancel) ≡ true
    at_flag none e h = elim (none-ne-some _ (sym e ∙ h)) [ ]
    at_flag (some f) e h = ground (arith, some-injective f t.cancel (sym e ∙ h))

-- At any point of a run of a new dispatcher over a table with no two rows of one id, after the
-- cancellation of a job is requested the flag of every worker's task with that job is set: the
-- completion that such a task posts with these flags says that it was cancelled, whatever the outcome.
pub request_cancellation-reaches :
    (id : Text) (outcome : Error) (os : List Operation) (q : JobQueue)
    → ((k : Text) → with_id k q.rows ≤ 1)
    → let s = request_cancellation id (serve os (job_dispatcher q)) in
      All
        (λ t.
          (not (text_eq t.job.id id) || (task_completion s.flags outcome t).was_cancelled) ≡ true)
        s.tasks
unfolding request_cancellation job_dispatcher task_completion
request_cancellation-reaches id outcome os q keyed = reached (hash_find id s.cancellations) refl
  where
    s : JobDispatcher
    s = serve os (job_dispatcher q)

    held : Held s
    held =
        serve-Held os (job_dispatcher q)
          (λ k. record {
            keyed = keyed k;
            single = omega (arith, waiting-with_id k q.rows);
            held = refl;
          })
          tt

    reached :
        (found : Option ℕ)
        → hash_find id s.cancellations ≡ found
        → All
            (λ t. (not (text_eq t.job.id id) || (set_cancelled found s).flags t.cancel) ≡ true)
            (set_cancelled found s).tasks
    reached none e =
        All-of _ s.tasks
          λ t m. set_cancelled-reaches id s t none e (All-mem (IsHeld s.cancellations) held m)
    reached (some f) e =
        All-of _ s.tasks
          λ t m. set_cancelled-reaches id s t (some f) e (All-mem (IsHeld s.cancellations) held m)
