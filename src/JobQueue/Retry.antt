-- ===== src/JobQueue/Retry.antt =====
-- Attempts and retries: `markFailed` of src/projection/src/job_queue_operations.cpp against
-- `JobRecord::canRetry` of src/core/src/job.cpp.
use pimio.JobQueue.Steps.{
  recovers, claims, succeeds, fails, cancels, Call, call, run, Respects, Effect, call-Effect,
  enqueues, moved, grown,
}
use pimio.JobQueue.{is_pending, start, JobQueue, Disk, fail}
use pimio.Core.Error.{Error}
use pimio.Core.Job.{JobRecord, can_retry, is_terminal, pending, failed}
use pimio.Base.{
  map, subst, length, ◌⊎◌, inl, inr, false, List, [], ◌∷◌, false, arith, refl, ◌≤◌, ◌<◌, ◌+◌, none,
  if◌then◌else◌, All, All-append, ◌≡◌,
}

-- A row whose attempts are within the limit, and below it while the job may still run.
pub record IsBounded (r : JobRecord) : Type 0 where
  pub within : r.attempts ≤ r.max_attempts
  pub live : is_terminal r.state ≡ false → r.attempts < r.max_attempts

-- The CASE expressions of `markFailed` retry exactly where `canRetry` of the failed record says so:
-- then the job is pending again with no waiting time, and otherwise it is failed; the failure is
-- recorded and counted on both paths.
pub fail-can_retry :
    (e : Error) (r : JobRecord)
    → fail e r ≡ (
        let f : JobRecord = record r {
          state = failed;
          attempts = r.attempts + 1;
          last_error = e;
        } in
        if can_retry f then record f { state = pending; not_before = none } else f)
unfolding fail can_retry
fail-can_retry e r = ground arith

abbrev KeepsBounds : JobRecord → JobRecord → Type 0
KeepsBounds r s = IsBounded r → IsBounded s

KeepsBounds-Respects : Respects KeepsBounds
unfolding fail is_terminal
KeepsBounds-Respects = record {
  same = λ r h. h;
  by_claim = λ r b h. ground arith;
  by_recovery = λ r h. ground arith;
  by_success = λ r b h. ground arith;
  by_failure = λ e r b h. ground arith;
  by_cancel = λ r b h. ground arith;
}

-- What is asked of the record that a call enqueues.
abbrev pub Enqueues : (JobRecord → Type 0) → Call → Type 0
Enqueues P (enqueues r) = P r
Enqueues P recovers = Unit
Enqueues P (claims n now) = Unit
Enqueues P (succeeds id) = Unit
Enqueues P (fails id e) = Unit
Enqueues P (cancels id) = Unit

All-map :
    (f : JobRecord → JobRecord) (rows : List JobRecord)
    → ((r : JobRecord) → KeepsBounds r (f r))
    → All IsBounded rows
    → All IsBounded (map f rows)
All-map f [] h a = tt
All-map f (r ∷ rows) h a = (h r a.0, All-map f rows h a.1)

call-IsBounded :
    (disk : Disk) (c : Call) (q : JobQueue)
    → Enqueues IsBounded c
    → All IsBounded q.rows
    → All IsBounded (call disk c q).rows
call-IsBounded disk c q new h = keep (call-Effect KeepsBounds KeepsBounds-Respects disk c q)
  where
    keep : Effect KeepsBounds c q.rows (call disk c q).rows → All IsBounded (call disk c q).rows
    keep (moved f g e) = rw e (All-map f q.rows g h)
    keep (grown r made _ e) =
        rw e (All-append IsBounded q.rows (r ∷ []) h (subst (Enqueues IsBounded) made new, tt))

-- If every enqueued record has an attempt left, then through any sequence of calls no job exceeds
-- its attempt limit, and every job that is pending or running has an attempt left.
pub run-IsBounded :
    (cs : List (Disk × Call)) (q : JobQueue)
    → All (λ (c : Disk × Call). Enqueues IsBounded c.1) cs
    → All IsBounded q.rows
    → All IsBounded (run q cs).rows
unfolding run
run-IsBounded [] q new h = h
run-IsBounded ((disk, c) ∷ cs) q new h =
    run-IsBounded cs (call disk c q) new.1 (call-IsBounded disk c q new.0 h)

-- One round of a job: it is claimed, and its worker fails.
pub round : Error → JobRecord → JobRecord
unfolding fail
round e r = if is_pending r then fail e (start r) else r

pub rounds : List Error → JobRecord → JobRecord
rounds [] r = r
rounds (e ∷ es) r = rounds es (round e r)

round_ended : (es : List Error) (r : JobRecord) → is_pending r ≡ false → rounds es r ≡ r
unfolding rounds round
round_ended [] r h = refl
round_ended (e ∷ es) r h = rw h (round_ended es r h)

round_step :
    (e : Error) (r : JobRecord)
    → r.state ≡ pending
    → r.attempts < r.max_attempts
    → ((round e r).attempts ≡ r.attempts + 1)
      × ((round e r).max_attempts ≡ r.max_attempts)
      × (((round e r).state ≡ failed)
          ⊎ (((round e r).state ≡ pending) × (r.attempts + 1 < r.max_attempts)))
unfolding round fail
round_step e r h k = ground arith

-- A pending job whose every run fails ends as failed, within its attempt limit, after at most as
-- many runs as it has attempts left, whatever the failures are; it is never run beyond the limit.
pub rounds_end :
    (es : List Error) (r : JobRecord)
    → r.state ≡ pending
    → r.attempts < r.max_attempts
    → r.max_attempts ≤ r.attempts + length es
    → ((rounds es r).state ≡ failed) × ((rounds es r).attempts ≤ r.max_attempts)
unfolding rounds
rounds_end [] r p h k = absurd (omega arith)
rounds_end (e ∷ es) r p h k =
    let (tries, limit, next) = round_step e r p h in
    elim next [
      | inl ended ↦ rw (round_ended es (round e r) (rw ended)) (ended, omega arith)
      | inr (again, left) ↦
          let (state, most) = rounds_end es (round e r) again (omega arith) (omega arith) in
          (state, omega arith)
    ]
