-- ===== src/Dispatcher/Tests.antt =====
-- A run of src/projection/src/job_dispatcher.cpp with two workers.
use pimio.Dispatcher.Cancels.{request_cancellation-reaches}
use pimio.Core.Error.{Error, timeout, no_error}
use pimio.Core.Job.{JobRecord, JobPriority, background, interactive, pending, generate_thumbnail}
use pimio.JobQueue.{Disk, JobQueue}
use pimio.JobQueue.Grants.{with_id, waiting}
use pimio.Dispatcher.{request_cancellation, task_completion, job_dispatcher, running_count}
use pimio.Dispatcher.Runs.{
  Operation, registers, limits, starts, finishes, completes, requests_cancellation, begins_stop,
  turns_stop, submits, serve,
}
use pimio.Dispatcher.Slots.{peak, running_count-le_peak}
use pimio.Dispatcher.Flights.{working, returning, cancellable}
use pimio.Dispatcher.Handing.{serve-exclusive}
use pimio.Dispatcher.Signals.{is_start, is_end, signals_balance}
use pimio.Base.{
  All, Bool-cases, text_eq→≡, subst, inl, inr, not, ◌||◌, ℕ, ◌+◌, ◌≤◌, ◌≡◌, arith, true, some, none,
  List, [], ◌∷◌, Text, codes, length, count, text_eq,
}

abbrev job : Text → JobPriority → ℕ → JobRecord
job id priority created = record {
  id = id;
  kind = generate_thumbnail;
  priority = priority;
  state = pending;
  coalescing_key = [];
  payload = codes "{}";
  attempts = 0;
  max_attempts = 2;
  created_at = some created;
  not_before = none;
  last_error = no_error;
}

abbrev queue : JobQueue
queue = record {
  open_ = true;
  rows = job (codes "a") background 10 ∷ job (codes "b") interactive 20 ∷ [];
}

abbrev runs : Disk
runs n = true

abbrev timed_out : Error
timed_out = record { code = timeout; message = []; context = [] }

abbrev shift : List Operation
shift =
    registers generate_thumbnail
    ∷ limits 2
    ∷ starts runs 100
    ∷ finishes 1 timed_out
    ∷ submits runs (job (codes "c") background 110)
    ∷ completes runs runs 120
    ∷ requests_cancellation (codes "b")
    ∷ begins_stop
    ∷ turns_stop runs runs 130
    ∷ []

running_count-le_peak_example :
    let s = serve shift (job_dispatcher queue) in
    (running_count s ≡ length s.tasks + length s.posted) × (running_count s ≤ peak shift 1)
running_count-le_peak_example = running_count-le_peak shift queue

serve-exclusive_example :
    let s = serve shift (job_dispatcher queue) in
    (working (codes "a") s.tasks + returning (codes "a") s.posted + waiting (codes "a") s.queue.rows
      ≤ 1)
    × (cancellable (codes "a") s.cancellations
        ≡ working (codes "a") s.tasks + returning (codes "a") s.posted)
unfolding text_eq
serve-exclusive_example = serve-exclusive (codes "a") shift queue (omega arith)

signals_balance_example :
    let s = serve shift (job_dispatcher queue) in
    count (is_start (codes "a")) s.emitted
    ≡ count (is_end (codes "a")) s.emitted
      + working (codes "a") s.tasks
      + returning (codes "a") s.posted
signals_balance_example = signals_balance (codes "a") shift queue

queue-keyed : (k : Text) → with_id k queue.rows ≤ 1
unfolding text_eq
queue-keyed k = elim (Bool-cases (text_eq (codes "a") k)) [
  | inl same ↦ subst (λ i. with_id i queue.rows ≤ 1) (text_eq→≡ (codes "a") k same) (omega arith)
  | inr differs ↦ ground arith
]

request_cancellation-reaches_example :
    let s = request_cancellation (codes "b") (
      serve
        (registers generate_thumbnail ∷ limits 2 ∷ starts runs 100 ∷ [])
        (job_dispatcher queue)) in
    All
      (λ t.
        (not (text_eq t.job.id (codes "b")) || (task_completion s.flags timed_out t).was_cancelled)
        ≡ true)
      s.tasks
request_cancellation-reaches_example =
    request_cancellation-reaches (codes "b") timed_out
      (registers generate_thumbnail ∷ limits 2 ∷ starts runs 100 ∷ []) queue queue-keyed
