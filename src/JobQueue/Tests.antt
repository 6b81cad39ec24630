-- ===== src/JobQueue/Tests.antt =====
-- The job queue of src/projection/src/job_queue_operations.cpp on a small table.
use pimio.Core.Error.{Error, timeout, corrupt_data, internal, no_error}
use pimio.Core.Job.{
  JobRecord, JobPriority, JobState, interactive, background, pending, running, failed,
  generate_thumbnail, runs_before,
}
use pimio.JobQueue.{
  Disk, JobQueue, ok, err, has_id, is_running, ordered_before, order, enqueue, claim, start,
  select_claimable, recover_interrupted_jobs, mark_running, insert_ordered,
}
use pimio.JobQueue.Claim.{Claims, started, claim-Claims, claim_stranded}
use pimio.JobQueue.Steps.{Call, run, claims, fails, enqueues, cancels}
use pimio.JobQueue.Life.{Lives, run-Lives}
use pimio.JobQueue.Keys.{IsKeyed}
use pimio.JobQueue.Retry.{IsBounded, rounds, rounds_end}
use pimio.JobQueue.Coalescing.{Coalesces, enqueue-Coalesces}
use pimio.JobQueue.Dates.{ordered_before-runs_before}
use pimio.JobQueue.Batches.{claim_exclusive, recover_restores, restored}
use pimio.Base.{
  ℕ, zero, suc, ◌+◌, ◌≤◌, ◌≡◌, refl, true, false, Option, none, some, List, [], ◌∷◌, map, Memᴰ,
  arith, Text, codes, All, text_eq, ◌<◌, count, any, take,
}

abbrev job : Text → JobPriority → JobState → Option ℕ → Text → JobRecord
job id priority state created key = record {
  id = id;
  kind = generate_thumbnail;
  priority = priority;
  state = state;
  coalescing_key = key;
  payload = codes "{}";
  attempts = 0;
  max_attempts = 2;
  created_at = created;
  not_before = none;
  last_error = no_error;
}

abbrev old_one : JobRecord
old_one = job (codes "a") background pending (some 10) (codes "k")

abbrev fresh_one : JobRecord
fresh_one = job (codes "b") interactive pending (some 20) []

abbrev busy_one : JobRecord
busy_one = job (codes "c") background running (some 5) (codes "k")

abbrev new_one : JobRecord
new_one = job (codes "d") background pending (some 30) (codes "k")

abbrev queue : JobQueue
queue = record { open_ = true; rows = old_one ∷ fresh_one ∷ busy_one ∷ [] }

abbrev runs : Disk
runs n = true

-- The third statement of a call fails.
abbrev third_fails : Disk
third_fails zero = true
third_fails (suc zero) = true
third_fails _ = false

abbrev timed_out : Error
timed_out = record { code = timeout; message = []; context = [] }

abbrev corrupted : Error
corrupted = record { code = corrupt_data; message = []; context = [] }

abbrev day : List (Disk × Call)
day =
    (runs, claims 1 100)
    ∷ (runs, fails (codes "b") timed_out)
    ∷ (third_fails, claims 2 100)
    ∷ (runs, enqueues new_one)
    ∷ (runs, cancels (codes "c"))
    ∷ []

claim-Claims_example :
    (chosen : List JobRecord) × Claims 1 100 queue.rows chosen
    × (claim runs 1 100 queue
        ≡ (record queue { rows = map (started chosen) queue.rows }, ok (map start chosen)))
claim-Claims_example = claim-Claims runs 1 100 queue refl (omega arith) (λ i. refl)

claim_stranded_example : claim third_fails 2 100 queue ≡ (
  record queue { rows = map (started (take 1 (select_claimable 2 100 queue.rows))) queue.rows },
  err internal,
)
unfolding select_claimable order insert_ordered ordered_before
claim_stranded_example =
    claim_stranded third_fails 2 100 1 queue refl (omega arith) refl first refl (omega arith)
  where
    first : (i : ℕ) → i < 1 → third_fails (1 + i) ≡ true
    first zero h = refl
    first (suc i) h = absurd (omega arith)

run-Lives_example : (s : JobRecord) × Memᴰ s (run queue day).rows × Lives queue day fresh_one s
run-Lives_example = run-Lives day queue (Memᴰ.tail (Memᴰ.head refl))

queue-IsKeyed : IsKeyed queue.rows
unfolding text_eq
queue-IsKeyed = (refl, (refl, (refl, tt)))

bounded : (r : JobRecord) → r.attempts < r.max_attempts → IsBounded r
bounded r h = record { within = omega arith; live = λ e. h }

rounds_end_example :
    ((rounds (timed_out ∷ timed_out ∷ []) old_one).state ≡ failed)
    × ((rounds (timed_out ∷ timed_out ∷ []) old_one).attempts ≤ 2)
rounds_end_example =
    rounds_end (timed_out ∷ timed_out ∷ []) old_one refl (omega arith) (omega arith)

enqueue-Coalesces_example : Coalesces new_one queue (enqueue runs new_one queue)
enqueue-Coalesces_example = enqueue-Coalesces runs new_one queue refl (λ i. refl) refl

ordered_before-runs_before_example : ordered_before old_one new_one ≡ runs_before old_one new_one
ordered_before-runs_before_example =
    ordered_before-runs_before old_one new_one refl (omega arith) (omega arith)

abbrev claimed : JobQueue
claimed = record queue { rows = old_one ∷ start fresh_one ∷ busy_one ∷ [] }

abbrev claimed_again : JobQueue
claimed_again = record queue { rows = start old_one ∷ start fresh_one ∷ busy_one ∷ [] }

claim_exclusive_example :
    All (λ r. Memᴰ r claimed.rows × (r.state ≡ running)) (start fresh_one ∷ [])
    × All (λ s. any (has_id s.id) (start fresh_one ∷ []) ≡ false) (start old_one ∷ [])
unfolding claim select_claimable order insert_ordered ordered_before mark_running text_eq
claim_exclusive_example =
    claim_exclusive runs runs 1 100 5 200 queue claimed claimed_again (start fresh_one ∷ [])
      (start old_one ∷ []) refl refl

recover_restores_example :
    let rows = (recover_interrupted_jobs runs queue).0.rows in
    (count is_running rows ≡ 0) × All (λ r. Memᴰ (restored r) rows) queue.rows
recover_restores_example = recover_restores runs queue refl refl
