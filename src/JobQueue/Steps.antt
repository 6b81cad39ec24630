-- ===== src/JobQueue/Steps.antt =====
-- The calls that write the table of src/projection/src/job_queue_operations.cpp, as one function, and
-- the common shape of what they do to its rows.
use pimio.Base.{
  mem_of_map, mem_append_left, ℕ, ◌≡◌, refl, Bool, false, not, ◌&&◌, ◌||◌, Option, none, some, List,
  [], ◌∷◌, ◌++◌, map, Memᴰ, arith, if◌then◌else◌, Text, if_cases, is_empty, any,
}
use pimio.Core.Error.{Error}
use pimio.Core.Job.{JobRecord, pending, cancelled}
use pimio.JobQueue.Claim.{started, claim-rows}
use pimio.JobQueue.{
  join_or_insert, gated, Disk, Result, JobQueue, has_id, is_pending, is_running, start, claim, fail,
  succeed, enqueue, find_pending_key, insert_row, recover_interrupted_jobs, mark_succeeded,
  mark_failed, mark_cancelled,
}

-- The calls that write the table.
pub data Call : Type 0 where
  recovers : Call
  enqueues : JobRecord → Call
  claims : ℕ → ℕ → Call
  succeeds : Text → Call
  fails : Text → Error → Call
  cancels : Text → Call

-- The queue after a call.
unfoldable pub call : Disk → Call → JobQueue → JobQueue
call disk recovers q = (recover_interrupted_jobs disk q).0
call disk (enqueues r) q = (enqueue disk r q).0
call disk (claims n now) q = (claim disk n now q).0
call disk (succeeds id) q = (mark_succeeded disk id q).0
call disk (fails id e) q = (mark_failed disk id e q).0
call disk (cancels id) q = (mark_cancelled disk id q).0

unfoldable pub run : JobQueue → List (Disk × Call) → JobQueue
run q [] = q
run q ((disk, c) ∷ cs) = run (call disk c q) cs

-- A relation of a row and its successor that every statement's SET respects.
pub record Respects (R : JobRecord → JobRecord → Type 0) : Type 0 where
  pub same : (r : JobRecord) → R r r
  pub by_claim : (r : JobRecord) (b : Bool) → R r (if b && is_pending r then start r else r)
  pub by_recovery : (r : JobRecord) → R r (if is_running r then record r { state = pending } else r)
  pub by_success : (r : JobRecord) (b : Bool) → R r (if b && is_running r then succeed r else r)
  pub by_failure :
      (e : Error) (r : JobRecord) (b : Bool) → R r (if b && is_running r then fail e r else r)
  pub by_cancel :
      (r : JobRecord) (b : Bool)
      → R r (if b && (is_pending r || is_running r) then record r { state = cancelled } else r)

-- What a call does to the table: each row makes a step, or the row that it enqueues is added under a
-- new id.
pub data Effect (R : JobRecord → JobRecord → Type 0) (c : Call) (rows next : List JobRecord)
    : Type 0 where
  moved :
      (f : JobRecord → JobRecord)
      → ((r : JobRecord) → R r (f r))
      → next ≡ map f rows
      → Effect R c rows next
  grown :
      (r : JobRecord)
      → c ≡ enqueues r
      → any (has_id r.id) rows ≡ false
      → next ≡ rows ++ r ∷ []
      → Effect R c rows next

map_same : (rows : List JobRecord) → rows ≡ map (λ r. r) rows
map_same [] = refl
map_same (r ∷ rows) = cc (map_same rows)

module _ (R : JobRecord → JobRecord → Type 0) (law : Respects R) where
  unchanged : (c : Call) (rows : List JobRecord) → Effect R c rows rows
  unchanged c rows = moved (λ r. r) law.same (map_same rows)

  started-R : (part : List JobRecord) (r : JobRecord) → R r (started part r)
  unfolding started
  started-R part r = law.by_claim r (any (λ c. has_id c.id r) part)

  insert_row-Effect :
      (runs : Bool) (r : JobRecord) (q : JobQueue)
      → Effect R (enqueues r) q.rows (insert_row runs r q).0.rows
  unfolding insert_row
  insert_row-Effect runs r q =
      if_cases {A = JobQueue × Result Text} (λ z. Effect R (enqueues r) q.rows z.0.rows)
        (runs && not (any (has_id r.id) q.rows)) _ _ (λ e. grown r refl (ground arith) refl)
        (λ _. unchanged (enqueues r) q.rows)

  join-Effect :
      (found : Option Text) (r : JobRecord) (q : JobQueue) (runs : Bool)
      → Effect R (enqueues r) q.rows (join_or_insert found runs r q).0.rows
  unfolding join_or_insert
  join-Effect none r q runs = insert_row-Effect runs r q
  join-Effect (some id) r q runs = unchanged (enqueues r) q.rows

  enqueue-Effect :
      (disk : Disk) (r : JobRecord) (q : JobQueue)
      → Effect R (enqueues r) q.rows (enqueue disk r q).0.rows
  unfolding enqueue
  enqueue-Effect disk r q =
      if_cases P (not q.open_) _ _ (λ _. unchanged (enqueues r) q.rows)
        λ _.
          if_cases P (is_empty r.coalescing_key) _ _ (λ _. insert_row-Effect (disk 0) r q)
            λ _.
              if_cases P (not (disk 0)) _ _ (λ _. unchanged (enqueues r) q.rows)
                λ _. join-Effect (find_pending_key r.coalescing_key q.rows) r q (disk 1)
    where
      P : JobQueue × Result Text → Type 0
      P z = Effect R (enqueues r) q.rows z.0.rows

  gated-Effect :
      (c : Call) (disk : Disk) (q : JobQueue) (f : JobRecord → JobRecord)
      → ((r : JobRecord) → R r (f r))
      → Effect R c q.rows (gated disk q (map f q.rows)).0.rows
  gated-Effect c disk q f h =
      if_cases P (not q.open_) _ _ (λ _. unchanged c q.rows)
        λ _. if_cases P (not (disk 0)) _ _ (λ _. unchanged c q.rows) (λ _. moved f h refl)
    where
      P : JobQueue × Result (Unit {0}) → Type 0
      P z = Effect R c q.rows z.0.rows

  -- Every call, whichever of its statements run, has such an effect.
  pub call-Effect : (disk : Disk) (c : Call) (q : JobQueue) → Effect R c q.rows (call disk c q).rows
  unfolding call recover_interrupted_jobs mark_succeeded mark_failed mark_cancelled
  call-Effect disk recovers q = gated-Effect recovers disk q _ law.by_recovery
  call-Effect disk (enqueues r) q = enqueue-Effect disk r q
  call-Effect disk (claims n now) q =
      let (part, p) = claim-rows disk n now q in moved (started part) (started-R part) p
  call-Effect disk (succeeds id) q =
      gated-Effect (succeeds id) disk q _ (λ r. law.by_success r (has_id id r))
  call-Effect disk (fails id e) q =
      gated-Effect (fails id e) disk q _ (λ r. law.by_failure e r (has_id id r))
  call-Effect disk (cancels id) q =
      gated-Effect (cancels id) disk q _ (λ r. law.by_cancel r (has_id id r))

-- Whatever row is there before an effect has its successor after it.
pub Effect-mem :
    (R : JobRecord → JobRecord → Type 0)
    → Respects R
    → {c : Call} {r : JobRecord} {rows next : List JobRecord} → Effect R c rows next
    → Memᴰ r rows
    → (s : JobRecord) × Memᴰ s next × R r s
Effect-mem R law {r = r} (moved f h e) m = (f r, rw e (mem_of_map f m), h r)
Effect-mem R law {r = r} (grown new _ fresh e) m =
    (r, rw e (mem_append_left (new ∷ []) m), law.same r)
