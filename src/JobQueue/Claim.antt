-- ===== src/JobQueue/Claim.antt =====
-- `claim` of src/projection/src/job_queue_operations.cpp: what it selects and what it changes.
use pimio.Base.{
  ℕ, zero, suc, ◌+◌, ◌≤◌, ◌<◌, ◌≡◌, refl, sym, subst, ◌∙◌, ◌⊎◌, inl, inr, Bool, true, false, not,
  ◌&&◌, List, [], ◌∷◌, map, Memᴰ, arith, ◌==◌, if◌then◌else◌, All, Bool-cases, if_cases, take,
  length, filter, any, length-take-le, mem-filter, mem_of_filter, mem-take,
}
use pimio.Core.Error.{internal}
use pimio.Core.Job.{JobRecord}
use pimio.JobQueue.{
  Disk, Result, ok, err, JobQueue, has_id, is_pending, is_eligible, ordered_before, order, start,
  set_running, mark_running, select_claimable, finish_claim, claim,
}
use pimio.JobQueue.Order.{
  IsOrdered, mem-order, mem_of_order, order-IsOrdered, take-IsOrdered, take-best,
}

-- A row after the UPDATE statements for the rows of `chosen`.
unfoldable pub started : List JobRecord → JobRecord → JobRecord
started chosen r = if any (λ c. has_id c.id r) chosen && is_pending r then start r else r

started-cons :
    (c : JobRecord) (chosen : List JobRecord) (r : JobRecord)
    → started chosen (if has_id c.id r && is_pending r then start r else r) ≡ started (c ∷ chosen) r
unfolding started
started-cons c chosen r = ground arith

pub map-started_cons :
    (c : JobRecord) (chosen rows : List JobRecord)
    → map (started chosen) (set_running c.id rows) ≡ map (started (c ∷ chosen)) rows
map-started_cons c chosen [] = refl
map-started_cons c chosen (r ∷ rows) = cc (started-cons c chosen r, map-started_cons c chosen rows)

pub map-started_nil : (rows : List JobRecord) → map (started []) rows ≡ rows
unfolding started
map-started_nil [] = refl
map-started_nil (r ∷ rows) = cc (map-started_nil rows)

-- Where every statement runs, the loop starts the chosen rows and no other.
pub mark_running_lem :
    (disk : Disk) (n : ℕ) (chosen rows : List JobRecord)
    → ((i : ℕ) → disk i ≡ true)
    → mark_running disk n chosen rows ≡ (map (started chosen) rows, true)
unfolding mark_running
mark_running_lem disk n [] rows h = rw (map-started_nil rows)
mark_running_lem disk n (c ∷ chosen) rows h =
    rw (h n, mark_running_lem disk (n + 1) chosen (set_running c.id rows) h)
      (rw (map-started_cons c chosen rows))

pub select-eligible :
    (n now : ℕ) {r : JobRecord} (rows : List JobRecord)
    → Memᴰ r (select_claimable n now rows)
    → Memᴰ r rows × (is_eligible now r ≡ true)
unfolding select_claimable
select-eligible n now rows m = mem-filter (is_eligible now) rows (
    mem-order (filter (is_eligible now) rows)
      (mem-take n (order (filter (is_eligible now) rows)) m))

-- What `claim` promises of the rows that it selects from `rows`.
pub record Claims (n now : ℕ) (rows chosen : List JobRecord) : Type 0 where
  pub within : length chosen ≤ n
  pub ordered : IsOrdered chosen
  pub sound : (r : JobRecord) → Memᴰ r chosen → Memᴰ r rows × (is_eligible now r ≡ true)
  pub best :
      (r : JobRecord)
      → Memᴰ r rows
      → is_eligible now r ≡ true
      → Memᴰ r chosen ⊎ (All (λ c. ordered_before r c ≡ false) chosen × (length chosen ≡ n))

select-Claims :
    (n now : ℕ) (rows : List JobRecord) → Claims n now rows (select_claimable n now rows)
unfolding select_claimable
select-Claims n now rows = record {
  within = length-take-le n (order (filter (is_eligible now) rows));
  ordered = take-IsOrdered n _ (order-IsOrdered (filter (is_eligible now) rows));
  sound = λ r. select-eligible n now rows;
  best = λ r m e.
      take-best n _ (order-IsOrdered (filter (is_eligible now) rows))
        (mem_of_order (mem_of_filter (is_eligible now) m e));
}

-- On an open queue whose statements all run, a claim for at least one job returns, marked running,
-- at most that many due pending rows, in the queue's order; a due pending row that it leaves out
-- comes before none of them, and is left out only if the claim is full. In the table exactly the
-- pending rows with a returned id become running, and no other row changes.
pub claim-Claims :
    (disk : Disk) (n now : ℕ) (q : JobQueue)
    → q.open_ ≡ true
    → 0 < n
    → ((i : ℕ) → disk i ≡ true)
    → (chosen : List JobRecord) × Claims n now q.rows chosen
      × (claim disk n now q
          ≡ (record q { rows = map (started chosen) q.rows }, ok (map start chosen)))
unfolding claim
claim-Claims disk n now q h pos run = (
  select_claimable n now q.rows,
  select-Claims n now q.rows,
  rw (h, run 0, mark_running_lem disk 1 (select_claimable n now q.rows) q.rows run) (ground arith),
)

mark_running_stops :
    (disk : Disk) (n k : ℕ) (chosen rows : List JobRecord)
    → ((i : ℕ) → i < k → disk (n + i) ≡ true)
    → disk (n + k) ≡ false
    → k < length chosen
    → mark_running disk n chosen rows ≡ (map (started (take k chosen)) rows, false)
unfolding mark_running
mark_running_stops disk n k [] rows run stop h = absurd (omega arith)
mark_running_stops disk n zero (c ∷ chosen) rows run stop h =
    let e : n ≡ n + 0 = omega arith in
    let stop' : disk n ≡ false = subst (λ m. disk m ≡ false) (sym e) stop in
    rw (stop', map-started_nil rows)
mark_running_stops disk n (suc k) (c ∷ chosen) rows run stop h =
    let e : n + 0 ≡ n = omega arith in
    let first : disk n ≡ true = subst (λ m. disk m ≡ true) e (run 0 (omega arith)) in
    let shift = λ (i : ℕ). shifted i in
    rw
      (
        first,
        mark_running_stops disk (n + 1) k chosen (set_running c.id rows)
            (λ i p. subst (λ m. disk m ≡ true) (shift i) (run (suc i) (omega arith)))
            (subst (λ m. disk m ≡ false) (shift k) stop) (omega arith),
      )
      (rw (map-started_cons c (take k chosen) rows))
  where
    shifted : (i : ℕ) → n + suc i ≡ n + 1 + i
    shifted i = omega arith

-- If the UPDATE for the (k+1)-th selected job fails, `claim` reports an error and returns no job,
-- and the first k selected jobs stay marked running in the table.
pub claim_stranded :
    (disk : Disk) (n now k : ℕ) (q : JobQueue)
    → q.open_ ≡ true
    → 0 < n
    → disk 0 ≡ true
    → ((i : ℕ) → i < k → disk (1 + i) ≡ true)
    → disk (1 + k) ≡ false
    → k < length (select_claimable n now q.rows)
    → claim disk n now q ≡ (
      record q { rows = map (started (take k (select_claimable n now q.rows))) q.rows },
      err internal,
    )
unfolding claim
claim_stranded disk n now k q h pos first run stop short =
    rw (h, first, mark_running_stops disk 1 k (select_claimable n now q.rows) q.rows run stop short)
      (ground arith)

-- However the loop ends, it has started the rows of some part of the selection.
pub mark_running-prefix :
    (disk : Disk) (n : ℕ) (chosen rows : List JobRecord)
    → (part : List JobRecord) × ((mark_running disk n chosen rows).0 ≡ map (started part) rows)
unfolding mark_running
mark_running-prefix disk n [] rows = ([], sym (map-started_nil rows))
mark_running-prefix disk n (c ∷ chosen) rows = elim (Bool-cases (disk n)) [
  | inl e ↦
      let (part, p) = mark_running-prefix disk (n + 1) chosen (set_running c.id rows) in
      (c ∷ part, rw (e, p) (map-started_cons c part rows))
  | inr e ↦ ([], rw e (sym (map-started_nil rows)))
]

finish_claim-rows :
    (q : JobQueue) (chosen : List JobRecord) (p : List JobRecord × Bool)
    → (finish_claim q chosen p).0.rows ≡ p.0
finish_claim-rows q chosen (rows, true) = refl
finish_claim-rows q chosen (rows, false) = refl

-- The table after a claim, whichever statements run.
pub claim-rows :
    (disk : Disk) (n now : ℕ) (q : JobQueue)
    → (part : List JobRecord) × ((claim disk n now q).0.rows ≡ map (started part) q.rows)
unfolding claim
claim-rows disk n now q =
    if_cases P (not q.open_) _ _ (λ _. same)
      λ _.
        if_cases P (n == 0) _ _ (λ _. same)
          λ _.
            if_cases P (not (disk 0)) _ _ (λ _. same)
              λ _.
                let chosen = select_claimable n now q.rows in
                let (part, p) = mark_running-prefix disk 1 chosen q.rows in
                (part, finish_claim-rows q chosen _ ∙ p)
  where
    P : JobQueue × Result (List JobRecord) → Type 0
    P z = (part : List JobRecord) × (z.0.rows ≡ map (started part) q.rows)

    same : (part : List JobRecord) × (q.rows ≡ map (started part) q.rows)
    same = ([], sym (map-started_nil q.rows))
