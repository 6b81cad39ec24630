-- ===== src/Dispatcher/Writes.antt =====
-- What the statements that src/projection/src/job_dispatcher.cpp and the queue's other clients run
-- do to the rows of an id.
use pimio.Core.Job.{JobRecord, cancelled}
use pimio.Core.Error.{is_error}
use pimio.JobQueue.{
  Disk, JobQueue, Result, has_id, is_pending, is_running, enqueue, insert_row, join_or_insert,
  find_pending_key, gated, mark_cancelled, mark_failed, mark_succeeded, fail, succeed,
}
use pimio.JobQueue.Grants.{with_id, waiting, update-with_id, update-waiting}
use pimio.Dispatcher.{Completion, settle}
use pimio.Dispatcher.Flights.{count-append}
use pimio.Base.{
  ℕ, ◌+◌, ◌≤◌, ◌≡◌, refl, inl, inr, Bool, true, false, not, ◌&&◌, ◌||◌, Option, none, some, List,
  [], ◌∷◌, ◌++◌, map, arith, if◌then◌else◌, Text, text_eq, text_eq→≡, is_empty, any, if_cases,
  Bool-cases, sym, subst, ◌∙◌, false≢true, &&-eq_true,
}

-- What a call on the row of one job does to the rows of an id.
pub record Settles (job id : Text) (before after : List JobRecord) : Type 0 where
  pub same : with_id id after ≡ with_id id before
  pub less : text_eq job id ≡ false → waiting id after ≤ waiting id before

settled_none : (job id : Text) (rows : List JobRecord) → Settles job id rows rows
settled_none job id rows = record { same = refl; less = λ e. omega arith }

module _ (job id : Text) (test : JobRecord → Bool) (set_ : JobRecord → JobRecord)
    (keeps : (r : JobRecord) → (set_ r).id ≡ r.id) where
  step_id : (r : JobRecord) → (if has_id job r && test r then set_ r else r).id ≡ r.id
  step_id r =
      if_cases (λ (s : JobRecord). s.id ≡ r.id) (has_id job r && test r) _ _ (λ _. keeps r)
        (λ _. refl)

  step_other :
      text_eq job id ≡ false
      → (r : JobRecord)
      → (has_id id (if has_id job r && test r then set_ r else r)
          && is_pending (if has_id job r && test r then set_ r else r))
        ≡ true
      → (has_id id r && is_pending r) ≡ true
  step_other h r p = elim (Bool-cases (has_id job r)) [
    | inl e ↦
        let out = subst (λ k. text_eq k id ≡ false) (sym (step_id r ∙ text_eq→≡ r.id job e)) h in
        absurd (false≢true (sym out ∙ (&&-eq_true _ _ p).0))
    | inr e ↦ rw e at p
  ]

  gated-Settles :
      (disk : Disk) (q : JobQueue)
      → Settles job id q.rows
          (gated disk q (map (λ r. if has_id job r && test r then set_ r else r) q.rows)).0.rows
  gated-Settles disk q =
      if_cases P (not q.open_) _ _ (λ _. settled_none job id q.rows)
        λ _.
          if_cases P (not (disk 0)) _ _ (λ _. settled_none job id q.rows)
            λ _. record {
              same = update-with_id id _ q.rows step_id;
              less = λ h. update-waiting id _ q.rows (step_other h);
            }
    where
      P : JobQueue × Result (Unit {0}) → Type 0
      P z = Settles job id q.rows z.0.rows

pub settle-Settles :
    (id : Text) (disk : Disk) (c : Completion) (q : JobQueue)
    → Settles c.job.id id q.rows (settle disk c q).rows
unfolding settle mark_cancelled mark_failed mark_succeeded fail
settle-Settles id disk c q =
    if_cases P c.was_cancelled _ _
      (λ _. gated-Settles c.job.id id _ (λ r. record r { state = cancelled }) (λ r. refl) disk q)
      λ _.
        if_cases P (is_error c.result) _ _
          (λ _. gated-Settles c.job.id id is_running (fail c.result) (λ r. refl) disk q)
          (λ _. gated-Settles c.job.id id is_running succeed (λ r. refl) disk q)
  where
    P : JobQueue → Type 0
    P z = Settles c.job.id id q.rows z.rows

-- A client's `enqueue` beside the jobs that are being run.
abbrev pub Rows : ℕ → Text → List JobRecord → Type 0
Rows flying id rows = (with_id id rows ≤ 1) × (flying + waiting id rows ≤ with_id id rows)

fresh_none :
    (id : Text) (rows : List JobRecord) → any (has_id id) rows ≡ false → with_id id rows ≡ 0
fresh_none id [] h = refl
fresh_none id (r ∷ rows) h = ground (arith, fresh_none id rows)

insert_row-Rows :
    (flying : ℕ) (id : Text) (runs : Bool) (new : JobRecord) (q : JobQueue)
    → Rows flying id q.rows
    → Rows flying id (insert_row runs new q).0.rows
unfolding insert_row
insert_row-Rows flying id runs new q h =
    if_cases P (runs && not (any (has_id new.id) q.rows)) _ _ grows (λ _. h)
  where
    P : JobQueue × Result Text → Type 0
    P z = Rows flying id z.0.rows

    grows : (runs && not (any (has_id new.id) q.rows)) ≡ true → Rows flying id (q.rows ++ new ∷ [])
    grows e =
        let rows = count-append (has_id id) q.rows (new ∷ []) in
        let waits =
          count-append (λ (r : JobRecord). has_id id r && is_pending r) q.rows (new ∷ []) in
        elim (Bool-cases (text_eq new.id id)) [
          | inl p ↦
              let out =
                subst (λ k. any (has_id k) q.rows ≡ false) (text_eq→≡ new.id id p) (ground arith) in
              ground (arith, rows, waits, fresh_none id q.rows out)
          | inr p ↦ ground (arith, rows, waits)
        ]

join-Rows :
    (flying : ℕ) (id : Text) (found : Option Text) (runs : Bool) (new : JobRecord) (q : JobQueue)
    → Rows flying id q.rows
    → Rows flying id (join_or_insert found runs new q).0.rows
unfolding join_or_insert
join-Rows flying id none runs new q h = insert_row-Rows flying id runs new q h
join-Rows flying id (some other) runs new q h = h

pub enqueue-Rows :
    (flying : ℕ) (id : Text) (disk : Disk) (new : JobRecord) (q : JobQueue)
    → Rows flying id q.rows
    → Rows flying id (enqueue disk new q).0.rows
unfolding enqueue
enqueue-Rows flying id disk new q h =
    if_cases P (not q.open_) _ _ (λ _. h)
      λ _.
        if_cases P (is_empty new.coalescing_key) _ _
          (λ _. insert_row-Rows flying id (disk 0) new q h)
          λ _.
            if_cases P (not (disk 0)) _ _ (λ _. h)
              (λ _.
                join-Rows flying id (find_pending_key new.coalescing_key q.rows) (disk 1) new q h)
  where
    P : JobQueue × Result Text → Type 0
    P z = Rows flying id z.0.rows

pub withdraw-Rows :
    (flying : ℕ) (id : Text) (disk : Disk) (job : Text) (q : JobQueue)
    → Rows flying id q.rows
    → Rows flying id (mark_cancelled disk job q).0.rows
unfolding mark_cancelled
withdraw-Rows flying id disk job q h =
    if_cases P (not q.open_) _ _ (λ _. h) λ _. if_cases P (not (disk 0)) _ _ (λ _. h) (λ _. fewer)
  where
    P : JobQueue × Result (Unit {0}) → Type 0
    P z = Rows flying id z.0.rows

    drop : JobRecord → JobRecord
    drop r =
        if has_id job r && (is_pending r || is_running r) then record r { state = cancelled } else r

    fewer : Rows flying id (map drop q.rows)
    fewer =
        let same = update-with_id id drop q.rows (λ r. ground arith) in
        let less = update-waiting id drop q.rows (λ r e. ground arith) in
        (omega (arith, h.0, same), omega (arith, h.1, same, less))
