-- ===== src/JobQueue/Grants.antt =====
-- How many rows of one id `claim` of src/projection/src/job_queue_operations.cpp hands out.
use pimio.Core.Job.{JobRecord}
use pimio.JobQueue.Claim.{started, mark_running-prefix}
use pimio.JobQueue.Batches.{mark_running_done}
use pimio.JobQueue.{
  Disk, JobQueue, Result, ok, err, has_id, is_pending, is_eligible, insert_ordered, order, start,
  finish_claim, select_claimable, claim,
}
use pimio.Base.{
  ℕ, zero, suc, ◌+◌, ◌≤◌, ◌≡◌, refl, inl, inr, Bool, true, false, not, ◌&&◌, List, [], ◌∷◌, map,
  arith, ◌==◌, Text, text_eq→≡, text_eq_comm, take, length, filter, count, any, Bool-cases,
  if_cases, length-take-le, ap,
}

-- The rows of an id, and those of them that are pending.
abbrev pub with_id : Text → List JobRecord → ℕ
with_id id = count (has_id id)

abbrev pub waiting : Text → List JobRecord → ℕ
waiting id = count (λ r. has_id id r && is_pending r)

module _ (p : JobRecord → Bool) where
  count-take : (n : ℕ) (rows : List JobRecord) → count p (take n rows) ≤ count p rows
  count-take zero rows = omega arith
  count-take (suc n) [] = omega arith
  count-take (suc n) (r ∷ rows) = ground (arith, count-take n rows)

  count-insert_ordered :
      (r : JobRecord) (rows : List JobRecord) → count p (insert_ordered r rows) ≡ count p (r ∷ rows)
  unfolding insert_ordered
  count-insert_ordered r [] = refl
  count-insert_ordered r (s ∷ rows) = ground (arith, count-insert_ordered r rows)

  count-order : (rows : List JobRecord) → count p (order rows) ≡ count p rows
  unfolding order
  count-order [] = refl
  count-order (r ∷ rows) = ground (arith, count-insert_ordered r (order rows), count-order rows)

count-eligible :
    (id : Text) (now : ℕ) (rows : List JobRecord)
    → with_id id (filter (is_eligible now) rows) ≤ waiting id rows
count-eligible id now [] = omega arith
count-eligible id now (r ∷ rows) = ground (arith, count-eligible id now rows)

count-selected :
    (id : Text) (n now : ℕ) (rows : List JobRecord)
    → with_id id (select_claimable n now rows) ≤ waiting id rows
unfolding select_claimable
count-selected id n now rows = omega (
  arith,
  count-take (has_id id) n (order (filter (is_eligible now) rows)),
  count-order (has_id id) (filter (is_eligible now) rows),
  count-eligible id now rows,
)

waiting-started :
    (id : Text) (chosen rows : List JobRecord)
    → waiting id (map (started chosen) rows) ≤ waiting id rows
unfolding started
waiting-started id chosen [] = omega arith
waiting-started id chosen (r ∷ rows) = ground (arith, waiting-started id chosen rows)

with_id-started :
    (id : Text) (chosen rows : List JobRecord)
    → with_id id (map (started chosen) rows) ≡ with_id id rows
unfolding started
with_id-started id chosen [] = refl
with_id-started id chosen (r ∷ rows) = ground (arith, with_id-started id chosen rows)

any_same :
    (id : Text) (r : JobRecord) (chosen : List JobRecord)
    → has_id id r ≡ true
    → any (λ (c : JobRecord). has_id c.id r) chosen ≡ any (has_id id) chosen
any_same id r [] h = refl
any_same id r (c ∷ chosen) h =
    let e = text_eq→≡ r.id id h in rw (e, text_eq_comm id c.id, any_same id r chosen h)

waiting_none :
    (id : Text) (chosen rows : List JobRecord)
    → any (has_id id) chosen ≡ true
    → waiting id (map (started chosen) rows) ≡ 0
unfolding started
waiting_none id chosen [] h = refl
waiting_none id chosen (r ∷ rows) h = elim (Bool-cases (has_id id r)) [
  | inl e ↦ ground (arith, any_same id r chosen e, waiting_none id chosen rows h)
  | inr e ↦ ground (arith, waiting_none id chosen rows h)
]

count_none :
    (id : Text) (chosen : List JobRecord) → any (has_id id) chosen ≡ false → with_id id chosen ≡ 0
count_none id [] h = refl
count_none id (c ∷ chosen) h = ground (arith, count_none id chosen)

granted :
    (id : Text) (chosen rows : List JobRecord)
    → with_id id chosen ≤ waiting id rows
    → with_id id chosen + waiting id (map (started chosen) rows) ≤ waiting id rows
granted id chosen rows h = elim (Bool-cases (any (has_id id) chosen)) [
  | inl e ↦ omega (arith, waiting_none id chosen rows e)
  | inr e ↦ omega (arith, count_none id chosen e, waiting-started id chosen rows)
]

with_id-start :
    (id : Text) (chosen : List JobRecord) → with_id id (map start chosen) ≡ with_id id chosen
with_id-start id [] = refl
with_id-start id (c ∷ chosen) = ground (arith, with_id-start id chosen)

length-start : (chosen : List JobRecord) → length (map start chosen) ≡ length chosen
length-start [] = refl
length-start (c ∷ chosen) = ap suc (length-start chosen)

-- What a claim of at most n jobs does to the rows of an id: each job that it hands out was waiting
-- and waits no more.
abbrev pub Grants : Text → ℕ → JobQueue → JobQueue × Result (List JobRecord) → Type 0
Grants id n q (q', ok batch) =
    (with_id id q'.rows ≡ with_id id q.rows)
    × (length batch ≤ n)
    × (with_id id batch + waiting id q'.rows ≤ waiting id q.rows)
Grants id n q (q', err e) =
    (with_id id q'.rows ≡ with_id id q.rows) × (waiting id q'.rows ≤ waiting id q.rows)

finish-Grants :
    (id : Text) (n : ℕ) (q : JobQueue) (chosen : List JobRecord) (p : List JobRecord × Bool)
    → (p.1 ≡ true → p.0 ≡ map (started chosen) q.rows)
    → ((part : List JobRecord) × (p.0 ≡ map (started part) q.rows))
    → length chosen ≤ n
    → with_id id chosen ≤ waiting id q.rows
    → Grants id n q (finish_claim q chosen p)
finish-Grants id n q chosen (rows, true) done prefix short few = rw (done refl) (
  with_id-started id chosen q.rows,
  rw (length-start chosen) short,
  rw (with_id-start id chosen) (granted id chosen q.rows few),
)
finish-Grants id n q chosen (rows, false) done (part, e) short few =
    rw e (with_id-started id part q.rows, waiting-started id part q.rows)

pub claim-Grants :
    (id : Text) (disk : Disk) (n now : ℕ) (q : JobQueue) → Grants id n q (claim disk n now q)
unfolding claim select_claimable
claim-Grants id disk n now q =
    if_cases P (not q.open_) _ _ (λ _. idle)
      λ _.
        if_cases P (n == 0) _ _ (λ _. (refl, omega arith, omega arith))
          λ _.
            if_cases P (not (disk 0)) _ _ (λ _. idle)
              λ _.
                let chosen = select_claimable n now q.rows in
                finish-Grants id n q chosen _ (mark_running_done disk 1 chosen q.rows)
                  (mark_running-prefix disk 1 chosen q.rows)
                  (length-take-le n (order (filter (is_eligible now) q.rows)))
                  (count-selected id n now q.rows)
  where
    P : JobQueue × Result (List JobRecord) → Type 0
    P = Grants id n q

    idle : (with_id id q.rows ≡ with_id id q.rows) × (waiting id q.rows ≤ waiting id q.rows)
    idle = (refl, omega arith)

-- What the other writing calls do to the rows of an id.
pub update-with_id :
    (id : Text) (f : JobRecord → JobRecord) (rows : List JobRecord)
    → ((r : JobRecord) → (f r).id ≡ r.id)
    → with_id id (map f rows) ≡ with_id id rows
update-with_id id f [] h = refl
update-with_id id f (r ∷ rows) h = ground (arith, h r, update-with_id id f rows h)

pub update-waiting :
    (id : Text) (f : JobRecord → JobRecord) (rows : List JobRecord)
    → ((r : JobRecord)
        → (has_id id (f r) && is_pending (f r)) ≡ true
        → (has_id id r && is_pending r) ≡ true)
    → waiting id (map f rows) ≤ waiting id rows
update-waiting id f [] h = omega arith
update-waiting id f (r ∷ rows) h = ground (arith, h r, update-waiting id f rows h)

pub waiting-with_id : (id : Text) (rows : List JobRecord) → waiting id rows ≤ with_id id rows
waiting-with_id id [] = omega arith
waiting-with_id id (r ∷ rows) = ground (arith, waiting-with_id id rows)
