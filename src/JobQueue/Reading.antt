-- ===== src/JobQueue/Reading.antt =====
-- `enqueue` and `load` of src/projection/src/job_queue_operations.cpp together: what is accepted can
-- be read back.
use pimio.Core.Job.{JobRecord}
use pimio.JobQueue.Steps.{call, enqueues}
use pimio.JobQueue.Coalescing.{waits_for, find-some}
use pimio.JobQueue.Keys.{IsKeyed, call-IsKeyed, find_id-mem}
use pimio.JobQueue.{
  Disk, JobQueue, Result, ok, err, has_id, insert_row, join_or_insert, find_pending_key, enqueue,
  load, find_id,
}
use pimio.Base.{
  ◌≡◌, refl, subst, ◌⊎◌, inl, inr, Bool, true, not, List, [], ◌∷◌, ◌++◌, Memᴰ, arith, ◌&&◌, any,
  if_cases, Option, none, some, Text, is_empty,
}

-- What an accepted `enqueue` leaves: the row that its id stands for.
abbrev Accepted : JobRecord → JobQueue → JobQueue × Result Text → Type 0
Accepted new q (q', ok id) =
    (q'.open_ ≡ true)
    × (r : JobRecord) × Memᴰ r q'.rows
    × (r.id ≡ id)
    × ((r ≡ new) ⊎ (Memᴰ r q.rows × (waits_for new.coalescing_key r ≡ true)))
Accepted new q (q', err e) = Unit

mem_last : (r : JobRecord) (rows : List JobRecord) → Memᴰ r (rows ++ r ∷ [])
mem_last r [] = Memᴰ.head refl
mem_last r (s ∷ rows) = Memᴰ.tail (mem_last r rows)

insert-Accepted :
    (runs : Bool) (new : JobRecord) (q : JobQueue)
    → q.open_ ≡ true
    → Accepted new q (insert_row runs new q)
unfolding insert_row
insert-Accepted runs new q h =
    if_cases (Accepted new q) (runs && not (any (has_id new.id) q.rows)) _ _
      (λ _. (h, new, mem_last new q.rows, refl, inl refl)) (λ _. tt)

join-Accepted :
    (new : JobRecord) (q : JobQueue) (found : Option Text) (runs : Bool)
    → q.open_ ≡ true
    → find_pending_key new.coalescing_key q.rows ≡ found
    → Accepted new q (join_or_insert found runs new q)
unfolding join_or_insert
join-Accepted new q none runs h e = insert-Accepted runs new q h
join-Accepted new q (some id) runs h e =
    let (r, m, w, same) = find-some new.coalescing_key id q.rows e in (h, r, m, same, inr (m, w))

enqueue-Accepted :
    (disk : Disk) (new : JobRecord) (q : JobQueue) → Accepted new q (enqueue disk new q)
unfolding enqueue
enqueue-Accepted disk new q =
    if_cases (Accepted new q) (not q.open_) _ _ (λ _. tt)
      λ closed.
        let h : q.open_ ≡ true = ground arith in
        if_cases (Accepted new q) (is_empty new.coalescing_key) _ _
          (λ _. insert-Accepted (disk 0) new q h)
          λ _.
            if_cases (Accepted new q) (not (disk 0)) _ _ (λ _. tt)
              λ _. join-Accepted new q (find_pending_key new.coalescing_key q.rows) (disk 1) h refl

load_found :
    (disk : Disk) (id : Text) (q : JobQueue) (r : JobRecord)
    → q.open_ ≡ true
    → disk 0 ≡ true
    → find_id id q.rows ≡ some r
    → load disk id q ≡ ok r
unfolding load
load_found disk id q r h d e = simp (h, d, e)

-- A job that `enqueue` accepts is read back under the id that it returns: `load` gives the new
-- record itself, or the pending row with its coalescing key that was there before.
pub load-enqueue :
    (disk disk' : Disk) (new : JobRecord) (q q' : JobQueue) (id : Text)
    → IsKeyed q.rows
    → enqueue disk new q ≡ (q', ok id)
    → disk' 0 ≡ true
    → (r : JobRecord) × (load disk' id q' ≡ ok r)
      × (r.id ≡ id)
      × ((r ≡ new) ⊎ (Memᴰ r q.rows × (waits_for new.coalescing_key r ≡ true)))
unfolding call
load-enqueue disk disk' new q q' id k e d =
    let (h, r, m, same, which) = subst (Accepted new q) e (enqueue-Accepted disk new q) in
    let keyed : IsKeyed q'.rows =
      subst (λ (z : JobQueue × Result Text). IsKeyed z.0.rows) e
        (call-IsKeyed disk (enqueues new) q k) in
    (
      r,
      load_found disk' id q' r h d
          (subst (λ (i : Text). find_id i q'.rows ≡ some r) same (find_id-mem q'.rows keyed m)),
      same,
      which,
    )
