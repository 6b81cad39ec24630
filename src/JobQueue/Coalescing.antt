-- ===== src/JobQueue/Coalescing.antt =====
-- `enqueue` of src/projection/src/job_queue_operations.cpp: duplicate work is collapsed.
use pimio.Core.Error.{storage_unavailable, ErrorCode, internal}
use pimio.Core.Job.{JobRecord}
use pimio.JobQueue.{
  Disk, JobQueue, Result, ok, err, is_pending, has_id, enqueue, insert_row, join_or_insert,
  find_pending_key,
}
use pimio.Base.{
  Memᴰ, text_eq_refl, ◌≡◌, refl, sym, subst, ◌∙◌, inl, inr, Bool, true, false, not, Option, none,
  some, List, [], ◌∷◌, ◌++◌, Memᴰ, arith, ◌+◌, ◌≤◌, ◌&&◌, text_eq, text_eq→≡, Text, is_empty, count,
  any, Bool-cases, if_cases, true≢false, ℕ,
}

-- A pending job with a coalescing key.
abbrev pub waits_for : Text → JobRecord → Bool
waits_for key r = text_eq r.coalescing_key key && is_pending r

abbrev pub pending_with : Text → List JobRecord → ℕ
pending_with key = count (waits_for key)

count-append :
    (p : JobRecord → Bool) (rows new : List JobRecord)
    → count p (rows ++ new) ≡ count p rows + count p new
count-append p [] new = omega arith
count-append p (r ∷ rows) new = ground (arith, count-append p rows new)

find-none :
    (key : Text) (rows : List JobRecord)
    → find_pending_key key rows ≡ none
    → pending_with key rows ≡ 0
unfolding find_pending_key
find-none key [] h = refl
find-none key (r ∷ rows) h = ground (arith, find-none key rows)

pub find-some :
    (key id : Text) (rows : List JobRecord)
    → find_pending_key key rows ≡ some id
    → (r : JobRecord) × Memᴰ r rows × (waits_for key r ≡ true) × (r.id ≡ id)
unfolding find_pending_key
find-some key id [] h = cc
find-some key id (r ∷ rows) h = elim (Bool-cases (waits_for key r)) [
  | inl e ↦ (r, Memᴰ.head refl, e, ground arith)
  | inr e ↦ let (s, m, w, same) = find-some key id rows (rw e at h) in (s, Memᴰ.tail m, w, same)
]

-- What `enqueue` promises for a job with a coalescing key.
pub data Coalesces (new : JobRecord) (q : JobQueue) (z : JobQueue × Result Text) : Type 0 where
  joins :
      (r : JobRecord)
      → Memᴰ r q.rows
      → waits_for new.coalescing_key r ≡ true
      → z ≡ (q, ok r.id)
      → Coalesces new q z
  adds :
      pending_with new.coalescing_key q.rows ≡ 0
      → any (has_id new.id) q.rows ≡ false
      → z ≡ (record q { rows = q.rows ++ new ∷ [] }, ok new.id)
      → Coalesces new q z
  clashes :
      pending_with new.coalescing_key q.rows ≡ 0
      → any (has_id new.id) q.rows ≡ true
      → z ≡ (q, err internal)
      → Coalesces new q z

insert-Coalesces :
    (new : JobRecord) (q : JobQueue)
    → pending_with new.coalescing_key q.rows ≡ 0
    → Coalesces new q (insert_row true new q)
unfolding insert_row
insert-Coalesces new q h = elim (Bool-cases (any (has_id new.id) q.rows)) [
  | inl e ↦ clashes h e (rw e)
  | inr e ↦ adds h e (rw e)
]

join-Coalesces :
    (new : JobRecord) (q : JobQueue) (found : Option Text)
    → find_pending_key new.coalescing_key q.rows ≡ found
    → Coalesces new q (join_or_insert found true new q)
unfolding join_or_insert
join-Coalesces new q none h = insert-Coalesces new q (find-none new.coalescing_key q.rows h)
join-Coalesces new q (some id) h =
    let (r, m, w, same) = find-some new.coalescing_key id q.rows h in joins r m w (rw same)

-- On an open queue whose statements run, a job with a non-empty coalescing key is given the id of a
-- pending job with that key, and the table stays as it is, if there is one; otherwise it is added as
-- the last row under its own id, or refused if the table already has that id.
pub enqueue-Coalesces :
    (disk : Disk) (new : JobRecord) (q : JobQueue)
    → q.open_ ≡ true
    → ((i : ℕ) → disk i ≡ true)
    → is_empty new.coalescing_key ≡ false
    → Coalesces new q (enqueue disk new q)
unfolding enqueue
enqueue-Coalesces disk new q h runs keyed =
    simp (h, keyed, runs) (join-Coalesces new q (find_pending_key new.coalescing_key q.rows) refl)

insert-le :
    (runs : Bool) (new : JobRecord) (q : JobQueue) (key : Text)
    → (text_eq new.coalescing_key key ≡ true → pending_with key q.rows ≡ 0)
    → pending_with key q.rows ≤ 1
    → pending_with key (insert_row runs new q).0.rows ≤ 1
unfolding insert_row
insert-le runs new q key free h = ground (arith, count-append (waits_for key) q.rows (new ∷ []))

join-le :
    (new : JobRecord) (q : JobQueue) (key : Text) (found : Option Text) (runs : Bool)
    → find_pending_key new.coalescing_key q.rows ≡ found
    → pending_with key q.rows ≤ 1
    → pending_with key (join_or_insert found runs new q).0.rows ≤ 1
unfolding join_or_insert
join-le new q key none runs e h =
    insert-le runs new q key
      (λ same.
        subst (λ k. pending_with k q.rows ≡ 0) (text_eq→≡ new.coalescing_key key same)
          (find-none new.coalescing_key q.rows e))
      h
join-le new q key (some id) runs e h = h

empty_text_ne : (s t : Text) → is_empty s ≡ true → is_empty t ≡ false → text_eq s t ≡ false
unfolding text_eq
empty_text_ne [] [] h k = cc
empty_text_ne [] (y ∷ t) h k = refl
empty_text_ne (x ∷ s) t h k = cc

-- Enqueueing, whichever statements run, never makes two pending jobs of one non-empty key where
-- there was at most one.
pub enqueue-le_one :
    (disk : Disk) (new : JobRecord) (q : JobQueue) (key : Text)
    → is_empty key ≡ false
    → pending_with key q.rows ≤ 1
    → pending_with key (enqueue disk new q).0.rows ≤ 1
unfolding enqueue
enqueue-le_one disk new q key keyed h =
    if_cases P (not q.open_) _ _ (λ _. h)
      λ _. if_cases P (is_empty new.coalescing_key) _ _ bare λ _.
        if_cases P (not (disk 0)) _ _ (λ _. h)
          λ _. join-le new q key (find_pending_key new.coalescing_key q.rows) (disk 1) refl h
  where
    P : JobQueue × Result Text → Type 0
    P z = pending_with key z.0.rows ≤ 1

    bare : is_empty new.coalescing_key ≡ true → P (insert_row (disk 0) new q)
    bare e =
        insert-le (disk 0) new q key
          (λ same. absurd (true≢false (sym same ∙ empty_text_ne new.coalescing_key key e keyed))) h

pub count_of_mem :
    (p : JobRecord → Bool) {r : JobRecord} {rows : List JobRecord}
    → Memᴰ r rows
    → p r ≡ true
    → 1 ≤ count p rows
count_of_mem p {rows = []} m h = elim m [ ]
count_of_mem p {rows = s ∷ rows} (Memᴰ.head e) h =
    let e' : p s ≡ true = subst (λ x. p x ≡ true) e h in rw e' (omega arith)
count_of_mem p {rows = s ∷ rows} (Memᴰ.tail m) h = ground (arith, count_of_mem p m h)

mem_last : (rows : List JobRecord) (new : JobRecord) → Memᴰ new (rows ++ new ∷ [])
mem_last [] new = Memᴰ.head refl
mem_last (r ∷ rows) new = Memᴰ.tail (mem_last rows new)

-- The answer is the id of a pending job of the table with the key.
abbrev pub Answers : Text → JobQueue × Result Text → Type 0
Answers key z = (r : JobRecord) × Memᴰ r z.0.rows × (waits_for key r ≡ true) × (z.1 ≡ ok r.id)

Coalesces-Answers :
    (new : JobRecord) (q : JobQueue) (z : JobQueue × Result Text)
    → Coalesces new q z
    → is_pending new ≡ true
    → any (has_id new.id) q.rows ≡ false
    → Answers new.coalescing_key z
Coalesces-Answers new q z (joins r m w e) p fresh = rw e (r, m, w, refl)
Coalesces-Answers new q z (adds none_ free e) p fresh =
    rw e (new, mem_last q.rows new, ground (arith, text_eq_refl new.coalescing_key), refl)
Coalesces-Answers new q z (clashes none_ taken e) p fresh = absurd (true≢false (sym taken ∙ fresh))

-- A pending job with a key and a new id is accepted, and the answer is the id of a job with its key
-- that is pending then.
pub enqueue-Answers :
    (disk : Disk) (new : JobRecord) (q : JobQueue)
    → q.open_ ≡ true
    → ((i : ℕ) → disk i ≡ true)
    → is_empty new.coalescing_key ≡ false
    → is_pending new ≡ true
    → any (has_id new.id) q.rows ≡ false
    → Answers new.coalescing_key (enqueue disk new q)
enqueue-Answers disk new q h runs keyed p fresh =
    Coalesces-Answers new q (enqueue disk new q) (enqueue-Coalesces disk new q h runs keyed) p fresh

refused :
    (runs : Bool) (new : JobRecord) (q : JobQueue)
    → runs ≡ false
    → insert_row runs new q ≡ (q, err internal)
unfolding insert_row
refused runs new q h = rw h

-- Where no statement runs, the queue stays as it is and the call reports an error.
pub enqueue_fails :
    (disk : Disk) (new : JobRecord) (q : JobQueue)
    → disk 0 ≡ false
    → ((enqueue disk new q).0 ≡ q) × (e : ErrorCode) × ((enqueue disk new q).1 ≡ err e)
unfolding enqueue
enqueue_fails disk new q stops =
    if_cases P (not q.open_) _ _ (λ _. (refl, storage_unavailable, refl))
      λ _.
        if_cases P (is_empty new.coalescing_key) _ _
          (λ _. let e = refused (disk 0) new q stops in (rw e, internal, rw e))
          λ _. if_cases P (not (disk 0)) _ _ (λ _. (refl, internal, refl)) λ runs. cc (stops, runs)
  where
    P : JobQueue × Result Text → Type 0
    P z = (z.0 ≡ q) × (e : ErrorCode) × (z.1 ≡ err e)
