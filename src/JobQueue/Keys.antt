-- ===== src/JobQueue/Keys.antt =====
-- The primary key of the table `job`, and the method `load` that reads by it.
use pimio.JobQueue.Steps.{Call, call, run, Respects, Effect, call-Effect, moved, grown}
use pimio.JobQueue.{JobQueue, Disk, fail, has_id, find_id}
use pimio.Core.Job.{JobRecord}
use pimio.Base.{
  true≢false, List, [], ◌∷◌, ◌++◌, true, false, Memᴰ, arith, refl, any, text_eq, text_eq_iff,
  text_eq_refl, text_eq→≡, map, ap, sym, ◌∙◌, some, Bool-cases, inl, inr, any_of_mem, Text, ◌≡◌,
}

-- No two rows have one id.
abbrev pub IsKeyed : List JobRecord → Type 0
IsKeyed [] = Unit
IsKeyed (r ∷ rows) = (any (has_id r.id) rows ≡ false) × IsKeyed rows

abbrev SameId : JobRecord → JobRecord → Type 0
SameId r s = s.id ≡ r.id

SameId-Respects : Respects SameId
unfolding fail
SameId-Respects = record {
  same = λ r. refl;
  by_claim = λ r b. ground arith;
  by_recovery = λ r. ground arith;
  by_success = λ r b. ground arith;
  by_failure = λ e r b. ground arith;
  by_cancel = λ r b. ground arith;
}

any_id-map :
    (f : JobRecord → JobRecord) (id : Text) (rows : List JobRecord)
    → ((r : JobRecord) → (f r).id ≡ r.id)
    → any (has_id id) (map f rows) ≡ any (has_id id) rows
any_id-map f id [] h = refl
any_id-map f id (r ∷ rows) h = rw (h r, any_id-map f id rows h)

map-IsKeyed :
    (f : JobRecord → JobRecord) (rows : List JobRecord)
    → ((r : JobRecord) → (f r).id ≡ r.id)
    → IsKeyed rows
    → IsKeyed (map f rows)
map-IsKeyed f [] h k = tt
map-IsKeyed f (r ∷ rows) h k = (rw (h r, any_id-map f r.id rows h) k.0, map-IsKeyed f rows h k.1)

any_id-append :
    (id : Text) (r : JobRecord) (rows : List JobRecord)
    → any (has_id id) rows ≡ false
    → has_id id r ≡ false
    → any (has_id id) (rows ++ r ∷ []) ≡ false
any_id-append id r [] h k = rw k
any_id-append id r (s ∷ rows) h k = ground (arith, any_id-append id r rows)

append-IsKeyed :
    (r : JobRecord) (rows : List JobRecord)
    → any (has_id r.id) rows ≡ false
    → IsKeyed rows
    → IsKeyed (rows ++ r ∷ [])
append-IsKeyed r [] h k = (refl, tt)
append-IsKeyed r (s ∷ rows) h k = (
  any_id-append s.id r rows k.0 (ground (arith, text_eq_iff s.id r.id, text_eq_iff r.id s.id)),
  append-IsKeyed r rows (ground arith) k.1,
)

pub call-IsKeyed :
    (disk : Disk) (c : Call) (q : JobQueue) → IsKeyed q.rows → IsKeyed (call disk c q).rows
call-IsKeyed disk c q k = keep (call-Effect SameId SameId-Respects disk c q)
  where
    keep : Effect SameId c q.rows (call disk c q).rows → IsKeyed (call disk c q).rows
    keep (moved f h e) = rw e (map-IsKeyed f q.rows h k)
    keep (grown r _ fresh e) = rw e (append-IsKeyed r q.rows fresh k)

-- No sequence of calls gives two rows of the table one id.
pub run-IsKeyed :
    (cs : List (Disk × Call)) (q : JobQueue) → IsKeyed q.rows → IsKeyed (run q cs).rows
unfolding run
run-IsKeyed [] q k = k
run-IsKeyed ((disk, c) ∷ cs) q k = run-IsKeyed cs (call disk c q) (call-IsKeyed disk c q k)

-- In such a table a row is found by its id.
pub find_id-mem :
    {r : JobRecord} (rows : List JobRecord)
    → IsKeyed rows
    → Memᴰ r rows
    → find_id r.id rows ≡ some r
unfolding find_id
find_id-mem [] k m = elim m [ ]
find_id-mem {r} (s ∷ rows) k (Memᴰ.head e) =
    let same : text_eq s.id r.id ≡ true = rw e (text_eq_refl s.id) in rw same (ap some (sym e))
find_id-mem {r} (s ∷ rows) k (Memᴰ.tail m) = elim (Bool-cases (text_eq s.id r.id)) [
  | inl e ↦ absurd (
      true≢false
        (sym (any_of_mem (has_id s.id) m (rw (text_eq→≡ s.id r.id e) (text_eq_refl r.id))) ∙ k.0))
  | inr e ↦ rw e (find_id-mem rows k.1 m)
]
