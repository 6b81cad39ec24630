-- ===== src/JobQueue/Batches.antt =====
-- Successive calls of `claim` in src/projection/src/job_queue_operations.cpp hand out different jobs,
-- and `recoverInterruptedJobs` takes back the jobs that nobody runs any more.
use pimio.Core.Job.{JobRecord, pending, running, is_terminal}
use pimio.JobQueue.Claim.{started, map-started_nil, map-started_cons, select-eligible}
use pimio.JobQueue.{
  Disk, JobQueue, Result, ok, err, is_pending, is_running, has_id, claim, mark_running,
  finish_claim, set_running, start, is_eligible, select_claimable, recover_interrupted_jobs,
}
use pimio.Base.{
  All, All-of, Text, ◌≡◌, refl, sym, subst, ap, ◌∙◌, inl, inr, Bool, true, false, not, List, [],
  ◌∷◌, map, Memᴰ, arith, ◌+◌, text_eq_refl, text_eq_comm, count, any, Bool-cases, if_cases,
  false≢true, &&-eq_true, mem_of_map, mem-map, any_of_mem, ◌==◌, if◌then◌else◌, ℕ,
}

pub mark_running_done :
    (disk : Disk) (n : ℕ) (chosen rows : List JobRecord)
    → (mark_running disk n chosen rows).1 ≡ true
    → (mark_running disk n chosen rows).0 ≡ map (started chosen) rows
unfolding mark_running
mark_running_done disk n [] rows h = sym (map-started_nil rows)
mark_running_done disk n (c ∷ chosen) rows h = elim (Bool-cases (disk n)) [
  | inl e ↦ rw e (
      mark_running_done disk (n + 1) chosen (set_running c.id rows) (rw e at h)
      ∙ map-started_cons c chosen rows)
  | inr e ↦ absurd (false≢true (rw e at h))
]

-- A claim that succeeds: the rows it chose, as they are returned and as they stand in the table.
abbrev Claimed : ℕ → JobQueue → JobQueue × Result (List JobRecord) → Type 0
Claimed now q (q', ok batch) =
    (chosen : List JobRecord) × (batch ≡ map start chosen)
    × (q'.rows ≡ map (started chosen) q.rows)
    × ((r : JobRecord) → Memᴰ r chosen → Memᴰ r q.rows × (is_eligible now r ≡ true))
Claimed now q (q', err e) = Unit

finish-Claimed :
    (now : ℕ) (q : JobQueue) (chosen : List JobRecord) (p : List JobRecord × Bool)
    → (p.1 ≡ true → p.0 ≡ map (started chosen) q.rows)
    → ((r : JobRecord) → Memᴰ r chosen → Memᴰ r q.rows × (is_eligible now r ≡ true))
    → Claimed now q (finish_claim q chosen p)
finish-Claimed now q chosen (rows, true) h sound = (chosen, refl, h refl, sound)
finish-Claimed now q chosen (rows, false) h sound = tt

claim-Claimed : (disk : Disk) (n now : ℕ) (q : JobQueue) → Claimed now q (claim disk n now q)
unfolding claim
claim-Claimed disk n now q =
    if_cases (Claimed now q) (not q.open_) _ _ (λ _. tt)
      λ _.
        if_cases (Claimed now q) (n == 0) _ _
          (λ _. ([], refl, sym (map-started_nil q.rows), λ r m. elim m [ ]))
          λ _.
            if_cases (Claimed now q) (not (disk 0)) _ _ (λ _. tt)
              λ _.
                let chosen = select_claimable n now q.rows in
                finish-Claimed now q chosen _ (mark_running_done disk 1 chosen q.rows)
                  (λ r. select-eligible n now q.rows)

started_chosen :
    (chosen : List JobRecord) {c : JobRecord}
    → Memᴰ c chosen
    → is_pending c ≡ true
    → started chosen c ≡ start c
unfolding started
started_chosen chosen {c} m p =
    rw (any_of_mem (λ (d : JobRecord). has_id d.id c) m (text_eq_refl c.id), p)

started_waits :
    (chosen : List JobRecord) (r : JobRecord)
    → is_pending (started chosen r) ≡ true
    → (any (λ (c : JobRecord). has_id c.id r) chosen ≡ false) × ((started chosen r).id ≡ r.id)
unfolding started
started_waits chosen r h = ground arith

any_started :
    (chosen : List JobRecord) (r : JobRecord)
    → any (λ (c : JobRecord). has_id c.id r) chosen ≡ false
    → any (has_id r.id) (map start chosen) ≡ false
any_started [] r h = refl
any_started (c ∷ chosen) r h = ground (arith, text_eq_comm c.id r.id, any_started chosen r)

module _ (disk disk' : Disk) (n now n' now' : ℕ) (q q₁ q₂ : JobQueue)
    (first second : List JobRecord) (one : claim disk n now q ≡ (q₁, ok first))
    (two : claim disk' n' now' q₁ ≡ (q₂, ok second)) where
  first-Claimed : Claimed now q (q₁, ok first)
  first-Claimed = subst (Claimed now q) one (claim-Claimed disk n now q)

  second-Claimed : Claimed now' q₁ (q₂, ok second)
  second-Claimed = subst (Claimed now' q₁) two (claim-Claimed disk' n' now' q₁)

  returned_running : (r : JobRecord) → Memᴰ r first → Memᴰ r q₁.rows × (r.state ≡ running)
  returned_running r m =
      let (chosen, batch, rows, sound) = first-Claimed in
      let (c, k, e) = mem-map start chosen (subst (Memᴰ r) batch m) in
      let (there, due) = sound c k in
      let p = (&&-eq_true (is_pending c) _ due).0 in
      (rw (rows, e, ← started_chosen chosen k p) (mem_of_map (started chosen) there), rw e)

  not_again : (s : JobRecord) → Memᴰ s second → any (has_id s.id) first ≡ false
  not_again s m =
      let (chosen, batch, rows, sound) = first-Claimed in
      let (chosen', batch', rows', sound') = second-Claimed in
      let (d, k, e) = mem-map start chosen' (subst (Memᴰ s) batch' m) in
      let (there, due) = sound' d k in
      let (r, l, f) = mem-map (started chosen) q.rows (subst (Memᴰ d) rows there) in
      let p = (&&-eq_true (is_pending d) _ due).0 in
      let (out, same) =
        started_waits chosen r (subst (λ (x : JobRecord). is_pending x ≡ true) f p) in
      let id : s.id ≡ r.id =
        ap (λ (x : JobRecord). x.id) e ∙ ap (λ (x : JobRecord). x.id) f ∙ same in
      subst (λ (b : List JobRecord). any (has_id s.id) b ≡ false) (sym batch)
        (subst (λ (i : Text). any (has_id i) (map start chosen) ≡ false) (sym id)
          (any_started chosen r out))

  -- The jobs that a claim returns are running rows of the table, and a second claim, whatever its
  -- limit, time and failing statements, returns none of them.
  pub claim_exclusive :
      All (λ r. Memᴰ r q₁.rows × (r.state ≡ running)) first
      × All (λ s. any (has_id s.id) first ≡ false) second
  claim_exclusive = (All-of _ first returned_running, All-of _ second not_again)

-- What becomes of a row at a restart.
abbrev pub restored : JobRecord → JobRecord
restored r = if is_terminal r.state then r else record r { state = pending }

recovered : (r : JobRecord) → JobRecord
recovered r = if is_running r then record r { state = pending } else r

count-recovered : (rows : List JobRecord) → count is_running (map recovered rows) ≡ 0
unfolding recovered
count-recovered [] = refl
count-recovered (r ∷ rows) = ground (arith, count-recovered rows)

recovered-restored : (r : JobRecord) → recovered r ≡ restored r
unfolding recovered is_terminal
recovered-restored r = ground arith

-- After a restart, on an open queue whose statement runs, no job is left running, and every job of
-- the table is in it again: unchanged if it had ended, and otherwise pending with all else as it was.
pub recover_restores :
    (disk : Disk) (q : JobQueue)
    → q.open_ ≡ true
    → disk 0 ≡ true
    → let rows = (recover_interrupted_jobs disk q).0.rows in
      (count is_running rows ≡ 0) × All (λ r. Memᴰ (restored r) rows) q.rows
unfolding recover_interrupted_jobs recovered
recover_restores disk q h d =
    rw (h, d)
      (
        count-recovered q.rows,
        All-of _ q.rows λ r m.
            subst (λ x. Memᴰ x (map recovered q.rows)) (recovered-restored r)
              (mem_of_map recovered m),
      )
