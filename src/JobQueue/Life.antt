-- ===== src/JobQueue/Life.antt =====
-- The life of a job in src/projection/src/job_queue_operations.cpp: its states, and what never changes.
use pimio.JobQueue.Steps.{Call, call, run, Respects, call-Effect, Effect-mem}
use pimio.JobQueue.{JobQueue, Disk, fail}
use pimio.Core.Job.{
  JobState, JobRecord, pending, running, succeeded, failed, cancelled, is_terminal,
}
use pimio.Base.{subst, sym, ◌∙◌, ◌≤◌, ◌⊎◌, refl, List, [], ◌∷◌, true, Memᴰ, arith, ◌≡◌}

-- The edges between states.
infix 40 ◌⟶◌
pub data ◌⟶◌ : JobState → JobState → Type 0 where
  starts : pending ⟶ running
  interrupts : running ⟶ pending
  finishes : running ⟶ succeeded
  gives_up : running ⟶ failed
  drops : pending ⟶ cancelled
  aborts : running ⟶ cancelled

-- A row and the same job later: along the edges, with its identity kept; a job that has ended is
-- left alone.
pub record Moves (r s : JobRecord) : Type 0 where
  pub same_id : s.id ≡ r.id
  pub same_work : (s.kind ≡ r.kind) × (s.payload ≡ r.payload) × (s.priority ≡ r.priority)
  pub same_key : s.coalescing_key ≡ r.coalescing_key
  pub same_limit : s.max_attempts ≡ r.max_attempts
  pub same_birth : s.created_at ≡ r.created_at
  pub tries : r.attempts ≤ s.attempts
  pub settled : is_terminal r.state ≡ true → s ≡ r

-- What one call may do to the state of a job: nothing, or one edge.
abbrev pub Edge : JobRecord → JobRecord → Type 0
Edge r s = (s.state ≡ r.state) ⊎ (r.state ⟶ s.state)

-- The rows that a job is through a sequence of calls, one after each, up to the last.
abbrev pub History : JobQueue → List (Disk × Call) → JobRecord → JobRecord → Type 0
History q [] r t = t ≡ r
History q ((disk, c) ∷ cs) r t =
    (s : JobRecord) × Memᴰ s (call disk c q).rows × Edge r s × History (call disk c q) cs s t

pub record Lives (q : JobQueue) (cs : List (Disk × Call)) (r s : JobRecord) : Type 0 where
  pub moves : Moves r s
  pub history : History q cs r s

abbrev Steps : JobRecord → JobRecord → Type 0
Steps r s = Moves r s × Edge r s

Steps-Respects : Respects Steps
unfolding is_terminal fail
Steps-Respects = record {
  same = λ r. ground arith;
  by_claim = λ r b. grind (arith, starts);
  by_recovery = λ r. grind (arith, interrupts);
  by_success = λ r b. grind (arith, finishes);
  by_failure = λ e r b. grind (arith, gives_up, interrupts);
  by_cancel = λ r b. grind (arith, drops, aborts);
}

Moves-trans : (r s t : JobRecord) → Moves r s → Moves s t → Moves r t
Moves-trans r s t m n = record {
  same_id = n.same_id ∙ m.same_id;
  same_work = ground arith;
  same_key = n.same_key ∙ m.same_key;
  same_limit = n.same_limit ∙ m.same_limit;
  same_birth = n.same_birth ∙ m.same_birth;
  tries = omega (arith, m.tries, n.tries);
  settled = λ h.
      let e = m.settled h in
      n.settled (subst (λ (x : JobRecord). is_terminal x.state ≡ true) (sym e) h) ∙ e;
}

-- Through any sequence of calls, with any of their statements failing, a job in the table stays in
-- it with its id, work, key, attempt limit and creation time; each single call leaves its state or
-- moves it along one edge of the life cycle; it never loses an attempt that was counted, and it is not
-- touched again once it has ended.
pub run-Lives :
    (cs : List (Disk × Call)) (q : JobQueue) {r : JobRecord}
    → Memᴰ r q.rows
    → (s : JobRecord) × Memᴰ s (run q cs).rows × Lives q cs r s
unfolding run
run-Lives [] q {r} m = (r, m, record { moves = ground arith; history = refl })
run-Lives ((disk, c) ∷ cs) q {r} m =
    let (s, k, step) =
      Effect-mem Steps Steps-Respects (call-Effect Steps Steps-Respects disk c q) m in
    let (t, l, rest) = run-Lives cs (call disk c q) k in
    (
      t,
      l,
      record {
        moves = Moves-trans r s t step.0 rest.moves;
        history = (s, k, step.1, rest.history);
      },
    )
