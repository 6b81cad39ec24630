-- ===== src/Dispatcher/Flights.antt =====
-- src/projection/src/job_dispatcher.cpp hands no job to two workers at once.
use pimio.Core.Job.{JobRecord}
use pimio.JobQueue.{Disk, JobQueue, Result, ok, err, has_id}
use pimio.JobQueue.Grants.{Grants, claim-Grants, with_id, waiting}
use pimio.Dispatcher.{
  JobDispatcher, Task, Completion, launch, launch_all, dispatch_claimed, try_dispatch, hash_remove,
}
use pimio.Base.{
  ℕ, sym, subst, ◌+◌, ◌-◌, ◌≤◌, ◌≡◌, refl, inl, inr, Bool, false, not, ◌||◌, List, [], ◌∷◌, ◌++◌,
  arith, leb, if◌then◌else◌, Text, text_eq, text_eq→≡, count, if_cases, Bool-cases,
}

-- The tasks and the completions of an id, and its entries in the hash of cancellation flags.
abbrev pub working : Text → List Task → ℕ
working id = count (λ t. has_id id t.job)

abbrev pub returning : Text → List Completion → ℕ
returning id = count (λ c. has_id id c.job)

abbrev pub cancellable : Text → List (Text × ℕ) → ℕ
cancellable id = count (λ (e : Text × ℕ). text_eq e.0 id)

-- Of w workers and c completions with an id, h entries of the hash, p pending rows and n rows: the
-- row is unique, a job that is being run is not pending, and has its entry.
pub record Sound (w c h p n : ℕ) : Type 0 where
  pub keyed : n ≤ 1
  pub single : w + c + p ≤ n
  pub held : h ≡ w + c

abbrev pub SoundAt : Text → JobDispatcher → Type 0
SoundAt id s =
    Sound (working id s.tasks) (returning id s.posted) (cancellable id s.cancellations)
      (waiting id s.queue.rows) (with_id id s.queue.rows)

pub count-append {ℓ} :
    {A : Type ℓ} (p : A → Bool) (xs ys : List A) → count p (xs ++ ys) ≡ count p xs + count p ys
count-append p [] ys = omega arith
count-append p (x ∷ xs) ys = ground (arith, count-append p xs ys)

cancellable-remove :
    (id : Text) (entries : List (Text × ℕ)) → cancellable id (hash_remove id entries) ≡ 0
cancellable-remove id [] = refl
cancellable-remove id (e ∷ entries) = ground (arith, cancellable-remove id entries)

cancellable-remove_other :
    (id other : Text) (entries : List (Text × ℕ))
    → text_eq other id ≡ false
    → cancellable id (hash_remove other entries) ≡ cancellable id entries
cancellable-remove_other id other [] h = refl
cancellable-remove_other id other (e ∷ entries) h = elim (Bool-cases (text_eq e.0 other)) [
  | inl same ↦
      let out = subst (λ k. text_eq k id ≡ false) (sym (text_eq→≡ e.0 other same)) h in
      ground (arith, out, cancellable-remove_other id other entries h)
  | inr differs ↦ ground (arith, cancellable-remove_other id other entries h)
]

-- Removing an id clears its entries, and only those.
pub cancellable-remove_if :
    (id other : Text) (entries : List (Text × ℕ))
    → cancellable id (hash_remove other entries)
      ≡ (if text_eq other id then 0 else cancellable id entries)
cancellable-remove_if id other entries = elim (Bool-cases (text_eq other id)) [
  | inl e ↦ rw (e, text_eq→≡ other id e) (cancellable-remove id entries)
  | inr e ↦ rw e (cancellable-remove_other id other entries e)
]

pub launch-SoundAt :
    (id : Text) (job : JobRecord) (jobs : List JobRecord) (s : JobDispatcher)
    → SoundAt id s
    → working id s.tasks + returning id s.posted + with_id id (job ∷ jobs) + waiting id s.queue.rows
      ≤ with_id id s.queue.rows
    → SoundAt id (launch job s)
      × (working id (launch job s).tasks
            + returning id s.posted
            + with_id id jobs
            + waiting id s.queue.rows
          ≤ with_id id s.queue.rows)
unfolding launch
launch-SoundAt id job jobs s h room =
    let task : Task = record { job = job; cancel = s.next_flag; workers = s.workers } in
    let more = count-append (λ (t : Task). has_id id t.job) s.tasks (task ∷ []) in
    let cleared = cancellable-remove_if id job.id s.cancellations in
    elim (Bool-cases (text_eq job.id id)) [
      | inl e ↦ ground (arith, more, cleared)
      | inr e ↦ ground (arith, more, cleared)
    ]

pub launch_all-SoundAt :
    (id : Text) (jobs : List JobRecord) (s : JobDispatcher)
    → SoundAt id s
    → working id s.tasks + returning id s.posted + with_id id jobs + waiting id s.queue.rows
      ≤ with_id id s.queue.rows
    → SoundAt id (launch_all jobs s)
unfolding launch_all launch
launch_all-SoundAt id [] s h room = h
launch_all-SoundAt id (job ∷ jobs) s h room =
    let (next, left) = launch-SoundAt id job jobs s h room in
    launch_all-SoundAt id jobs (launch job s) next left

dispatch_claimed-SoundAt :
    (id : Text) (n : ℕ) (s : JobDispatcher) (z : JobQueue × Result (List JobRecord))
    → SoundAt id s
    → Grants id n s.queue z
    → SoundAt id (dispatch_claimed z s)
unfolding dispatch_claimed
dispatch_claimed-SoundAt id n s (q, ok jobs) h (same, short, g) =
    launch_all-SoundAt id jobs (record s { queue = q })
      (record { keyed = omega (arith, h, same); single = omega (arith, h, same, g); held = h.held })
      (omega (arith, h, same, g))
dispatch_claimed-SoundAt id n s (q, err e) h (same, g) = record {
  keyed = omega (arith, h, same);
  single = omega (arith, h, same, g);
  held = h.held;
}

pub try_dispatch-SoundAt :
    (id : Text) (disk : Disk) (now : ℕ) (s : JobDispatcher)
    → SoundAt id s
    → SoundAt id (try_dispatch disk now s)
unfolding try_dispatch
try_dispatch-SoundAt id disk now s h =
    if_cases (SoundAt id) (not s.running || not s.queue.open_) _ _ (λ _. h)
      λ _.
        if_cases (SoundAt id) (leb s.max_concurrency s.inflight_count) _ _ (λ _. h)
          λ e.
            let free = s.max_concurrency - s.inflight_count in
            dispatch_claimed-SoundAt id free s _ h (claim-Grants id disk free now s.queue)
