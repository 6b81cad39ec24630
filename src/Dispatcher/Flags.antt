-- ===== src/Dispatcher/Flags.antt =====
-- The cancellation flags of src/projection/src/job_dispatcher.cpp: m_cancellations has the flag of every
-- task, through the dispatch and the completion of jobs.
use pimio.Core.Job.{JobRecord}
use pimio.JobQueue.{Disk, JobQueue, Result, ok, err, claim}
use pimio.JobQueue.Grants.{Grants, claim-Grants, with_id, waiting}
use pimio.Dispatcher.{
  JobDispatcher, Task, Completion, launch, launch_all, dispatch_claimed, try_dispatch,
  complete_posted, finish_job, hash_find, hash_remove, hash_insert,
}
use pimio.Dispatcher.Flights.{SoundAt, working, returning, launch-SoundAt}
use pimio.Dispatcher.Handing.{finish_job-SoundAt}
use pimio.Base.{
  ℕ, ◌+◌, ◌-◌, ◌≤◌, ◌≡◌, refl, sym, ap, subst, ◌∙◌, inl, inr, true, false, not, ◌||◌, some, List,
  [], ◌∷◌, Memᴰ, arith, leb, Text, text_eq, text_eq→≡, text_eq_refl, All, All-of, All-mem,
  All-append, if_cases, Bool-cases,
}

-- Every task's flag is the one that the hash has for its job.
abbrev pub IsHeld : List (Text × ℕ) → Task → Type 0
IsHeld entries t = hash_find t.job.id entries ≡ some t.cancel

abbrev pub Held : JobDispatcher → Type 0
Held s = All (IsHeld s.cancellations) s.tasks

working-mem : (t : Task) (ts : List Task) → Memᴰ t ts → 1 ≤ working t.job.id ts
working-mem t [] m = elim m [ ]
working-mem t (u ∷ ts) (Memᴰ.head e) =
    let same : text_eq u.job.id t.job.id ≡ true =
      subst (λ (x : Task). text_eq x.job.id t.job.id ≡ true) e (text_eq_refl t.job.id) in
    rw same (omega arith)
working-mem t (u ∷ ts) (Memᴰ.tail m) = ground (arith, working-mem t ts m)

find-remove_other :
    (id other : Text) (entries : List (Text × ℕ))
    → text_eq other id ≡ false
    → hash_find id (hash_remove other entries) ≡ hash_find id entries
unfolding hash_find
find-remove_other id other [] h = refl
find-remove_other id other (e ∷ entries) h = elim (Bool-cases (text_eq e.0 other)) [
  | inl same ↦
      let out = subst (λ (k : Text). text_eq k id ≡ false) (sym (text_eq→≡ e.0 other same)) h in
      rw (same, out) (find-remove_other id other entries h)
  | inr differs ↦ rw differs (ground (arith, find-remove_other id other entries h))
]

-- The jobs that are to be launched are neither pending nor with a worker.
abbrev Room : JobDispatcher → List JobRecord → Type 0
Room s jobs =
    (id : Text)
    → SoundAt id s
      × (working id s.tasks + returning id s.posted + with_id id jobs + waiting id s.queue.rows
          ≤ with_id id s.queue.rows)

launch-Held :
    (job : JobRecord) (jobs : List JobRecord) (s : JobDispatcher)
    → Room s (job ∷ jobs)
    → Held s
    → Held (launch job s)
unfolding launch hash_find
launch-Held job jobs s room h =
    All-append (IsHeld (hash_insert job.id s.next_flag s.cancellations)) s.tasks _
      (All-of _ s.tasks λ t m. old t m) (rw (text_eq_refl job.id) refl, tt)
  where
    old : (t : Task) → Memᴰ t s.tasks → IsHeld (hash_insert job.id s.next_flag s.cancellations) t
    old t m =
        let (sound, fits) = room t.job.id in
        let apart : text_eq job.id t.job.id ≡ false =
          ground (arith, working-mem t s.tasks m, fits, sound.keyed) in
        rw apart (
          find-remove_other t.job.id job.id s.cancellations apart
          ∙ All-mem (IsHeld s.cancellations) h m)

launch_all-Held :
    (jobs : List JobRecord) (s : JobDispatcher) → Room s jobs → Held s → Held (launch_all jobs s)
unfolding launch_all launch
launch_all-Held [] s room h = h
launch_all-Held (job ∷ jobs) s room h =
    launch_all-Held jobs (launch job s)
      (λ id. let (sound, fits) = room id in launch-SoundAt id job jobs s sound fits)
      (launch-Held job jobs s room h)

dispatch_claimed-Held :
    (n : ℕ) (s : JobDispatcher) (z : JobQueue × Result (List JobRecord))
    → ((id : Text) → SoundAt id s)
    → ((id : Text) → Grants id n s.queue z)
    → Held s
    → Held (dispatch_claimed z s)
unfolding dispatch_claimed
dispatch_claimed-Held n s (q, ok jobs) sound grants h =
    launch_all-Held jobs (record s { queue = q }) room h
  where
    room : Room (record s { queue = q }) jobs
    room id =
        let a = sound id in
        let (same, short, g) = grants id in
        (
          record {
            keyed = omega (arith, a, same);
            single = omega (arith, a, same, g);
            held = a.held;
          },
          omega (arith, a, same, g),
        )
dispatch_claimed-Held n s (q, err e) sound grants h = h

pub try_dispatch-Held :
    (disk : Disk) (now : ℕ) (s : JobDispatcher)
    → ((id : Text) → SoundAt id s)
    → Held s
    → Held (try_dispatch disk now s)
unfolding try_dispatch
try_dispatch-Held disk now s sound h =
    if_cases Held (not s.running || not s.queue.open_) _ _ (λ _. h)
      λ _.
        if_cases Held (leb s.max_concurrency s.inflight_count) _ _ (λ _. h)
          λ _.
            let free = s.max_concurrency - s.inflight_count in
            dispatch_claimed-Held free s (claim disk free now s.queue) sound
              (λ id. claim-Grants id disk free now s.queue) h

finish_job-Held :
    (disk : Disk) (c : Completion) (rest : List Completion) (s : JobDispatcher)
    → s.posted ≡ c ∷ rest
    → ((id : Text) → SoundAt id s)
    → Held s
    → Held (finish_job disk c (record s { posted = rest }))
unfolding finish_job
finish_job-Held disk c rest s e sound h = All-of _ s.tasks kept
  where
    kept : (t : Task) → Memᴰ t s.tasks → IsHeld (hash_remove c.job.id s.cancellations) t
    kept t m =
        let a = sound t.job.id in
        let apart : text_eq c.job.id t.job.id ≡ false =
          ground (arith, working-mem t s.tasks m, ap (returning t.job.id) e, a.single, a.keyed) in
        find-remove_other t.job.id c.job.id s.cancellations apart
        ∙ All-mem (IsHeld s.cancellations) h m

pub complete_posted-Held :
    (disk disk' : Disk) (now : ℕ) (posted : List Completion) (s : JobDispatcher)
    → s.posted ≡ posted
    → ((id : Text) → SoundAt id s)
    → Held s
    → Held (complete_posted disk disk' now posted s)
complete_posted-Held disk disk' now [] s e sound h = h
complete_posted-Held disk disk' now (c ∷ rest) s e sound h =
    try_dispatch-Held disk' now (finish_job disk c (record s { posted = rest }))
      (λ id. finish_job-SoundAt id disk c rest s e (sound id))
      (finish_job-Held disk c rest s e sound h)
