-- ===== src/Watch/Service/Ticks.antt =====
-- A timer tick of src/watch/src/watch_service.cpp: when it asks for a reconcile, and what then
-- happens to the job queue.
use pimio.Watch.Coalescer.Bursts.{check_quiet, after_due}
use pimio.Core.Job.{JobRecord}
use pimio.Watch.Service.{
  job_id_of, LibraryRoot, WatchService, Moment, on_timer_tick, enqueue_reconcile, reconcile_record,
  reconcile_key,
}
use pimio.Watch.Coalescer.{EventCoalescer, take_due_reconcile, is_periodic_fallback_due}
use pimio.JobQueue.Coalescing.{waits_for, enqueue-Answers, enqueue_fails}
use pimio.JobQueue.{enqueue, has_id}
use pimio.Base.{
  List, Memᴰ, All, ◌∙◌, ◌≡◌, refl, ◌⊎◌, inl, inr, Bool, true, false, not, ◌&&◌, Text, none, some,
  [], ◌∷◌, ◌++◌, any, ◌<◌, ◌+◌, arith, Bool-cases, ℕ,
}

-- A reason for a tick to ask for a reconcile.
abbrev pub Wants : Moment → WatchService → Type 0
Wants m s =
    ((take_due_reconcile m.now s.coalescer).1 ≡ true)
    ⊎ (is_periodic_fallback_due s.last_reconcile_at m.now s.periodic_fallback_interval_ms ≡ true)

module _ (payload_text : LibraryRoot → Bool → Bool → Text) where
  -- The two shapes of a tick of an active service.
  tick-cases :
      (m : Moment) (s : WatchService)
      → s.active ≡ true
      → Wants m s
      → let (c, due) = take_due_reconcile m.now s.coalescer in
        on_timer_tick payload_text m s
        ≡ enqueue_reconcile payload_text m
            (due && c.last_reconcile_was_overflow)
            (not due)
            (record s { coalescer = c })
  unfolding on_timer_tick
  tick-cases m s h w = go w
    where
      go :
          Wants m s
          → let (c, due) = take_due_reconcile m.now s.coalescer in
            on_timer_tick payload_text m s
            ≡ enqueue_reconcile payload_text m
                (due && c.last_reconcile_was_overflow)
                (not due)
                (record s { coalescer = c })
      go (inl due) = simp (h, due)
      go (inr late) = elim (Bool-cases (take_due_reconcile m.now s.coalescer).1) [
        | inl due ↦ simp (h, due)
        | inr wait ↦ simp (h, wait, late)
      ]

  enqueue_reconcile-waits :
      (m : Moment) (overflow periodic : Bool) (s : WatchService)
      → s.job_queue.open_ ≡ true
      → ((i : ℕ) → m.disk i ≡ true)
      → any (has_id m.id) s.job_queue.rows ≡ false
      → let t = enqueue_reconcile payload_text m overflow periodic s in
        (r : JobRecord) × Memᴰ r t.job_queue.rows
        × (waits_for (reconcile_key s.root) r ≡ true)
        × (t.last_reconcile_at ≡ some m.done)
        × (t.emitted
            ≡ s.emitted
              ++ record {
                job_id = some r.id;
                was_overflow = overflow;
                was_periodic_fallback = periodic;
              }
                ∷ [])
  unfolding enqueue_reconcile
  enqueue_reconcile-waits m overflow periodic s open_ runs fresh =
      let new = reconcile_record payload_text m overflow periodic s.root in
      let (r, mem, waits, ok_) =
        enqueue-Answers m.disk new s.job_queue open_ runs refl refl fresh in
      (r, mem, waits, refl, rw ok_)

  -- A tick of an active service at which a batch is due or the fallback interval has passed, with an
  -- open queue whose statements run and a new id, leaves a reconcile job of the root pending, restarts
  -- the fallback interval, and signals the id of that job in the table, whether the batch had an
  -- overflow, and whether it was the fallback that asked.
  pub tick_reconciles :
      (m : Moment) (s : WatchService)
      → s.active ≡ true
      → s.job_queue.open_ ≡ true
      → ((i : ℕ) → m.disk i ≡ true)
      → any (has_id m.id) s.job_queue.rows ≡ false
      → Wants m s
      → let (c, due) = take_due_reconcile m.now s.coalescer in
        let t = on_timer_tick payload_text m s in
        (r : JobRecord) × Memᴰ r t.job_queue.rows
        × (waits_for (reconcile_key s.root) r ≡ true)
        × (t.last_reconcile_at ≡ some m.done)
        × (t.emitted
            ≡ s.emitted
              ++ record {
                job_id = some r.id;
                was_overflow = due && c.last_reconcile_was_overflow;
                was_periodic_fallback = not due;
              }
                ∷ [])
  tick_reconciles m s h open_ runs fresh w = rw (tick-cases m s h w) (
      enqueue_reconcile-waits m _ _
        (record s { coalescer = (take_due_reconcile m.now s.coalescer).0 }) open_ runs fresh)

  -- A service that waits for nothing but the fallback.
  record Rests (last interval : ℕ) (s : WatchService) : Type 0 where
    quiet : s.coalescer.pending ≡ false
    last_at : s.last_reconcile_at ≡ some last
    every : s.periodic_fallback_interval_ms ≡ interval

  tick_due :
      (m : Moment) (s : WatchService)
      → s.active ≡ true
      → (take_due_reconcile m.now s.coalescer).1 ≡ true
      → let c = (take_due_reconcile m.now s.coalescer).0 in
        on_timer_tick payload_text m s
        ≡ enqueue_reconcile payload_text m c.last_reconcile_was_overflow false
            (record s { coalescer = c })
  unfolding on_timer_tick
  tick_due m s h due = simp (h, due)

  not_yet :
      (last now interval : ℕ)
      → now < last + interval
      → is_periodic_fallback_due (some last) now interval ≡ false
  unfolding is_periodic_fallback_due
  not_yet last now interval h = ground arith

  -- Ticks one after another.
  unfoldable pub tick_all : List Moment → WatchService → WatchService
  tick_all [] s = s
  tick_all (m ∷ ms) s = tick_all ms (on_timer_tick payload_text m s)

  tick_same :
      (m : Moment) (s : WatchService)
      → s.active ≡ true
      → (take_due_reconcile m.now s.coalescer).1 ≡ false
      → is_periodic_fallback_due s.last_reconcile_at m.now s.periodic_fallback_interval_ms ≡ false
      → on_timer_tick payload_text m s
        ≡ record s { coalescer = (take_due_reconcile m.now s.coalescer).0 }
  unfolding on_timer_tick
  tick_same m s h due late = simp (h, due, late)

  tick_off : (m : Moment) (s : WatchService) → s.active ≡ false → on_timer_tick payload_text m s ≡ s
  unfolding on_timer_tick
  tick_off m s h = simp h

  tick-Rests :
      (m : Moment) (last interval : ℕ) (s : WatchService)
      → Rests last interval s
      → m.now < last + interval
      → let t = on_timer_tick payload_text m s in
        Rests last interval t × (t.job_queue ≡ s.job_queue) × (t.emitted ≡ s.emitted)
  tick-Rests m last interval s r early =
      let (wait, quiet_) = check_quiet s.coalescer m.now r.quiet in
      let late : is_periodic_fallback_due s.last_reconcile_at m.now s.periodic_fallback_interval_ms
          ≡ false =
        rw (r.last_at, r.every) (not_yet last m.now interval early) in
      elim (Bool-cases s.active) [
        | inl h ↦
            rw (tick_same m s h wait late)
              (record { quiet = quiet_; last_at = r.last_at; every = r.every }, refl, refl)
        | inr h ↦ rw (tick_off m s h) (r, refl, refl)
      ]

  tick_all-Rests :
      (ms : List Moment) (last interval : ℕ) (s : WatchService)
      → Rests last interval s
      → All (λ (m : Moment). m.now < last + interval) ms
      → let t = tick_all ms s in (t.job_queue ≡ s.job_queue) × (t.emitted ≡ s.emitted)
  unfolding tick_all
  tick_all-Rests [] last interval s r early = (refl, refl)
  tick_all-Rests (m ∷ ms) last interval s r early =
      let (next, queue, told) = tick-Rests m last interval s r early.0 in
      let (queue', told') =
        tick_all-Rests ms last interval (on_timer_tick payload_text m s) next early.1 in
      (queue' ∙ queue, told' ∙ told)

  -- If the queue's statement fails at a tick with a due batch, the queue is as before, a signal with
  -- no id is sent, and the batch is gone: of any ticks that follow without a new event, before the whole
  -- fallback interval has passed, none asks for a reconcile or signals anything.
  pub tick_failed :
      (m : Moment) (laters : List Moment) (s : WatchService)
      → s.active ≡ true
      → m.disk 0 ≡ false
      → (take_due_reconcile m.now s.coalescer).1 ≡ true
      → All (λ (l : Moment). l.now < m.done + s.periodic_fallback_interval_ms) laters
      → let t = on_timer_tick payload_text m s in
        (t.job_queue ≡ s.job_queue)
        × (t.emitted
            ≡ s.emitted
              ++ record {
                job_id = none;
                was_overflow = (take_due_reconcile m.now s.coalescer).0.last_reconcile_was_overflow;
                was_periodic_fallback = false;
              }
                ∷ [])
        × ((tick_all laters t).job_queue ≡ s.job_queue)
        × ((tick_all laters t).emitted ≡ t.emitted)
  unfolding enqueue_reconcile
  tick_failed m laters s h stops due early =
      rw (tick_due m s h due) (same, rw failed_, after.0 ∙ same, after.1)
    where
      c : EventCoalescer
      c = (take_due_reconcile m.now s.coalescer).0

      u : WatchService
      u =
          enqueue_reconcile payload_text m c.last_reconcile_was_overflow false
            (record s { coalescer = c })

      new : JobRecord
      new = reconcile_record payload_text m c.last_reconcile_was_overflow false s.root

      same : (enqueue m.disk new s.job_queue).0 ≡ s.job_queue
      same = (enqueue_fails m.disk new s.job_queue stops).0

      failed_ : job_id_of (enqueue m.disk new s.job_queue).1 ≡ none
      failed_ = rw (enqueue_fails m.disk new s.job_queue stops).2

      rests : Rests m.done s.periodic_fallback_interval_ms u
      rests = record { quiet = after_due m.now s.coalescer due; last_at = refl; every = refl }

      after :
          ((tick_all laters u).job_queue ≡ u.job_queue) × ((tick_all laters u).emitted ≡ u.emitted)
      after = tick_all-Rests laters m.done s.periodic_fallback_interval_ms u rests early
