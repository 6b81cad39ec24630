-- ===== src/Watch/Service/Flow.antt =====
-- The watch pipeline of src/watch/src/watch_service.cpp from the adapter's events to the job queue.
use pimio.Watch.Service.{
  LibraryRoot, WatchService, Moment, on_timer_tick, enqueue_reconcile, reconcile_record,
  reconcile_key, on_adapter_event, on_adapter_events, start, stop, set_debounce_ms,
  set_periodic_fallback_interval_ms,
}
use pimio.Watch.Service.Ticks.{tick_reconciles}
use pimio.Watch.Coalescer.Bursts.{ingest_all, IsQuiet, burst_due, overflows}
use pimio.Watch.Coalescer.{take_due_reconcile, WatchEvent, ingest}
use pimio.JobQueue.Coalescing.{count_of_mem, waits_for, pending_with, enqueue-le_one}
use pimio.JobQueue.{has_id}
use pimio.Base.{
  ◌≡◌, refl, ◌∙◌, Bool, true, false, Text, some, List, [], ◌∷◌, ◌++◌, any, ◌≤◌, ◌+◌, arith,
  is_empty, ℕ, inl, ap, if◌then◌else◌, not,
}

-- The operations of the service, with what the environment supplies.
pub data Operation : Type 0 where
  starts : LibraryRoot → ℕ → List (WatchEvent × ℕ) → Bool → Operation
  stops : Operation
  hears : WatchEvent → ℕ → Operation
  ticks : Moment → Operation
  sets_debounce : ℕ → Operation
  sets_interval : ℕ → Operation

on_adapter_events-queue :
    (es : List (WatchEvent × ℕ)) (s : WatchService)
    → (on_adapter_events es s).job_queue ≡ s.job_queue
unfolding on_adapter_events
on_adapter_events-queue [] s = refl
on_adapter_events-queue ((e, t) ∷ es) s =
    on_adapter_events-queue es (on_adapter_event e t s) ∙ heard
  where
    heard : (on_adapter_event e t s).job_queue ≡ s.job_queue
    heard = ground arith

heard_active : {b : Bool} → b ≡ true → (s t : WatchService) → (if not b then s else t) ≡ t
heard_active h s t = simp h

-- An active service hands its events to the coalescer.
on_adapter_events-ingest_all :
    (es : List (WatchEvent × ℕ)) (s : WatchService)
    → s.active ≡ true
    → on_adapter_events es s ≡ record s { coalescer = ingest_all es s.coalescer }
unfolding on_adapter_events on_adapter_event ingest_all
on_adapter_events-ingest_all [] s h = refl
on_adapter_events-ingest_all ((e, t) ∷ es) s h =
    let next = record s { coalescer = ingest e t s.coalescer } in
    ap (on_adapter_events es) (heard_active h s next) ∙ on_adapter_events-ingest_all es next h

start-queue :
    (root : LibraryRoot) (now : ℕ) (es : List (WatchEvent × ℕ)) (ok_ : Bool) (s : WatchService)
    → (start root now es ok_ s).0.job_queue ≡ s.job_queue
unfolding start
start-queue root now es true s = on_adapter_events-queue es _ ∙ stopped
  where
    stopped : (stop s).job_queue ≡ s.job_queue
    stopped = ground arith
start-queue root now es false s = on_adapter_events-queue es _ ∙ stopped
  where
    stopped : (stop s).job_queue ≡ s.job_queue
    stopped = ground arith

module _ (payload_text : LibraryRoot → Bool → Bool → Text) where
  pub operate : Operation → WatchService → WatchService
  operate (starts root now es ok_) s = (start root now es ok_ s).0
  operate stops s = stop s
  operate (hears e t) s = on_adapter_event e t s
  operate (ticks m) s = on_timer_tick payload_text m s
  operate (sets_debounce ms) s = set_debounce_ms ms s
  operate (sets_interval ms) s = set_periodic_fallback_interval_ms ms s

  pub serve : List Operation → WatchService → WatchService
  unfolding operate
  serve [] s = s
  serve (o ∷ os) s = serve os (operate o s)

  module _ (key : Text) (keyed : is_empty key ≡ false) where
    tick-le_one :
        (m : Moment) (s : WatchService)
        → pending_with key s.job_queue.rows ≤ 1
        → pending_with key (on_timer_tick payload_text m s).job_queue.rows ≤ 1
    unfolding on_timer_tick enqueue_reconcile
    tick-le_one m s h = ground (
      arith,
      enqueue-le_one m.disk
          (reconcile_record payload_text m
            (take_due_reconcile m.now s.coalescer).0.last_reconcile_was_overflow false s.root)
          s.job_queue key keyed h,
      enqueue-le_one m.disk (reconcile_record payload_text m false true s.root) s.job_queue key
          keyed h,
    )

    operate-le_one :
        (o : Operation) (s : WatchService)
        → pending_with key s.job_queue.rows ≤ 1
        → pending_with key (operate o s).job_queue.rows ≤ 1
    unfolding operate stop on_adapter_event set_debounce_ms set_periodic_fallback_interval_ms
    operate-le_one (starts root now es ok_) s h = rw (start-queue root now es ok_ s) h
    operate-le_one stops s h = ground arith
    operate-le_one (hears e t) s h = ground arith
    operate-le_one (ticks m) s h = tick-le_one m s h
    operate-le_one (sets_debounce ms) s h = h
    operate-le_one (sets_interval ms) s h = h

    -- However often the service is started, stopped, sent events and ticked, and whichever statements
    -- of the queue fail, it never leaves two pending jobs of one non-empty key where there was at most
    -- one: a burst, an overflow and the fallback together queue one reconcile of a root.
    pub serve-le_one :
        (os : List Operation) (s : WatchService)
        → pending_with key s.job_queue.rows ≤ 1
        → pending_with key (serve os s).job_queue.rows ≤ 1
    unfolding serve
    serve-le_one [] s h = h
    serve-le_one (o ∷ os) s h = serve-le_one os (operate o s) (operate-le_one o s h)

  -- The events of a burst reach the queue: after a burst that begins at time t in an active, quiet
  -- service, a tick that comes no sooner than the debounce time after t, with an open queue whose
  -- statements run and a new id, leaves a reconcile job of the root pending, and signals whether the
  -- burst had an overflow.
  pub burst_reconciled :
      (e : WatchEvent) (t : ℕ) (es : List (WatchEvent × ℕ)) (m : Moment) (s : WatchService)
      → s.active ≡ true
      → IsQuiet s.coalescer
      → t + s.coalescer.debounce_ms ≤ m.now
      → s.job_queue.open_ ≡ true
      → ((i : ℕ) → m.disk i ≡ true)
      → any (has_id m.id) s.job_queue.rows ≡ false
      → let u = on_timer_tick payload_text m (on_adapter_events ((e, t) ∷ es) s) in
        (1 ≤ pending_with (reconcile_key s.root) u.job_queue.rows)
        × (id : Text) × (u.emitted
            ≡ s.emitted
              ++ record {
                job_id = some id;
                was_overflow = overflows ((e, t) ∷ es);
                was_periodic_fallback = false;
              }
                ∷ [])
  burst_reconciled e t es m s h quiet late open_ runs fresh =
      let next = record s { coalescer = ingest_all ((e, t) ∷ es) s.coalescer } in
      let (due, flag) = burst_due s.coalescer e t es m.now quiet late in
      let (r, mem, waits, restarted, told) =
        tick_reconciles payload_text m next h open_ runs fresh (inl due) in
      rw (on_adapter_events-ingest_all ((e, t) ∷ es) s h)
        (count_of_mem (waits_for (reconcile_key s.root)) mem waits, r.id, rw (told, due, flag))
