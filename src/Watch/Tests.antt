-- ===== src/Watch/Tests.antt =====
-- The watch pipeline of src/watch/src/event_coalescer.cpp and watch_service.cpp on small inputs.
use pimio.Core.Job.{JobRecord}
use pimio.JobQueue.{Disk, JobQueue}
use pimio.JobQueue.Coalescing.{waits_for, pending_with}
use pimio.Watch.Coalescer.{
  WatchEvent, WatchEventKind, created, modified, renamed_from, renamed_to, overflow, EventCoalescer,
  event_coalescer, ingest, take_due_reconcile, pending_rename_half_count,
}
use pimio.Watch.Coalescer.Bursts.{
  feed_conserves, due_count, arrivals, has_overflow, overflows, burst_once, Input, arrives, checks,
  feed,
}
use pimio.Watch.Coalescer.Renames.{IsPairing, halves, holds_cookie, feed_pairs}
use pimio.Watch.Coalescer.Pairs.{halves_pair}
use pimio.Watch.Service.{
  LibraryRoot, WatchService, Moment, reconcile_key, on_adapter_events, on_timer_tick,
}
use pimio.Watch.Service.Ticks.{tick_all, tick_reconciles, tick_failed}
use pimio.Watch.Service.Flow.{Operation, starts, hears, ticks, stops, burst_reconciled}
use pimio.Base.{
  ◌||◌, suc, map, Memᴰ, ℕ, ◌+◌, ◌*◌, ◌≤◌, ◌≡◌, refl, inl, Bool, true, false, not, ◌&&◌, none, some,
  List, [], ◌∷◌, ◌++◌, arith, Text, codes,
}

abbrev event : WatchEventKind → ℕ → WatchEvent
event kind cookie = record {
  kind = kind;
  path = codes "/photos/a.jpg";
  rename_cookie = cookie;
  observed_at = none;
}

abbrev quiet : EventCoalescer
quiet = record {
  debounce_ms = 500;
  rename_pairing_timeout_ms = 2000;
  pending = false;
  pending_since = 0;
  pending_event_count = 0;
  overflow_pending = false;
  last_reconcile_event_count = 0;
  last_reconcile_was_overflow = false;
  paired_rename_count = 0;
  pending_rename_halves = [];
}

abbrev later_events : List (WatchEvent × ℕ)
later_events = (event modified 0, 1200) ∷ (event overflow 0, 1300) ∷ []

-- A check, an event, another check and an overflow.
abbrev busy : List Input
busy =
    checks 1100
    ∷ arrives (event modified 0) 1200
    ∷ checks 1499
    ∷ arrives (event overflow 0) 1300
    ∷ []

burst_once_example :
    let b = (feed (arrives (event created 0) 1000 ∷ busy) quiet).coalescer in
    let d = (take_due_reconcile 1500 b).0 in
    (due_count (arrives (event created 0) 1000 ∷ busy) quiet ≡ 0)
    × ((take_due_reconcile 1500 b).1 ≡ true)
    × (d.last_reconcile_event_count ≡ suc (arrivals busy))
    × (d.last_reconcile_was_overflow ≡ has_overflow (arrives (event created 0) 1000 ∷ busy))
    × (due_count (map checks (1600 ∷ 9000 ∷ [])) d ≡ 0)
burst_once_example =
    burst_once quiet (event created 0) 1000 busy 1500 (1600 ∷ 9000 ∷ []) (refl, refl, refl)
      (omega arith) (omega arith)

abbrev inputs : List Input
inputs =
    arrives (event renamed_from 7) 1000
    ∷ checks 1200
    ∷ arrives (event renamed_to 7) 1300
    ∷ checks 1600
    ∷ arrives (event overflow 0) 1700
    ∷ []

feed_pairs_example :
    let c = (feed inputs (event_coalescer 500 2000)).coalescer in
    IsPairing c.pending_rename_halves
    × (2 * c.paired_rename_count + pending_rename_half_count c ≤ halves inputs)
feed_pairs_example = feed_pairs 500 2000 inputs

-- An event and a check between two halves.
abbrev between : List Input
between = arrives (event modified 0) 1100 ∷ checks 2999 ∷ []

halves_pair_example :
    let d = (feed between (ingest (event renamed_to 7) 1000 quiet)).coalescer in
    (holds_cookie 7 d ≡ true)
    × ((ingest (event renamed_from 7) 3000 d).paired_rename_count ≡ d.paired_rename_count + 1)
    × (holds_cookie 7 (ingest (event renamed_from 7) 3000 d) ≡ false)
halves_pair_example =
    halves_pair 7 (event renamed_to 7) (event renamed_from 7) 1000 3000 between quiet (omega arith)
      (refl, refl) (refl, refl) ((refl, refl), (omega arith, tt)) refl

abbrev texts : LibraryRoot → Bool → Bool → Text
texts root b c = codes "{}"

abbrev empty_queue : JobQueue
empty_queue = record { open_ = true; rows = [] }

abbrev photos : LibraryRoot
photos = record { absolute_path = codes "/photos"; follow_symlinks = false }

abbrev watching : WatchService
watching = record {
  coalescer = quiet;
  debounce_ms = 500;
  root = photos;
  last_reconcile_at = some 900;
  periodic_fallback_interval_ms = 900000;
  timer_active = true;
  active = true;
  job_queue = empty_queue;
  emitted = [];
}

abbrev noticed : WatchService
noticed = record watching { coalescer = ingest (event created 0) 1000 quiet }

abbrev runs : Disk
runs n = true

abbrev stops_ : Disk
stops_ n = false

abbrev at : ℕ → Text → Disk → Moment
at now id disk = record { now = now; created = now; done = now + 1; id = id; disk = disk }

tick_reconciles_example :
    let m = at 1600 (codes "j") runs in
    let (c, due) = take_due_reconcile m.now noticed.coalescer in
    let t = on_timer_tick texts m noticed in
    (r : JobRecord) × Memᴰ r t.job_queue.rows
    × (waits_for (reconcile_key photos) r ≡ true)
    × (t.last_reconcile_at ≡ some 1601)
    × (t.emitted
        ≡ []
          ++ record {
            job_id = some r.id;
            was_overflow = due && c.last_reconcile_was_overflow;
            was_periodic_fallback = not due;
          }
            ∷ [])
unfolding take_due_reconcile ingest
tick_reconciles_example =
    tick_reconciles texts (at 1600 (codes "j") runs) noticed refl refl (λ i. refl) refl (inl refl)

tick_failed_example :
    let m = at 1600 (codes "j") stops_ in
    let t = on_timer_tick texts m noticed in
    (t.job_queue ≡ empty_queue)
    × (t.emitted
        ≡ []
          ++ record {
            job_id = none;
            was_overflow =
                (take_due_reconcile m.now noticed.coalescer).0.last_reconcile_was_overflow;
            was_periodic_fallback = false;
          }
            ∷ [])
    × ((tick_all texts (at 1700 (codes "i") runs ∷ at 1800 (codes "k") runs ∷ []) t).job_queue
        ≡ empty_queue)
    × ((tick_all texts (at 1700 (codes "i") runs ∷ at 1800 (codes "k") runs ∷ []) t).emitted
        ≡ t.emitted)
unfolding take_due_reconcile ingest
tick_failed_example =
    tick_failed texts (at 1600 (codes "j") stops_)
      (at 1700 (codes "i") runs ∷ at 1800 (codes "k") runs ∷ []) noticed refl refl refl
      (omega arith)

abbrev operations : List Operation
operations =
    starts photos 900 [] true
    ∷ hears (event created 0) 1000
    ∷ ticks (at 1600 (codes "j") runs)
    ∷ hears (event modified 0) 1700
    ∷ ticks (at 2300 (codes "i") runs)
    ∷ stops
    ∷ []

burst_reconciled_example :
    let u =
      on_timer_tick texts
        (at 1600 (codes "j") runs)
        (on_adapter_events ((event created 0, 1000) ∷ later_events) watching) in
    (1 ≤ pending_with (reconcile_key photos) u.job_queue.rows)
    × (id : Text) × (u.emitted
        ≡ []
          ++ record {
            job_id = some id;
            was_overflow = overflows ((event created 0, 1000) ∷ later_events);
            was_periodic_fallback = false;
          }
            ∷ [])
burst_reconciled_example =
    burst_reconciled texts (event created 0) 1000 later_events (at 1600 (codes "j") runs) watching
      refl (refl, refl, refl) (omega arith) refl (λ i. refl) refl

-- Two bursts, with a check within the first, one between and none after the second.
abbrev two_bursts : List Input
two_bursts =
    arrives (event created 0) 1000
    ∷ checks 1100
    ∷ arrives (event overflow 0) 1200
    ∷ checks 5000
    ∷ arrives (event modified 0) 6000
    ∷ []

feed_conserves_example :
    let r = feed two_bursts quiet in
    (quiet.pending_event_count + arrivals two_bursts ≡ r.reported + r.coalescer.pending_event_count)
    × ((quiet.overflow_pending || has_overflow two_bursts)
        ≡ (r.flagged || r.coalescer.overflow_pending))
feed_conserves_example = feed_conserves two_bursts quiet
