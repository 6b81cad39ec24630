-- ===== src/Watch/Service.antt =====
-- src/watch/src/watch_service.cpp: the adapter's events go through the coalescer and become
-- ReconcileRoot jobs of the queue. The adapter's answers, the clock's readings, the generated ids
-- and whether the queue's statements run are arguments of the operations; `payload_text` is the
-- compact text of the job's JSON payload, which Qt prints.
pub mod Ticks
pub mod Flow
use pimio.Watch.Coalescer.{
  EventCoalescer, WatchEvent, event_coalescer, ingest, take_due_reconcile, is_periodic_fallback_due,
}
use pimio.JobQueue.{JobQueue, Disk, Result, ok, err, enqueue}
use pimio.Core.Job.{JobRecord, reconcile_root, background, pending}
use pimio.Core.Error.{no_error}
use pimio.Base.{
  Text, Option, none, some, List, [], ◌∷◌, ◌++◌, codes, not, if◌then◌else◌, ℕ, Bool, true, false,
}

pub record LibraryRoot : Type 0 where
  pub absolute_path : Text
  pub follow_symlinks : Bool

-- `reconcileEnqueued(jobId, wasOverflow, wasPeriodicFallback)`; the id is invalid on an error.
pub record Signal : Type 0 where
  pub job_id : Option Text
  pub was_overflow : Bool
  pub was_periodic_fallback : Bool

pub record WatchService : Type 0 where
  pub coalescer : EventCoalescer
  pub debounce_ms : ℕ
  pub root : LibraryRoot
  pub last_reconcile_at : Option ℕ
  pub periodic_fallback_interval_ms : ℕ
  pub timer_active : Bool
  pub active : Bool
  pub job_queue : JobQueue
  pub emitted : List Signal

-- What the environment supplies at a tick: the clock's three readings, the id and the disk.
pub record Moment : Type 0 where
  pub now : ℕ
  pub created : ℕ
  pub done : ℕ
  pub id : Text
  pub disk : Disk

abbrev pub default_pairing_timeout_ms : ℕ
default_pairing_timeout_ms = 2000

unfoldable pub watch_service : JobQueue → WatchService
unfolding event_coalescer
watch_service q = record {
  coalescer = event_coalescer 500 default_pairing_timeout_ms;
  debounce_ms = 500;
  root = record { absolute_path = []; follow_symlinks = false };
  last_reconcile_at = none;
  periodic_fallback_interval_ms = 900000;
  timer_active = false;
  active = false;
  job_queue = q;
  emitted = [];
}

unfoldable pub set_debounce_ms : ℕ → WatchService → WatchService
set_debounce_ms ms s = record s { debounce_ms = ms }

unfoldable pub set_periodic_fallback_interval_ms : ℕ → WatchService → WatchService
set_periodic_fallback_interval_ms ms s = record s { periodic_fallback_interval_ms = ms }

unfoldable pub stop : WatchService → WatchService
stop s = if not s.active then s else record s { timer_active = false; active = false }

unfoldable pub on_adapter_event : WatchEvent → ℕ → WatchService → WatchService
on_adapter_event event now s =
    if not s.active then s else record s { coalescer = ingest event now s.coalescer }

-- The events that the adapter reports while it starts.
unfoldable pub on_adapter_events : List (WatchEvent × ℕ) → WatchService → WatchService
unfolding on_adapter_event
on_adapter_events [] s = s
on_adapter_events ((e, t) ∷ es) s = on_adapter_events es (on_adapter_event e t s)

-- `starts` is the adapter's answer, which comes with the events that it reported.
unfoldable pub start :
    LibraryRoot → ℕ → List (WatchEvent × ℕ) → Bool → WatchService → WatchService × Bool
unfolding stop on_adapter_events
start root now events starts s =
    let prepared = record (stop s) {
      root = root;
      coalescer = event_coalescer s.debounce_ms default_pairing_timeout_ms;
      last_reconcile_at = some now;
      active = true;
    } in
    let reported = on_adapter_events events prepared in
    if starts
    then (record reported { timer_active = true }, true)
    else (record reported { active = false }, false)

abbrev pub reconcile_key : LibraryRoot → Text
reconcile_key root = codes "watch-reconcile:" ++ root.absolute_path

abbrev pub job_id_of : Result Text → Option Text
job_id_of (ok id) = some id
job_id_of (err e) = none

module _ (payload_text : LibraryRoot → Bool → Bool → Text) where
  unfoldable pub reconcile_record : Moment → Bool → Bool → LibraryRoot → JobRecord
  reconcile_record m overflow periodic root = record {
    id = m.id;
    kind = reconcile_root;
    priority = background;
    state = pending;
    coalescing_key = reconcile_key root;
    payload = payload_text root overflow periodic;
    attempts = 0;
    max_attempts = 3;
    created_at = some m.created;
    not_before = none;
    last_error = no_error;
  }

  unfoldable pub enqueue_reconcile : Moment → Bool → Bool → WatchService → WatchService
  unfolding reconcile_record
  enqueue_reconcile m overflow periodic s =
      let (q, result) = enqueue m.disk (reconcile_record m overflow periodic s.root) s.job_queue in
      record s {
        job_queue = q;
        last_reconcile_at = some m.done;
        emitted =
            s.emitted
            ++ record {
              job_id = job_id_of result;
              was_overflow = overflow;
              was_periodic_fallback = periodic;
            }
              ∷ [];
      }

  unfoldable pub on_timer_tick : Moment → WatchService → WatchService
  unfolding enqueue_reconcile
  on_timer_tick m s =
      if not s.active
      then s
      else let (c, due) = take_due_reconcile m.now s.coalescer in
        let t = record s { coalescer = c } in
        if due
        then enqueue_reconcile m c.last_reconcile_was_overflow false t
        else if is_periodic_fallback_due s.last_reconcile_at m.now s.periodic_fallback_interval_ms
        then enqueue_reconcile m false true t
        else t
