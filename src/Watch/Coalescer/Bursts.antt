-- ===== src/Watch/Coalescer/Bursts.antt =====
-- Bursts of events in src/watch/src/event_coalescer.cpp: one reconcile for each, and no event lost.
use pimio.Watch.Coalescer.{WatchEvent, EventCoalescer, is_overflow, ingest, take_due_reconcile}
use pimio.Base.{
  map, ◌∙◌, All, ◌||◌, suc, ◌⊎◌, ◌≡◌, refl, Bool, true, false, List, [], ◌∷◌, arith, ◌+◌, ◌<◌, ◌≤◌,
  length, any, if◌then◌else◌, ℕ,
}

-- No change is waiting.
abbrev pub IsQuiet : EventCoalescer → Type 0
IsQuiet c = (c.pending ≡ false) × (c.pending_event_count ≡ 0) × (c.overflow_pending ≡ false)

-- Events with the instants at which they arrive.
unfoldable pub ingest_all : List (WatchEvent × ℕ) → EventCoalescer → EventCoalescer
ingest_all [] c = c
ingest_all ((e, t) ∷ es) c = ingest_all es (ingest e t c)

abbrev pub overflows : List (WatchEvent × ℕ) → Bool
overflows = any (λ (e : WatchEvent × ℕ). is_overflow e.0)

-- What one event does to the batch that waits.
ingest-batch :
    (e : WatchEvent) (t : ℕ) (c : EventCoalescer)
    → let d = ingest e t c in
      (d.pending ≡ true)
      × (d.pending_since ≡ (if c.pending then c.pending_since else t))
      × (d.pending_event_count ≡ c.pending_event_count + 1)
      × (d.overflow_pending ≡ (if is_overflow e then true else c.overflow_pending))
      × (d.debounce_ms ≡ c.debounce_ms)
unfolding ingest
ingest-batch e t c = ground arith

ingest_all-batch :
    (es : List (WatchEvent × ℕ)) (c : EventCoalescer)
    → c.pending ≡ true
    → let d = ingest_all es c in
      (d.pending ≡ true)
      × (d.pending_since ≡ c.pending_since)
      × (d.pending_event_count ≡ c.pending_event_count + length es)
      × (d.overflow_pending ≡ (if overflows es then true else c.overflow_pending))
      × (d.debounce_ms ≡ c.debounce_ms)
unfolding ingest_all
ingest_all-batch [] c h = (h, refl, omega arith, refl, refl)
ingest_all-batch ((e, t) ∷ es) c h =
    ground (arith, ingest-batch e t c, ingest_all-batch es (ingest e t c))

-- What waits out its debounce window from `since`: `count` events, with an overflow or not.
record Waits (c : EventCoalescer) (since count : ℕ) (flag : Bool) : Type 0 where
  waiting : c.pending ≡ true
  from : c.pending_since ≡ since
  holds : c.pending_event_count ≡ count
  flagged : c.overflow_pending ≡ flag

burst-Waits :
    (c : EventCoalescer) (e : WatchEvent) (t : ℕ) (es : List (WatchEvent × ℕ))
    → IsQuiet c
    → Waits (ingest_all ((e, t) ∷ es) c) t (length ((e, t) ∷ es)) (overflows ((e, t) ∷ es))
      × ((ingest_all ((e, t) ∷ es) c).debounce_ms ≡ c.debounce_ms)
unfolding ingest_all
burst-Waits c e t es q = ground (arith, ingest-batch e t c, ingest_all-batch es (ingest e t c))

take_due :
    (c : EventCoalescer) (now since count : ℕ) (flag : Bool)
    → Waits c since count flag
    → since + c.debounce_ms ≤ now
    → let d = (take_due_reconcile now c).0 in
      ((take_due_reconcile now c).1 ≡ true)
      × (d.last_reconcile_event_count ≡ count)
      × (d.last_reconcile_was_overflow ≡ flag)
      × IsQuiet d
unfolding take_due_reconcile
take_due c now since count flag w h = ground arith

pub burst_due :
    (c : EventCoalescer) (e : WatchEvent) (t : ℕ) (es : List (WatchEvent × ℕ)) (now : ℕ)
    → IsQuiet c
    → t + c.debounce_ms ≤ now
    → let b = ingest_all ((e, t) ∷ es) c in
      ((take_due_reconcile now b).1 ≡ true)
      × ((take_due_reconcile now b).0.last_reconcile_was_overflow ≡ overflows ((e, t) ∷ es))
burst_due c e t es now q late =
    let (w, same) = burst-Waits c e t es q in
    let (due, count, flag, quiet) =
      take_due (ingest_all ((e, t) ∷ es) c) now t _ _ w (omega arith) in
    (due, flag)

-- What the coalescer is fed: an event at an instant, or a check at an instant.
pub data Input : Type 0 where
  arrives : WatchEvent → ℕ → Input
  checks : ℕ → Input

-- The coalescer after the inputs, the events in the reconciles that were due, and whether one of
-- those was flagged as an overflow.
pub record Report : Type 0 where
  pub coalescer : EventCoalescer
  pub reported : ℕ
  pub flagged : Bool

abbrev pub add_due : EventCoalescer × Bool → Report → Report
add_due (d, true) r = record r {
  reported = d.last_reconcile_event_count + r.reported;
  flagged = d.last_reconcile_was_overflow || r.flagged;
}
add_due (d, false) r = r

unfoldable pub feed : List Input → EventCoalescer → Report
feed [] c = record { coalescer = c; reported = 0; flagged = false }
feed (arrives e t ∷ is) c = feed is (ingest e t c)
feed (checks now ∷ is) c = add_due (take_due_reconcile now c) (feed is (take_due_reconcile now c).0)

abbrev pub arrivals : List Input → ℕ
arrivals [] = 0
arrivals (arrives e t ∷ is) = suc (arrivals is)
arrivals (checks now ∷ is) = arrivals is

abbrev pub has_overflow : List Input → Bool
has_overflow [] = false
has_overflow (arrives e t ∷ is) = is_overflow e || has_overflow is
has_overflow (checks now ∷ is) = has_overflow is

-- A batch that is due reports what waited and leaves nothing; any other check changes no counter.
take-batch :
    (now : ℕ) (c : EventCoalescer)
    → let (d, due) = take_due_reconcile now c in
      ((due ≡ true)
        × (d.last_reconcile_event_count ≡ c.pending_event_count)
        × (d.last_reconcile_was_overflow ≡ c.overflow_pending)
        × (d.pending_event_count ≡ 0)
        × (d.overflow_pending ≡ false))
      ⊎ ((due ≡ false)
          × (d.pending_event_count ≡ c.pending_event_count)
          × (d.overflow_pending ≡ c.overflow_pending))
unfolding take_due_reconcile
take-batch now c = ground arith

-- Over any inputs no event is lost or counted twice: the events that arrived, with those that
-- waited before, are the events of the reconciles that were due and those that still wait. So it is
-- with overflows: there was one exactly if a due reconcile was flagged, or the waiting batch is.
pub feed_conserves :
    (is : List Input) (c : EventCoalescer)
    → let r = feed is c in
      (c.pending_event_count + arrivals is ≡ r.reported + r.coalescer.pending_event_count)
      × ((c.overflow_pending || has_overflow is) ≡ (r.flagged || r.coalescer.overflow_pending))
unfolding feed
feed_conserves [] c = ground arith
feed_conserves (arrives e t ∷ is) c =
    ground (arith, ingest-batch e t c, feed_conserves is (ingest e t c))
feed_conserves (checks now ∷ is) c =
    ground (arith, take-batch now c, feed_conserves is (take_due_reconcile now c).0)

pub after_due :
    (now : ℕ) (c : EventCoalescer)
    → (take_due_reconcile now c).1 ≡ true
    → (take_due_reconcile now c).0.pending ≡ false
unfolding take_due_reconcile
after_due now c h = ground arith

-- How many of the checks are told that a reconcile is due.
unfoldable pub due_count : List Input → EventCoalescer → ℕ
due_count [] c = 0
due_count (arrives e t ∷ is) c = due_count is (ingest e t c)
due_count (checks now ∷ is) c =
    (if (take_due_reconcile now c).1 then 1 else 0) + due_count is (take_due_reconcile now c).0

-- Events at any time, and checks before a time.
abbrev pub IsEarly : ℕ → Input → Type 0
IsEarly limit (arrives e t) = Unit
IsEarly limit (checks now) = now < limit

-- A check before the time leaves the batch to wait on.
check_early :
    (c : EventCoalescer) (now since count : ℕ) (flag : Bool)
    → Waits c since count flag
    → now < since + c.debounce_ms
    → let (d, due) = take_due_reconcile now c in
      (due ≡ false) × Waits d since count flag × (d.debounce_ms ≡ c.debounce_ms)
unfolding take_due_reconcile
check_early c now since count flag w h = ground arith

ingest-Waits :
    (e : WatchEvent) (t : ℕ) (c : EventCoalescer) (since count : ℕ) (flag : Bool)
    → Waits c since count flag
    → Waits (ingest e t c) since (suc count) (flag || is_overflow e)
      × ((ingest e t c).debounce_ms ≡ c.debounce_ms)
ingest-Waits e t c since count flag w = ground (arith, ingest-batch e t c)

feed-Waits :
    (is : List Input) (c : EventCoalescer) (since count limit : ℕ) (flag : Bool)
    → Waits c since count flag
    → limit ≡ since + c.debounce_ms
    → All (IsEarly limit) is
    → let d = (feed is c).coalescer in
      (due_count is c ≡ 0)
      × Waits d since (count + arrivals is) (flag || has_overflow is)
      × (d.debounce_ms ≡ c.debounce_ms)
unfolding feed due_count
feed-Waits [] c since count limit flag w l early = (refl, ground arith, refl)
feed-Waits (arrives e t ∷ is) c since count limit flag w l early =
    let (next, same) = ingest-Waits e t c since count flag w in
    let (none_, rest, kept) =
      feed-Waits is (ingest e t c) since (suc count) limit (flag || is_overflow e) next
        (omega (arith, l, same)) early.1 in
    (none_, ground (arith, rest), kept ∙ same)
feed-Waits (checks now ∷ is) c since count limit flag w l early =
    let d = (take_due_reconcile now c).0 in
    let (none_, next, same) = check_early c now since count flag w (omega (arith, l, early.0)) in
    let (none_', rest, kept) =
      feed-Waits is d since count limit flag next (omega (arith, l, same)) early.1 in
    rw none_ (omega (arith, none_'), rest, kept ∙ same)

pub check_quiet :
    (c : EventCoalescer) (now : ℕ)
    → c.pending ≡ false
    → ((take_due_reconcile now c).1 ≡ false) × ((take_due_reconcile now c).0.pending ≡ false)
unfolding take_due_reconcile
check_quiet c now h = ground arith

first_pending :
    (c : EventCoalescer) (e : WatchEvent) (t : ℕ)
    → IsQuiet c
    → Waits (ingest e t c) t 1 (is_overflow e) × ((ingest e t c).debounce_ms ≡ c.debounce_ms)
first_pending c e t q = ground (arith, ingest-batch e t c)

never_due :
    (times : List ℕ) (c : EventCoalescer) → c.pending ≡ false → due_count (map checks times) c ≡ 0
unfolding due_count
never_due [] c q = refl
never_due (now ∷ times) c q =
    let (wait, still) = check_quiet c now q in
    rw wait (omega (arith, never_due times (take_due_reconcile now c).0 still))

-- A burst that begins at time t while nothing waits makes exactly one reconcile. Whatever further events
-- come, and however many checks are made before t plus the debounce time and in whatever order with
-- the events, none of these checks finds a reconcile due; the next check, at a time from then on, does,
-- and reports the number of all the events and whether there was an overflow among them; and however
-- often it is checked after it, nothing is due until a new event arrives.
pub burst_once :
    (c : EventCoalescer) (e : WatchEvent) (t : ℕ) (is : List Input) (now : ℕ) (laters : List ℕ)
    → IsQuiet c
    → All (IsEarly (t + c.debounce_ms)) is
    → t + c.debounce_ms ≤ now
    → let b = (feed (arrives e t ∷ is) c).coalescer in
      let d = (take_due_reconcile now b).0 in
      (due_count (arrives e t ∷ is) c ≡ 0)
      × ((take_due_reconcile now b).1 ≡ true)
      × (d.last_reconcile_event_count ≡ suc (arrivals is))
      × (d.last_reconcile_was_overflow ≡ has_overflow (arrives e t ∷ is))
      × (due_count (map checks laters) d ≡ 0)
unfolding feed due_count
burst_once c e t is now laters q early late =
    let (w, same) = first_pending c e t q in
    let (none_, waits, kept) =
      feed-Waits is (ingest e t c) t 1 (t + c.debounce_ms) (is_overflow e) w (omega (arith, same))
        early in
    let b = (feed is (ingest e t c)).coalescer in
    let (due, count, flag, quiet) =
      take_due b now t (1 + arrivals is) (is_overflow e || has_overflow is) waits
        (omega (arith, kept, same)) in
    (none_, due, omega (arith, count), flag, never_due laters (take_due_reconcile now b).0 quiet.0)
