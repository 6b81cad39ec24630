-- ===== src/Watch/Coalescer.antt =====
-- src/watch/src/event_coalescer.cpp: raw change events are folded into decisions to reconcile. An
-- instant is the number of milliseconds since 1970, `a.msecsTo(b) >= d` is `a + d ≤ b`, and the
-- counters are unbounded. The settings in milliseconds are not negative.
pub mod Bursts
pub mod Renames
pub mod Pairs
use pimio.Base.{
  ℕ, ◌+◌, Bool, true, false, Option, none, some, not, ◌&&◌, List, [], ◌∷◌, ltb, leb, ◌==◌,
  if◌then◌else◌, Text, length, any, filter,
}

pub data WatchEventKind : Type 0 where
  created modified removed renamed_from renamed_to overflow : WatchEventKind

pub record WatchEvent : Type 0 where
  pub kind : WatchEventKind
  pub path : Text
  pub rename_cookie : ℕ
  pub observed_at : Option ℕ

abbrev pub is_overflow : WatchEvent → Bool
is_overflow e = elim e.kind [ overflow ↦ true | _ ↦ false ]

abbrev pub is_rename : WatchEvent → Bool
is_rename e = elim e.kind [ renamed_from ↦ true | renamed_to ↦ true | _ ↦ false ]

pub record PendingHalf : Type 0 where
  pub cookie : ℕ
  pub event : WatchEvent
  pub received_at : ℕ

-- `pending_since` is read only while `pending` is set. The hash of rename halves is the list of its
-- entries, each with its key.
pub record EventCoalescer : Type 0 where
  pub debounce_ms : ℕ
  pub rename_pairing_timeout_ms : ℕ
  pub pending : Bool
  pub pending_since : ℕ
  pub pending_event_count : ℕ
  pub overflow_pending : Bool
  pub last_reconcile_event_count : ℕ
  pub last_reconcile_was_overflow : Bool
  pub paired_rename_count : ℕ
  pub pending_rename_halves : List PendingHalf

unfoldable pub event_coalescer : ℕ → ℕ → EventCoalescer
event_coalescer debounce timeout = record {
  debounce_ms = debounce;
  rename_pairing_timeout_ms = timeout;
  pending = false;
  pending_since = 0;
  pending_event_count = 0;
  overflow_pending = false;
  last_reconcile_event_count = 0;
  last_reconcile_was_overflow = false;
  paired_rename_count = 0;
  pending_rename_halves = [];
}

unfoldable pub mark_pending : ℕ → EventCoalescer → EventCoalescer
mark_pending now c = record c {
  pending = true;
  pending_since = if c.pending then c.pending_since else now;
  pending_event_count = c.pending_event_count + 1;
}

abbrev pub has_cookie : ℕ → PendingHalf → Bool
has_cookie k h = h.cookie == k

-- The branch of `ingest` for a rename half with a cookie.
unfoldable pub ingest_half : WatchEvent → ℕ → EventCoalescer → EventCoalescer
ingest_half event now c =
    if any (has_cookie event.rename_cookie) c.pending_rename_halves
    then record c {
      pending_rename_halves =
          filter (λ h. not (has_cookie event.rename_cookie h)) c.pending_rename_halves;
      paired_rename_count = c.paired_rename_count + 1;
    }
    else record c {
      pending_rename_halves =
          record { cookie = event.rename_cookie; event = event; received_at = now }
          ∷ c.pending_rename_halves;
    }

unfoldable pub ingest : WatchEvent → ℕ → EventCoalescer → EventCoalescer
unfolding mark_pending ingest_half
ingest event now c =
    if is_overflow event
    then mark_pending now (record c { overflow_pending = true; pending_rename_halves = [] })
    else if is_rename event && not (event.rename_cookie == 0)
    then mark_pending now (ingest_half event now c)
    else mark_pending now c

unfoldable pub has_pending_change : EventCoalescer → Bool
has_pending_change c = c.pending

-- The ageing loop of `takeDueReconcile`.
unfoldable pub age_halves : ℕ → EventCoalescer → EventCoalescer
age_halves now c = record c {
  pending_rename_halves =
      filter (λ h. not (leb (h.received_at + c.rename_pairing_timeout_ms) now))
        c.pending_rename_halves;
}

unfoldable pub take_due_reconcile : ℕ → EventCoalescer → EventCoalescer × Bool
unfolding age_halves
take_due_reconcile now c =
    if not c.pending
    then (age_halves now c, false)
    else if ltb now (c.pending_since + c.debounce_ms)
    then (age_halves now c, false)
    else (
      record (age_halves now c) {
        last_reconcile_event_count = c.pending_event_count;
        last_reconcile_was_overflow = c.overflow_pending;
        pending = false;
        pending_event_count = 0;
        overflow_pending = false;
      },
      true,
    )

unfoldable pub pending_rename_half_count : EventCoalescer → ℕ
pending_rename_half_count c = length c.pending_rename_halves

unfoldable pub is_periodic_fallback_due : Option ℕ → ℕ → ℕ → Bool
is_periodic_fallback_due none now interval = true
is_periodic_fallback_due (some last) now interval = leb (last + interval) now
