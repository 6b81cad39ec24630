-- ===== src/Watch/Coalescer/Pairs.antt =====
-- How the two halves of a rename meet in src/watch/src/event_coalescer.cpp.
use pimio.Watch.Coalescer.Renames.{holds_cookie}
use pimio.Watch.Coalescer.Bursts.{Report, add_due, Input, arrives, checks, feed}
use pimio.Watch.Coalescer.{
  take_due_reconcile, age_halves, WatchEvent, EventCoalescer, is_overflow, is_rename, ingest,
  ingest_half, mark_pending, PendingHalf, has_cookie,
}
use pimio.Base.{
  leb, ◌<◌, ap, Bool, All, ◌∙◌, ◌≢◌, Bool-cases, inl, inr, ◌≡◌, refl, true, false, not, List, [],
  ◌∷◌, arith, ◌+◌, any, filter, ◌==◌, ◌&&◌, ℕ,
}

-- Events that touch no half of a cookie: no overflow, and no rename half with that cookie.
abbrev pub Spares : ℕ → WatchEvent × ℕ → Type 0
Spares k (e, t) = (is_overflow e ≡ false) × ((is_rename e && e.rename_cookie == k) ≡ false)

-- No event that touches a half of the cookie, and no check at the time or later.
abbrev pub SparesHalf : ℕ → ℕ → Input → Type 0
SparesHalf k limit (arrives e t) = Spares k (e, t)
SparesHalf k limit (checks now) = now < limit

-- The half of a cookie that was received at a time.
abbrev is_half : ℕ → ℕ → PendingHalf → Bool
is_half k t h = has_cookie k h && h.received_at == t

abbrev waits_from : ℕ → ℕ → EventCoalescer → Bool
waits_from k t c = any (is_half k t) c.pending_rename_halves

filter_other :
    (k t j : ℕ) (hs : List PendingHalf)
    → (k == j) ≡ false
    → any (is_half k t) (filter (λ h. not (has_cookie j h)) hs) ≡ any (is_half k t) hs
filter_other k t j [] h = refl
filter_other k t j (x ∷ hs) h = ground (arith, filter_other k t j hs)

half-spares :
    (k t : ℕ) (e : WatchEvent) (now : ℕ) (c : EventCoalescer)
    → (k == e.rename_cookie) ≡ false
    → waits_from k t (ingest_half e now c) ≡ waits_from k t c
unfolding ingest_half
half-spares k t e now c h = ground (arith, filter_other k t e.rename_cookie c.pending_rename_halves)

ingest-Spares :
    (k t : ℕ) (e : WatchEvent) (now : ℕ) (c : EventCoalescer)
    → Spares k (e, now)
    → waits_from k t (ingest e now c) ≡ waits_from k t c
unfolding ingest mark_pending
ingest-Spares k t e now c h = elim (Bool-cases (is_rename e && not (e.rename_cookie == 0))) [
  | inl r ↦ rw (h.0, r) (half-spares k t e now c (ground arith))
  | inr r ↦ rw (h.0, r)
]

ingest-timeout :
    (e : WatchEvent) (now : ℕ) (c : EventCoalescer)
    → (ingest e now c).rename_pairing_timeout_ms ≡ c.rename_pairing_timeout_ms
unfolding ingest mark_pending ingest_half
ingest-timeout e now c = ground arith

filter_young :
    (k t timeout now : ℕ) (hs : List PendingHalf)
    → now < t + timeout
    → any (is_half k t) (filter (λ h. not (leb (h.received_at + timeout) now)) hs)
      ≡ any (is_half k t) hs
filter_young k t timeout now [] h = refl
filter_young k t timeout now (x ∷ hs) h = ground (arith, filter_young k t timeout now hs)

-- A check ages out no half that is younger than the timeout.
check-young :
    (k t now : ℕ) (c : EventCoalescer)
    → now < t + c.rename_pairing_timeout_ms
    → let d = (take_due_reconcile now c).0 in
      (waits_from k t d ≡ waits_from k t c)
      × (d.rename_pairing_timeout_ms ≡ c.rename_pairing_timeout_ms)
unfolding take_due_reconcile age_halves
check-young k t now c h =
    ground (arith, filter_young k t c.rename_pairing_timeout_ms now c.pending_rename_halves)

add_due-coalescer :
    (d : EventCoalescer) (due : Bool) (r : Report) → (add_due (d, due) r).coalescer ≡ r.coalescer
add_due-coalescer d true r = refl
add_due-coalescer d false r = refl

feed-SparesHalf :
    (k t limit : ℕ) (is : List Input) (c : EventCoalescer)
    → limit ≡ t + c.rename_pairing_timeout_ms
    → All (SparesHalf k limit) is
    → waits_from k t (feed is c).coalescer ≡ waits_from k t c
unfolding feed
feed-SparesHalf k t limit [] c l h = refl
feed-SparesHalf k t limit (arrives e now ∷ is) c l h =
    feed-SparesHalf k t limit is (ingest e now c) (omega (arith, l, ingest-timeout e now c)) h.1
    ∙ ingest-Spares k t e now c h.0
feed-SparesHalf k t limit (checks now ∷ is) c l h =
    let d = (take_due_reconcile now c).0 in
    let (kept, same) = check-young k t now c (omega (arith, l, h.0)) in
    ap (waits_from k t) (add_due-coalescer d (take_due_reconcile now c).1 (feed is d))
    ∙ feed-SparesHalf k t limit is d (omega (arith, l, same)) h.1
    ∙ kept

half-held :
    (k t : ℕ) (hs : List PendingHalf) → any (is_half k t) hs ≡ true → any (has_cookie k) hs ≡ true
half-held k t [] h = h
half-held k t (x ∷ hs) h = ground (arith, half-held k t hs, h)

any-filter_self :
    (k : ℕ) (hs : List PendingHalf)
    → any (has_cookie k) (filter (λ h. not (has_cookie k h)) hs) ≡ false
any-filter_self k [] = refl
any-filter_self k (x ∷ hs) = ground (arith, any-filter_self k hs)

not_overflow : (e : WatchEvent) → is_rename e ≡ true → is_overflow e ≡ false
not_overflow e h = ground arith

half_first :
    (k : ℕ) (e : WatchEvent) (t : ℕ) (c : EventCoalescer)
    → k ≢ 0
    → is_rename e ≡ true
    → e.rename_cookie ≡ k
    → holds_cookie k c ≡ false
    → waits_from k t (ingest e t c) ≡ true
unfolding ingest
half_first k e t c nz r same absent = ground (arith, not_overflow e r)

half_second :
    (k : ℕ) (e : WatchEvent) (t : ℕ) (c : EventCoalescer)
    → k ≢ 0
    → is_rename e ≡ true
    → e.rename_cookie ≡ k
    → holds_cookie k c ≡ true
    → ((ingest e t c).paired_rename_count ≡ c.paired_rename_count + 1)
      × (holds_cookie k (ingest e t c) ≡ false)
unfolding ingest
half_second k e t c nz r same there =
    ground (arith, not_overflow e r, any-filter_self k c.pending_rename_halves)

-- Two rename halves of one cookie pair, whichever kind each has and so in either order. Between them
-- may come any events that hold no such half and are no overflow, and any checks, at which halves age
-- out, sooner than the pairing timeout after the first: the first waits in the table, the second makes
-- one pair and clears it.
pub halves_pair :
    (k : ℕ) (first second : WatchEvent) (t t' : ℕ) (between : List Input) (c : EventCoalescer)
    → k ≢ 0
    → (is_rename first ≡ true) × (first.rename_cookie ≡ k)
    → (is_rename second ≡ true) × (second.rename_cookie ≡ k)
    → All (SparesHalf k (t + c.rename_pairing_timeout_ms)) between
    → holds_cookie k c ≡ false
    → let d = (feed between (ingest first t c)).coalescer in
      (holds_cookie k d ≡ true)
      × ((ingest second t' d).paired_rename_count ≡ d.paired_rename_count + 1)
      × (holds_cookie k (ingest second t' d) ≡ false)
halves_pair k first second t t' between c nz f s spares absent =
    let d = (feed between (ingest first t c)).coalescer in
    let there : holds_cookie k d ≡ true = half-held k t d.pending_rename_halves (
      feed-SparesHalf k t (t + c.rename_pairing_timeout_ms) between (ingest first t c)
        (omega (arith, ingest-timeout first t c)) spares
      ∙ half_first k first t c nz f.0 f.1 absent) in
    let (paired, gone) = half_second k second t' d nz s.0 s.1 there in (there, paired, gone)
