-- ===== src/Watch/Coalescer/Renames.antt =====
-- The rename halves of src/watch/src/event_coalescer.cpp: how they pair, and what the table holds.
use pimio.Watch.Coalescer.Bursts.{Report, add_due, Input, arrives, checks, feed}
use pimio.Watch.Coalescer.{
  event_coalescer, pending_rename_half_count, age_halves, WatchEvent, EventCoalescer, is_overflow,
  is_rename, ingest, ingest_half, mark_pending, take_due_reconcile, PendingHalf, has_cookie,
}
use pimio.Base.{
  subst, sym, Bool-cases, inl, inr, leb, ◌≡◌, refl, Bool, true, false, not, List, [], ◌∷◌, arith,
  ◌+◌, ◌*◌, ◌≤◌, length, any, filter, if◌then◌else◌, if_cases, suc, ◌==◌, ◌&&◌, ℕ,
}

abbrev pub holds_cookie : ℕ → EventCoalescer → Bool
holds_cookie k c = any (has_cookie k) c.pending_rename_halves

-- Each cookie has at most one half in the table.
abbrev pub IsPairing : List PendingHalf → Type 0
IsPairing [] = Unit
IsPairing (h ∷ hs) = (any (has_cookie h.cookie) hs ≡ false) × IsPairing hs

module _ (p : PendingHalf → Bool) where
  any-filter :
      (q : PendingHalf → Bool) (hs : List PendingHalf)
      → any q hs ≡ false
      → any q (filter p hs) ≡ false
  any-filter q [] e = refl
  any-filter q (h ∷ hs) e = ground (arith, any-filter q hs)

  filter-IsPairing : (hs : List PendingHalf) → IsPairing hs → IsPairing (filter p hs)
  filter-IsPairing [] h = tt
  filter-IsPairing (x ∷ hs) h =
      if_cases IsPairing (p x) _ _
        (λ _. (any-filter (has_cookie x.cookie) hs h.0, filter-IsPairing hs h.1))
        (λ _. filter-IsPairing hs h.1)

  length-filter-le : (hs : List PendingHalf) → length (filter p hs) ≤ length hs
  length-filter-le [] = omega arith
  length-filter-le (h ∷ hs) = ground (arith, length-filter-le hs)

-- The half that pairs is taken out, and no other.
length-filter_cookie :
    (k : ℕ) (hs : List PendingHalf)
    → IsPairing hs
    → any (has_cookie k) hs ≡ true
    → length (filter (λ h. not (has_cookie k h)) hs) + 1 ≤ length hs
length-filter_cookie k [] h e = cc
length-filter_cookie k (x ∷ hs) h e =
    ground (arith, length-filter-le (λ h. not (has_cookie k h)) hs, length-filter_cookie k hs)

filter_absent :
    (k : ℕ) (hs : List PendingHalf)
    → any (has_cookie k) hs ≡ false
    → filter (λ h. not (has_cookie k h)) hs ≡ hs
filter_absent k [] e = refl
filter_absent k (x ∷ hs) e = ground (arith, filter_absent k hs)

-- The number of rename halves with a cookie among the inputs.
abbrev pub halves : List Input → ℕ
halves [] = 0
halves (arrives e t ∷ is) =
    if is_rename e && not (e.rename_cookie == 0) then suc (halves is) else halves is
halves (checks now ∷ is) = halves is

record Accounts (c : EventCoalescer) (n : ℕ) : Type 0 where
  pairing : IsPairing c.pending_rename_halves
  counted : 2 * c.paired_rename_count + length c.pending_rename_halves ≤ n

-- One half more is either stored or paired.
half-Accounts :
    (e : WatchEvent) (t n : ℕ) (c : EventCoalescer)
    → Accounts c n
    → Accounts (ingest_half e t c) (suc n)
unfolding ingest_half
half-Accounts e t n c a =
    if_cases (λ z. Accounts z (suc n)) (holds_cookie e.rename_cookie c) _ _
      (λ there. record {
        pairing = filter-IsPairing (λ h. not (has_cookie e.rename_cookie h)) _ a.pairing;
        counted = omega (arith, a.counted, length-filter_cookie e.rename_cookie _ a.pairing there);
      })
      (λ absent. record { pairing = (absent, a.pairing); counted = omega (arith, a.counted) })

mark-Accounts : (t n : ℕ) (c : EventCoalescer) → Accounts c n → Accounts (mark_pending t c) n
unfolding mark_pending
mark-Accounts t n c a = record { pairing = a.pairing; counted = a.counted }

overflow_no_rename :
    (e : WatchEvent) → is_overflow e ≡ true → (is_rename e && not (e.rename_cookie == 0)) ≡ false
overflow_no_rename e h = ground arith

ingest-Accounts :
    (e : WatchEvent) (t n : ℕ) (c : EventCoalescer)
    → Accounts c n
    → Accounts (ingest e t c) (if is_rename e && not (e.rename_cookie == 0) then suc n else n)
unfolding ingest
ingest-Accounts e t n c a = elim (Bool-cases (is_overflow e)) [
  | inl o ↦
      rw (o, overflow_no_rename e o)
        (mark-Accounts t n (record c { overflow_pending = true; pending_rename_halves = [] })
          (record { pairing = tt; counted = omega (arith, a.counted) }))
  | inr o ↦ rw o (elim (Bool-cases (is_rename e && not (e.rename_cookie == 0))) [
    | inl r ↦ rw r (mark-Accounts t (suc n) (ingest_half e t c) (half-Accounts e t n c a))
    | inr r ↦ rw r (mark-Accounts t n c a)
  ])
]

add_due-coalescer : (z : EventCoalescer × Bool) (r : Report) → (add_due z r).coalescer ≡ r.coalescer
add_due-coalescer (d, true) r = refl
add_due-coalescer (d, false) r = refl

move : (b : Bool) (n m : ℕ) → (if b then suc n else n) + m ≡ n + (if b then suc m else m)
move b n m = ground arith

take-halves :
    (now : ℕ) (c : EventCoalescer)
    → let d = (take_due_reconcile now c).0 in
      (d.pending_rename_halves ≡ (age_halves now c).pending_rename_halves)
      × (d.paired_rename_count ≡ c.paired_rename_count)
unfolding take_due_reconcile
take-halves now c = ground arith

take-Accounts :
    (now n : ℕ) (c : EventCoalescer) → Accounts c n → Accounts (take_due_reconcile now c).0 n
unfolding age_halves
take-Accounts now n c a =
    let (same, paired) = take-halves now c in
    let young : PendingHalf → Bool =
      λ h. not (leb (h.received_at + c.rename_pairing_timeout_ms) now) in
    record {
      pairing = rw same (filter-IsPairing young c.pending_rename_halves a.pairing);
      counted =
          rw (same, paired)
            (omega (arith, a.counted, length-filter-le young c.pending_rename_halves));
    }

feed-Accounts :
    (is : List Input) (n : ℕ) (c : EventCoalescer)
    → Accounts c n
    → Accounts (feed is c).coalescer (n + halves is)
unfolding feed
feed-Accounts [] n c a = record { pairing = a.pairing; counted = omega (arith, a.counted) }
feed-Accounts (arrives e t ∷ is) n c a =
    let one = is_rename e && not (e.rename_cookie == 0) in
    subst (Accounts (feed is (ingest e t c)).coalescer) (move one n (halves is))
      (feed-Accounts is (if one then suc n else n) (ingest e t c) (ingest-Accounts e t n c a))
feed-Accounts (checks now ∷ is) n c a =
    let d = (take_due_reconcile now c).0 in
    subst (λ (z : EventCoalescer). Accounts z (n + halves is))
      (sym (add_due-coalescer (take_due_reconcile now c) (feed is d)))
      (feed-Accounts is n d (take-Accounts now n c a))

-- Whatever a new coalescer is fed, its table holds at most one half of each cookie, and the halves
-- that were paired, two to a pair, with those that wait are no more than the halves that arrived.
pub feed_pairs :
    (debounce timeout : ℕ) (is : List Input)
    → let c = (feed is (event_coalescer debounce timeout)).coalescer in
      IsPairing c.pending_rename_halves
      × (2 * c.paired_rename_count + pending_rename_half_count c ≤ halves is)
unfolding event_coalescer pending_rename_half_count
feed_pairs debounce timeout is =
    let a =
      feed-Accounts is 0 (event_coalescer debounce timeout)
        (record { pairing = tt; counted = omega arith }) in
    (a.pairing, omega (arith, a.counted))
