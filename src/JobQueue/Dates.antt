-- ===== src/JobQueue/Dates.antt =====
-- The order of the queue's SELECT statements against `JobRecord::runsBefore` of src/core/src/job.cpp.
use pimio.Core.Job.{utf16, date_eq, runs_before_date, JobRecord, rank, runs_before}
use pimio.JobQueue.{created_before, ordered_before}
use pimio.Base.{
  All, ◌<◌, [], ◌∷◌, Text, not, if◌then◌else◌, ◌==◌, ltb, text_lt, ◌≡◌, refl, Bool, true, false,
  Option, none, some, arith, ℕ,
}

abbrev pub has_date : Option ℕ → Bool
has_date none = false
has_date (some t) = true

by_date :
    (d e : Option ℕ) (b : Bool)
    → has_date d ≡ has_date e
    → (if date_eq d e then b else created_before d e)
      ≡ (if not (date_eq d e) then runs_before_date d e else b)
by_date none none b h = refl
by_date none (some y) b h = cc
by_date (some x) none b h = cc
by_date (some x) (some y) b h = ground arith

by_rank :
    (p q : ℕ) (b c : Bool)
    → b ≡ c
    → (if p == q then b else ltb p q) ≡ (if not (p == q) then ltb p q else c)
by_rank p q b c h = ground arith

utf16_plain : (t : Text) → All (λ (c : ℕ). c < 65536) t → utf16 t ≡ t
unfolding utf16
utf16_plain [] h = refl
utf16_plain (c ∷ t) h = ground (arith, h.0, utf16_plain t h.1)

-- Where both jobs have a creation time, or neither has, and their ids have no character outside the
-- Basic Multilingual Plane, the order of the SQL statements is that of `runsBefore`: by priority, then
-- creation time, then id, which SQLite compares by code points and `QString` by UTF-16 units.
pub ordered_before-runs_before :
    (a b : JobRecord)
    → has_date a.created_at ≡ has_date b.created_at
    → All (λ (c : ℕ). c < 65536) a.id
    → All (λ (c : ℕ). c < 65536) b.id
    → ordered_before a b ≡ runs_before a b
unfolding ordered_before runs_before
ordered_before-runs_before a b h plain plain' =
    rw (utf16_plain a.id plain, utf16_plain b.id plain')
      (by_rank (rank a.priority) (rank b.priority) _ _
        (by_date a.created_at b.created_at (text_lt a.id b.id) h))
