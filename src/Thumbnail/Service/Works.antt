-- ===== src/Thumbnail/Service/Works.antt =====
-- A runnable's step in src/thumbnail/src/thumbnail_service.cpp keeps the invariant.
use pimio.Thumbnail.Service.{
  ThumbnailService, ThumbnailRunnable, Answers, Progress, goes_on, returns, posts, progress,
  advance, cache_after, work_picked, work, pick,
}
use pimio.Thumbnail.Service.Silence.{is_at, answers_to, count-snoc}
use pimio.Thumbnail.Service.Tallies.{
  runs_at, waiting, IsNumberedDelivery, Picked, Picks, pick-Picks, Nears, progress-Nears,
}
use pimio.Thumbnail.Service.Sound.{IsEntry-kept, IsEntry, Sound, Moves, moves-Sound}
use pimio.Thumbnail.Request.{QStringArg, cache_key}
use pimio.Thumbnail.DiskCache.{ThumbnailDiskCache}
use pimio.Base.{
  ℕ, ◌≤◌, ◌≡◌, refl, false, Option, none, some, List, arith, All, All-of, All-mem, All-append,
}

module _ (r : ThumbnailRunnable) (rest : List ThumbnailRunnable) (s : ThumbnailService)
    (cache : ThumbnailDiskCache) where
  after : Progress → ThumbnailService
  after p = advance p r rest (record s { cache = cache })

  advance_waits :
      (p : Progress)
      → Picked s.runnables r rest
      → Nears (s.cancelled r.item.address) r.stage p
      → (a : ℕ)
      → (waiting a (after p) ≤ waiting a s)
        × (s.cancelled a ≡ false → waiting a (after p) ≡ waiting a s)
  unfolding waiting after
  advance_waits (goes_on stage) g n a =
      (ground (arith, g.counts (runs_at a)), λ f. ground (arith, g.counts (runs_at a)))
  advance_waits returns g n a =
      (ground (arith, g.counts (runs_at a)), λ f. ground (arith, g.counts (runs_at a), n, f))
  advance_waits (posts outcome) g n a =
      let snoc = count-snoc (is_at a) s.posted (record { item = r.item; outcome = outcome }) in
      (ground (arith, g.counts (runs_at a), snoc), λ f. ground (arith, g.counts (runs_at a), snoc))

  advance_moves :
      (p : Progress)
      → ((a : ℕ)
          → (waiting a (after p) ≤ waiting a s)
            × (s.cancelled a ≡ false → waiting a (after p) ≡ waiting a s))
      → Moves s (after p)
  unfolding answers_to after
  advance_moves (goes_on stage) w = record {
    flags = refl;
    made = (refl, refl);
    tally = λ a. (omega (arith, (w a).0), λ f. omega (arith, (w a).1 f));
  }
  advance_moves returns w = record {
    flags = refl;
    made = (refl, refl);
    tally = λ a. (omega (arith, (w a).0), λ f. omega (arith, (w a).1 f));
  }
  advance_moves (posts outcome) w = record {
    flags = refl;
    made = (refl, refl);
    tally = λ a. (omega (arith, (w a).0), λ f. omega (arith, (w a).1 f));
  }

  advance-Sound :
      (p : Progress)
      → Picked s.runnables r rest
      → Nears (s.cancelled r.item.address) r.stage p
      → Sound s
      → Sound (after p)
  unfolding after
  advance-Sound p g n h = sound p w (advance_moves p w)
    where
      w :
          (a : ℕ)
          → (waiting a (after p) ≤ waiting a s)
            × (s.cancelled a ≡ false → waiting a (after p) ≡ waiting a s)
      w = advance_waits p g n

      entries :
          (t : ThumbnailService)
          → t.cancelled ≡ s.cancelled
          → ((a : ℕ) → s.cancelled a ≡ false → waiting a t ≡ waiting a s)
          → All (IsEntry t) s.pending
      entries t f k =
          All-of (IsEntry t) s.pending
            λ e m. IsEntry-kept s t e f (k e.1.address) (All-mem (IsEntry s) h.entries m)

      sound :
          (p : Progress)
          → ((a : ℕ)
              → (waiting a (after p) ≤ waiting a s)
                × (s.cancelled a ≡ false → waiting a (after p) ≡ waiting a s))
          → Moves s (after p)
          → Sound (after p)
      sound (goes_on stage) w m =
          let (n, ns) = g.numbered h.runs in
          moves-Sound s (after (goes_on stage)) m h (n, ns) h.deliveries
            (entries (after (goes_on stage)) refl (λ a. (w a).1))
      sound returns w m =
          moves-Sound s (after returns) m h (g.numbered h.runs).1 h.deliveries
            (entries (after returns) refl (λ a. (w a).1))
      sound (posts outcome) w m =
          let (n, ns) = g.numbered h.runs in
          moves-Sound s (after (posts outcome)) m h ns
            (All-append IsNumberedDelivery s.posted _ h.deliveries (n, tt))
            (entries (after (posts outcome)) refl (λ a. (w a).1))

work_picked-Sound :
    (arg : QStringArg) (a : Answers) (o : Option (ThumbnailRunnable × List ThumbnailRunnable))
    (s : ThumbnailService)
    → Picks s.runnables o
    → Sound s
    → Sound (work_picked arg a o s)
unfolding work_picked after
work_picked-Sound arg a none s g h = h
work_picked-Sound arg a (some (r, rest)) s g h =
    let key = cache_key arg r.item.request in
    let flag = s.cancelled r.item.address in
    advance-Sound r rest s (cache_after key a r.stage s.cache) (progress key a flag s.cache r.stage)
      g (progress-Nears key a flag s.cache r.stage) h

pub work-Sound :
    (arg : QStringArg) (n : ℕ) (a : Answers) (s : ThumbnailService)
    → Sound s
    → Sound (work arg n a s)
unfolding work
work-Sound arg n a s h = work_picked-Sound arg a (pick n s.runnables) s (pick-Picks n s.runnables) h
