-- ===== src/Thumbnail/Service/Turns.antt =====
-- Every request of src/thumbnail/src/thumbnail_service.cpp ends.
use pimio.Thumbnail.DiskCache.{ThumbnailDiskCache}
use pimio.Thumbnail.Request.{QStringArg, cache_key}
use pimio.Thumbnail.Service.{
  ThumbnailService, ThumbnailRunnable, Delivery, Answers, Progress, goes_on, returns, posts,
  progress, advance, cache_after, thumbnail_service, pending_count, pick, work, work_picked,
  run_delivery, deliver_first, deliver,
}
use pimio.Thumbnail.Service.Runs.{Event, works, delivers_posted, operate, serve}
use pimio.Thumbnail.Service.Silence.{answers_to}
use pimio.Thumbnail.Service.Tallies.{weight_of}
use pimio.Thumbnail.Service.Sound.{Sound, new-Sound}
use pimio.Thumbnail.Service.Calls.{serve-Sound}
use pimio.Thumbnail.Service.Steps.{
  remaining, moves, operate_lowers, serve_lowers, is_request, weight-ge, new-remaining,
}
use pimio.Thumbnail.Service.Ends.{idle-answered}
use pimio.Base.{
  ◌-◌, ℕ, ◌*◌, ◌≤◌, ◌<◌, ◌≡◌, refl, ap, ◌∙◌, inl, inr, Bool, false, Option, none, some, List, [],
  ◌∷◌, arith, count, length, Bool-cases,
}

-- Turns of the pool and the event loop: the first runnable goes on, and a posted lambda is run.
unfoldable pub turns : List Answers → List Event
turns [] = []
turns (a ∷ more) = works 0 a ∷ delivers_posted ∷ turns more

abbrev turn : QStringArg → Answers → ThumbnailService → ThumbnailService
turn arg a s = operate arg delivers_posted (operate arg (works 0 a) s)

no_work :
    (arg : QStringArg) (a : Answers) (s : ThumbnailService)
    → s.runnables ≡ []
    → operate arg (works 0 a) s ≡ s
unfolding operate work pick work_picked
no_work arg a s e = ap (λ rs. work_picked arg a (pick 0 rs) s) e

turn_lowers :
    (arg : QStringArg) (a : Answers) (rs : List ThumbnailRunnable) (ds : List Delivery)
    (s : ThumbnailService)
    → s.runnables ≡ rs
    → s.posted ≡ ds
    → remaining (turn arg a s) ≤ remaining s - 1
unfolding moves remaining
turn_lowers arg a (r ∷ rs) ds s e f =
    let once = operate_lowers arg (works 0 a) s in
    let next = operate_lowers arg delivers_posted (operate arg (works 0 a) s) in
    ground (arith, once, next, ap length e)
turn_lowers arg a [] (d ∷ ds) s e f =
    let next = operate_lowers arg delivers_posted s in
    rw (no_work arg a s e) (ground (arith, next, ap length f))
turn_lowers arg a [] [] s e f =
    let next = operate_lowers arg delivers_posted s in
    rw (no_work arg a s e) (omega (arith, next, ap weight_of e, ap length f))

turns_lower :
    (arg : QStringArg) (more : List Answers) (s : ThumbnailService)
    → remaining (serve arg (turns more) s) ≤ remaining s - length more
unfolding turns serve
turns_lower arg [] s = omega arith
turns_lower arg (a ∷ more) s =
    omega (
      arith,
      turn_lowers arg a s.runnables s.posted s refl refl,
      turns_lower arg more (turn arg a s),
    )

nothing_runs : (rs : List ThumbnailRunnable) → weight_of rs ≡ 0 → rs ≡ []
nothing_runs [] e = refl
nothing_runs (r ∷ rs) e =
    let none_ : 1 ≤ 0 = omega (arith, weight-ge r.stage, e) in ground (arith, none_)

nothing_posted : (ds : List Delivery) → length ds ≡ 0 → ds ≡ []
nothing_posted [] e = refl
nothing_posted (d ∷ ds) e = ground arith

-- What turns leave as it is.
record Kept (s t : ThumbnailService) : Type 0 where
  made : t.next_item ≡ s.next_item
  flags : t.cancelled ≡ s.cancelled

advance-Kept :
    (p : Progress) (r : ThumbnailRunnable) (rest : List ThumbnailRunnable) (s t : ThumbnailService)
    → Kept s t
    → Kept s (advance p r rest t)
advance-Kept (goes_on stage) r rest s t k = record { made = k.made; flags = k.flags }
advance-Kept returns r rest s t k = record { made = k.made; flags = k.flags }
advance-Kept (posts outcome) r rest s t k = record { made = k.made; flags = k.flags }

work_picked-Kept :
    (arg : QStringArg) (a : Answers) (o : Option (ThumbnailRunnable × List ThumbnailRunnable))
    (s : ThumbnailService)
    → Kept s (work_picked arg a o s)
unfolding work_picked
work_picked-Kept arg a none s = record { made = refl; flags = refl }
work_picked-Kept arg a (some (r, rest)) s =
    let key = cache_key arg r.item.request in
    advance-Kept (progress key a (s.cancelled r.item.address) s.cache r.stage) r rest s
      (record s { cache = cache_after key a r.stage s.cache })
      (record { made = refl; flags = refl })

deliver_first-Kept : (ds : List Delivery) (s : ThumbnailService) → Kept s (deliver_first ds s)
unfolding deliver_first run_delivery
deliver_first-Kept [] s = record { made = refl; flags = refl }
deliver_first-Kept (d ∷ ds) s = elim (Bool-cases (s.cancelled d.item.address)) [
  | inl e ↦ rw e (record { made = refl; flags = refl })
  | inr e ↦ rw e (record { made = refl; flags = refl })
]

turns-Kept :
    (arg : QStringArg) (more : List Answers) (s : ThumbnailService)
    → Kept s (serve arg (turns more) s)
unfolding turns serve operate work deliver
turns-Kept arg [] s = record { made = refl; flags = refl }
turns-Kept arg (a ∷ more) s =
    let t = work arg 0 a s in
    let one = work_picked-Kept arg a (pick 0 s.runnables) s in
    let two = deliver_first-Kept t.posted t in
    let rest = turns-Kept arg more (deliver t) in
    record { made = rest.made ∙ two.made ∙ one.made; flags = rest.flags ∙ two.flags ∙ one.flags }

-- In a run of a new service, whatever was requested, cancelled and done so far: after eight further
-- turns of the pool and the event loop for each request that was made, whatever they meet, no request
-- is pending, and every item that was made and not cancelled had exactly one of its callbacks called.
pub turns-answer :
    (arg : QStringArg) (cache : ThumbnailDiskCache) (es : List Event) (more : List Answers) (a : ℕ)
    → length more ≡ 8 * count is_request es
    → a < (serve arg es (thumbnail_service cache)).next_item
    → (serve arg es (thumbnail_service cache)).cancelled a ≡ false
    → let s = serve arg (turns more) (serve arg es (thumbnail_service cache)) in
      (pending_count s ≡ 0) × (answers_to a s ≡ 1)
unfolding remaining
turns-answer arg cache es more a enough made uncancelled =
    idle-answered t a sound (nothing_runs t.runnables (omega (arith, done)))
      (nothing_posted t.posted (omega (arith, done))) (omega (arith, made, kept.made))
      (ap (λ (f : ℕ → Bool). f a) kept.flags ∙ uncancelled)
  where
    s : ThumbnailService
    s = serve arg es (thumbnail_service cache)

    t : ThumbnailService
    t = serve arg (turns more) s

    kept : Kept s t
    kept = turns-Kept arg more s

    sound : Sound t
    sound =
        serve-Sound arg (turns more) s
          (serve-Sound arg es (thumbnail_service cache) (new-Sound cache))

    done : remaining t ≡ 0
    done = omega (
      arith,
      serve_lowers arg es (thumbnail_service cache),
      new-remaining cache,
      turns_lower arg more s,
      enough,
    )
