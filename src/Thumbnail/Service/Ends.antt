-- ===== src/Thumbnail/Service/Ends.antt =====
-- How requests end in src/thumbnail/src/thumbnail_service.cpp.
use pimio.Thumbnail.Request.{QStringArg}
use pimio.Thumbnail.DiskCache.{ThumbnailDiskCache}
use pimio.Thumbnail.Service.{
  cancel_items, destroy, set_flag, ThumbnailService, PendingItem, thumbnail_service, find_handle,
  cancel, cancel_found, pending_count,
}
use pimio.Thumbnail.Service.Runs.{Event, serve}
use pimio.Thumbnail.Service.Silence.{answers_to, serve-Silent, Silent}
use pimio.Thumbnail.Service.Tallies.{waiting}
use pimio.Thumbnail.Service.Sound.{IsEntry, Sound, new-Sound}
use pimio.Thumbnail.Service.Calls.{find-All, serve-Sound}
use mathlib.Core.Option.{some-injective}
use pimio.Base.{
  subst, All, ℕ, ◌<◌, ◌≡◌, refl, sym, ◌∙◌, inl, inr, Bool, true, false, not, none, some, List, [],
  ◌∷◌, arith, ◌==◌, filter, length, Bool-cases,
}

module _ (arg : QStringArg) (cache : ThumbnailDiskCache) where
  abbrev run : List Event → ThumbnailService
  run es = serve arg es (thumbnail_service cache)

  run-Sound : (es : List Event) → Sound (run es)
  run-Sound es = serve-Sound arg es (thumbnail_service cache) (new-Sound cache)

pub find-remove :
    (h : ℕ) (entries : List (ℕ × PendingItem))
    → find_handle h (filter (λ (e : ℕ × PendingItem). not (e.0 == h)) entries) ≡ none
unfolding find_handle
find-remove h [] = refl
find-remove h ((k, i) ∷ rest) = ground (arith, find-remove h rest)

-- At any point of a run of a new service, once the handle of a pending request is cancelled the request
-- is no longer pending, and whatever happens afterwards none of its callbacks is ever called.
pub cancel-silences :
    (arg : QStringArg) (cache : ThumbnailDiskCache) (es later : List Event) (h : ℕ)
    (i : PendingItem)
    → find_handle h (serve arg es (thumbnail_service cache)).pending ≡ some i
    → let s = cancel h (serve arg es (thumbnail_service cache)) in
      (find_handle h s.pending ≡ none) × (answers_to i.address (serve arg later s) ≡ 0)
unfolding cancel answers_to
cancel-silences arg cache es later h i found =
    rw found (find-remove h s.pending, quiet.calls ∙ unanswered)
  where
    s : ThumbnailService
    s = run arg cache es

    entry : IsEntry s (h, i)
    entry = find-All (IsEntry s) h i s.pending found (run-Sound arg cache es).entries

    unanswered : answers_to i.address s ≡ 0
    unanswered = omega (arith, (run-Sound arg cache es).single i.address, entry.waits)

    quiet :
        Silent i.address (cancel_found h (some i) s) (serve arg later (cancel_found h (some i) s))
    quiet = serve-Silent arg i.address later (cancel_found h (some i) s) (ground arith)

idle_waits : (s : ThumbnailService) → s.runnables ≡ [] → s.posted ≡ [] → (a : ℕ) → waiting a s ≡ 0
unfolding waiting
idle_waits s e f a = rw (e, f) refl

none_pending :
    (s : ThumbnailService) (entries : List (ℕ × PendingItem))
    → ((a : ℕ) → waiting a s ≡ 0)
    → All (IsEntry s) entries
    → length entries ≡ 0
none_pending s [] idle h = refl
none_pending s (e ∷ rest) idle h = omega (arith, idle e.1.address, h.0.waits)

-- With nothing left in the pool and the event loop, no request is pending, and each item that was made
-- and not cancelled was answered once.
pub idle-answered :
    (s : ThumbnailService) (a : ℕ)
    → Sound s
    → s.runnables ≡ []
    → s.posted ≡ []
    → a < s.next_item
    → s.cancelled a ≡ false
    → (pending_count s ≡ 0) × (answers_to a s ≡ 1)
unfolding pending_count
idle-answered s a sound no_runnable no_posted made uncancelled =
    let idle = idle_waits s no_runnable no_posted in
    (
      none_pending s s.pending idle sound.entries,
      omega (arith, sound.kept a made uncancelled, idle a),
    )

cancel_items-keeps :
    (a : ℕ) (entries : List (ℕ × PendingItem)) (flags : ℕ → Bool)
    → flags a ≡ true
    → cancel_items entries flags a ≡ true
cancel_items-keeps a [] flags f = f
cancel_items-keeps a (e ∷ rest) flags f =
    cancel_items-keeps a rest (set_flag e.1.address flags) (ground (arith, f))

cancel_items-sets :
    (h : ℕ) (i : PendingItem) (entries : List (ℕ × PendingItem)) (flags : ℕ → Bool)
    → find_handle h entries ≡ some i
    → cancel_items entries flags i.address ≡ true
unfolding find_handle
cancel_items-sets h i [] flags e = cc
cancel_items-sets h i ((k, j) ∷ rest) flags e = elim (Bool-cases (k == h)) [
  | inl same ↦
      let own : j ≡ i = some-injective j i (rw same at e) in
      cancel_items-keeps i.address rest (set_flag j.address flags) (
        subst (λ (z : PendingItem). set_flag z.address flags i.address ≡ true) (sym own)
          (ground arith))
  | inr other ↦ cancel_items-sets h i rest (set_flag j.address flags) (rw other at e)
]

-- Once the service is destroyed, no runnable that the pool still runs to its end has a callback of a
-- pending request called.
pub destroy-silences :
    (arg : QStringArg) (s : ThumbnailService) (later : List Event) (h : ℕ) (i : PendingItem)
    → find_handle h s.pending ≡ some i
    → answers_to i.address (serve arg later (destroy s)) ≡ answers_to i.address s
unfolding destroy answers_to
destroy-silences arg s later h i found =
    (serve-Silent arg i.address later (destroy s)
      (cancel_items-sets h i s.pending s.cancelled found)).calls
