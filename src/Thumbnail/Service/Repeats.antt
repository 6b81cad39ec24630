-- ===== src/Thumbnail/Service/Repeats.antt =====
-- src/thumbnail/src/thumbnail_service.cpp with its disk cache: what is rendered once is not rendered
-- again.
use pimio.Core.Error.{is_error}
use pimio.Thumbnail.DiskCache.{ThumbnailDiskCache, load, store, find_file}
use pimio.Thumbnail.Request.{QStringArg, MediaRequest, MediaResult, cache_key}
use pimio.Thumbnail.Service.{
  thumbnail_service, ThumbnailService, delivers, Answers, Stage, beginning, loading, missed,
  rendering, loaded, rendered, storing, stored, goes_on, posts, progress, cache_after,
  cached_result, new_item, request, pick, work, work_picked, run_delivery, deliver_first, deliver,
  remove_handle, insert_handle, pool_priority,
}
use pimio.Thumbnail.Service.Runs.{Event, requests, works, delivers_posted, operate, serve}
use pimio.Thumbnail.Service.Sound.{Sound, new-Sound}
use pimio.Thumbnail.Service.Calls.{serve-Sound}
use pimio.Base.{
  ltb, text_eq_refl, subst, sym, ℕ, ◌+◌, ◌<◌, ◌%◌, ◌^◌, ◌≡◌, refl, ap, ◌∙◌, Bool, true, false, none,
  some, List, [], ◌∷◌, ◌++◌, arith, length, Text,
}

-- A service whose pool and event loop hold nothing, and whose next item has its flag unset.
pub record Idle (s : ThumbnailService) : Type 0 where
  pub runnables : s.runnables ≡ []
  pub posted : s.posted ≡ []
  pub unset : s.cancelled s.next_item ≡ false

-- The state after the request of an idle service was answered.
abbrev pub answered :
    MediaRequest → ThumbnailDiskCache → MediaResult → ThumbnailService → ThumbnailService
answered r cache result s = record s {
  cache = cache;
  next_handle = (s.next_handle + 1) % 2 ^ 64;
  next_item = s.next_item + 1;
  pending = remove_handle s.next_handle (insert_handle s.next_handle (new_item r s) s.pending);
  runnables = [];
  posted = [];
  calls = s.calls ++ record { item = new_item r s; outcome = delivers result } ∷ [];
}

-- The events that lead from a state to `u`, step by step.
data Leads (arg : QStringArg) (u : ThumbnailService) : List Event → ThumbnailService → Type 0 where
  stays : Leads arg u [] u
  follows :
      {e : Event} {es : List Event} {s t : ThumbnailService}
      → operate arg e s ≡ t
      → Leads arg u es t
      → Leads arg u (e ∷ es) s

Leads-serve :
    (arg : QStringArg) {u s : ThumbnailService} {es : List Event}
    → Leads arg u es s
    → serve arg es s ≡ u
unfolding serve
Leads-serve arg stays = refl
Leads-serve arg (follows {es = es} p l) = ap (serve arg es) p ∙ Leads-serve arg l

-- A request that meets its bytes in the cache takes three steps, one that is rendered seven.
unfoldable pub hit : MediaRequest → (ℕ → Answers) → List Event
hit r n = requests r ∷ works 0 (n 0) ∷ works 0 (n 1) ∷ works 0 (n 2) ∷ delivers_posted ∷ []

unfoldable pub miss : MediaRequest → (ℕ → Answers) → List Event
miss r n =
    requests r
    ∷ works 0 (n 0)
    ∷ works 0 (n 1)
    ∷ works 0 (n 2)
    ∷ works 0 (n 3)
    ∷ works 0 (n 4)
    ∷ works 0 (n 5)
    ∷ works 0 (n 6)
    ∷ delivers_posted
    ∷ []

module _ (arg : QStringArg) (r : MediaRequest) (s : ThumbnailService) where
  -- The service while the request's runnable is its only one.
  at : Stage → ThumbnailDiskCache → ThumbnailService
  unfolding request
  at stage cache = record (request r s).0 {
    cache = cache;
    runnables =
        record { item = new_item r s; priority = pool_priority r.priority; stage = stage } ∷ [];
    posted = [];
  }

  returning : MediaResult → ThumbnailDiskCache → ThumbnailService
  unfolding request
  returning result cache = record (request r s).0 {
    cache = cache;
    runnables = [];
    posted = record { item = new_item r s; outcome = delivers result } ∷ [];
  }

  requested : Idle s → operate arg (requests r) s ≡ at beginning s.cache
  unfolding at operate request
  requested idle = rw (idle.runnables, idle.posted) refl

  goes :
      (a : Answers) (stage next : Stage) (cache : ThumbnailDiskCache)
      → progress (cache_key arg r) a (s.cancelled s.next_item) cache stage ≡ goes_on next
      → operate arg (works 0 a) (at stage cache)
        ≡ at next (cache_after (cache_key arg r) a stage cache)
  unfolding at operate work pick work_picked request
  goes a stage next cache e = rw e refl

  comes_back :
      (a : Answers) (stage : Stage) (result : MediaResult) (cache : ThumbnailDiskCache)
      → progress (cache_key arg r) a (s.cancelled s.next_item) cache stage ≡ posts (delivers result)
      → operate arg (works 0 a) (at stage cache)
        ≡ returning result (cache_after (cache_key arg r) a stage cache)
  unfolding at returning operate work pick work_picked request
  comes_back a stage result cache e = rw e refl

  delivered_lem :
      (result : MediaResult) (cache : ThumbnailDiskCache)
      → Idle s
      → operate arg delivers_posted (returning result cache) ≡ answered r cache result s
  unfolding returning operate deliver deliver_first run_delivery request
  delivered_lem result cache idle = rw idle.unset refl

  pub hit_lem :
      (n : ℕ → Answers) (bytes : List ℕ)
      → Idle s
      → load (n 1).opens (cache_key arg r) s.cache ≡ some bytes
      → serve arg (hit r n) s ≡ answered r s.cache (cached_result bytes) s
  unfolding hit serve progress cache_after
  hit_lem n bytes idle found =
      let result = cached_result bytes in
      let leads : Leads arg (answered r s.cache result s) (hit r n) s = follows (requested idle) (
        follows (goes (n 0) beginning loading s.cache (rw idle.unset refl)) (
          follows (goes (n 1) loading (loaded bytes) s.cache (rw found refl)) (
            follows (comes_back (n 2) (loaded bytes) result s.cache (rw idle.unset refl))
              (follows (delivered_lem result s.cache idle) stays)))) in
      Leads-serve arg leads

  pub miss_lem :
      (n : ℕ → Answers)
      → Idle s
      → load (n 1).opens (cache_key arg r) s.cache ≡ none
      → is_error (n 3).error ≡ false
      → let d = (store (n 5).writes (n 5).now (cache_key arg r) (n 3).result.bytes s.cache).0 in
        serve arg (miss r n) s ≡ answered r d (n 3).result s
  unfolding miss serve progress cache_after
  miss_lem n idle absent fine =
      let result = (n 3).result in
      let d = (store (n 5).writes (n 5).now (cache_key arg r) result.bytes s.cache).0 in
      let leads : Leads arg (answered r d result s) (miss r n) s = follows (requested idle) (
        follows (goes (n 0) beginning loading s.cache (rw idle.unset refl)) (
          follows (goes (n 1) loading missed s.cache (rw absent refl)) (
            follows (goes (n 2) missed rendering s.cache (rw idle.unset refl)) (
              follows (goes (n 3) rendering (rendered result (n 3).error) s.cache refl) (
                follows
                  (goes (n 4) (rendered result (n 3).error) (storing result) s.cache
                    (rw (idle.unset, fine) refl))
                  (follows (goes (n 5) (storing result) (stored result) s.cache refl) (
                    follows (comes_back (n 6) (stored result) result d (rw idle.unset refl))
                      (follows (delivered_lem result d idle) stays)))))))) in
      Leads-serve arg leads

stored-load :
    (opens writes : Bool) (now : ℕ) (other key : Text) (bytes : List ℕ) (c : ThumbnailDiskCache)
    → opens ≡ true
    → writes ≡ true
    → 0 < length bytes
    → other ≡ key
    → load opens other (store writes now key bytes c).0 ≡ some bytes
unfolding load store find_file
stored-load opens writes now other key bytes c o w full same =
    let some_ : ltb 0 (length bytes) ≡ true = ground (arith, full) in
    rw (o, w, same, some_, text_eq_refl key, some_) refl

-- At a point of a run of a new service where the pool and the event loop hold nothing: a request whose
-- key is not in the cache, which the renderer renders to some bytes that are written, is answered with
-- what was rendered. Any second request with the same key is then answered with those bytes from the
-- cache, if the file opens, whatever the renderer would do: it takes three steps, none of them a
-- rendering, and the cache stays as it is.
pub repeat-cached :
    (arg : QStringArg) (cache : ThumbnailDiskCache) (es : List Event) (r q : MediaRequest)
    (n m : ℕ → Answers)
    → let s = serve arg es (thumbnail_service cache) in
      s.runnables ≡ []
      → s.posted ≡ []
      → load (n 1).opens (cache_key arg r) s.cache ≡ none
      → is_error (n 3).error ≡ false
      → (n 5).writes ≡ true
      → 0 < length (n 3).result.bytes
      → cache_key arg q ≡ cache_key arg r
      → (m 1).opens ≡ true
      → let t = serve arg (miss r n) s in
        let u = serve arg (hit q m) t in
        (t.calls ≡ s.calls ++ record { item = new_item r s; outcome = delivers (n 3).result } ∷ [])
        × (u.calls
            ≡ t.calls
              ++ record {
                item = new_item q t;
                outcome = delivers (cached_result (n 3).result.bytes);
              }
                ∷ [])
        × (u.cache ≡ t.cache)
repeat-cached arg cache es r q n m no_runnable no_posted absent fine writes full same opens =
    subst P (sym (miss_lem arg r s n idle absent fine)) (
      refl,
      ap (λ (v : ThumbnailService). v.calls) second,
      ap (λ (v : ThumbnailService). v.cache) second,
    )
  where
    s : ThumbnailService
    s = serve arg es (thumbnail_service cache)

    sound : Sound s
    sound = serve-Sound arg es (thumbnail_service cache) (new-Sound cache)

    idle : Idle s
    idle = record {
      runnables = no_runnable;
      posted = no_posted;
      unset = (sound.fresh s.next_item (omega arith)).1;
    }

    result : MediaResult
    result = (n 3).result

    d : ThumbnailDiskCache
    d = (store (n 5).writes (n 5).now (cache_key arg r) result.bytes s.cache).0

    t : ThumbnailService
    t = answered r d result s

    found : load (m 1).opens (cache_key arg q) d ≡ some result.bytes
    found =
        stored-load (m 1).opens (n 5).writes (n 5).now (cache_key arg q) (cache_key arg r)
          result.bytes s.cache opens writes full same

    second : serve arg (hit q m) t ≡ answered q d (cached_result result.bytes) t
    second =
        hit_lem arg q t m result.bytes
          (record {
            runnables = refl;
            posted = refl;
            unset = (sound.fresh (s.next_item + 1) (omega arith)).1;
          })
          found

    P : ThumbnailService → Type 0
    P v =
        (v.calls ≡ s.calls ++ record { item = new_item r s; outcome = delivers result } ∷ [])
        × ((serve arg (hit q m) v).calls
            ≡ v.calls
              ++ record { item = new_item q v; outcome = delivers (cached_result result.bytes) }
                ∷ [])
        × ((serve arg (hit q m) v).cache ≡ v.cache)
