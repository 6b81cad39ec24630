-- ===== src/Thumbnail/Service/Keeps.antt =====
-- `cancelAllExcept` of src/thumbnail/src/thumbnail_service.cpp.
use pimio.Thumbnail.Request.{QStringArg}
use pimio.Thumbnail.DiskCache.{ThumbnailDiskCache}
use pimio.Thumbnail.Service.{
  ThumbnailService, PendingItem, thumbnail_service, find_handle, remove_handle, cancel,
  cancel_found, is_kept, cancel_each, cancel_all_except, handles,
}
use pimio.Thumbnail.Service.Runs.{Event, serve}
use pimio.Thumbnail.Service.Silence.{cancel_each-Silent}
use pimio.Thumbnail.Service.Sound.{IsEntry, Sound, new-Sound, other_address}
use pimio.Thumbnail.Service.Calls.{find-All, cancel_found-Sound, serve-Sound}
use pimio.Thumbnail.Service.Ends.{find-remove}
use pimio.Base.{
  ℕ, ◌≡◌, refl, subst, ◌∙◌, inl, inr, Bool, true, false, not, ◌&&◌, Option, none, some, List, [],
  ◌∷◌, arith, ◌==◌, any, Bool-cases, if_cases, ◌⊎◌, sym, if◌then◌else◌,
}

-- A handle that another one's cancellation leaves, and one that is gone stays gone.
find-other :
    (h k : ℕ) (entries : List (ℕ × PendingItem))
    → (k == h) ≡ false
    → find_handle h (remove_handle k entries) ≡ find_handle h entries
unfolding find_handle
find-other h k [] e = refl
find-other h k ((j, i) ∷ rest) e = ground (arith, find-other h k rest e)

remove_gone :
    (h k : ℕ) (entries : List (ℕ × PendingItem))
    → find_handle h entries ≡ none
    → find_handle h (remove_handle k entries) ≡ none
unfolding find_handle
remove_gone h k [] e = refl
remove_gone h k ((j, i) ∷ rest) e = ground (arith, remove_gone h k rest)

cancel_found-gone :
    (h k : ℕ) (o : Option PendingItem) (s : ThumbnailService)
    → find_handle h s.pending ≡ none
    → find_handle h (cancel_found k o s).pending ≡ none
cancel_found-gone h k none s e = e
cancel_found-gone h k (some i) s e = remove_gone h k s.pending e

cancel_each-gone :
    (h : ℕ) (keep hs : List ℕ) (s : ThumbnailService)
    → find_handle h s.pending ≡ none
    → find_handle h (cancel_each keep hs s).pending ≡ none
unfolding cancel_each cancel
cancel_each-gone h keep [] s e = e
cancel_each-gone h keep (k ∷ hs) s e =
    if_cases (λ t. find_handle h (cancel_each keep hs t).pending ≡ none) (is_kept keep k) s
      (cancel k s) (λ q. cancel_each-gone h keep hs s e)
      (λ q.
        cancel_each-gone h keep hs (cancel k s)
          (cancel_found-gone h k (find_handle k s.pending) s e))

-- Whether a handle is cancelled on the way through some handles.
abbrev is_dropped : ℕ → List ℕ → List ℕ → Bool
is_dropped h keep hs = any (λ (k : ℕ). k == h) hs && not (is_kept keep h)

record Leaves (h : ℕ) (i : PendingItem) (dropped : Bool) (t : ThumbnailService) : Type 0 where
  found : find_handle h t.pending ≡ (if dropped then none else some i)
  flag : t.cancelled i.address ≡ dropped

-- What the cancellation of another handle leaves.
cancel_other :
    (h k : ℕ) (i : PendingItem) (o : Option PendingItem) (s : ThumbnailService)
    → Sound s
    → find_handle h s.pending ≡ some i
    → find_handle k s.pending ≡ o
    → (k == h) ≡ false
    → Leaves h i false (cancel_found k o s)
cancel_other h k i none s w e f differs = record {
  found = e;
  flag = (find-All (IsEntry s) h i s.pending e w.entries).uncancelled;
}
cancel_other h k i (some j) s w e f differs =
    let mine = find-All (IsEntry s) h i s.pending e w.entries in
    let its = find-All (IsEntry s) k j s.pending f w.entries in
    let apart = other_address j i its.numbered mine.numbered (rw (its.key, mine.key) differs) in
    record {
      found = find-other h k s.pending differs ∙ e;
      flag = ground (arith, mine.uncancelled, apart);
    }

cancel_own :
    (h : ℕ) (i : PendingItem) (s : ThumbnailService)
    → find_handle h s.pending ≡ some i
    → Leaves h i true (cancel h s)
unfolding cancel
cancel_own h i s e = rw e (record { found = find-remove h s.pending; flag = ground arith })

same_key : (k h : ℕ) → (k == h) ≡ true → k ≡ h
same_key k h q = ground arith

dropped_kept :
    (h k : ℕ) (keep hs : List ℕ)
    → is_kept keep k ≡ true
    → is_dropped h keep hs ≡ is_dropped h keep (k ∷ hs)
dropped_kept h k keep hs q = elim (Bool-cases (k == h)) [
  | inl same ↦
      let kept = subst (λ z. is_kept keep z ≡ true) (same_key k h same) q in
      rw (same, kept) (&&-right_false _)
  | inr other ↦ rw other refl
]
  where
    &&-right_false : (b : Bool) → (b && false) ≡ false
    &&-right_false b = ground arith

-- A handle that is cancelled stays so through the other handles.
cancel_each-dropped :
    (h : ℕ) (i : PendingItem) (keep hs : List ℕ) (t : ThumbnailService)
    → Leaves h i true t
    → Leaves h i true (cancel_each keep hs t)
cancel_each-dropped h i keep hs t l = record {
  found = cancel_each-gone h keep hs t l.found;
  flag = (cancel_each-Silent i.address keep hs t l.flag).flag;
}

cancel_each-Leaves :
    (h : ℕ) (i : PendingItem) (keep hs : List ℕ) (s : ThumbnailService)
    → Sound s
    → find_handle h s.pending ≡ some i
    → Leaves h i (is_dropped h keep hs) (cancel_each keep hs s)
unfolding cancel_each cancel find_handle
cancel_each-Leaves h i keep [] s w e = record {
  found = e;
  flag = (find-All (IsEntry s) h i s.pending e w.entries).uncancelled;
}
cancel_each-Leaves h i keep (k ∷ hs) s w e =
    if_cases P (is_kept keep k) s (cancel k s)
      (λ q.
        subst (λ b. Leaves h i b (cancel_each keep hs s)) (dropped_kept h k keep hs q)
          (cancel_each-Leaves h i keep hs s w e))
      (λ q. dropped (cancel_each-Leaves h i keep hs (cancel k s)) q (Bool-cases (k == h)))
  where
    P : ThumbnailService → Type 0
    P t = Leaves h i (is_dropped h keep (k ∷ hs)) (cancel_each keep hs t)

    dropped :
        (Sound (cancel k s)
          → find_handle h (cancel k s).pending ≡ some i
          → Leaves h i (is_dropped h keep hs) (cancel_each keep hs (cancel k s)))
        → is_kept keep k ≡ false
        → ((k == h) ≡ true) ⊎ ((k == h) ≡ false)
        → P (cancel k s)
    dropped rest q (inl same) =
        let here = same_key k h same in
        let lost = subst (λ z. is_kept keep z ≡ false) here q in
        rw (same, lost)
          (cancel_each-dropped h i keep hs (cancel k s)
            (subst (λ z. Leaves h i true (cancel z s)) (sym here) (cancel_own h i s e)))
    dropped rest q (inr other) =
        let once = cancel_other h k i (find_handle k s.pending) s w e refl other in
        rw other (rest (cancel_found-Sound k (find_handle k s.pending) s refl w) once.found)

listed :
    (h : ℕ) (i : PendingItem) (entries : List (ℕ × PendingItem))
    → find_handle h entries ≡ some i
    → any (λ (k : ℕ). k == h) (handles entries) ≡ true
unfolding find_handle
listed h i [] e = cc
listed h i ((k, j) ∷ rest) e = ground (arith, listed h i rest)

-- At any point of a run of a new service, after `cancelAllExcept` a request that was pending is still
-- pending if its handle is in the list, and otherwise it is no longer pending and its flag is set, so
-- that its callbacks are not called; the flags of the requests that are kept are not set.
pub cancel_all_except-Keeps :
    (arg : QStringArg) (cache : ThumbnailDiskCache) (es : List Event) (keep : List ℕ) (h : ℕ)
    (i : PendingItem)
    → find_handle h (serve arg es (thumbnail_service cache)).pending ≡ some i
    → let t = cancel_all_except keep (serve arg es (thumbnail_service cache)) in
      (find_handle h t.pending ≡ (if is_kept keep h then some i else none))
      × (t.cancelled i.address ≡ not (is_kept keep h))
unfolding cancel_all_except
cancel_all_except-Keeps arg cache es keep h i found =
    let s = serve arg es (thumbnail_service cache) in
    let sound = serve-Sound arg es (thumbnail_service cache) (new-Sound cache) in
    let left = cancel_each-Leaves h i keep (handles s.pending) s sound found in
    (
      ground (arith, left.found, listed h i s.pending found),
      ground (arith, left.flag, listed h i s.pending found),
    )
