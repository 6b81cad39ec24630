-- ===== src/Thumbnail/Service/Silence.antt =====
-- Cancellation in src/thumbnail/src/thumbnail_service.cpp: a request that is cancelled is never answered.
use pimio.Thumbnail.Service.{
  ThumbnailService, ThumbnailRunnable, PendingItem, Delivery, Answers, Progress, goes_on, returns,
  posts, advance, set_max_concurrency, request, find_handle, cancel, cancel_found, cancel_each,
  cancel_all_except, is_kept, work, work_picked, pick, progress, cache_after, deliver,
  deliver_first, run_delivery, handles,
}
use pimio.Thumbnail.Request.{QStringArg, cache_key}
use pimio.Thumbnail.Service.Runs.{
  Event, limits, requests, cancels, cancels_all_except, works, delivers_posted, operate, serve,
}
use pimio.Base.{
  ℕ, zero, suc, ◌+◌, ◌≡◌, refl, ◌∙◌, inl, inr, Bool, true, false, Option, none, some, List, [], ◌∷◌,
  ◌++◌, arith, ◌==◌, count, pos, negsuc, Bool-cases, if◌then◌else◌,
}

abbrev pub is_at : ℕ → Delivery → Bool
is_at a d = d.item.address == a

-- How often the callbacks of the item at an address were called.
unfoldable pub answers_to : ℕ → ThumbnailService → ℕ
answers_to a s = count (is_at a) s.calls

pub count-snoc {ℓ} :
    {A : Type ℓ} (p : A → Bool) (xs : List A) (y : A)
    → count p (xs ++ y ∷ []) ≡ count p xs + (if p y then 1 else 0)
count-snoc p [] y = ground arith
count-snoc p (x ∷ xs) y = ground (arith, count-snoc p xs y)

-- A flag that is set stays set, and the item that has it is not answered.
pub record Silent (a : ℕ) (s t : ThumbnailService) : Type 0 where
  pub flag : t.cancelled a ≡ true
  pub calls : answers_to a t ≡ answers_to a s

cancel_found-Silent :
    (a h : ℕ) (o : Option PendingItem) (s : ThumbnailService)
    → s.cancelled a ≡ true
    → Silent a s (cancel_found h o s)
unfolding answers_to
cancel_found-Silent a h none s f = record { flag = f; calls = refl }
cancel_found-Silent a h (some item) s f = record { flag = ground (arith, f); calls = refl }

pub cancel_each-Silent :
    (a : ℕ) (keep hs : List ℕ) (s : ThumbnailService)
    → s.cancelled a ≡ true
    → Silent a s (cancel_each keep hs s)
unfolding cancel_each cancel
cancel_each-Silent a keep [] s f = record { flag = f; calls = refl }
cancel_each-Silent a keep (h ∷ hs) s f = elim (Bool-cases (is_kept keep h)) [
  | inl e ↦ rw e (cancel_each-Silent a keep hs s f)
  | inr e ↦
      let once = cancel_found-Silent a h (find_handle h s.pending) s f in
      let rest = cancel_each-Silent a keep hs (cancel h s) once.flag in
      rw e (record { flag = rest.flag; calls = rest.calls ∙ once.calls })
]

advance-Silent :
    (a : ℕ) (p : Progress) (r : ThumbnailRunnable) (rest : List ThumbnailRunnable)
    (s t : ThumbnailService)
    → t.cancelled a ≡ true
    → answers_to a t ≡ answers_to a s
    → Silent a s (advance p r rest t)
unfolding answers_to
advance-Silent a (goes_on stage) r rest s t f e = record { flag = f; calls = e }
advance-Silent a returns r rest s t f e = record { flag = f; calls = e }
advance-Silent a (posts outcome) r rest s t f e = record { flag = f; calls = e }

work_picked-Silent :
    (arg : QStringArg) (a : ℕ) (ans : Answers)
    (o : Option (ThumbnailRunnable × List ThumbnailRunnable)) (s : ThumbnailService)
    → s.cancelled a ≡ true
    → Silent a s (work_picked arg ans o s)
unfolding work_picked answers_to
work_picked-Silent arg a ans none s f = record { flag = f; calls = refl }
work_picked-Silent arg a ans (some (r, rest)) s f =
    let key = cache_key arg r.item.request in
    advance-Silent a (progress key ans (s.cancelled r.item.address) s.cache r.stage) r rest s
      (record s { cache = cache_after key ans r.stage s.cache }) f refl

-- Only the lambda of an item whose flag is set may be that item's.
not_at : (a b : ℕ) (flags : ℕ → Bool) → flags a ≡ true → flags b ≡ false → (b == a) ≡ false
not_at a b flags f g = ground (arith, f, g)

run_delivery-Silent :
    (a : ℕ) (d : Delivery) (s t : ThumbnailService)
    → t.cancelled a ≡ true
    → answers_to a t ≡ answers_to a s
    → Silent a s (run_delivery d t)
unfolding run_delivery answers_to
run_delivery-Silent a d s t f e = elim (Bool-cases (t.cancelled d.item.address)) [
  | inl g ↦ rw g (record { flag = f; calls = e })
  | inr g ↦ rw g (record {
    flag = f;
    calls =
        ground (arith, count-snoc (is_at a) t.calls d, not_at a d.item.address t.cancelled f g, e);
  })
]

deliver_first-Silent :
    (a : ℕ) (ds : List Delivery) (s : ThumbnailService)
    → s.cancelled a ≡ true
    → Silent a s (deliver_first ds s)
unfolding deliver_first answers_to
deliver_first-Silent a [] s f = record { flag = f; calls = refl }
deliver_first-Silent a (d ∷ ds) s f = run_delivery-Silent a d s (record s { posted = ds }) f refl

operate-Silent :
    (arg : QStringArg) (a : ℕ) (e : Event) (s : ThumbnailService)
    → s.cancelled a ≡ true
    → Silent a s (operate arg e s)
unfolding operate answers_to set_max_concurrency request cancel cancel_all_except work deliver
operate-Silent arg a (limits (pos zero)) s f = record { flag = f; calls = refl }
operate-Silent arg a (limits (pos (suc n))) s f = record { flag = f; calls = refl }
operate-Silent arg a (limits (negsuc n)) s f = record { flag = f; calls = refl }
operate-Silent arg a (requests r) s f = record { flag = f; calls = refl }
operate-Silent arg a (cancels h) s f = cancel_found-Silent a h (find_handle h s.pending) s f
operate-Silent arg a (cancels_all_except keep) s f =
    cancel_each-Silent a keep (handles s.pending) s f
operate-Silent arg a (works n ans) s f = work_picked-Silent arg a ans (pick n s.runnables) s f
operate-Silent arg a delivers_posted s f = deliver_first-Silent a s.posted s f

pub serve-Silent :
    (arg : QStringArg) (a : ℕ) (es : List Event) (s : ThumbnailService)
    → s.cancelled a ≡ true
    → Silent a s (serve arg es s)
unfolding serve
serve-Silent arg a [] s f = record { flag = f; calls = refl }
serve-Silent arg a (e ∷ es) s f =
    let once = operate-Silent arg a e s f in
    let rest = serve-Silent arg a es (operate arg e s) once.flag in
    record { flag = rest.flag; calls = rest.calls ∙ once.calls }
