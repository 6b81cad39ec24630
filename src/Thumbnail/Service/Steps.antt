-- ===== src/Thumbnail/Service/Steps.antt =====
-- The runnables of src/thumbnail/src/thumbnail_service.cpp come to an end.
use pimio.Thumbnail.DiskCache.{ThumbnailDiskCache}
use pimio.Thumbnail.Request.{QStringArg, MediaRequest, cache_key}
use pimio.Thumbnail.Service.{
  pool_priority, Stage, beginning, loading, missed, rendering, rendered, storing, stored, loaded,
  put_back, ThumbnailService, ThumbnailRunnable, PendingItem, Delivery, Answers, Progress, goes_on,
  returns, posts, progress, advance, cache_after, thumbnail_service, set_max_concurrency,
  find_handle, request, cancel, cancel_found, is_kept, cancel_each, cancel_all_except, pick, work,
  work_picked, run_delivery, deliver_first, deliver, handles,
}
use pimio.Thumbnail.Service.Runs.{
  Event, limits, requests, cancels, cancels_all_except, works, delivers_posted, operate, serve,
}
use pimio.Thumbnail.Service.Tallies.{
  weight, weight_of, Picked, Picks, pick-Picks, Nears, progress-Nears,
}
use pimio.Base.{
  ℕ, zero, suc, ◌+◌, ◌*◌, ◌≤◌, ◌≡◌, refl, ap, ◌∙◌, inl, inr, Bool, true, false, Option, none, some,
  List, [], ◌∷◌, ◌++◌, arith, count, length, length-append, ℤ, pos, negsuc, ltb, Bool-cases,
  if_cases, if◌then◌else◌,
}

-- What is left to do: the steps of the runnables and the posted lambdas.
unfoldable pub remaining : ThumbnailService → ℕ
remaining s = weight_of s.runnables + length s.posted

-- Whether an event finds a runnable or a posted lambda to go on with.
unfoldable pub moves : Event → ThumbnailService → ℕ
moves (works n a) s = if ltb n (length s.runnables) then 1 else 0
moves delivers_posted s = if ltb 0 (length s.posted) then 1 else 0
moves _ s = 0

unfoldable pub moves_in : QStringArg → List Event → ThumbnailService → ℕ
moves_in arg [] s = 0
moves_in arg (e ∷ es) s = moves e s + moves_in arg es (operate arg e s)

abbrev pub is_request : Event → Bool
is_request (requests r) = true
is_request _ = false

weight_of-snoc :
    (rs : List ThumbnailRunnable) (r : ThumbnailRunnable)
    → weight_of (rs ++ r ∷ []) ≡ weight_of rs + weight_of (r ∷ [])
weight_of-snoc [] r = omega arith
weight_of-snoc (x ∷ rs) r = omega (arith, weight_of-snoc rs r)

pick-none : (n : ℕ) (rs : List ThumbnailRunnable) → pick n rs ≡ none → ltb n (length rs) ≡ false
unfolding pick
pick-none n [] e = ground arith
pick-none zero (r ∷ rs) e = cc
pick-none (suc n) (r ∷ rs) e = ground (arith, pick-none n rs, left (pick n rs) e)
  where
    left :
        (o : Option (ThumbnailRunnable × List ThumbnailRunnable)) → put_back r o ≡ none → o ≡ none
    left none e = refl
    left (some (u, rest)) e = cc

pub weight-ge : (stage : Stage) → 2 ≤ weight stage
weight-ge beginning = omega arith
weight-ge loading = omega arith
weight-ge missed = omega arith
weight-ge rendering = omega arith
weight-ge (rendered result error) = omega arith
weight-ge (storing result) = omega arith
weight-ge (stored result) = omega arith
weight-ge (loaded bytes) = omega arith

advance_lowers :
    (p : Progress) (r : ThumbnailRunnable) (rest : List ThumbnailRunnable) (s t : ThumbnailService)
    → t.posted ≡ s.posted
    → Picked s.runnables r rest
    → Nears (s.cancelled r.item.address) r.stage p
    → suc (remaining (advance p r rest t)) ≤ remaining s
unfolding remaining
advance_lowers (goes_on stage) r rest s t e g n = omega (arith, n, g.weighs, ap length e)
advance_lowers returns r rest s t e g n = omega (arith, weight-ge r.stage, g.weighs, ap length e)
advance_lowers (posts outcome) r rest s t e g n =
    let snoc = length-append t.posted (record { item = r.item; outcome = outcome } ∷ []) in
    omega (arith, weight-ge r.stage, g.weighs, ap length e, snoc)

work_picked_lowers :
    (arg : QStringArg) (a : Answers) (n : ℕ)
    (o : Option (ThumbnailRunnable × List ThumbnailRunnable)) (s : ThumbnailService)
    → pick n s.runnables ≡ o
    → Picks s.runnables o
    → moves (works n a) s + remaining (work_picked arg a o s) ≤ remaining s
unfolding work_picked moves
work_picked_lowers arg a n none s e g = rw (pick-none n s.runnables e) (omega arith)
work_picked_lowers arg a n (some (r, rest)) s e g =
    let key = cache_key arg r.item.request in
    let flag = s.cancelled r.item.address in
    let less =
      advance_lowers (progress key a flag s.cache r.stage) r rest s
        (record s { cache = cache_after key a r.stage s.cache }) refl g
        (progress-Nears key a flag s.cache r.stage) in
    ground (arith, less)

run_delivery_lowers :
    (d : Delivery) (s : ThumbnailService) → remaining (run_delivery d s) ≡ remaining s
unfolding run_delivery remaining
run_delivery_lowers d s = if_cases (λ t. remaining t ≡ remaining s) _ _ _ (λ _. refl) (λ _. refl)

deliver_first_lowers :
    (ds : List Delivery) (s : ThumbnailService)
    → s.posted ≡ ds
    → moves delivers_posted s + remaining (deliver_first ds s) ≤ remaining s
unfolding deliver_first moves remaining
deliver_first_lowers [] s e = rw e (omega arith)
deliver_first_lowers (d ∷ ds) s e =
    ground (arith, run_delivery_lowers d (record s { posted = ds }), ap length e)

cancel_found-remaining :
    (h : ℕ) (o : Option PendingItem) (s : ThumbnailService)
    → remaining (cancel_found h o s) ≡ remaining s
unfolding remaining
cancel_found-remaining h none s = refl
cancel_found-remaining h (some i) s = refl

cancel_each-remaining :
    (keep hs : List ℕ) (s : ThumbnailService) → remaining (cancel_each keep hs s) ≡ remaining s
unfolding cancel_each cancel
cancel_each-remaining keep [] s = refl
cancel_each-remaining keep (h ∷ hs) s = elim (Bool-cases (is_kept keep h)) [
  | inl e ↦ rw e (cancel_each-remaining keep hs s)
  | inr e ↦ rw e (
      cancel_each-remaining keep hs (cancel h s)
      ∙ cancel_found-remaining h (find_handle h s.pending) s)
]

limit-remaining : (n : ℤ) (s : ThumbnailService) → remaining (set_max_concurrency n s) ≡ remaining s
unfolding remaining set_max_concurrency
limit-remaining (pos zero) s = refl
limit-remaining (pos (suc n)) s = refl
limit-remaining (negsuc n) s = refl

request-remaining :
    (r : MediaRequest) (s : ThumbnailService) → remaining (request r s).0 ≡ remaining s + 8
unfolding remaining request
request-remaining r s = omega (
  arith,
  weight_of-snoc s.runnables (record {
    item = record { address = s.next_item; handle = s.next_handle; request = r };
    priority = pool_priority r.priority;
    stage = beginning;
  }),
)

pub new-remaining : (cache : ThumbnailDiskCache) → remaining (thumbnail_service cache) ≡ 0
unfolding remaining thumbnail_service
new-remaining cache = refl

pub operate_lowers :
    (arg : QStringArg) (e : Event) (s : ThumbnailService)
    → moves e s + remaining (operate arg e s) ≤ remaining s + (if is_request e then 8 else 0)
unfolding operate moves set_max_concurrency cancel cancel_all_except work deliver
operate_lowers arg (limits n) s = omega (arith, limit-remaining n s)
operate_lowers arg (requests r) s = omega (arith, request-remaining r s)
operate_lowers arg (cancels h) s =
    omega (arith, cancel_found-remaining h (find_handle h s.pending) s)
operate_lowers arg (cancels_all_except keep) s =
    omega (arith, cancel_each-remaining keep (handles s.pending) s)
operate_lowers arg (works n a) s =
    omega (arith, work_picked_lowers arg a n (pick n s.runnables) s refl (pick-Picks n s.runnables))
operate_lowers arg delivers_posted s = omega (arith, deliver_first_lowers s.posted s refl)

pub serve_lowers :
    (arg : QStringArg) (es : List Event) (s : ThumbnailService)
    → moves_in arg es s + remaining (serve arg es s) ≤ remaining s + 8 * count is_request es
unfolding serve moves_in
serve_lowers arg [] s = omega arith
serve_lowers arg (e ∷ es) s =
    ground (arith, operate_lowers arg e s, serve_lowers arg es (operate arg e s))
