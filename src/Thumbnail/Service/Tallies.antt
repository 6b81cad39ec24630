-- ===== src/Thumbnail/Service/Tallies.antt =====
-- Where the items of src/thumbnail/src/thumbnail_service.cpp are: what each step does to their number.
use pimio.Core.Error.{is_error}
use pimio.Thumbnail.DiskCache.{load, ThumbnailDiskCache}
use pimio.Thumbnail.Service.{
  load_answer, ThumbnailService, ThumbnailRunnable, PendingItem, Delivery, Answers, Stage,
  beginning, loading, missed, rendering, loaded, rendered, storing, stored, Progress, goes_on,
  returns, posts, progress, pick, put_back,
}
use pimio.Thumbnail.Service.Silence.{is_at}
use pimio.Base.{
  ℕ, zero, suc, ◌+◌, ◌%◌, ◌^◌, ◌<◌, ◌≡◌, refl, Bool, true, false, Option, none, some, List, [], ◌∷◌,
  arith, ◌==◌, count, Text, All, if_cases, if◌then◌else◌,
}

abbrev pub runs_at : ℕ → ThumbnailRunnable → Bool
runs_at a r = r.item.address == a

-- The runnables and the posted lambdas of the item at an address.
unfoldable pub waiting : ℕ → ThumbnailService → ℕ
waiting a s = count (runs_at a) s.runnables + count (is_at a) s.posted

-- The handle that the item at an address has.
abbrev pub handle_of : ℕ → ℕ
handle_of a = (a + 1) % 2 ^ 64

abbrev pub IsNumbered : PendingItem → Type 0
IsNumbered item = item.handle ≡ handle_of item.address

abbrev pub RunsNumbered : ThumbnailRunnable → Type 0
RunsNumbered r = IsNumbered r.item

abbrev pub IsNumberedDelivery : Delivery → Type 0
IsNumberedDelivery d = IsNumbered d.item

-- What is left of a runnable: its steps, and the lambda that it may post.
abbrev pub weight : Stage → ℕ
weight beginning = 8
weight loading = 7
weight missed = 6
weight rendering = 5
weight (rendered result error) = 4
weight (storing result) = 3
weight (stored result) = 2
weight (loaded bytes) = 2

abbrev pub weight_of : List ThumbnailRunnable → ℕ
weight_of [] = 0
weight_of (r ∷ rs) = weight r.stage + weight_of rs

-- What `pick` takes out of the runnables.
pub record Picked (rs : List ThumbnailRunnable) (r : ThumbnailRunnable)
    (rest : List ThumbnailRunnable) : Type 0 where
  pub counts : (p : ThumbnailRunnable → Bool) → count p rs ≡ count p (r ∷ rest)
  pub weighs : weight_of rs ≡ weight_of (r ∷ rest)
  pub numbered : All RunsNumbered rs → RunsNumbered r × All RunsNumbered rest

abbrev pub Picks :
    List ThumbnailRunnable → Option (ThumbnailRunnable × List ThumbnailRunnable) → Type 0
Picks rs none = Unit
Picks rs (some (r, rest)) = Picked rs r rest

put_back-Picks :
    (u : ThumbnailRunnable) (rs : List ThumbnailRunnable)
    (o : Option (ThumbnailRunnable × List ThumbnailRunnable))
    → Picks rs o
    → Picks (u ∷ rs) (put_back u o)
put_back-Picks u rs none h = tt
put_back-Picks u rs (some (r, rest)) h = record {
  counts = λ p. ground (arith, h.counts p);
  weighs = omega (arith, h.weighs);
  numbered = λ a. let (n, ns) = h.numbered a.1 in (n, (a.0, ns));
}

pub pick-Picks : (n : ℕ) (rs : List ThumbnailRunnable) → Picks rs (pick n rs)
unfolding pick
pick-Picks n [] = tt
pick-Picks zero (r ∷ rs) = record { counts = λ p. refl; weighs = refl; numbered = λ a. a }
pick-Picks (suc n) (r ∷ rs) = put_back-Picks r rs (pick n rs) (pick-Picks n rs)

-- A runnable ends without a word only when it sees its flag set, and each of its steps brings it nearer
-- to its end.
abbrev pub Nears : Bool → Stage → Progress → Type 0
Nears cancelled stage (goes_on next) = weight next < weight stage
Nears cancelled stage returns = cancelled ≡ true
Nears cancelled stage (posts outcome) = Unit

if-Nears :
    (cancelled : Bool) (stage : Stage) (p : Progress)
    → Nears cancelled stage p
    → Nears cancelled stage (if cancelled then returns else p)
if-Nears true stage p h = refl
if-Nears false stage p h = h

pub progress-Nears :
    (key : Text) (a : Answers) (cancelled : Bool) (cache : ThumbnailDiskCache) (stage : Stage)
    → Nears cancelled stage (progress key a cancelled cache stage)
unfolding progress
progress-Nears key a cancelled cache beginning =
    if-Nears cancelled beginning (goes_on loading) (omega arith)
progress-Nears key a cancelled cache loading = loads (load a.opens key cache)
  where
    loads : (o : Option (List ℕ)) → Nears cancelled loading (goes_on (load_answer o))
    loads none = omega arith
    loads (some bytes) = omega arith
progress-Nears key a cancelled cache (loaded bytes) = if-Nears cancelled (loaded bytes) _ tt
progress-Nears key a cancelled cache missed =
    if-Nears cancelled missed (goes_on rendering) (omega arith)
progress-Nears key a cancelled cache rendering = omega arith
progress-Nears key a cancelled cache (rendered result error) =
    if-Nears cancelled (rendered result error) _ (
      if_cases (Nears cancelled (rendered result error)) (is_error error) _ _ (λ _. tt)
        (λ _. omega arith))
progress-Nears key a cancelled cache (storing result) = omega arith
progress-Nears key a cancelled cache (stored result) = if-Nears cancelled (stored result) _ tt
