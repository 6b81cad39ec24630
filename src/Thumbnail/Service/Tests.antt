-- ===== src/Thumbnail/Service/Tests.antt =====
-- src/thumbnail/src/thumbnail_service.cpp on a few requests.
use mathlib.Core.List.{append_assoc}
use pimio.Core.Error.{no_error, is_error}
use pimio.Core.Job.{interactive}
use pimio.Thumbnail.DiskCache.{ThumbnailDiskCache, load, find_file}
use pimio.Thumbnail.Request.{MediaRequest, thumbnail, cache_key, QStringArg}
use pimio.Thumbnail.Request.Keys.{IsArg, IsPlain, cache_key-injective}
use pimio.Store.{is_valid}
use pimio.Thumbnail.Service.{
  Answers, thumbnail_service, find_handle, cancel, cancel_all_except, is_kept, pending_count,
  delivers, cached_result, new_item, progress, PendingItem, request, work,
}
use pimio.Thumbnail.Service.Runs.{Event, requests, works, delivers_posted, serve}
use pimio.Thumbnail.Service.Silence.{answers_to}
use pimio.Thumbnail.Service.Ends.{cancel-silences}
use pimio.Thumbnail.Service.Turns.{turns, turns-answer}
use pimio.Thumbnail.Service.Keeps.{cancel_all_except-Keeps}
use pimio.Thumbnail.Service.Repeats.{hit, miss, repeat-cached}
use pimio.Base.{
  ◌∙◌, ℕ, zero, suc, ◌≡◌, refl, ap, true, false, not, none, some, List, [], ◌∷◌, ◌++◌, arith, ◌==◌,
  any, ℤ, pos, negsuc, Text, codes, if◌then◌else◌,
}

-- An integer as a sign and as many ones.
ones : ℕ → Text
ones zero = []
ones (suc n) = 49 ∷ ones n

unary : ℤ → Text
unfolding ones
unary (pos n) = ones n
unary (negsuc n) = 45 ∷ ones n

ones-injective : (m n : ℕ) → ones m ≡ ones n → m ≡ n
unfolding ones
ones-injective zero zero e = refl
ones-injective zero (suc n) e = cc
ones-injective (suc m) zero e = cc
ones-injective (suc m) (suc n) e = ap suc (ones-injective m n cc)

ones-lack : (c n : ℕ) → (49 == c) ≡ false → any (λ (x : ℕ). x == c) (ones n) ≡ false
unfolding ones
ones-lack c zero e = refl
ones-lack c (suc n) e = rw e (ones-lack c n e)

-- A text put in at the first '%', over the digit that follows it.
abbrev after_digit : Text → Text
after_digit [] = []
after_digit (c ∷ s) = s

put_first : Text → Text → Text
put_first [] t = []
put_first (c ∷ s) t = let rest = put_first s t in if c == 37 then t ++ after_digit s else c ∷ rest

put_two : Text → Text → Text → Text
unfolding put_first
put_two [] a b = []
put_two (c ∷ s) a b =
    let rest = put_two s a b in if c == 37 then a ++ put_first (after_digit s) b else c ∷ rest

places : QStringArg
unfolding put_first put_two unary
places = record { texts = put_two; int = λ s n. put_first s (unary n) }

put_first-at :
    (c : ℕ) (p s t : Text)
    → any (λ (x : ℕ). x == 37) p ≡ false
    → put_first (p ++ 37 ∷ c ∷ s) t ≡ p ++ t ++ s
unfolding put_first
put_first-at c [] s t h = refl
put_first-at c (x ∷ p) s t h = ground (arith, h, put_first-at c p s t)

put_two-at :
    (c d : ℕ) (p m s a b : Text)
    → any (λ (x : ℕ). x == 37) p ≡ false
    → any (λ (x : ℕ). x == 37) m ≡ false
    → put_two (p ++ 37 ∷ c ∷ (m ++ 37 ∷ d ∷ s)) a b ≡ p ++ a ++ m ++ b ++ s
unfolding put_two
put_two-at c d [] m s a b h k =
    ap (λ (t : Text). a ++ t) (put_first-at d m s b k) ∙ simp append_assoc
put_two-at c d (x ∷ p) m s a b h k = ground (arith, h, put_two-at c d p m s a b)

places-IsArg : IsArg places unary
unfolding unary ones put_two places
places-IsArg = record {
  texts_put = λ j k p m s a b near lacks between later. put_two-at _ _ p m s a b lacks between.0;
  int_put = λ k p s n small lacks later. put_first-at _ p s (unary n) lacks;
  injective = injective;
  plain = plain;
}
  where
    injective : (m n : ℤ) → unary m ≡ unary n → m ≡ n
    injective (pos m) (pos n) e = ap pos (ones-injective m n e)
    injective (pos zero) (negsuc n) e = cc
    injective (pos (suc m)) (negsuc n) e = cc
    injective (negsuc m) (pos zero) e = cc
    injective (negsuc m) (pos (suc n)) e = cc
    injective (negsuc m) (negsuc n) e = ap negsuc (ones-injective m n cc)

    plain :
        (n : ℤ)
        → (any (λ (x : ℕ). x == 47) (unary n) ≡ false)
          × (any (λ (x : ℕ). x == 120) (unary n) ≡ false)
          × (any (λ (x : ℕ). x == 37) (unary n) ≡ false)
    plain (pos n) = (ones-lack 47 n refl, ones-lack 120 n refl, ones-lack 37 n refl)
    plain (negsuc n) = (ones-lack 47 n refl, ones-lack 120 n refl, ones-lack 37 n refl)

abbrev photo : Text → MediaRequest
photo digest = record {
  media_id = codes "m";
  fingerprint = record { algorithm = codes "sha256"; digest = digest };
  kind = thumbnail;
  absolute_path = codes "/p";
  target_size = record { width = pos 2; height = pos 1 };
  position_ms = pos 0;
  recipe_revision = pos 0;
  priority = interactive;
}

abbrev empty_cache : ThumbnailDiskCache
empty_cache = record { max_size_bytes = pos 9; files = [] }

abbrev rendering : Answers
rendering = record {
  opens = true;
  writes = true;
  now = 5;
  result = record {
    bytes = 7 ∷ 8 ∷ [];
    format = codes "jpeg";
    actual_size = record { width = pos 2; height = pos 1 };
    is_progressive_intermediate = false;
  };
  error = no_error;
}

-- Two requests, of which the first has begun.
abbrev two : List Event
two = requests (photo (codes "a")) ∷ requests (photo (codes "b")) ∷ works 0 rendering ∷ []

abbrev item : PendingItem
item = record { address = 1; handle = 2; request = photo (codes "b") }

-- The second one is cancelled while the first one is at work.
cancel-silences_example :
    let s = cancel 2 (serve places two (thumbnail_service empty_cache)) in
    (find_handle 2 s.pending ≡ none)
    × (answers_to 1 (serve places (works 1 rendering ∷ delivers_posted ∷ []) s) ≡ 0)
unfolding serve work request find_handle thumbnail_service progress
cancel-silences_example =
    cancel-silences places empty_cache two (works 1 rendering ∷ delivers_posted ∷ []) 2 item refl

cancel_all_except-Keeps_example :
    let t = cancel_all_except (1 ∷ []) (serve places two (thumbnail_service empty_cache)) in
    (find_handle 2 t.pending ≡ (if is_kept (1 ∷ []) 2 then some item else none))
    × (t.cancelled 1 ≡ not (is_kept (1 ∷ []) 2))
unfolding serve work request find_handle thumbnail_service progress
cancel_all_except-Keeps_example =
    cancel_all_except-Keeps places empty_cache two (1 ∷ []) 2 item refl

abbrev sixteen : List Answers
sixteen =
    rendering ∷ rendering ∷ rendering ∷ rendering ∷ rendering ∷ rendering ∷ rendering ∷ rendering
    ∷ rendering ∷ rendering ∷ rendering ∷ rendering ∷ rendering ∷ rendering ∷ rendering ∷ rendering
    ∷ []

turns-answer_example :
    let s = serve places (turns sixteen) (serve places two (thumbnail_service empty_cache)) in
    (pending_count s ≡ 0) × (answers_to 1 s ≡ 1)
unfolding serve work request thumbnail_service progress
turns-answer_example = turns-answer places empty_cache two sixteen 1 refl (omega arith) refl

repeat-cached_example :
    let s = serve places [] (thumbnail_service empty_cache) in
    let t = serve places (miss (photo (codes "a")) (λ k. rendering)) s in
    let u = serve places (hit (photo (codes "a")) (λ k. rendering)) t in
    (t.calls
      ≡ s.calls
        ++ record { item = new_item (photo (codes "a")) s; outcome = delivers rendering.result }
          ∷ [])
    × (u.calls
        ≡ t.calls
          ++ record {
            item = new_item (photo (codes "a")) t;
            outcome = delivers (cached_result rendering.result.bytes);
          }
            ∷ [])
    × (u.cache ≡ t.cache)
unfolding serve thumbnail_service load find_file is_error
repeat-cached_example =
    repeat-cached places empty_cache [] (photo (codes "a")) (photo (codes "a")) (λ k. rendering)
      (λ k. rendering) refl refl refl refl refl (omega arith) refl refl

-- The same content elsewhere.
abbrev moved : MediaRequest
moved = record (photo (codes "a")) { media_id = codes "n"; absolute_path = codes "/q" }

photo-IsPlain : IsPlain (photo (codes "a")).fingerprint
unfolding is_valid
photo-IsPlain = record {
  valid = refl;
  no_dash = refl;
  no_slash = (refl, refl);
  no_percent = (refl, refl);
}

cache_key-injective_example :
    let r = photo (codes "a") in
    (r.fingerprint ≡ moved.fingerprint)
    × (r.kind ≡ moved.kind)
    × (r.target_size.width ≡ moved.target_size.width)
    × (r.target_size.height ≡ moved.target_size.height)
    × (r.position_ms ≡ moved.position_ms)
    × (r.recipe_revision ≡ moved.recipe_revision)
unfolding cache_key
cache_key-injective_example =
    cache_key-injective places unary (photo (codes "a")) moved places-IsArg photo-IsPlain
      photo-IsPlain refl
