-- ===== src/Thumbnail/Service/Calls.antt =====
-- The operations on the owning thread in src/thumbnail/src/thumbnail_service.cpp keep the invariant.
use pimio.Thumbnail.Request.{QStringArg, MediaRequest}
use pimio.Thumbnail.Service.{
  ThumbnailService, PendingItem, Delivery, set_max_concurrency, remove_handle, find_handle, request,
  cancel, cancel_found, is_kept, cancel_each, cancel_all_except, run_delivery, deliver_first,
  deliver, handles,
}
use pimio.Thumbnail.Service.Runs.{
  Event, limits, requests, cancels, cancels_all_except, works, delivers_posted, operate, serve,
}
use pimio.Thumbnail.Service.Silence.{is_at, answers_to, count-snoc}
use pimio.Thumbnail.Service.Tallies.{runs_at, waiting, IsNumbered, RunsNumbered, IsNumberedDelivery}
use pimio.Thumbnail.Service.Sound.{IsEntry, Sound, moves-Sound, IsEntry-kept, other_address}
use pimio.Thumbnail.Service.Works.{work-Sound}
use mathlib.Core.Option.{some-injective}
use pimio.Base.{
  ℕ, zero, suc, ◌+◌, ◌≡◌, refl, sym, ap, subst, inl, inr, true, false, not, Option, none, some,
  List, [], ◌∷◌, ◌++◌, arith, ◌==◌, count, ℤ, pos, negsuc, All, All-of, All-mem, All-append,
  mem-filter, Bool-cases, if◌then◌else◌,
}

-- The entries of the other handles.
not_key : (h : ℕ) (e : ℕ × PendingItem) → not (e.0 == h) ≡ true → (e.0 == h) ≡ false
not_key h e q = ground arith

kept_entries :
    (s t : ThumbnailService) (i : PendingItem)
    → IsNumbered i
    → ((e : ℕ × PendingItem) → (e.1.address == i.address) ≡ false → IsEntry s e → IsEntry t e)
    → All (IsEntry s) s.pending
    → All (IsEntry t) (remove_handle i.handle s.pending)
kept_entries s t i n f h = All-of (IsEntry t) (remove_handle i.handle s.pending) λ e m.
    let (in_, other) = mem-filter (λ (e : ℕ × PendingItem). not (e.0 == i.handle)) s.pending m in
    let entry = All-mem (IsEntry s) h in_ in
    f e
      (other_address e.1 i entry.numbered n
        (subst (λ k. (k == i.handle) ≡ false) (sym entry.key) (not_key i.handle e other)))
      entry

delivered :
    (d : Delivery) (ds : List Delivery) (s : ThumbnailService)
    → s.posted ≡ d ∷ ds
    → Sound s
    → Sound (run_delivery d (record s { posted = ds }))
unfolding run_delivery waiting answers_to
delivered d ds s e h = elim (Bool-cases (s.cancelled d.item.address)) [
  | inl c ↦ rw c (
      moves-Sound s dropped
        (record {
          flags = refl;
          made = (refl, refl);
          tally = λ a. (ground (arith, at_posted a), λ f. ground (arith, at_posted a, c, f));
        })
        h h.runs numbered.1
        (All-of (IsEntry dropped) s.pending λ x m.
          IsEntry-kept s dropped x refl (λ f. ground (arith, at_posted x.1.address, c, f))
            (All-mem (IsEntry s) h.entries m)))
  | inr c ↦ rw c (
      moves-Sound s answered
        (record {
          flags = refl;
          made = (refl, refl);
          tally = λ a.
              let snoc = count-snoc (is_at a) s.calls d in
              (ground (arith, at_posted a, snoc), λ f. ground (arith, at_posted a, snoc));
        })
        h h.runs numbered.1
        (kept_entries s answered d.item numbered.0
          (λ x other entry.
            IsEntry-kept s answered x refl (λ f. ground (arith, at_posted x.1.address, other))
              entry)
          h.entries))
]
  where
    dropped : ThumbnailService
    dropped = record s { posted = ds }

    answered : ThumbnailService
    answered = record s {
      posted = ds;
      pending = remove_handle d.item.handle s.pending;
      calls = s.calls ++ d ∷ [];
    }

    at_posted : (a : ℕ) → count (is_at a) s.posted ≡ count (is_at a) (d ∷ ds)
    at_posted a = ap (count (is_at a)) e

    numbered : IsNumberedDelivery d × All IsNumberedDelivery ds
    numbered = subst (All IsNumberedDelivery) e h.deliveries

deliver_first-Sound :
    (ds : List Delivery) (s : ThumbnailService)
    → s.posted ≡ ds
    → Sound s
    → Sound (deliver_first ds s)
unfolding deliver_first
deliver_first-Sound [] s e h = h
deliver_first-Sound (d ∷ ds) s e h = delivered d ds s e h

pub find-All :
    (P : ℕ × PendingItem → Type 0) (h : ℕ) (i : PendingItem) (entries : List (ℕ × PendingItem))
    → find_handle h entries ≡ some i
    → All P entries
    → P (h, i)
unfolding find_handle
find-All P h i [] e a = cc
find-All P h i ((k, j) ∷ rest) e a = elim (Bool-cases (k == h)) [
  | inl same ↦
      subst (λ z. P (z, i)) (ground (arith, same))
        (subst (λ z. P (k, z)) (some-injective j i (rw same at e)) a.0)
  | inr other ↦ find-All P h i rest (rw other at e) a.1
]

pub cancel_found-Sound :
    (h : ℕ) (o : Option PendingItem) (s : ThumbnailService)
    → find_handle h s.pending ≡ o
    → Sound s
    → Sound (cancel_found h o s)
unfolding waiting answers_to
cancel_found-Sound h none s e w = w
cancel_found-Sound h (some i) s e w = record {
  single = w.single;
  fresh = λ a le. ((w.fresh a le).0, ground (arith, w.fresh a le, w.fresh i.address, entry.waits));
  kept = λ a lt f. w.kept a lt (ground (arith, f));
  next = w.next;
  runs = w.runs;
  deliveries = w.deliveries;
  entries =
      subst (λ k. All (IsEntry t) (remove_handle k s.pending)) entry.key
        (kept_entries s t i entry.numbered
          (λ x other it. record {
            key = it.key;
            numbered = it.numbered;
            waits = it.waits;
            uncancelled = ground (arith, other, it.uncancelled);
          })
          w.entries);
}
  where
    t : ThumbnailService
    t = cancel_found h (some i) s

    entry : IsEntry s (h, i)
    entry = find-All (IsEntry s) h i s.pending e w.entries

cancel_each-Sound :
    (keep hs : List ℕ) (s : ThumbnailService) → Sound s → Sound (cancel_each keep hs s)
unfolding cancel_each cancel
cancel_each-Sound keep [] s w = w
cancel_each-Sound keep (h ∷ hs) s w = elim (Bool-cases (is_kept keep h)) [
  | inl e ↦ rw e (cancel_each-Sound keep hs s w)
  | inr e ↦ rw e (
      cancel_each-Sound keep hs (cancel h s)
        (cancel_found-Sound h (find_handle h s.pending) s refl w))
]

request-Sound : (r : MediaRequest) (s : ThumbnailService) → Sound s → Sound (request r s).0
unfolding request waiting answers_to
request-Sound r s h = record {
  single = λ a. ground (arith, made a, h.single a, h.fresh a);
  fresh = λ a le. (ground (arith, made a, h.fresh a), (h.fresh a (omega (arith, le))).1);
  kept = λ a lt f. ground (arith, made a, h.kept a, h.fresh a);
  next = omega (arith, h.next);
  runs = All-append RunsNumbered s.runnables _ h.runs (h.next, tt);
  deliveries = h.deliveries;
  entries = (
    record {
      key = refl;
      numbered = h.next;
      waits = ground (arith, made s.next_item, h.fresh s.next_item);
      uncancelled = (h.fresh s.next_item (omega arith)).1;
    },
    kept_entries s (request r s).0 i h.next
        (λ x other entry.
          IsEntry-kept s (request r s).0 x refl (λ f. ground (arith, made x.1.address, other))
            entry)
        h.entries,
  );
}
  where
    i : PendingItem
    i = record { address = s.next_item; handle = s.next_handle; request = r }

    made :
        (a : ℕ)
        → count (runs_at a) (request r s).0.runnables
          ≡ count (runs_at a) s.runnables + (if s.next_item == a then 1 else 0)
    made a = count-snoc (runs_at a) s.runnables _

operate-Sound :
    (arg : QStringArg) (e : Event) (s : ThumbnailService) → Sound s → Sound (operate arg e s)
unfolding operate set_max_concurrency cancel cancel_all_except deliver waiting answers_to
operate-Sound arg (limits n) s h = limited n
  where
    set : (m : ℕ) → Sound (record s { max_concurrency = m })
    set m =
        moves-Sound s (record s { max_concurrency = m })
          (record { flags = refl; made = (refl, refl); tally = λ a. (omega arith, λ f. refl) }) h
          h.runs h.deliveries
          (All-of (IsEntry (record s { max_concurrency = m })) s.pending
            λ x n. IsEntry-kept s _ x refl (λ f. refl) (All-mem (IsEntry s) h.entries n))

    limited : (n : ℤ) → Sound (set_max_concurrency n s)
    limited (pos zero) = set 1
    limited (pos (suc n)) = set (suc n)
    limited (negsuc n) = set 1
operate-Sound arg (requests r) s h = request-Sound r s h
operate-Sound arg (cancels k) s h = cancel_found-Sound k (find_handle k s.pending) s refl h
operate-Sound arg (cancels_all_except keep) s h = cancel_each-Sound keep (handles s.pending) s h
operate-Sound arg (works n a) s h = work-Sound arg n a s h
operate-Sound arg delivers_posted s h = deliver_first-Sound s.posted s refl h

pub serve-Sound :
    (arg : QStringArg) (es : List Event) (s : ThumbnailService) → Sound s → Sound (serve arg es s)
unfolding serve
serve-Sound arg [] s h = h
serve-Sound arg (e ∷ es) s h = serve-Sound arg es (operate arg e s) (operate-Sound arg e s h)
