-- ===== src/Thumbnail/Service/Sound.antt =====
-- The invariant of src/thumbnail/src/thumbnail_service.cpp: every item that was made is waiting, answered
-- or cancelled, and every pending one waits.
use pimio.Thumbnail.Service.{ThumbnailService, PendingItem, thumbnail_service}
use pimio.Thumbnail.Service.Silence.{answers_to}
use pimio.Thumbnail.Service.Tallies.{
  waiting, handle_of, IsNumbered, RunsNumbered, IsNumberedDelivery,
}
use pimio.Thumbnail.DiskCache.{ThumbnailDiskCache}
use pimio.Base.{
  ℕ, ◌+◌, ◌≤◌, ◌<◌, ◌≡◌, refl, sym, ap, ◌∙◌, inl, inr, Bool, true, false, arith, ◌==◌, All,
  Bool-cases,
}

-- An entry of the hash.
pub record IsEntry (s : ThumbnailService) (e : ℕ × PendingItem) : Type 0 where
  pub key : e.1.handle ≡ e.0
  pub numbered : IsNumbered e.1
  pub waits : waiting e.1.address s ≡ 1
  pub uncancelled : s.cancelled e.1.address ≡ false

pub record Sound (s : ThumbnailService) : Type 0 where
  pub single : (a : ℕ) → waiting a s + answers_to a s ≤ 1
  pub fresh :
      (a : ℕ) → s.next_item ≤ a → (waiting a s + answers_to a s ≡ 0) × (s.cancelled a ≡ false)
  pub kept : (a : ℕ) → a < s.next_item → s.cancelled a ≡ false → waiting a s + answers_to a s ≡ 1
  pub next : s.next_handle ≡ handle_of s.next_item
  pub runs : All RunsNumbered s.runnables
  pub deliveries : All IsNumberedDelivery s.posted
  pub entries : All (IsEntry s) s.pending

pub new-Sound : (cache : ThumbnailDiskCache) → Sound (thumbnail_service cache)
unfolding thumbnail_service waiting answers_to
new-Sound cache = record {
  single = λ a. omega arith;
  fresh = λ a h. (refl, refl);
  kept = λ a h k. omega arith;
  next = refl;
  runs = tt;
  deliveries = tt;
  entries = tt;
}

-- A step that makes no item, sets no flag and moves items without losing one that is not cancelled.
pub record Moves (s t : ThumbnailService) : Type 0 where
  pub flags : t.cancelled ≡ s.cancelled
  pub made : (t.next_item ≡ s.next_item) × (t.next_handle ≡ s.next_handle)
  pub tally :
      (a : ℕ)
      → (waiting a t + answers_to a t ≤ waiting a s + answers_to a s)
        × (s.cancelled a ≡ false → waiting a t + answers_to a t ≡ waiting a s + answers_to a s)

pub moves-Sound :
    (s t : ThumbnailService)
    → Moves s t
    → Sound s
    → All RunsNumbered t.runnables
    → All IsNumberedDelivery t.posted
    → All (IsEntry t) t.pending
    → Sound t
moves-Sound s t m h runs deliveries entries = record {
  single = λ a. omega (arith, (m.tally a).0, h.single a);
  fresh = λ a le.
      let (none_, unset) = h.fresh a (omega (arith, m.made.0, le)) in
      (omega (arith, (m.tally a).0, none_), ap (λ (f : ℕ → Bool). f a) m.flags ∙ unset);
  kept = λ a lt unset.
      let unset' = sym (ap (λ (f : ℕ → Bool). f a) m.flags) ∙ unset in
      (m.tally a).1 unset' ∙ h.kept a (omega (arith, m.made.0, lt)) unset';
  next = m.made.1 ∙ h.next ∙ ap handle_of (sym m.made.0);
  runs = runs;
  deliveries = deliveries;
  entries = entries;
}

-- An entry stays one where the flags are as before and its item waits as before.
pub IsEntry-kept :
    (s t : ThumbnailService) (e : ℕ × PendingItem)
    → t.cancelled ≡ s.cancelled
    → (s.cancelled e.1.address ≡ false → waiting e.1.address t ≡ waiting e.1.address s)
    → IsEntry s e
    → IsEntry t e
IsEntry-kept s t e f w h = record {
  key = h.key;
  numbered = h.numbered;
  waits = w h.uncancelled ∙ h.waits;
  uncancelled = ap (λ (g : ℕ → Bool). g e.1.address) f ∙ h.uncancelled;
}

-- Two items of one address have one handle.
pub other_address :
    (i j : PendingItem)
    → IsNumbered i
    → IsNumbered j
    → (i.handle == j.handle) ≡ false
    → (i.address == j.address) ≡ false
other_address i j n m h = elim (Bool-cases (i.address == j.address)) [
  | inl same ↦ ground (arith, n, m, h, ap handle_of (==→≡ _ _ same))
  | inr other ↦ other
]
  where
    ==→≡ : (a b : ℕ) → (a == b) ≡ true → a ≡ b
    ==→≡ a b h = ground arith
