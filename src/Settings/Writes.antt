-- ===== src/Settings/Writes.antt =====
-- src/settings/src/settings.cpp: the setters keep the settings within their bounds and in the file.
use pimio.Settings.{
  SortKey, sort_key_to_string, same_key, same_bool, clamp_tile_size, clamp_scan_batch_size,
  clamp_scroll_speed, text_of_bool, tile_size_key, sort_key_key, sort_descending_key,
  scroll_speed_key, scroll_acceleration_key, key_repeat_acceleration_key, scan_batch_size_key,
  Formats, Settings,
}
use pimio.Settings.Setters.{
  set_tile_size, set_sort_key, set_sort_descending, set_scroll_speed, set_scroll_acceleration,
  set_key_repeat_acceleration, set_show_tile_diagnostics, set_scan_batch_size, write,
}
use pimio.Settings.Saved.{
  IsFaithful, Reads, reads, reads-tile, reads-sort, reads-descending, reads-speed,
  reads-acceleration, reads-repeat, reads-batch, clamp_tile-twice, clamp_batch-twice, speed_fixed,
  clamp_speed-IsInRange, fixed-IsInRange,
}
use pimio.Base.{◌≡◌, refl, sym, subst, Bool, true, ℤ, int_eq, if_cases}

module _ (F : Formats) (d : IsFaithful F) where
  -- The file has what the settings are (a scroll speed that is fuzzily equal), and the bounded
  -- settings are within their bounds.
  abbrev pub Agrees : Reads F → Settings F → Type 0
  Agrees r s =
      (Reads.tile r ≡ s.tile_size)
      × (Reads.sort r ≡ s.sort_key)
      × (Reads.descending r ≡ s.sort_descending)
      × (Formats.fuzzy_compare F (Reads.speed r) s.scroll_speed ≡ true)
      × (Reads.acceleration r ≡ s.scroll_acceleration)
      × (Reads.repeat r ≡ s.key_repeat_acceleration)
      × (Reads.batch r ≡ s.scan_batch_size)
      × (clamp_tile_size s.tile_size ≡ s.tile_size)
      × (clamp_scan_batch_size s.scan_batch_size ≡ s.scan_batch_size)
      × (clamp_scroll_speed F s.scroll_speed ≡ s.scroll_speed)

  abbrev pub IsSaved : Settings F → Type 0
  IsSaved s = Agrees (reads F s.store) s

  pub clamp_speed-twice :
      (x : Formats.Real F) → clamp_scroll_speed F (clamp_scroll_speed F x) ≡ clamp_scroll_speed F x
  clamp_speed-twice x = speed_fixed F _ (clamp_speed-IsInRange F x d)

  pub wrote-tile :
      (x : ℤ) (s : Settings F)
      → clamp_tile_size x ≡ x
      → IsSaved s
      → IsSaved (write F tile_size_key (Formats.of_int F x) (record s { tile_size = x }))
  wrote-tile x s fixed h =
      subst (λ (r : Reads F). Agrees r (record s { tile_size = x }))
        (sym (reads-tile F d s.store x fixed))
        (fixed, h.1, h.2, h.3, h.4, h.5, h.6, fixed, h.8, h.9)

  pub wrote-sort :
      (x : SortKey) (s : Settings F)
      → IsSaved s
      → IsSaved (write F sort_key_key (sort_key_to_string x) (record s { sort_key = x }))
  wrote-sort x s h =
      subst (λ (r : Reads F). Agrees r (record s { sort_key = x })) (sym (reads-sort F s.store x))
        (h.0, refl, h.2, h.3, h.4, h.5, h.6, h.7, h.8, h.9)

  pub wrote-descending :
      (x : Bool) (s : Settings F)
      → IsSaved s
      → IsSaved (write F sort_descending_key (text_of_bool F x) (record s { sort_descending = x }))
  wrote-descending x s h =
      subst (λ (r : Reads F). Agrees r (record s { sort_descending = x }))
        (sym (reads-descending F d s.store x)) (h.0, h.1, refl, h.3, h.4, h.5, h.6, h.7, h.8, h.9)

  pub wrote-speed :
      (x : Formats.Real F) (s : Settings F)
      → clamp_scroll_speed F x ≡ x
      → IsSaved s
      → IsSaved (write F scroll_speed_key (Formats.of_double F x) (record s { scroll_speed = x }))
  wrote-speed x s fixed h =
      subst (λ (r : Reads F). Agrees r (record s { scroll_speed = x }))
        (sym (reads-speed F d s.store x (fixed-IsInRange F x d fixed)))
        (
          h.0,
          h.1,
          h.2,
          rw fixed (d.fuzzy_refl x (fixed-IsInRange F x d fixed)),
          h.4,
          h.5,
          h.6,
          h.7,
          h.8,
          fixed,
        )

  pub wrote-acceleration :
      (x : Bool) (s : Settings F)
      → IsSaved s
      → IsSaved (
          write F scroll_acceleration_key (text_of_bool F x) (record s { scroll_acceleration = x }))
  wrote-acceleration x s h =
      subst (λ (r : Reads F). Agrees r (record s { scroll_acceleration = x }))
        (sym (reads-acceleration F d s.store x)) (h.0, h.1, h.2, h.3, refl, h.5, h.6, h.7, h.8, h.9)

  pub wrote-repeat :
      (x : Bool) (s : Settings F)
      → IsSaved s
      → IsSaved (
          write F key_repeat_acceleration_key
            (text_of_bool F x)
            (record s { key_repeat_acceleration = x }))
  wrote-repeat x s h =
      subst (λ (r : Reads F). Agrees r (record s { key_repeat_acceleration = x }))
        (sym (reads-repeat F d s.store x)) (h.0, h.1, h.2, h.3, h.4, refl, h.6, h.7, h.8, h.9)

  pub wrote-batch :
      (x : ℤ) (s : Settings F)
      → clamp_scan_batch_size x ≡ x
      → IsSaved s
      → IsSaved
          (write F scan_batch_size_key (Formats.of_int F x) (record s { scan_batch_size = x }))
  wrote-batch x s fixed h =
      subst (λ (r : Reads F). Agrees r (record s { scan_batch_size = x }))
        (sym (reads-batch F d s.store x fixed))
        (h.0, h.1, h.2, h.3, h.4, h.5, fixed, h.7, fixed, h.9)

  pub set_tile_size-IsSaved : (x : ℤ) (s : Settings F) → IsSaved s → IsSaved (set_tile_size F x s)
  unfolding set_tile_size
  set_tile_size-IsSaved x s h =
      if_cases IsSaved (int_eq (clamp_tile_size x) s.tile_size) _ _ (λ _. h)
        (λ _. wrote-tile _ s (clamp_tile-twice x) h)

  pub set_sort_key-IsSaved :
      (x : SortKey) (s : Settings F) → IsSaved s → IsSaved (set_sort_key F x s)
  unfolding set_sort_key
  set_sort_key-IsSaved x s h =
      if_cases IsSaved (same_key x s.sort_key) _ _ (λ _. h) (λ _. wrote-sort x s h)

  pub set_sort_descending-IsSaved :
      (x : Bool) (s : Settings F) → IsSaved s → IsSaved (set_sort_descending F x s)
  unfolding set_sort_descending
  set_sort_descending-IsSaved x s h =
      if_cases IsSaved (same_bool x s.sort_descending) _ _ (λ _. h) (λ _. wrote-descending x s h)

  pub set_scroll_speed-IsSaved :
      (x : Formats.Real F) (s : Settings F) → IsSaved s → IsSaved (set_scroll_speed F x s)
  unfolding set_scroll_speed
  set_scroll_speed-IsSaved x s h =
      if_cases IsSaved (Formats.fuzzy_compare F (clamp_scroll_speed F x) s.scroll_speed) _ _
        (λ _. h) (λ _. wrote-speed _ s (clamp_speed-twice x) h)

  pub set_scroll_acceleration-IsSaved :
      (x : Bool) (s : Settings F) → IsSaved s → IsSaved (set_scroll_acceleration F x s)
  unfolding set_scroll_acceleration
  set_scroll_acceleration-IsSaved x s h =
      if_cases IsSaved (same_bool x s.scroll_acceleration) _ _ (λ _. h)
        (λ _. wrote-acceleration x s h)

  pub set_key_repeat_acceleration-IsSaved :
      (x : Bool) (s : Settings F) → IsSaved s → IsSaved (set_key_repeat_acceleration F x s)
  unfolding set_key_repeat_acceleration
  set_key_repeat_acceleration-IsSaved x s h =
      if_cases IsSaved (same_bool x s.key_repeat_acceleration) _ _ (λ _. h)
        (λ _. wrote-repeat x s h)

  pub set_scan_batch_size-IsSaved :
      (x : ℤ) (s : Settings F) → IsSaved s → IsSaved (set_scan_batch_size F x s)
  unfolding set_scan_batch_size
  set_scan_batch_size-IsSaved x s h =
      if_cases IsSaved (int_eq (clamp_scan_batch_size x) s.scan_batch_size) _ _ (λ _. h)
        (λ _. wrote-batch _ s (clamp_batch-twice x) h)

  pub set_show_tile_diagnostics-IsSaved :
      (x : Bool) (s : Settings F) → IsSaved s → IsSaved (set_show_tile_diagnostics F x s)
  unfolding set_show_tile_diagnostics
  set_show_tile_diagnostics-IsSaved x s h =
      if_cases IsSaved (same_bool x s.show_tile_diagnostics) _ _ (λ _. h) (λ _. h)
