-- ===== src/Settings/Reloads.antt =====
-- src/settings/src/settings.cpp, `reload`: the settings are what the file has.
use pimio.Settings.{same_bool, clamp_tile_size, clamp_scroll_speed, Formats, Settings}
use pimio.Settings.Setters.{
  reload_tile_size, reload_sort_key, reload_sort_descending, reload_scroll_speed,
  reload_scroll_acceleration, reload_key_repeat_acceleration, reload_scan_batch_size, reload,
  settings,
}
use pimio.Settings.Saved.{
  clamp_speed-IsInRange, IsFaithful, Reads, reads, clamp_tile-twice, clamp_batch-twice, same_key→≡,
}
use pimio.Base.{
  ◌≡◌, refl, sym, ap, subst, ◌∙◌, Bool, true, false, List, ℤ, pos, negsuc, int_eq, if_cases, Text,
  arith,
}
use pimio.Settings.Writes.{IsSaved, clamp_speed-twice}

pub int_eq→≡' : (a b : ℤ) → int_eq a b ≡ true → a ≡ b
int_eq→≡' (pos a) (pos b) h = ap pos (ground arith)
int_eq→≡' (pos a) (negsuc b) h = cc
int_eq→≡' (negsuc a) (pos b) h = cc
int_eq→≡' (negsuc a) (negsuc b) h = ap negsuc (ground arith)

pub same_bool→≡ : (a b : Bool) → same_bool a b ≡ true → a ≡ b
same_bool→≡ true b h = sym h
same_bool→≡ false true h = cc
same_bool→≡ false false h = refl

-- Each step of `reload` sets one setting to what the file has, and nothing else but its signal.
module _ (F : Formats) where
  reload_tile_size_lem :
      (s : Settings F)
      → reload_tile_size F s ≡ record s {
        tile_size = Reads.tile (reads F s.store);
        emitted = (reload_tile_size F s).emitted;
      }
  unfolding reload_tile_size
  reload_tile_size_lem s = ground (arith, int_eq→≡' (Reads.tile (reads F s.store)) s.tile_size)

  reload_sort_key_lem :
      (s : Settings F)
      → reload_sort_key F s ≡ record s {
        sort_key = Reads.sort (reads F s.store);
        emitted = (reload_sort_key F s).emitted;
      }
  unfolding reload_sort_key
  reload_sort_key_lem s = ground (arith, same_key→≡ (Reads.sort (reads F s.store)) s.sort_key)

  reload_sort_descending_lem :
      (s : Settings F)
      → reload_sort_descending F s ≡ record s {
        sort_descending = Reads.descending (reads F s.store);
        emitted = (reload_sort_descending F s).emitted;
      }
  unfolding reload_sort_descending
  reload_sort_descending_lem s =
      ground (arith, same_bool→≡ (Reads.descending (reads F s.store)) s.sort_descending)

  reload_scroll_acceleration_lem :
      (s : Settings F)
      → reload_scroll_acceleration F s ≡ record s {
        scroll_acceleration = Reads.acceleration (reads F s.store);
        emitted = (reload_scroll_acceleration F s).emitted;
      }
  unfolding reload_scroll_acceleration
  reload_scroll_acceleration_lem s =
      ground (arith, same_bool→≡ (Reads.acceleration (reads F s.store)) s.scroll_acceleration)

  reload_key_repeat_acceleration_lem :
      (s : Settings F)
      → reload_key_repeat_acceleration F s ≡ record s {
        key_repeat_acceleration = Reads.repeat (reads F s.store);
        emitted = (reload_key_repeat_acceleration F s).emitted;
      }
  unfolding reload_key_repeat_acceleration
  reload_key_repeat_acceleration_lem s =
      ground (arith, same_bool→≡ (Reads.repeat (reads F s.store)) s.key_repeat_acceleration)

  reload_scan_batch_size_lem :
      (s : Settings F)
      → reload_scan_batch_size F s ≡ record s {
        scan_batch_size = Reads.batch (reads F s.store);
        emitted = (reload_scan_batch_size F s).emitted;
      }
  unfolding reload_scan_batch_size
  reload_scan_batch_size_lem s =
      ground (arith, int_eq→≡' (Reads.batch (reads F s.store)) s.scan_batch_size)

  reload_scroll_speed_lem :
      (s : Settings F)
      → reload_scroll_speed F s ≡ record s {
        scroll_speed = (reload_scroll_speed F s).scroll_speed;
        emitted = (reload_scroll_speed F s).emitted;
      }
  unfolding reload_scroll_speed
  reload_scroll_speed_lem s = ground arith

module _ (F : Formats) (d : IsFaithful F) where
  abbrev SpeedFixed : Settings F → Type 0
  SpeedFixed s = clamp_scroll_speed F s.scroll_speed ≡ s.scroll_speed

  abbrev UpToDescending : Settings F → Type 0
  UpToDescending s =
      (Reads.tile (reads F s.store) ≡ s.tile_size)
      × (Reads.sort (reads F s.store) ≡ s.sort_key)
      × (Reads.descending (reads F s.store) ≡ s.sort_descending)

  abbrev UpToSpeed : Settings F → Type 0
  UpToSpeed s =
      UpToDescending s
      × ((Formats.fuzzy_compare F (Reads.speed (reads F s.store)) s.scroll_speed ≡ true)
          × SpeedFixed s)

  first_steps :
      (s : Settings F)
      → UpToDescending (reload_sort_descending F (reload_sort_key F (reload_tile_size F s)))
  first_steps s =
      let Tile : Settings F → Type 0 = λ z. Reads.tile (reads F z.store) ≡ z.tile_size in
      let Sort : Settings F → Type 0 = λ z. Tile z × (Reads.sort (reads F z.store) ≡ z.sort_key) in
      let s1 = reload_tile_size F s in
      let s2 = reload_sort_key F s1 in
      let tile = subst Tile (sym (reload_tile_size_lem F s)) refl in
      let sort = subst Sort (sym (reload_sort_key_lem F s1)) (tile, refl) in
      subst UpToDescending (sym (reload_sort_descending_lem F s2)) (sort.0, sort.1, refl)

  first_steps-SpeedFixed :
      (s : Settings F)
      → SpeedFixed s
      → SpeedFixed (reload_sort_descending F (reload_sort_key F (reload_tile_size F s)))
  first_steps-SpeedFixed s h = subst SpeedFixed (sym (reload_sort_descending_lem F _)) (
      subst SpeedFixed (sym (reload_sort_key_lem F _))
        (subst SpeedFixed (sym (reload_tile_size_lem F s)) h))

  speed_step :
      (s : Settings F) → UpToDescending s → SpeedFixed s → UpToSpeed (reload_scroll_speed F s)
  unfolding reload_scroll_speed
  speed_step s h fixed =
      if_cases UpToSpeed (Formats.fuzzy_compare F (Reads.speed (reads F s.store)) s.scroll_speed) _
        _ (λ near. (h, (near, fixed)))
        (λ _. (h, (d.fuzzy_refl _ (clamp_speed-IsInRange F _ d), clamp_speed-twice F d _)))

  pub reload-IsSaved :
      (file : List (Text × Text)) (s : Settings F) → SpeedFixed s → IsSaved F d (reload F file s)
  unfolding reload
  reload-IsSaved file s fixed =
      let start : Settings F = record s { store = file } in
      let Accelerates : Settings F → Type 0 =
        λ z. UpToSpeed z × (Reads.acceleration (reads F z.store) ≡ z.scroll_acceleration) in
      let Repeats : Settings F → Type 0 =
        λ z. Accelerates z × (Reads.repeat (reads F z.store) ≡ z.key_repeat_acceleration) in
      let s3 = reload_sort_descending F (reload_sort_key F (reload_tile_size F start)) in
      let s4 = reload_scroll_speed F s3 in
      let s5 = reload_scroll_acceleration F s4 in
      let s6 = reload_key_repeat_acceleration F s5 in
      let h4 = speed_step s3 (first_steps start) (first_steps-SpeedFixed start fixed) in
      let h5 = subst Accelerates (sym (reload_scroll_acceleration_lem F s4)) (h4, refl) in
      let h6 = subst Repeats (sym (reload_key_repeat_acceleration_lem F s5)) (h5, refl) in
      subst (IsSaved F d) (sym (reload_scan_batch_size_lem F s6)) (
        h6.0.0.0.0,
        h6.0.0.0.1,
        h6.0.0.0.2,
        h6.0.0.1.0,
        h6.0.1,
        h6.1,
        refl,
        subst (λ (n : ℤ). clamp_tile_size n ≡ n) h6.0.0.0.0 (clamp_tile-twice _),
        clamp_batch-twice _,
        h6.0.0.1.1,
      )

  reload-store : (file : List (Text × Text)) (s : Settings F) → (reload F file s).store ≡ file
  unfolding reload
  reload-store file s =
      ap Settings.store (reload_scan_batch_size_lem F _)
      ∙ ap Settings.store (reload_key_repeat_acceleration_lem F _)
      ∙ ap Settings.store (reload_scroll_acceleration_lem F _)
      ∙ ap Settings.store (reload_scroll_speed_lem F _)
      ∙ ap Settings.store (reload_sort_descending_lem F _)
      ∙ ap Settings.store (reload_sort_key_lem F _)
      ∙ ap Settings.store (reload_tile_size_lem F _)

  pub settings-store : (file : List (Text × Text)) → (settings F file).store ≡ file
  unfolding settings
  settings-store file = reload-store file _
