-- ===== src/Settings/Resets.antt =====
-- src/settings/src/settings.cpp, `resetToDefaults`.
use pimio.Settings.{
  SortKey, capture_time, sort_key_to_string, clamp_tile_size, clamp_scan_batch_size, text_of_bool,
  tile_size_key, sort_key_key, sort_descending_key, scroll_acceleration_key,
  key_repeat_acceleration_key, scan_batch_size_key, Formats, Settings,
}
use pimio.Settings.Setters.{
  set_tile_size, set_sort_key, set_sort_descending, set_scroll_speed, set_scroll_acceleration,
  set_key_repeat_acceleration, set_show_tile_diagnostics, set_scan_batch_size, write_all,
  reset_to_defaults,
}
use pimio.Settings.Saved.{same_key→≡}
use pimio.Settings.Reloads.{int_eq→≡', same_bool→≡}
use pimio.Base.{
  ap, ◌∙◌, codes, ◌≡◌, refl, sym, subst, Bool, true, false, some, ℤ, pos, text_eq, find_at,
  find-put, arith,
}

-- A setter sets its setting, and otherwise changes only the file and the signals.
module _ (F : Formats) where
  set_tile_size_lem :
      (x : ℤ) (s : Settings F)
      → set_tile_size F x s ≡ record s {
        tile_size = clamp_tile_size x;
        store = (set_tile_size F x s).store;
        emitted = (set_tile_size F x s).emitted;
      }
  unfolding set_tile_size
  set_tile_size_lem x s = ground (arith, int_eq→≡' (clamp_tile_size x) s.tile_size)

  set_sort_key_lem :
      (x : SortKey) (s : Settings F)
      → set_sort_key F x s ≡ record s {
        sort_key = x;
        store = (set_sort_key F x s).store;
        emitted = (set_sort_key F x s).emitted;
      }
  unfolding set_sort_key
  set_sort_key_lem x s = ground (arith, same_key→≡ x s.sort_key)

  set_sort_descending_lem :
      (x : Bool) (s : Settings F)
      → set_sort_descending F x s ≡ record s {
        sort_descending = x;
        store = (set_sort_descending F x s).store;
        emitted = (set_sort_descending F x s).emitted;
      }
  unfolding set_sort_descending
  set_sort_descending_lem x s = ground (arith, same_bool→≡ x s.sort_descending)

  set_scroll_speed_lem :
      (x : Formats.Real F) (s : Settings F)
      → set_scroll_speed F x s ≡ record s {
        scroll_speed = (set_scroll_speed F x s).scroll_speed;
        store = (set_scroll_speed F x s).store;
        emitted = (set_scroll_speed F x s).emitted;
      }
  unfolding set_scroll_speed
  set_scroll_speed_lem x s = ground (arith)

  set_scroll_acceleration_lem :
      (x : Bool) (s : Settings F)
      → set_scroll_acceleration F x s ≡ record s {
        scroll_acceleration = x;
        store = (set_scroll_acceleration F x s).store;
        emitted = (set_scroll_acceleration F x s).emitted;
      }
  unfolding set_scroll_acceleration
  set_scroll_acceleration_lem x s = ground (arith, same_bool→≡ x s.scroll_acceleration)

  set_key_repeat_acceleration_lem :
      (x : Bool) (s : Settings F)
      → set_key_repeat_acceleration F x s ≡ record s {
        key_repeat_acceleration = x;
        store = (set_key_repeat_acceleration F x s).store;
        emitted = (set_key_repeat_acceleration F x s).emitted;
      }
  unfolding set_key_repeat_acceleration
  set_key_repeat_acceleration_lem x s = ground (arith, same_bool→≡ x s.key_repeat_acceleration)

  set_scan_batch_size_lem :
      (x : ℤ) (s : Settings F)
      → set_scan_batch_size F x s ≡ record s {
        scan_batch_size = clamp_scan_batch_size x;
        store = (set_scan_batch_size F x s).store;
        emitted = (set_scan_batch_size F x s).emitted;
      }
  unfolding set_scan_batch_size
  set_scan_batch_size_lem x s =
      ground (arith, int_eq→≡' (clamp_scan_batch_size x) s.scan_batch_size)

  set_show_tile_diagnostics_lem :
      (x : Bool) (s : Settings F)
      → set_show_tile_diagnostics F x s ≡ record s {
        show_tile_diagnostics = x;
        store = (set_show_tile_diagnostics F x s).store;
        emitted = (set_show_tile_diagnostics F x s).emitted;
      }
  unfolding set_show_tile_diagnostics
  set_show_tile_diagnostics_lem x s = ground (arith, same_bool→≡ x s.show_tile_diagnostics)

  abbrev pub HasDefaults : Settings F → Type 0
  HasDefaults s =
      (s.tile_size ≡ pos 176)
      × (s.sort_key ≡ capture_time)
      × (s.sort_descending ≡ false)
      × (s.scroll_acceleration ≡ true)
      × (s.key_repeat_acceleration ≡ true)
      × (s.scan_batch_size ≡ pos 64)
      × (s.show_tile_diagnostics ≡ false)

  write_all-file :
      (s : Settings F)
      → (find_at tile_size_key (write_all F s).store ≡ some (Formats.of_int F s.tile_size))
        × (find_at sort_key_key (write_all F s).store ≡ some (sort_key_to_string s.sort_key))
        × (find_at sort_descending_key (write_all F s).store
            ≡ some (text_of_bool F s.sort_descending))
        × (find_at scroll_acceleration_key (write_all F s).store
            ≡ some (text_of_bool F s.scroll_acceleration))
        × (find_at key_repeat_acceleration_key (write_all F s).store
            ≡ some (text_of_bool F s.key_repeat_acceleration))
        × (find_at scan_batch_size_key (write_all F s).store
            ≡ some (Formats.of_int F s.scan_batch_size))
  unfolding write_all text_eq
  write_all-file s = (
    simp (find-put),
    simp (find-put),
    simp (find-put),
    simp (find-put),
    simp (find-put),
    simp (find-put),
  )

  -- After a reset, whatever the settings and the file were, every setting but the scroll speed has
  -- its default, and the file says so for each stored one, so that no value of the file outlives it.
  pub reset_to_defaults-restores :
      (s : Settings F)
      → let s' = reset_to_defaults F s in
        HasDefaults s'
        × ((find_at tile_size_key s'.store ≡ some (Formats.of_int F (pos 176)))
            × (find_at sort_key_key s'.store ≡ some (codes "captureTime"))
            × (find_at sort_descending_key s'.store ≡ some (codes "false"))
            × (find_at scroll_acceleration_key s'.store ≡ some (codes "true"))
            × (find_at key_repeat_acceleration_key s'.store ≡ some (codes "true"))
            × (find_at scan_batch_size_key s'.store ≡ some (Formats.of_int F (pos 64))))
  unfolding reset_to_defaults write_all clamp_tile_size clamp_scan_batch_size sort_key_to_string
  reset_to_defaults-restores s =
      let speed = Formats.default_scroll_speed F in
      let s1 = set_tile_size F (pos 176) s in
      let s2 = set_sort_key F capture_time s1 in
      let s3 = set_sort_descending F false s2 in
      let s4 = set_scroll_speed F speed s3 in
      let s5 = set_scroll_acceleration F true s4 in
      let s6 = set_key_repeat_acceleration F true s5 in
      let s7 = set_scan_batch_size F (pos 64) s6 in
      let s8 = set_show_tile_diagnostics F false s7 in
      let h1 = subst Tile (sym (set_tile_size_lem (pos 176) s)) refl in
      let h2 = subst Sort (sym (set_sort_key_lem capture_time s1)) (h1, refl) in
      let h3 = subst Descends (sym (set_sort_descending_lem false s2)) (h2, refl) in
      let h4 = subst Descends (sym (set_scroll_speed_lem speed s3)) h3 in
      let h5 = subst Accelerates (sym (set_scroll_acceleration_lem true s4)) (h4, refl) in
      let h6 = subst Repeats (sym (set_key_repeat_acceleration_lem true s5)) (h5, refl) in
      let h7 = subst Batch (sym (set_scan_batch_size_lem (pos 64) s6)) (h6, refl) in
      let h8 = subst Batch (sym (set_show_tile_diagnostics_lem false s7)) h7 in
      let shown = subst Shows (sym (set_show_tile_diagnostics_lem false s7)) refl in
      let saved = write_all-file s8 in
      (
        (h8.0.0.0.0.0, h8.0.0.0.0.1, h8.0.0.0.1, h8.0.0.1, h8.0.1, h8.1, shown),
        (
          saved.0 ∙ ap (λ (n : ℤ). some (Formats.of_int F n)) h8.0.0.0.0.0,
          saved.1 ∙ ap (λ (k : SortKey). some (sort_key_to_string k)) h8.0.0.0.0.1,
          saved.2 ∙ ap (λ (b : Bool). some (text_of_bool F b)) h8.0.0.0.1,
          saved.3 ∙ ap (λ (b : Bool). some (text_of_bool F b)) h8.0.0.1,
          saved.4 ∙ ap (λ (b : Bool). some (text_of_bool F b)) h8.0.1,
          saved.5 ∙ ap (λ (n : ℤ). some (Formats.of_int F n)) h8.1,
        ),
      )
    where
      Tile : Settings F → Type 0
      Tile z = z.tile_size ≡ pos 176

      Sort : Settings F → Type 0
      Sort z = Tile z × (z.sort_key ≡ capture_time)

      Descends : Settings F → Type 0
      Descends z = Sort z × (z.sort_descending ≡ false)

      Accelerates : Settings F → Type 0
      Accelerates z = Descends z × (z.scroll_acceleration ≡ true)

      Repeats : Settings F → Type 0
      Repeats z = Accelerates z × (z.key_repeat_acceleration ≡ true)

      Batch : Settings F → Type 0
      Batch z = Repeats z × (z.scan_batch_size ≡ pos 64)

      Shows : Settings F → Type 0
      Shows z = z.show_tile_diagnostics ≡ false
