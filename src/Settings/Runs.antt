-- ===== src/Settings/Runs.antt =====
-- src/settings/src/settings.cpp: any use of the settings keeps them within their bounds and in the file.
use pimio.Settings.{
  SortKey, capture_time, sort_key_to_string, first_valued, all_sort_keys, clamp_tile_size,
  clamp_scan_batch_size, clamp_scroll_speed, text_of_bool, tile_size_key, sort_key_key,
  sort_descending_key, scroll_speed_key, scroll_acceleration_key, key_repeat_acceleration_key,
  Formats, Settings,
}
use pimio.Settings.Setters.{
  set_tile_size, set_sort_key, set_sort_key_value, set_sort_descending, set_scroll_speed,
  set_scroll_acceleration, set_key_repeat_acceleration, set_show_tile_diagnostics,
  set_scan_batch_size, write_all, reset_to_defaults, write, reload, settings,
}
use pimio.Settings.Saved.{IsFaithful, Reads, reads, speed_fixed}
use pimio.Base.{
  int_leb, ◌≡◌, sym, subst, ◌∙◌, Bool, true, false, Option, none, some, List, [], ◌∷◌, ℤ, pos,
  negsuc, Text, arith,
}
use pimio.Settings.Writes.{
  Agrees, IsSaved, wrote-tile, wrote-sort, wrote-descending, wrote-speed, wrote-acceleration,
  wrote-repeat, wrote-batch, set_tile_size-IsSaved, set_sort_key-IsSaved,
  set_sort_descending-IsSaved, set_scroll_speed-IsSaved, set_scroll_acceleration-IsSaved,
  set_key_repeat_acceleration-IsSaved, set_scan_batch_size-IsSaved,
  set_show_tile_diagnostics-IsSaved,
}
use pimio.Settings.Reloads.{reload-IsSaved, settings-store}

tile_bounds :
    (n : ℤ) → clamp_tile_size n ≡ n → (int_leb (pos 96) n ≡ true) × (int_leb n (pos 256) ≡ true)
unfolding clamp_tile_size
tile_bounds (pos n) h = ground arith
tile_bounds (negsuc n) h = cc

batch_bounds :
    (n : ℤ)
    → clamp_scan_batch_size n ≡ n
    → (int_leb (pos 8) n ≡ true) × (int_leb n (pos 2048) ≡ true)
unfolding clamp_scan_batch_size
batch_bounds (pos n) h = ground arith
batch_bounds (negsuc n) h = cc

pub data Operation (F : Formats) : Type 0 where
  tile_sizes : ℤ → Operation F
  sort_keys : SortKey → Operation F
  sort_key_values : ℤ → Operation F
  sort_descends : Bool → Operation F
  scroll_speeds : Formats.Real F → Operation F
  scroll_accelerates : Bool → Operation F
  key_repeat_accelerates : Bool → Operation F
  scan_batch_sizes : ℤ → Operation F
  shows_tile_diagnostics : Bool → Operation F
  resets : Operation F
  reloads : List (Text × Text) → Operation F

unfoldable pub operate : {F : Formats} → Operation F → Settings F → Settings F
operate {F} (tile_sizes x) s = set_tile_size F x s
operate {F} (sort_keys x) s = set_sort_key F x s
operate {F} (sort_key_values x) s = set_sort_key_value F x s
operate {F} (sort_descends x) s = set_sort_descending F x s
operate {F} (scroll_speeds x) s = set_scroll_speed F x s
operate {F} (scroll_accelerates x) s = set_scroll_acceleration F x s
operate {F} (key_repeat_accelerates x) s = set_key_repeat_acceleration F x s
operate {F} (scan_batch_sizes x) s = set_scan_batch_size F x s
operate {F} (shows_tile_diagnostics x) s = set_show_tile_diagnostics F x s
operate {F} resets s = reset_to_defaults F s
operate {F} (reloads file) s = reload F file s

unfoldable pub serve : {F : Formats} → List (Operation F) → Settings F → Settings F
serve [] s = s
serve (o ∷ os) s = serve os (operate o s)

module _ (F : Formats) (d : IsFaithful F) where
  write_all-IsSaved : (s : Settings F) → IsSaved F d s → IsSaved F d (write_all F s)
  unfolding write_all
  write_all-IsSaved s h =
      let h1 = wrote-tile F d s.tile_size s h.7 h in
      let s1 = write F tile_size_key (Formats.of_int F s.tile_size) s in
      let h2 = wrote-sort F d s.sort_key s1 h1 in
      let s2 = write F sort_key_key (sort_key_to_string s.sort_key) s1 in
      let h3 = wrote-descending F d s.sort_descending s2 h2 in
      let s3 = write F sort_descending_key (text_of_bool F s.sort_descending) s2 in
      let h4 = wrote-speed F d s.scroll_speed s3 h.9 h3 in
      let s4 = write F scroll_speed_key (Formats.of_double F s.scroll_speed) s3 in
      let h5 = wrote-acceleration F d s.scroll_acceleration s4 h4 in
      let s5 = write F scroll_acceleration_key (text_of_bool F s.scroll_acceleration) s4 in
      let h6 = wrote-repeat F d s.key_repeat_acceleration s5 h5 in
      let s6 = write F key_repeat_acceleration_key (text_of_bool F s.key_repeat_acceleration) s5 in
      wrote-batch F d s.scan_batch_size s6 h.8 h6

  reset_to_defaults-IsSaved : (s : Settings F) → IsSaved F d s → IsSaved F d (reset_to_defaults F s)
  unfolding reset_to_defaults
  reset_to_defaults-IsSaved s h =
      let h1 = set_tile_size-IsSaved F d (pos 176) s h in
      let s1 = set_tile_size F (pos 176) s in
      let h2 = set_sort_key-IsSaved F d capture_time s1 h1 in
      let s2 = set_sort_key F capture_time s1 in
      let h3 = set_sort_descending-IsSaved F d false s2 h2 in
      let s3 = set_sort_descending F false s2 in
      let h4 = set_scroll_speed-IsSaved F d (Formats.default_scroll_speed F) s3 h3 in
      let s4 = set_scroll_speed F (Formats.default_scroll_speed F) s3 in
      let h5 = set_scroll_acceleration-IsSaved F d true s4 h4 in
      let s5 = set_scroll_acceleration F true s4 in
      let h6 = set_key_repeat_acceleration-IsSaved F d true s5 h5 in
      let s6 = set_key_repeat_acceleration F true s5 in
      let h7 = set_scan_batch_size-IsSaved F d (pos 64) s6 h6 in
      let s7 = set_scan_batch_size F (pos 64) s6 in
      let h8 = set_show_tile_diagnostics-IsSaved F d false s7 h7 in
      let s8 = set_show_tile_diagnostics F false s7 in write_all-IsSaved s8 h8

  operate-IsSaved : (o : Operation F) (s : Settings F) → IsSaved F d s → IsSaved F d (operate o s)
  unfolding operate set_sort_key_value
  operate-IsSaved (tile_sizes x) s h = set_tile_size-IsSaved F d x s h
  operate-IsSaved (sort_keys x) s h = set_sort_key-IsSaved F d x s h
  operate-IsSaved (sort_key_values x) s h = valued (first_valued x all_sort_keys)
    where
      valued :
          (o : Option SortKey) → IsSaved F d (elim o [ none ↦ s | some key ↦ set_sort_key F key s ])
      valued none = h
      valued (some key) = set_sort_key-IsSaved F d key s h
  operate-IsSaved (sort_descends x) s h = set_sort_descending-IsSaved F d x s h
  operate-IsSaved (scroll_speeds x) s h = set_scroll_speed-IsSaved F d x s h
  operate-IsSaved (scroll_accelerates x) s h = set_scroll_acceleration-IsSaved F d x s h
  operate-IsSaved (key_repeat_accelerates x) s h = set_key_repeat_acceleration-IsSaved F d x s h
  operate-IsSaved (scan_batch_sizes x) s h = set_scan_batch_size-IsSaved F d x s h
  operate-IsSaved (shows_tile_diagnostics x) s h = set_show_tile_diagnostics-IsSaved F d x s h
  operate-IsSaved resets s h = reset_to_defaults-IsSaved s h
  operate-IsSaved (reloads file) s h = reload-IsSaved F d file s h.9

  serve-IsSaved :
      (os : List (Operation F)) (s : Settings F) → IsSaved F d s → IsSaved F d (serve os s)
  unfolding serve
  serve-IsSaved [] s h = h
  serve-IsSaved (o ∷ os) s h = serve-IsSaved os (operate o s) (operate-IsSaved o s h)

  settings-IsSaved : (file : List (Text × Text)) → IsSaved F d (settings F file)
  unfolding settings
  settings-IsSaved file = reload-IsSaved F d file _ (speed_fixed F _ d.default_bounded)

  -- Whatever file the program starts with and whatever is done with the settings (setters, resets,
  -- reloads of any file), a new start from the file that is left has the same tile size, sort key,
  -- order, accelerations and batch size, and the scroll speed that the file has is fuzzily equal to
  -- the present one.
  pub restart_keeps :
      (file : List (Text × Text)) (os : List (Operation F))
      → let s = serve os (settings F file) in
        let s' = settings F s.store in
        (s'.tile_size ≡ s.tile_size)
        × (s'.sort_key ≡ s.sort_key)
        × (s'.sort_descending ≡ s.sort_descending)
        × (s'.scroll_acceleration ≡ s.scroll_acceleration)
        × (s'.key_repeat_acceleration ≡ s.key_repeat_acceleration)
        × (s'.scan_batch_size ≡ s.scan_batch_size)
        × (Formats.fuzzy_compare F (Reads.speed (reads F s.store)) s.scroll_speed ≡ true)
  restart_keeps file os =
      let s = serve os (settings F file) in
      let h = serve-IsSaved os (settings F file) (settings-IsSaved file) in
      let k =
        subst (λ (m : List (Text × Text)). Agrees F d (reads F m) (settings F s.store))
          (settings-store F d s.store) (settings-IsSaved s.store) in
      (
        sym k.0 ∙ h.0,
        sym k.1 ∙ h.1,
        sym k.2 ∙ h.2,
        sym k.4 ∙ h.4,
        sym k.5 ∙ h.5,
        sym k.6 ∙ h.6,
        h.3,
      )

  -- Whatever file the program starts with and whatever is done with the settings, the tile size is
  -- between 96 and 256, the batch size between 8 and 2048, and the scroll speed is one that
  -- clampScrollSpeed leaves as it is.
  pub serve-InBounds :
      (file : List (Text × Text)) (os : List (Operation F))
      → let s = serve os (settings F file) in
        (int_leb (pos 96) s.tile_size ≡ true)
        × (int_leb s.tile_size (pos 256) ≡ true)
        × (int_leb (pos 8) s.scan_batch_size ≡ true)
        × (int_leb s.scan_batch_size (pos 2048) ≡ true)
        × (clamp_scroll_speed F s.scroll_speed ≡ s.scroll_speed)
  serve-InBounds file os =
      let h = serve-IsSaved os (settings F file) (settings-IsSaved file) in
      let (a, b) = tile_bounds _ h.7 in let (c, e) = batch_bounds _ h.8 in (a, b, c, e, h.9)
