-- ===== src/Settings/Setters.antt =====
-- src/settings/src/settings.cpp: the setters, `resetToDefaults`, `reload` and the constructor.
use pimio.Settings.{
  SortKey, capture_time, sort_key_to_string, sort_key_from_string, all_sort_keys, first_valued,
  same_key, same_bool, clamp_tile_size, clamp_scan_batch_size, clamp_scroll_speed, read_bool,
  read_int, read_real, text_at, text_of_bool, tile_size_key, sort_key_key, sort_descending_key,
  scroll_speed_key, scroll_acceleration_key, key_repeat_acceleration_key, scan_batch_size_key,
  Formats, Changed, tile_size_changed, sort_key_changed, sort_descending_changed,
  scroll_speed_changed, scroll_acceleration_changed, key_repeat_acceleration_changed,
  show_tile_diagnostics_changed, scan_batch_size_changed, Settings,
}
use pimio.Base.{
  Bool, true, false, none, some, List, [], ◌∷◌, ◌++◌, ℤ, pos, int_eq, if◌then◌else◌, Text, put_at,
}

module _ (F : Formats) where
  -- `d->store.setValue(key, value)`.
  abbrev pub write : Text → Text → Settings F → Settings F
  write key value s = record s { store = put_at key value s.store }

  abbrev pub announce : Changed → Settings F → Settings F
  announce c s = record s { emitted = s.emitted ++ c ∷ [] }

  unfoldable pub set_tile_size : ℤ → Settings F → Settings F
  set_tile_size size s =
      let clamped = clamp_tile_size size in
      if int_eq clamped s.tile_size
      then s
      else announce tile_size_changed
          (write tile_size_key (Formats.of_int F clamped) (record s { tile_size = clamped }))

  unfoldable pub set_sort_key : SortKey → Settings F → Settings F
  set_sort_key key s =
      if same_key key s.sort_key
      then s
      else announce sort_key_changed
          (write sort_key_key (sort_key_to_string key) (record s { sort_key = key }))

  unfoldable pub set_sort_key_value : ℤ → Settings F → Settings F
  unfolding set_sort_key
  set_sort_key_value value s = elim (first_valued value all_sort_keys) [
    | none ↦ s
    | some key ↦ set_sort_key key s
  ]

  unfoldable pub set_sort_descending : Bool → Settings F → Settings F
  set_sort_descending descending s =
      if same_bool descending s.sort_descending
      then s
      else announce sort_descending_changed (
          write sort_descending_key (text_of_bool F descending)
            (record s { sort_descending = descending }))

  unfoldable pub set_scroll_speed : Formats.Real F → Settings F → Settings F
  set_scroll_speed speed s =
      let clamped = clamp_scroll_speed F speed in
      if Formats.fuzzy_compare F clamped s.scroll_speed
      then s
      else announce scroll_speed_changed (
          write scroll_speed_key (Formats.of_double F clamped)
            (record s { scroll_speed = clamped }))

  unfoldable pub set_scroll_acceleration : Bool → Settings F → Settings F
  set_scroll_acceleration enabled s =
      if same_bool enabled s.scroll_acceleration
      then s
      else announce scroll_acceleration_changed (
          write scroll_acceleration_key (text_of_bool F enabled)
            (record s { scroll_acceleration = enabled }))

  unfoldable pub set_key_repeat_acceleration : Bool → Settings F → Settings F
  set_key_repeat_acceleration enabled s =
      if same_bool enabled s.key_repeat_acceleration
      then s
      else announce key_repeat_acceleration_changed (
          write key_repeat_acceleration_key (text_of_bool F enabled)
            (record s { key_repeat_acceleration = enabled }))

  unfoldable pub set_show_tile_diagnostics : Bool → Settings F → Settings F
  set_show_tile_diagnostics enabled s =
      if same_bool enabled s.show_tile_diagnostics
      then s
      else announce show_tile_diagnostics_changed (record s { show_tile_diagnostics = enabled })

  unfoldable pub set_scan_batch_size : ℤ → Settings F → Settings F
  set_scan_batch_size records s =
      let clamped = clamp_scan_batch_size records in
      if int_eq clamped s.scan_batch_size
      then s
      else announce scan_batch_size_changed (
          write scan_batch_size_key (Formats.of_int F clamped)
            (record s { scan_batch_size = clamped }))

  -- The explicit writes at the end of `resetToDefaults`.
  unfoldable pub write_all : Settings F → Settings F
  write_all s = write scan_batch_size_key (Formats.of_int F s.scan_batch_size) (
      write key_repeat_acceleration_key (text_of_bool F s.key_repeat_acceleration) (
        write scroll_acceleration_key (text_of_bool F s.scroll_acceleration) (
          write scroll_speed_key (Formats.of_double F s.scroll_speed) (
            write sort_descending_key (text_of_bool F s.sort_descending) (
              write sort_key_key (sort_key_to_string s.sort_key)
                (write tile_size_key (Formats.of_int F s.tile_size) s))))))

  unfoldable pub reset_to_defaults : Settings F → Settings F
  reset_to_defaults s = write_all (
      set_show_tile_diagnostics false (
        set_scan_batch_size (pos 64) (
          set_key_repeat_acceleration true (
            set_scroll_acceleration true (
              set_scroll_speed (Formats.default_scroll_speed F) (
                set_sort_descending false
                  (set_sort_key capture_time (set_tile_size (pos 176) s))))))))

  -- The steps of `reload`, one for each setting. `store` is what `sync` read from the file.
  unfoldable pub reload_tile_size : Settings F → Settings F
  reload_tile_size s =
      let tile = clamp_tile_size (read_int F s.store tile_size_key (pos 176)) in
      if int_eq tile s.tile_size
      then s
      else announce tile_size_changed (record s { tile_size = tile })

  abbrev pub stored_sort_key : List (Text × Text) → SortKey
  stored_sort_key store = elim (sort_key_from_string (text_at F store sort_key_key)) [
    | none ↦ capture_time
    | some key ↦ key
  ]

  unfoldable pub reload_sort_key : Settings F → Settings F
  reload_sort_key s =
      let sort = stored_sort_key s.store in
      if same_key sort s.sort_key
      then s
      else announce sort_key_changed (record s { sort_key = sort })

  unfoldable pub reload_sort_descending : Settings F → Settings F
  reload_sort_descending s =
      let descending = read_bool F s.store sort_descending_key false in
      if same_bool descending s.sort_descending
      then s
      else announce sort_descending_changed (record s { sort_descending = descending })

  unfoldable pub reload_scroll_speed : Settings F → Settings F
  reload_scroll_speed s =
      let speed =
        clamp_scroll_speed F
          (read_real F s.store scroll_speed_key (Formats.default_scroll_speed F)) in
      if Formats.fuzzy_compare F speed s.scroll_speed
      then s
      else announce scroll_speed_changed (record s { scroll_speed = speed })

  unfoldable pub reload_scroll_acceleration : Settings F → Settings F
  reload_scroll_acceleration s =
      let enabled = read_bool F s.store scroll_acceleration_key true in
      if same_bool enabled s.scroll_acceleration
      then s
      else announce scroll_acceleration_changed (record s { scroll_acceleration = enabled })

  unfoldable pub reload_key_repeat_acceleration : Settings F → Settings F
  reload_key_repeat_acceleration s =
      let enabled = read_bool F s.store key_repeat_acceleration_key true in
      if same_bool enabled s.key_repeat_acceleration
      then s
      else announce key_repeat_acceleration_changed (record s { key_repeat_acceleration = enabled })

  unfoldable pub reload_scan_batch_size : Settings F → Settings F
  reload_scan_batch_size s =
      let batch = clamp_scan_batch_size (read_int F s.store scan_batch_size_key (pos 64)) in
      if int_eq batch s.scan_batch_size
      then s
      else announce scan_batch_size_changed (record s { scan_batch_size = batch })

  unfoldable pub reload : List (Text × Text) → Settings F → Settings F
  reload file s = reload_scan_batch_size (
      reload_key_repeat_acceleration (
        reload_scroll_acceleration (
          reload_scroll_speed (
            reload_sort_descending
              (reload_sort_key (reload_tile_size (record s { store = file })))))))

  -- `Settings(filePath)`: the defaults, and then what the file says.
  unfoldable pub settings : List (Text × Text) → Settings F
  settings file = reload file (record {
    store = [];
    tile_size = pos 176;
    sort_key = capture_time;
    sort_descending = false;
    scroll_speed = Formats.default_scroll_speed F;
    scroll_acceleration = true;
    key_repeat_acceleration = true;
    scan_batch_size = pos 64;
    show_tile_diagnostics = false;
    emitted = [];
  })
