-- ===== src/Settings/Tests.antt =====
-- A use of src/settings/src/settings.cpp with scroll speeds in quarters.
use pimio.Settings.{
  sort_descending_key, scroll_acceleration_key, key_repeat_acceleration_key, scan_batch_size_key,
  file_name, clamp_scroll_speed, Formats, tile_size_key, sort_key_key,
}
use pimio.Settings.Setters.{settings, reset_to_defaults}
use pimio.Settings.Saved.{IsFaithful, Reads, reads}
use pimio.Settings.Runs.{
  Operation, tile_sizes, sort_keys, scroll_speeds, serve, restart_keeps, serve-InBounds,
}
use pimio.Settings.Resets.{HasDefaults, reset_to_defaults-restores}
use pimio.Base.{
  if◌then◌else◌, ℕ, suc, zero, ◌≡◌, refl, true, Option, none, some, List, [], ◌∷◌, ℤ, pos, negsuc,
  int_leb, Text, codes, find_at, ltb, ◌==◌, arith,
}

-- An int is its sign and a stroke for each unit.
abbrev strokes : ℕ → Text
strokes zero = []
strokes (suc n) = b'|' ∷ strokes n

abbrev of_int : ℤ → Text
of_int (pos n) = b'+' ∷ strokes n
of_int (negsuc n) = b'-' ∷ strokes n

abbrev tally : Text → ℕ
tally [] = 0
tally (c ∷ s) = suc (tally s)

abbrev to_int : Text → Option ℤ
to_int [] = none
to_int (c ∷ s) = if c == b'+' then some (pos (tally s)) else some (negsuc (tally s))

abbrev to_quarters : Text → Option ℕ
to_quarters [] = none
to_quarters (c ∷ s) = some (tally s)

abbrev quarters : Formats
quarters = record {
  to_int = to_int;
  of_int = of_int;
  lowered = λ t. t;
  Real = ℕ;
  to_double = to_quarters;
  of_double = λ n. of_int (pos n);
  is_finite = λ n. true;
  less = ltb;
  fuzzy_compare = λ a b. a == b;
  default_scroll_speed = 8;
  minimum_scroll_speed = 1;
  maximum_scroll_speed = 32;
}

tally-strokes : (n : ℕ) → tally (strokes n) ≡ n
tally-strokes zero = refl
tally-strokes (suc n) = omega (arith, tally-strokes n)

to_int-of_int : (n : ℤ) → to_int (of_int n) ≡ some n
to_int-of_int (pos n) = rw (tally-strokes n) refl
to_int-of_int (negsuc n) = rw (tally-strokes n) refl

to_quarters-of_int : (n : ℕ) → to_quarters (of_int (pos n)) ≡ some n
to_quarters-of_int n = rw (tally-strokes n) refl

same : (n : ℕ) → (n == n) ≡ true
same n = ground arith

quarters-IsFaithful : IsFaithful quarters
quarters-IsFaithful = record {
  int_back = λ n h. to_int-of_int n;
  double_back = λ n h. to_quarters-of_int n;
  true_low = refl;
  false_low = refl;
  fuzzy_refl = λ n h. same n;
  default_bounded = (refl, refl, refl);
  minimum_bounded = (refl, refl, refl);
  maximum_bounded = (refl, refl, refl);
}

abbrev use_it : List (Operation quarters)
use_it = tile_sizes (pos 900) ∷ sort_keys file_name ∷ scroll_speeds 50 ∷ []

abbrev file : List (Text × Text)
file = (tile_size_key, codes "huge") ∷ (sort_key_key, codes "fileType") ∷ []

restart_keeps_example :
    let s = serve use_it (settings quarters file) in
    let s' = settings quarters s.store in
    (s'.tile_size ≡ s.tile_size)
    × (s'.sort_key ≡ s.sort_key)
    × (s'.sort_descending ≡ s.sort_descending)
    × (s'.scroll_acceleration ≡ s.scroll_acceleration)
    × (s'.key_repeat_acceleration ≡ s.key_repeat_acceleration)
    × (s'.scan_batch_size ≡ s.scan_batch_size)
    × (Formats.fuzzy_compare quarters (Reads.speed (reads quarters s.store)) s.scroll_speed ≡ true)
restart_keeps_example = restart_keeps quarters quarters-IsFaithful file use_it

serve-InBounds_example :
    let s = serve use_it (settings quarters file) in
    (int_leb (pos 96) s.tile_size ≡ true)
    × (int_leb s.tile_size (pos 256) ≡ true)
    × (int_leb (pos 8) s.scan_batch_size ≡ true)
    × (int_leb s.scan_batch_size (pos 2048) ≡ true)
    × (clamp_scroll_speed quarters s.scroll_speed ≡ s.scroll_speed)
serve-InBounds_example = serve-InBounds quarters quarters-IsFaithful file use_it

reset_to_defaults-restores_example :
    let s' = reset_to_defaults quarters (settings quarters file) in
    HasDefaults quarters s'
    × ((find_at tile_size_key s'.store ≡ some (Formats.of_int quarters (pos 176)))
        × (find_at sort_key_key s'.store ≡ some (codes "captureTime"))
        × (find_at sort_descending_key s'.store ≡ some (codes "false"))
        × (find_at scroll_acceleration_key s'.store ≡ some (codes "true"))
        × (find_at key_repeat_acceleration_key s'.store ≡ some (codes "true"))
        × (find_at scan_batch_size_key s'.store ≡ some (Formats.of_int quarters (pos 64))))
reset_to_defaults-restores_example = reset_to_defaults-restores quarters (settings quarters file)
