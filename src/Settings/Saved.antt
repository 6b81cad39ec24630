-- ===== src/Settings/Saved.antt =====
-- src/settings/src/settings.cpp: the file always holds what the settings are.
use pimio.Settings.{
  SortKey, capture_time, file_name, file_date, file_type, file_size, sort_key_to_string,
  sort_key_from_string, same_key, clamp_tile_size, clamp_scan_batch_size, clamp_scroll_speed,
  read_bool, read_int, read_real, text_of_bool, parse_bool, tile_size_key, sort_key_key,
  sort_descending_key, scroll_speed_key, scroll_acceleration_key, key_repeat_acceleration_key,
  scan_batch_size_key, Formats,
}
use pimio.Settings.Setters.{stored_sort_key}
use mathlib.Core.Path.{fun_ext}
use pimio.Base.{
  ◌≡◌, refl, ap, ◌∙◌, Bool, true, false, Option, none, some, List, [], ℤ, pos, negsuc,
  if◌then◌else◌, Text, codes, text_eq, find_at, put_at, find-put, arith, int_leb, ◌&&◌, not,
  if_cases, subst,
}

-- The numbers of a C++ int.
abbrev pub fits_int : ℤ → Bool
fits_int n = int_leb (negsuc 2147483647) n && int_leb n (pos 2147483647)

-- A scroll speed within the bounds: finite, and not 0.
abbrev pub IsInRange : (F : Formats) → Formats.Real F → Type 0
IsInRange F x =
    (Formats.is_finite F x ≡ true)
    × (Formats.less F x (Formats.minimum_scroll_speed F) ≡ false)
    × (Formats.less F (Formats.maximum_scroll_speed F) x ≡ false)

-- What Qt's conversions keep: a number of a C++ int and a double within the bounds are read back from
-- their texts, the two words for a Bool are in lower case, a double within the bounds is fuzzily equal
-- to itself (the documentation excludes 0, infinities and NaN), and the constants are within them.
pub record IsFaithful (F : Formats) : Type 0 where
  pub int_back : (n : ℤ) → fits_int n ≡ true → Formats.to_int F (Formats.of_int F n) ≡ some n
  pub double_back :
      (x : Formats.Real F) → IsInRange F x → Formats.to_double F (Formats.of_double F x) ≡ some x
  pub true_low : Formats.lowered F (codes "true") ≡ codes "true"
  pub false_low : Formats.lowered F (codes "false") ≡ codes "false"
  pub fuzzy_refl : (x : Formats.Real F) → IsInRange F x → Formats.fuzzy_compare F x x ≡ true
  pub default_bounded : IsInRange F (Formats.default_scroll_speed F)
  pub minimum_bounded : IsInRange F (Formats.minimum_scroll_speed F)
  pub maximum_bounded : IsInRange F (Formats.maximum_scroll_speed F)

pub speed_fixed : (F : Formats) (x : Formats.Real F) → IsInRange F x → clamp_scroll_speed F x ≡ x
unfolding clamp_scroll_speed
speed_fixed F x h = rw (h.0, h.1, h.2) refl

pub clamp_speed-IsInRange :
    (F : Formats) (x : Formats.Real F) → IsFaithful F → IsInRange F (clamp_scroll_speed F x)
unfolding clamp_scroll_speed
clamp_speed-IsInRange F x d =
    if_cases (IsInRange F) (not (Formats.is_finite F x)) _ _ (λ _. d.default_bounded)
      (λ finite.
        if_cases (IsInRange F) (Formats.less F x (Formats.minimum_scroll_speed F)) _ _
          (λ _. d.minimum_bounded)
          (λ above.
            if_cases (IsInRange F) (Formats.less F (Formats.maximum_scroll_speed F) x) _ _
              (λ _. d.maximum_bounded) (λ below. (ground (arith, finite), above, below))))

pub fixed-IsInRange :
    (F : Formats) (x : Formats.Real F) → IsFaithful F → clamp_scroll_speed F x ≡ x → IsInRange F x
fixed-IsInRange F x d fixed = subst (IsInRange F) fixed (clamp_speed-IsInRange F x d)

tile-fits : (n : ℤ) → clamp_tile_size n ≡ n → fits_int n ≡ true
unfolding clamp_tile_size
tile-fits n fixed = subst (λ (m : ℤ). fits_int m ≡ true) fixed (clamped n)
  where
    clamped : (n : ℤ) → fits_int (clamp_tile_size n) ≡ true
    clamped (pos n) = ground arith
    clamped (negsuc n) = ground arith

batch-fits : (n : ℤ) → clamp_scan_batch_size n ≡ n → fits_int n ≡ true
unfolding clamp_scan_batch_size
batch-fits n fixed = subst (λ (m : ℤ). fits_int m ≡ true) fixed (clamped n)
  where
    clamped : (n : ℤ) → fits_int (clamp_scan_batch_size n) ≡ true
    clamped (pos n) = ground arith
    clamped (negsuc n) = ground arith

pub clamp_tile-twice : (n : ℤ) → clamp_tile_size (clamp_tile_size n) ≡ clamp_tile_size n
unfolding clamp_tile_size
clamp_tile-twice (pos n) = ground arith
clamp_tile-twice (negsuc n) = ground arith

pub clamp_batch-twice :
    (n : ℤ) → clamp_scan_batch_size (clamp_scan_batch_size n) ≡ clamp_scan_batch_size n
unfolding clamp_scan_batch_size
clamp_batch-twice (pos n) = ground arith
clamp_batch-twice (negsuc n) = ground arith

pub same_key→≡ : (a b : SortKey) → same_key a b ≡ true → a ≡ b
same_key→≡ capture_time capture_time h = refl
same_key→≡ capture_time file_name h = cc
same_key→≡ capture_time file_date h = cc
same_key→≡ capture_time file_type h = cc
same_key→≡ capture_time file_size h = cc
same_key→≡ file_name capture_time h = cc
same_key→≡ file_name file_name h = refl
same_key→≡ file_name file_date h = cc
same_key→≡ file_name file_type h = cc
same_key→≡ file_name file_size h = cc
same_key→≡ file_date capture_time h = cc
same_key→≡ file_date file_name h = cc
same_key→≡ file_date file_date h = refl
same_key→≡ file_date file_type h = cc
same_key→≡ file_date file_size h = cc
same_key→≡ file_type capture_time h = cc
same_key→≡ file_type file_name h = cc
same_key→≡ file_type file_date h = cc
same_key→≡ file_type file_type h = refl
same_key→≡ file_type file_size h = cc
same_key→≡ file_size capture_time h = cc
same_key→≡ file_size file_name h = cc
same_key→≡ file_size file_date h = cc
same_key→≡ file_size file_type h = cc
same_key→≡ file_size file_size h = refl

spelled_back : (key : SortKey) → sort_key_from_string (sort_key_to_string key) ≡ some key
unfolding sort_key_from_string sort_key_to_string text_eq
spelled_back capture_time = refl
spelled_back file_name = refl
spelled_back file_date = refl
spelled_back file_type = refl
spelled_back file_size = refl

module _ (F : Formats) where
  -- What the file has for each setting.
  pub record Reads : Type 0 where
    pub tile : ℤ
    pub sort : SortKey
    pub descending : Bool
    pub speed : Formats.Real F
    pub acceleration : Bool
    pub repeat : Bool
    pub batch : ℤ

  abbrev Look : Type 0
  Look = Text → Option Text

  abbrev text_of : Option Text → Text
  text_of none = []
  text_of (some value) = value

  abbrev or_else {ℓ} : {A : Type ℓ} → A → Option A → A
  or_else fallback none = fallback
  or_else fallback (some value) = value

  abbrev bool_of : Bool → Option Text → Bool
  bool_of fallback none = fallback
  bool_of fallback (some value) = parse_bool F fallback (Formats.lowered F value)

  abbrev reads_by : Look → Reads
  reads_by look = record {
    tile = clamp_tile_size (or_else (pos 176) (Formats.to_int F (text_of (look tile_size_key))));
    sort = or_else capture_time (sort_key_from_string (text_of (look sort_key_key)));
    descending = bool_of false (look sort_descending_key);
    speed = clamp_scroll_speed F (
        or_else (Formats.default_scroll_speed F)
          (Formats.to_double F (text_of (look scroll_speed_key))));
    acceleration = bool_of true (look scroll_acceleration_key);
    repeat = bool_of true (look key_repeat_acceleration_key);
    batch =
        clamp_scan_batch_size
          (or_else (pos 64) (Formats.to_int F (text_of (look scan_batch_size_key))));
  }

  abbrev pub reads : List (Text × Text) → Reads
  reads m = record {
    tile = clamp_tile_size (read_int F m tile_size_key (pos 176));
    sort = stored_sort_key F m;
    descending = read_bool F m sort_descending_key false;
    speed = clamp_scroll_speed F (read_real F m scroll_speed_key (Formats.default_scroll_speed F));
    acceleration = read_bool F m scroll_acceleration_key true;
    repeat = read_bool F m key_repeat_acceleration_key true;
    batch = clamp_scan_batch_size (read_int F m scan_batch_size_key (pos 64));
  }

  reads-reads_by : (m : List (Text × Text)) → reads m ≡ reads_by (λ k. find_at k m)
  unfolding read_int read_bool read_real
  reads-reads_by m = refl

  -- What the file has after one write.
  reads-put :
      (key value : Text) (m : List (Text × Text))
      → reads (put_at key value m)
        ≡ reads_by (λ k. if text_eq key k then some value else find_at k m)
  reads-put key value m =
      reads-reads_by (put_at key value m) ∙ ap reads_by (fun_ext (λ k. find-put key k value m))

  pub reads-tile :
      (d : IsFaithful F) (m : List (Text × Text)) (n : ℤ)
      → clamp_tile_size n ≡ n
      → reads (put_at tile_size_key (Formats.of_int F n) m)
        ≡ record (reads m) { tile = clamp_tile_size n }
  unfolding text_eq read_int read_bool read_real
  reads-tile d m n fixed =
      reads-put tile_size_key (Formats.of_int F n) m ∙ rw (d.int_back n (tile-fits n fixed)) refl

  pub reads-sort :
      (m : List (Text × Text)) (key : SortKey)
      → reads (put_at sort_key_key (sort_key_to_string key) m) ≡ record (reads m) { sort = key }
  unfolding text_eq read_int read_bool read_real
  reads-sort m key = reads-put sort_key_key (sort_key_to_string key) m ∙ rw (spelled_back key) refl

  bool_back :
      (d : IsFaithful F) (fallback b : Bool) → bool_of fallback (some (text_of_bool F b)) ≡ b
  unfolding text_eq
  bool_back d fallback true = rw d.true_low refl
  bool_back d fallback false = rw d.false_low refl

  pub reads-descending :
      (d : IsFaithful F) (m : List (Text × Text)) (b : Bool)
      → reads (put_at sort_descending_key (text_of_bool F b) m)
        ≡ record (reads m) { descending = b }
  unfolding text_eq read_int read_bool read_real
  reads-descending d m b =
      reads-put sort_descending_key (text_of_bool F b) m
      ∙ ap (λ (x : Bool). record (reads m) { descending = x }) (bool_back d false b)

  pub reads-speed :
      (d : IsFaithful F) (m : List (Text × Text)) (x : Formats.Real F)
      → IsInRange F x
      → reads (put_at scroll_speed_key (Formats.of_double F x) m)
        ≡ record (reads m) { speed = clamp_scroll_speed F x }
  unfolding text_eq read_int read_bool read_real
  reads-speed d m x h =
      reads-put scroll_speed_key (Formats.of_double F x) m ∙ rw (d.double_back x h) refl

  pub reads-acceleration :
      (d : IsFaithful F) (m : List (Text × Text)) (b : Bool)
      → reads (put_at scroll_acceleration_key (text_of_bool F b) m)
        ≡ record (reads m) { acceleration = b }
  unfolding text_eq read_int read_bool read_real
  reads-acceleration d m b =
      reads-put scroll_acceleration_key (text_of_bool F b) m
      ∙ ap (λ (x : Bool). record (reads m) { acceleration = x }) (bool_back d true b)

  pub reads-repeat :
      (d : IsFaithful F) (m : List (Text × Text)) (b : Bool)
      → reads (put_at key_repeat_acceleration_key (text_of_bool F b) m)
        ≡ record (reads m) { repeat = b }
  unfolding text_eq read_int read_bool read_real
  reads-repeat d m b =
      reads-put key_repeat_acceleration_key (text_of_bool F b) m
      ∙ ap (λ (x : Bool). record (reads m) { repeat = x }) (bool_back d true b)

  pub reads-batch :
      (d : IsFaithful F) (m : List (Text × Text)) (n : ℤ)
      → clamp_scan_batch_size n ≡ n
      → reads (put_at scan_batch_size_key (Formats.of_int F n) m)
        ≡ record (reads m) { batch = clamp_scan_batch_size n }
  unfolding text_eq read_int read_bool read_real
  reads-batch d m n fixed =
      reads-put scan_batch_size_key (Formats.of_int F n) m
      ∙ rw (d.int_back n (batch-fits n fixed)) refl
