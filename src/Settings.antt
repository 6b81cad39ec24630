-- ===== src/Settings.antt =====
-- src/settings/src/settings.cpp: the stored settings with their bounds, the setters and `reload`. A
-- QSettings file is the texts under its keys; what Qt reads from and writes as a text is a parameter,
-- as are floating-point numbers.
pub mod Setters
pub mod Saved
pub mod Writes
pub mod Reloads
pub mod Resets
pub mod Runs
pub mod Tests
use pimio.Base.{
  ℕ, zero, suc, ◌≡◌, Bool, true, false, ◌&&◌, ◌||◌, not, Option, none, some, List, [], ◌∷◌, ◌++◌, ℤ,
  pos, negsuc, int_ltb, int_eq, if◌then◌else◌, Text, codes, text_eq, find_at, put_at,
}

pub data SortKey : Type 0 where
  capture_time file_name file_date file_type file_size : SortKey

unfoldable pub sort_key_to_string : SortKey → Text
sort_key_to_string capture_time = codes "captureTime"
sort_key_to_string file_name = codes "fileName"
sort_key_to_string file_date = codes "fileDate"
sort_key_to_string file_type = codes "fileType"
sort_key_to_string file_size = codes "fileSize"

abbrev pub all_sort_keys : List SortKey
all_sort_keys = capture_time ∷ file_name ∷ file_date ∷ file_type ∷ file_size ∷ []

abbrev pub first_spelled : Text → List SortKey → Option SortKey
first_spelled text [] = none
first_spelled text (key ∷ keys) =
    if text_eq (sort_key_to_string key) text then some key else first_spelled text keys

unfoldable pub sort_key_from_string : Text → Option SortKey
unfolding sort_key_to_string
sort_key_from_string text = first_spelled text all_sort_keys

unfoldable pub sort_key_label : SortKey → Text
sort_key_label capture_time = codes "Date taken"
sort_key_label file_name = codes "File name"
sort_key_label file_date = codes "File date"
sort_key_label file_type = codes "File type"
sort_key_label file_size = codes "File size"

-- `static_cast<int>(key)`.
abbrev pub sort_key_value : SortKey → ℕ
sort_key_value capture_time = 0
sort_key_value file_name = 1
sort_key_value file_date = 2
sort_key_value file_type = 3
sort_key_value file_size = 4

abbrev pub same_key : SortKey → SortKey → Bool
same_key capture_time capture_time = true
same_key file_name file_name = true
same_key file_date file_date = true
same_key file_type file_type = true
same_key file_size file_size = true
same_key _ _ = false

abbrev pub first_valued : ℤ → List SortKey → Option SortKey
first_valued value [] = none
first_valued value (key ∷ keys) =
    if int_eq (pos (sort_key_value key)) value then some key else first_valued value keys

unfoldable pub sort_key_label_for : ℤ → Text
unfolding sort_key_label
sort_key_label_for value = elim (first_valued value all_sort_keys) [
  | none ↦ []
  | some key ↦ sort_key_label key
]

abbrev pub tile_size_key : Text
tile_size_key = codes "view/tileSize"

abbrev pub sort_key_key : Text
sort_key_key = codes "view/sortKey"

abbrev pub sort_descending_key : Text
sort_descending_key = codes "view/sortDescending"

abbrev pub scroll_speed_key : Text
scroll_speed_key = codes "input/scrollSpeed"

abbrev pub scroll_acceleration_key : Text
scroll_acceleration_key = codes "input/scrollAcceleration"

abbrev pub key_repeat_acceleration_key : Text
key_repeat_acceleration_key = codes "input/keyRepeatAcceleration"

abbrev pub scan_batch_size_key : Text
scan_batch_size_key = codes "indexing/scanBatchSize"

-- `std::clamp`.
abbrev pub clamp : ℤ → ℕ → ℕ → ℤ
clamp v lo hi = if int_ltb v (pos lo) then pos lo else if int_ltb (pos hi) v then pos hi else v

unfoldable pub clamp_tile_size : ℤ → ℤ
clamp_tile_size size = clamp size 96 256

unfoldable pub clamp_scan_batch_size : ℤ → ℤ
clamp_scan_batch_size records = clamp records 8 2048

abbrev pub same_bool : Bool → Bool → Bool
same_bool true b = b
same_bool false b = not b

-- Qt's conversions: `to_int` is QString::toInt, `of_int` the text of an int, `lowered` is
-- trimmed().toLower(). A Real is a qreal, with the constants of the source.
pub record Formats : Type 1 where
  pub to_int : Text → Option ℤ
  pub of_int : ℤ → Text
  pub lowered : Text → Text
  pub Real : Type 0
  pub to_double : Text → Option Real
  pub of_double : Real → Text
  pub is_finite : Real → Bool
  pub less : Real → Real → Bool
  pub fuzzy_compare : Real → Real → Bool
  pub default_scroll_speed : Real
  pub minimum_scroll_speed : Real
  pub maximum_scroll_speed : Real

pub data Changed : Type 0 where
  tile_size_changed sort_key_changed sort_descending_changed scroll_speed_changed
        scroll_acceleration_changed key_repeat_acceleration_changed show_tile_diagnostics_changed
        scan_batch_size_changed :
      Changed

pub record Settings (F : Formats) : Type 0 where
  pub store : List (Text × Text)
  pub tile_size : ℤ
  pub sort_key : SortKey
  pub sort_descending : Bool
  pub scroll_speed : Formats.Real F
  pub scroll_acceleration : Bool
  pub key_repeat_acceleration : Bool
  pub scan_batch_size : ℤ
  pub show_tile_diagnostics : Bool
  pub emitted : List Changed

module _ (F : Formats) where
  unfoldable pub clamp_scroll_speed : Formats.Real F → Formats.Real F
  clamp_scroll_speed speed =
      if not (Formats.is_finite F speed)
      then Formats.default_scroll_speed F
      else if Formats.less F speed (Formats.minimum_scroll_speed F)
      then Formats.minimum_scroll_speed F
      else if Formats.less F (Formats.maximum_scroll_speed F) speed
      then Formats.maximum_scroll_speed F
      else speed

  abbrev pub parse_bool : Bool → Text → Bool
  parse_bool fallback text =
      if text_eq text (codes "true") || text_eq text (codes "1")
      then true
      else if text_eq text (codes "false") || text_eq text (codes "0")
      then false
      else fallback

  abbrev pub text_of_bool : Bool → Text
  text_of_bool true = codes "true"
  text_of_bool false = codes "false"

  unfoldable pub read_bool : List (Text × Text) → Text → Bool → Bool
  read_bool store key fallback = elim (find_at key store) [
    | none ↦ fallback
    | some value ↦ parse_bool fallback (Formats.lowered F value)
  ]

  -- A value that is not there has the empty text.
  abbrev pub text_at : List (Text × Text) → Text → Text
  text_at store key = elim (find_at key store) [ none ↦ [] | some value ↦ value ]

  unfoldable pub read_int : List (Text × Text) → Text → ℤ → ℤ
  read_int store key fallback = elim (Formats.to_int F (text_at store key)) [
    | none ↦ fallback
    | some value ↦ value
  ]

  unfoldable pub read_real : List (Text × Text) → Text → Formats.Real F → Formats.Real F
  read_real store key fallback = elim (Formats.to_double F (text_at store key)) [
    | none ↦ fallback
    | some value ↦ value
  ]
