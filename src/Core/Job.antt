-- ===== src/Core/Job.antt =====
-- src/core/src/job.cpp: the persisted entry of the job queue, and the order in which entries run.
-- A date is the number of milliseconds since 1970, and `none` where it is invalid.

use pimio.Base.{
  [], ◌∷◌, ◌+◌, ◌-◌, ◌/◌, ◌%◌, ℕ, Bool, true, false, Option, none, some, not, ◌&&◌, ltb, ◌==◌,
  if◌then◌else◌, Text, text_lt,
}
use pimio.Core.Error.{Error, is_retryable}

pub data JobKind : Type 0 where
  unknown scan_root reconcile_root read_metadata generate_thumbnail generate_preview
        extract_video_frame write_metadata export :
      JobKind

pub data JobPriority : Type 0 where
  interactive user_initiated background opportunistic : JobPriority

pub data JobState : Type 0 where
  pending running succeeded failed cancelled : JobState

-- static_cast<int>(priority).
abbrev pub rank : JobPriority → ℕ
rank interactive = 0
rank user_initiated = 1
rank background = 2
rank opportunistic = 3

abbrev pub state_eq : JobState → JobState → Bool
state_eq pending pending = true
state_eq running running = true
state_eq succeeded succeeded = true
state_eq failed failed = true
state_eq cancelled cancelled = true
state_eq _ _ = false

unfoldable pub is_terminal : JobState → Bool
is_terminal succeeded = true
is_terminal failed = true
is_terminal cancelled = true
is_terminal pending = false
is_terminal running = false

pub record JobRecord : Type 0 where
  pub id : Text
  pub kind : JobKind
  pub priority : JobPriority
  pub state : JobState
  pub coalescing_key : Text
  pub payload : Text
  pub attempts : ℕ
  pub max_attempts : ℕ
  pub created_at : Option ℕ
  pub not_before : Option ℕ
  pub last_error : Error

unfoldable pub can_retry : JobRecord → Bool
unfolding is_retryable
can_retry r =
    state_eq r.state failed && is_retryable r.last_error.code && ltb r.attempts r.max_attempts

-- Equality of two dates; two invalid ones are equal.
abbrev pub date_eq : Option ℕ → Option ℕ → Bool
date_eq none none = true
date_eq (some x) (some y) = x == y
date_eq _ _ = false

abbrev pub runs_before_date : Option ℕ → Option ℕ → Bool
runs_before_date none other = false
runs_before_date (some x) none = true
runs_before_date (some x) (some y) = ltb x y

-- The UTF-16 code units of a text, which QString compares.
unfoldable pub utf16 : Text → Text
utf16 [] = []
utf16 (c ∷ s) =
    let rest = utf16 s in
    if ltb c 65536
    then c ∷ rest
    else (55296 + (c - 65536) / 1024) ∷ (56320 + (c - 65536) % 1024) ∷ rest

unfoldable pub runs_before : JobRecord → JobRecord → Bool
unfolding utf16
runs_before r other =
    if not (rank r.priority == rank other.priority)
    then ltb (rank r.priority) (rank other.priority)
    else if not (date_eq r.created_at other.created_at)
    then runs_before_date r.created_at other.created_at
    else text_lt (utf16 r.id) (utf16 other.id)
