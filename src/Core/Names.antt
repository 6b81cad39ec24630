-- ===== src/Core/Names.antt =====
-- src/core/src/job.cpp: the spellings under which kinds, priorities and states are stored. An
-- enumeration's text is what the job table's TEXT columns hold.
use pimio.Base.{◌≡◌, refl, if◌then◌else◌, Text, codes, text_eq}
use pimio.Core.Job.{
  JobKind, unknown, scan_root, reconcile_root, read_metadata, generate_thumbnail, generate_preview,
  extract_video_frame, write_metadata, export, JobPriority, interactive, user_initiated, background,
  opportunistic, JobState, pending, running, succeeded, failed, cancelled,
}
use pimio.Core.Error.{ErrorCode, to_string, error_code_from_string}

unfoldable pub job_kind_to_string : JobKind → Text
job_kind_to_string unknown = codes "unknown"
job_kind_to_string scan_root = codes "scanRoot"
job_kind_to_string reconcile_root = codes "reconcileRoot"
job_kind_to_string read_metadata = codes "readMetadata"
job_kind_to_string generate_thumbnail = codes "generateThumbnail"
job_kind_to_string generate_preview = codes "generatePreview"
job_kind_to_string extract_video_frame = codes "extractVideoFrame"
job_kind_to_string write_metadata = codes "writeMetadata"
job_kind_to_string export = codes "export"

unfoldable pub job_kind_from_string : Text → JobKind
job_kind_from_string value =
    if text_eq value (codes "unknown")
    then unknown
    else if text_eq value (codes "scanRoot")
    then scan_root
    else if text_eq value (codes "reconcileRoot")
    then reconcile_root
    else if text_eq value (codes "readMetadata")
    then read_metadata
    else if text_eq value (codes "generateThumbnail")
    then generate_thumbnail
    else if text_eq value (codes "generatePreview")
    then generate_preview
    else if text_eq value (codes "extractVideoFrame")
    then extract_video_frame
    else if text_eq value (codes "writeMetadata")
    then write_metadata
    else if text_eq value (codes "export")
    then export
    else unknown

unfoldable pub job_priority_to_string : JobPriority → Text
job_priority_to_string interactive = codes "interactive"
job_priority_to_string user_initiated = codes "userInitiated"
job_priority_to_string background = codes "background"
job_priority_to_string opportunistic = codes "opportunistic"

unfoldable pub job_priority_from_string : Text → JobPriority
job_priority_from_string value =
    if text_eq value (codes "interactive")
    then interactive
    else if text_eq value (codes "userInitiated")
    then user_initiated
    else if text_eq value (codes "opportunistic")
    then opportunistic
    else background

unfoldable pub job_state_to_string : JobState → Text
job_state_to_string pending = codes "pending"
job_state_to_string running = codes "running"
job_state_to_string succeeded = codes "succeeded"
job_state_to_string failed = codes "failed"
job_state_to_string cancelled = codes "cancelled"

unfoldable pub job_state_from_string : Text → JobState
job_state_from_string value =
    if text_eq value (codes "running")
    then running
    else if text_eq value (codes "succeeded")
    then succeeded
    else if text_eq value (codes "failed")
    then failed
    else if text_eq value (codes "cancelled")
    then cancelled
    else pending

kind_round_trip : (k : JobKind) → job_kind_from_string (job_kind_to_string k) ≡ k
unfolding job_kind_from_string job_kind_to_string text_eq
kind_round_trip unknown = refl
kind_round_trip _ = refl

priority_round_trip : (p : JobPriority) → job_priority_from_string (job_priority_to_string p) ≡ p
unfolding job_priority_from_string job_priority_to_string text_eq
priority_round_trip interactive = refl
priority_round_trip _ = refl

state_round_trip : (s : JobState) → job_state_from_string (job_state_to_string s) ≡ s
unfolding job_state_from_string job_state_to_string text_eq
state_round_trip pending = refl
state_round_trip _ = refl

code_round_trip : (c : ErrorCode) → error_code_from_string (to_string c) ≡ c
unfolding error_code_from_string to_string text_eq
code_round_trip ErrorCode.none = refl
code_round_trip _ = refl

-- Every kind, priority, state and error code is read back from the text it is stored under.
pub names_round_trip :
    ((k : JobKind) → job_kind_from_string (job_kind_to_string k) ≡ k)
    × ((p : JobPriority) → job_priority_from_string (job_priority_to_string p) ≡ p)
    × ((s : JobState) → job_state_from_string (job_state_to_string s) ≡ s)
    × ((c : ErrorCode) → error_code_from_string (to_string c) ≡ c)
names_round_trip = (kind_round_trip, priority_round_trip, state_round_trip, code_round_trip)
