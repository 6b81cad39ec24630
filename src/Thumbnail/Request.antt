-- ===== src/Thumbnail/Request.antt =====
-- src/core/src/media_request.cpp: a request for rendered bytes and what answers it.
pub mod Keys
use pimio.Core.Job.{JobPriority}
use pimio.Store.{ContentFingerprint, is_valid}
use pimio.Base.{ℕ, Bool, not, List, [], ◌++◌, ℤ, Text, codes, if◌then◌else◌}

pub data MediaRequestKind : Type 0 where
  thumbnail preview video_frame : MediaRequestKind

unfoldable pub kind_to_string : MediaRequestKind → Text
kind_to_string thumbnail = codes "thumbnail"
kind_to_string preview = codes "preview"
kind_to_string video_frame = codes "videoFrame"

pub record Size : Type 0 where
  pub width : ℤ
  pub height : ℤ

pub record MediaRequest : Type 0 where
  pub media_id : Text
  pub fingerprint : ContentFingerprint
  pub kind : MediaRequestKind
  pub absolute_path : Text
  pub target_size : Size
  pub position_ms : ℤ
  pub recipe_revision : ℤ
  pub priority : JobPriority

unfoldable pub fingerprint_key : ContentFingerprint → Text
unfolding is_valid
fingerprint_key f = if not (is_valid f) then [] else f.algorithm ++ codes "-" ++ f.digest

-- QString::arg: with two texts, which are put in at once, and with an integer.
pub record QStringArg : Type 0 where
  pub texts : Text → Text → Text → Text
  pub int : Text → ℤ → Text

unfoldable pub cache_key : QStringArg → MediaRequest → Text
unfolding fingerprint_key kind_to_string
cache_key arg r =
    let key =
      arg.texts (codes "%1/%2/%3x%4/%5/r%6") (fingerprint_key r.fingerprint)
        (kind_to_string r.kind) in
    let key = arg.int key r.target_size.width in
    let key = arg.int key r.target_size.height in
    let key = arg.int key r.position_ms in arg.int key r.recipe_revision

pub record MediaResult : Type 0 where
  pub bytes : List ℕ
  pub format : Text
  pub actual_size : Size
  pub is_progressive_intermediate : Bool
