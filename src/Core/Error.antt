-- ===== src/Core/Error.antt =====
-- src/core/src/error.cpp: the classification of failures. A message and a context (a JSON object,
-- kept as its compact text) only travel with the code.
use pimio.Base.{Bool, true, false, [], if◌then◌else◌, Text, codes, text_eq}

pub data ErrorCode : Type 0 where
  none cancelled not_found permission_denied unsupported_media corrupt_data out_of_space timeout
        conflict storage_unavailable interrupted internal :
      ErrorCode

unfoldable pub to_string : ErrorCode → Text
to_string none = codes "none"
to_string cancelled = codes "cancelled"
to_string not_found = codes "notFound"
to_string permission_denied = codes "permissionDenied"
to_string unsupported_media = codes "unsupportedMedia"
to_string corrupt_data = codes "corruptData"
to_string out_of_space = codes "outOfSpace"
to_string timeout = codes "timeout"
to_string conflict = codes "conflict"
to_string storage_unavailable = codes "storageUnavailable"
to_string interrupted = codes "interrupted"
to_string internal = codes "internal"

unfoldable pub error_code_from_string : Text → ErrorCode
error_code_from_string value =
    if text_eq value (codes "none")
    then none
    else if text_eq value (codes "cancelled")
    then cancelled
    else if text_eq value (codes "notFound")
    then not_found
    else if text_eq value (codes "permissionDenied")
    then permission_denied
    else if text_eq value (codes "unsupportedMedia")
    then unsupported_media
    else if text_eq value (codes "corruptData")
    then corrupt_data
    else if text_eq value (codes "outOfSpace")
    then out_of_space
    else if text_eq value (codes "timeout")
    then timeout
    else if text_eq value (codes "conflict")
    then conflict
    else if text_eq value (codes "storageUnavailable")
    then storage_unavailable
    else if text_eq value (codes "interrupted")
    then interrupted
    else internal

unfoldable pub is_retryable : ErrorCode → Bool
is_retryable timeout = true
is_retryable storage_unavailable = true
is_retryable interrupted = true
is_retryable _ = false

pub record Error : Type 0 where
  pub code : ErrorCode
  pub message : Text
  pub context : Text

abbrev pub no_error : Error
no_error = record { code = none; message = []; context = codes "{}" }

unfoldable pub is_error : Error → Bool
is_error e = elim e.code [ none ↦ false | _ ↦ true ]
