-- ===== src/Vision/Error.antt =====
-- error.rs: the errors of the vision crate. The native error behind an error and the `Display` output are
-- left out.
use easycon_sdk.Common.{String}
use easycon_sdk.Model.Error.{
  ErrorCode, runtime_closing, deadline_exceeded, cancelled, invalid_argument,
}
use easycon_sdk.Vision.{
  ImageErrorKind, invalid_argument_kind, out_of_range, overflow, resource_exhausted, invalid_image,
  native_kind, internal_kind, ImageError,
}

pub data VisionErrorKind : Type 0 where
  validation_error limit_error no_frame closed faulted cancelled_error deadline_error
        invalid_image_error model_not_found backend_unavailable native_error pool_closed_error
        internal_error :
      VisionErrorKind

pub record VisionError : Type 0 where
  pub kind : VisionErrorKind
  pub message : String

-- `VisionError::new`.
abbrev pub new_vision_error : VisionErrorKind → String → VisionError
new_vision_error k m = record { kind = k; message = m }

abbrev pub reclassify : VisionError → VisionErrorKind → VisionError
reclassify e k = record e { kind = k }

-- The kind that `from_runtime` makes of a code.
abbrev pub kind_of_code : ErrorCode → VisionErrorKind
kind_of_code runtime_closing = closed
kind_of_code deadline_exceeded = deadline_error
kind_of_code cancelled = cancelled_error
kind_of_code invalid_argument = validation_error
kind_of_code _ = internal_error

abbrev kind_of_image : ImageErrorKind → VisionErrorKind
kind_of_image invalid_argument_kind = validation_error
kind_of_image out_of_range = limit_error
kind_of_image overflow = limit_error
kind_of_image resource_exhausted = limit_error
kind_of_image invalid_image = invalid_image_error
kind_of_image native_kind = native_error
kind_of_image internal_kind = internal_error

-- `From<ImageError>`.
abbrev pub from_image_error : ImageError → VisionError
from_image_error e = new_vision_error (kind_of_image e.kind) e.message

-- `Result<T, VisionError>`.
pub data VisionResult (A : Type 0) : Type 0 where
  ok_vision : A → VisionResult A
  err_vision : VisionError → VisionResult A

abbrev pub fail_vision : {A : Type 0} → VisionErrorKind → String → VisionResult A
fail_vision k m = err_vision (new_vision_error k m)
