-- ===== src/Vision.antt =====
-- crates/easycon-vision/src: images, labels and the pool of native workers. A u32 is below 2 ^ 32, a u64
-- and a usize below 2 ^ 64. The native library is a parameter.
pub mod Error
pub mod Image
pub mod Pool
pub mod Label
use easycon_sdk.Common.{String}

-- `internal_kind` is the source's `ImageErrorKind::Internal`.
pub data ImageErrorKind : Type 0 where
  invalid_argument_kind out_of_range overflow resource_exhausted invalid_image native_kind
        internal_kind :
      ImageErrorKind

-- `ImageError::new`; the native error behind it is left out.
pub record ImageError : Type 0 where
  pub kind : ImageErrorKind
  pub message : String

pub data ImageResult (A : Type 0) : Type 0 where
  ok_image : A → ImageResult A
  err_image : ImageError → ImageResult A

-- An early return of an error.
abbrev pub fail_image : {A : Type 0} → ImageErrorKind → String → ImageResult A
fail_image k m = err_image (record { kind = k; message = m })
