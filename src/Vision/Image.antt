-- ===== src/Vision/Image.antt =====
-- image.rs: regions, the layout of an image and its rows.
pub mod Rows
mod Tests
use easycon_sdk.Common.{
  ℕ, zero, suc, ◌+◌, ◌*◌, ◌^◌, ltb, leb, ◌==◌, ◌||◌, Bool, true, false, Option, none, some, List,
  [], ◌∷◌, length, take, drop, if◌then◌else◌, checked_add,
}
use easycon_sdk.Vision.{
  invalid_argument_kind, out_of_range, overflow, ImageResult, ok_image, err_image, fail_image,
}

pub data PixelFormat : Type 0 where
  bgr8 bgra8 gray8 : PixelFormat

abbrev pub channels : PixelFormat → ℕ
channels bgr8 = 3
channels bgra8 = 4
channels gray8 = 1

pub record VisionLimits : Type 0 where
  pub max_encoded_bytes : ℕ
  pub max_width : ℕ
  pub max_height : ℕ
  pub max_pixels : ℕ
  pub max_decoded_bytes : ℕ
  pub max_stride : ℕ

pub record Roi : Type 0 where
  pub x : ℕ
  pub y : ℕ
  pub width : ℕ
  pub height : ℕ

-- `checked_add` of a u32, and `checked_mul` of a u64 or a usize.
abbrev pub checked_add_u32 : ℕ → ℕ → Option ℕ
checked_add_u32 a b = if ltb (a + b) (2 ^ 32) then some (a + b) else none

abbrev pub checked_mul : ℕ → ℕ → Option ℕ
checked_mul a b = if ltb (a * b) (2 ^ 64) then some (a * b) else none

-- `ok_or_else(…)?`.
abbrev pub ok_or : {A B : Type 0} → Option A → ImageResult B → (A → ImageResult B) → ImageResult B
ok_or none failure next = failure
ok_or (some a) failure next = next a

abbrev pub and_then : {A B : Type 0} → Option A → (A → Option B) → Option B
and_then none f = none
and_then (some a) f = f a

-- `Roi::new`.
unfoldable pub new_roi : ℕ → ℕ → ℕ → ℕ → ImageResult Roi
new_roi x y width height =
    if width == 0 || height == 0
    then fail_image invalid_argument_kind "ROI dimensions must be non-zero"
    else ok_or (and_then (checked_add_u32 x width) (λ right. checked_add_u32 y height))
        (fail_image overflow "ROI bounds overflow")
        (λ bottom. ok_image (record { x = x; y = y; width = width; height = height }))

abbrev within_limits :
    ℕ → ℕ → ℕ → VisionLimits → (required : ℕ) → (row_bytes : ℕ) → ImageResult (Unit {0})
within_limits len pixels stride limits required row_bytes =
    if ltb limits.max_pixels pixels
      || ltb limits.max_stride stride
      || ltb limits.max_decoded_bytes len
    then fail_image out_of_range "image layout exceeds limits"
    else if ltb stride row_bytes || ltb len required
    then fail_image invalid_argument_kind "image buffer is shorter than its layout"
    else ok_image tt

-- On a target of 64 bits a u32 always fits a usize.
unfoldable pub validate_layout :
    (length : ℕ)
    → (width : ℕ) → (height : ℕ) → (stride : ℕ) → PixelFormat
    → VisionLimits
    → ImageResult (Unit {0})
validate_layout len width height stride format limits =
    if width == 0 || height == 0
    then fail_image invalid_argument_kind "image dimensions must be non-zero"
    else if ltb limits.max_width width || ltb limits.max_height height
    then fail_image out_of_range "image dimensions exceed limits"
    else ok_or (checked_mul width height) (fail_image overflow "pixel count overflows") (λ pixels.
      ok_or (checked_mul width (channels format)) (fail_image overflow "row bytes overflow")
        (λ row_bytes.
          ok_or (checked_mul stride height) (fail_image overflow "buffer length overflows")
            (λ required. within_limits len pixels stride limits required row_bytes)))

pub record Image : Type 0 where
  pub pixels : List ℕ
  pub width : ℕ
  pub height : ℕ
  pub stride : ℕ
  pub format : PixelFormat

abbrev and_image : ImageResult (Unit {0}) → Image → ImageResult Image
and_image (ok_image x) image = ok_image image
and_image (err_image e) image = err_image e

-- `Image::new`.
unfoldable pub new_image :
    List ℕ
    → (width : ℕ) → (height : ℕ) → (stride : ℕ) → PixelFormat
    → VisionLimits
    → ImageResult Image
unfolding validate_layout
new_image pixels width height stride format limits =
    and_image (validate_layout (length pixels) width height stride format limits)
      (record { pixels = pixels; width = width; height = height; stride = stride; format = format })

unfoldable pub validate_encoded_size : (encoded_bytes : ℕ) → VisionLimits → ImageResult (Unit {0})
validate_encoded_size encoded_bytes limits =
    if ltb limits.max_encoded_bytes encoded_bytes
    then fail_image out_of_range "encoded image exceeds limits"
    else ok_image tt

-- `pixels.get(start..end)`, with `count` the length of the range.
abbrev pub get_range : List ℕ → (start : ℕ) → (count : ℕ) → (end : ℕ) → Option (List ℕ)
get_range pixels start count end =
    if leb end (length pixels) then some (take count (drop start pixels)) else none

unfoldable pub row : Image → ℕ → Option (List ℕ)
row image index =
    if leb image.height index
    then none
    else and_then (checked_mul image.width (channels image.format)) (λ row_bytes.
      and_then (checked_mul index image.stride) (λ start.
        and_then (checked_add start row_bytes) (λ end. get_range image.pixels start row_bytes end)))

-- `rows`, from row `index` on; `none` is its panic.
unfoldable pub rows_from : Image → (index : ℕ) → (count : ℕ) → Option (List (List ℕ))
unfolding row
rows_from image index zero = some []
rows_from image index (suc count) =
    and_then (row image index)
      (λ first. and_then (rows_from image (index + 1) count) (λ rest. some (first ∷ rest)))

unfoldable pub rows : Image → Option (List (List ℕ))
unfolding rows_from
rows image = rows_from image 0 image.height

-- `crop_direct`; `native` is the native library's crop.
unfoldable pub crop_direct :
    {A : Type 0} → (Image → Roi → ImageResult A) → Image → Roi → ImageResult A
crop_direct native image roi =
    ok_or (checked_add_u32 roi.x roi.width) (fail_image overflow "ROI right overflows") (λ right.
      ok_or (checked_add_u32 roi.y roi.height) (fail_image overflow "ROI bottom overflows")
        (λ bottom.
          if ltb image.width right || ltb image.height bottom
          then fail_image out_of_range "ROI is outside the image"
          else native image roi))

pub record Frame : Type 0 where
  pub image : Image
  pub sequence : ℕ
  pub timestamp_ns : ℕ

-- `Frame::new`.
unfoldable pub new_frame : Image → ℕ → ℕ → ImageResult Frame
new_frame image sequence timestamp_ns =
    if sequence == 0
    then fail_image invalid_argument_kind "frame sequence must be non-zero"
    else ok_image (record { image = image; sequence = sequence; timestamp_ns = timestamp_ns })
