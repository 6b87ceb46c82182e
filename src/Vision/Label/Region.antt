-- ===== src/Vision/Label/Region.antt =====
-- label.rs: the numbers and the regions of a label. The JSON values are those of serde_json that the source
-- tells apart.
pub mod Contained
mod Tests
use Prim.Native.String as Text
use easycon_sdk.Common.{
  ℕ, ◌+◌, ◌*◌, ◌^◌, ltb, leb, ◌==◌, ◌&&◌, ◌||◌, Bool, true, false, String, Option, none, some, List,
  [], ◌∷◌, if◌then◌else◌,
}
use easycon_sdk.Vision.{ok_image, err_image, ImageResult}
use easycon_sdk.Vision.Image.{VisionLimits, Roi, new_roi, Image, checked_add_u32, checked_mul}
use easycon_sdk.Vision.Error.{
  VisionErrorKind, validation_error, invalid_image_error, limit_error, VisionResult, ok_vision,
  fail_vision,
}
use easycon_sdk.Vision.Label.Diagnostics.{
  LabelDiagnosticCode, invalid_type, invalid_number, invalid_roi, roi_limit, target_image,
  target_limit, LabelDiagnostic, error, push_diagnostic,
}

pub data LabelMethod : Type 0 where
  sq_diff_normed c_corr_normed c_coeff_normed edge_xy edge_laplacian ocr : LabelMethod

-- `LabelMethod::from_legacy`.
abbrev pub from_legacy : ℕ → Option LabelMethod
from_legacy value =
    if value == 1
    then some sq_diff_normed
    else if value == 3
    then some c_corr_normed
    else if value == 5
    then some c_coeff_normed
    else if value == 11
    then some edge_xy
    else if value == 12
    then some edge_laplacian
    else if value == 107
    then some ocr
    else none

-- A number is a u64, or another one: negative, fractional or larger.
pub data Value : Type 0 where
  u64_number : ℕ → Value
  other_number other_value : Value
  text_value : String → Value

-- `LabelDiagnostic::new` of an error in a field.
abbrev pub field_error : LabelDiagnosticCode → String → String → String → LabelDiagnostic
field_error code source field message = record {
  severity = error;
  code = code;
  source = source;
  field = some field;
  message = message;
}

abbrev Parsed : Type 0 → Type 0
Parsed A = List LabelDiagnostic × Option A

abbrev join : String → String → String
join a b = Text.◌++◌ a b

abbrev around : String → String → String → String
around before field after = join before (join field after)

abbrev wrong :
    {A : Type 0} → LabelDiagnosticCode → String → String → String → List LabelDiagnostic → Parsed A
wrong code source field message ds =
    (push_diagnostic ds (field_error code source field message), none)

abbrev legacy_field : String → String → String
legacy_field field after = around "legacy .IL field `" field after

abbrev not_u32 : String → String → List LabelDiagnostic → Parsed ℕ
not_u32 field source ds =
    wrong invalid_number source field (legacy_field field "` must fit an unsigned 32-bit integer")
      ds

unfoldable pub parse_u32 :
    Option Value
    → (default : ℕ) → (field : String) → (source : String) → List LabelDiagnostic
    → Parsed ℕ
parse_u32 none default field source ds = (ds, some default)
parse_u32 (some (u64_number n)) default field source ds =
    if ltb n (2 ^ 32) then (ds, some n) else not_u32 field source ds
parse_u32 (some other_number) default field source ds = not_u32 field source ds
parse_u32 (some _) default field source ds =
    wrong invalid_type source field (legacy_field field "` must be an integer") ds

unfoldable pub parse_string :
    Option Value
    → (default : String) → (field : String) → (source : String) → List LabelDiagnostic
    → Parsed String
parse_string none default field source ds = (ds, some default)
parse_string (some (text_value t)) default field source ds = (ds, some t)
parse_string (some _) default field source ds =
    wrong invalid_type source field (legacy_field field "` must be a string") ds

abbrev made :
    ImageResult Roi → (field : String) → (source : String) → List LabelDiagnostic → Parsed Roi
made (ok_image roi) field source ds = (ds, some roi)
made (err_image e) field source ds =
    wrong invalid_roi source field (around "invalid " field (join " ROI: " e.message)) ds

unfoldable pub make_roi :
    Option ℕ
    → Option ℕ
    → Option ℕ
    → Option ℕ
    → (field : String) → (source : String) → List LabelDiagnostic
    → Parsed Roi
make_roi (some x) (some y) (some width) (some height) field source ds =
    made (new_roi x y width height) field source ds
make_roi _ _ _ _ field source ds = (ds, none)

-- `Option::is_none_or` of a value beyond a limit.
abbrev exceeds : Option ℕ → ℕ → Bool
exceeds none limit = true
exceeds (some n) limit = ltb limit n

unfoldable pub validate_roi_limit :
    Roi
    → (field : String) → VisionLimits
    → (source : String) → List LabelDiagnostic
    → List LabelDiagnostic
validate_roi_limit roi field limits source ds =
    if exceeds (checked_add_u32 roi.x roi.width) limits.max_width
      || exceeds (checked_add_u32 roi.y roi.height) limits.max_height
      || exceeds (checked_mul roi.width roi.height) limits.max_pixels
    then push_diagnostic ds
        (field_error roi_limit source field (join field " ROI exceeds Vision limits"))
    else ds

-- The sums of the source are those of u32, and panic or wrap beyond it: `none`.
unfoldable pub roi_contains : (outer : Roi) → (inner : Roi) → Option Bool
roi_contains outer inner =
    within (checked_add_u32 outer.x outer.width) (checked_add_u32 outer.y outer.height)
      (checked_add_u32 inner.x inner.width) (checked_add_u32 inner.y inner.height)
  where
    within : Option ℕ → Option ℕ → Option ℕ → Option ℕ → Option Bool
    within (some outer_right) (some outer_bottom) (some inner_right) (some inner_bottom) = some (
        leb outer.x inner.x
        && leb outer.y inner.y
        && leb inner_right outer_right
        && leb inner_bottom outer_bottom)
    within _ _ _ _ = none

abbrev bounded : Option ℕ → Option ℕ → String → Image → VisionResult (Unit {0})
bounded none bottom label image = fail_vision limit_error (join label " right bound overflows")
bounded (some right) none label image =
    fail_vision limit_error (join label " bottom bound overflows")
bounded (some right) (some bottom) label image =
    if ltb image.width right || ltb image.height bottom
    then fail_vision limit_error (join label " is outside the evaluated Frame")
    else ok_vision tt

unfoldable pub ensure_roi_in_image : Roi → Image → (label : String) → VisionResult (Unit {0})
ensure_roi_in_image roi image label =
    bounded (checked_add_u32 roi.x roi.width) (checked_add_u32 roi.y roi.height) label image

abbrev pub decode_diagnostic_code : VisionErrorKind → Option LabelDiagnosticCode
decode_diagnostic_code validation_error = some target_image
decode_diagnostic_code invalid_image_error = some target_image
decode_diagnostic_code limit_error = some target_limit
decode_diagnostic_code _ = none
