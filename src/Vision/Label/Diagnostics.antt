-- ===== src/Vision/Label/Diagnostics.antt =====
-- label.rs: the diagnostics of one source, of which at most 32 are kept.
pub mod Kept
mod Tests
use easycon_sdk.Common.{
  ℕ, ltb, Bool, true, false, ◌||◌, not, String, Option, List, [], ◌∷◌, ◌++◌, length, if◌then◌else◌,
}

pub data LabelDiagnosticSeverity : Type 0 where
  warning error : LabelDiagnosticSeverity

pub data LabelDiagnosticCode : Type 0 where
  input_limit registry_limit invalid_source unsupported_extension invalid_utf8 invalid_json
        duplicate_key unknown_field invalid_type invalid_number unsupported_method invalid_roi
        roi_limit invalid_base64 target_limit target_image target_dimensions target_outside_range
        duplicate_name :
      LabelDiagnosticCode

pub record LabelDiagnostic : Type 0 where
  pub severity : LabelDiagnosticSeverity
  pub code : LabelDiagnosticCode
  pub source : String
  pub field : Option String
  pub message : String

abbrev pub max_label_diagnostics_per_source : ℕ
max_label_diagnostics_per_source = 32

abbrev pub is_error : LabelDiagnostic → Bool
is_error d = elim d.severity [ error ↦ true | warning ↦ false ]

-- `rposition` of a warning, and the write there: whether there was one.
abbrev pub replace_last_warning :
    List LabelDiagnostic → LabelDiagnostic → List LabelDiagnostic × Bool
replace_last_warning [] d = ([], false)
replace_last_warning (x ∷ xs) d =
    let (rest, found) = replace_last_warning xs d in
    if found then (x ∷ rest, true) else if is_error x then (x ∷ xs, false) else (d ∷ xs, true)

unfoldable pub push_diagnostic : List LabelDiagnostic → LabelDiagnostic → List LabelDiagnostic
push_diagnostic diagnostics d =
    if ltb (length diagnostics) max_label_diagnostics_per_source
    then diagnostics ++ d ∷ []
    else if is_error d
    then (replace_last_warning diagnostics d).0
    else diagnostics

unfoldable pub push_all : List LabelDiagnostic → List LabelDiagnostic → List LabelDiagnostic
unfolding push_diagnostic
push_all diagnostics [] = diagnostics
push_all diagnostics (d ∷ ds) = push_all (push_diagnostic diagnostics d) ds

unfoldable pub has_errors : List LabelDiagnostic → Bool
has_errors [] = false
has_errors (d ∷ ds) = is_error d || has_errors ds

abbrev pub diagnostic_rank : LabelDiagnostic → ℕ
diagnostic_rank d = elim d.severity [ error ↦ 0 | warning ↦ 1 ]
