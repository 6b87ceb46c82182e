-- ===== src/Vision/Label/Diagnostics/Tests.antt =====
-- label.rs: the diagnostics of a source at a concrete list.
use easycon_sdk.Common.{◌++◌, none, List, [], ◌∷◌, replicate}
use easycon_sdk.Vision.Label.Diagnostics.{
  LabelDiagnostic, warning, error, unknown_field, invalid_roi,
}

abbrev ignored : LabelDiagnostic
ignored = record {
  severity = warning;
  code = unknown_field;
  source = "a.IL";
  field = none;
  message = "unknown field";
}

abbrev bad_range : LabelDiagnostic
bad_range = record {
  severity = error;
  code = invalid_roi;
  source = "a.IL";
  field = none;
  message = "invalid ROI";
}

-- The error comes when 32 warnings are kept.
abbrev many : List LabelDiagnostic
many = replicate 40 ignored ++ bad_range ∷ []
