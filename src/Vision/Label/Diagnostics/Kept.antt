-- ===== src/Vision/Label/Diagnostics/Kept.antt =====
-- label.rs, `push_diagnostic`: an error is never lost among the diagnostics that are kept.
use easycon_sdk.Common.{
  ◌≤◌, ◌≡◌, refl, Bool, true, ◌||◌, List, [], ◌∷◌, ◌++◌, length, length-append, arith,
}
use easycon_sdk.Vision.Label.Diagnostics.{
  LabelDiagnostic, is_error, replace_last_warning, push_diagnostic, push_all, has_errors,
}

has_errors-append :
    (ds : List LabelDiagnostic) (d : LabelDiagnostic)
    → has_errors (ds ++ d ∷ []) ≡ (has_errors ds || is_error d)
unfolding has_errors
has_errors-append [] d = ground arith
has_errors-append (x ∷ xs) d = let rest = has_errors-append xs d in ground arith

length-replace_last_warning :
    (ds : List LabelDiagnostic) (d : LabelDiagnostic)
    → length (replace_last_warning ds d).0 ≡ length ds
length-replace_last_warning [] d = refl
length-replace_last_warning (x ∷ xs) d = let rest = length-replace_last_warning xs d in ground arith

-- Either a warning has given way to the error, or there were only errors.
replace_last_warning-has_errors :
    (ds : List LabelDiagnostic) (d : LabelDiagnostic)
    → is_error d ≡ true
    → 1 ≤ length ds
    → has_errors (replace_last_warning ds d).0 ≡ true
unfolding has_errors
replace_last_warning-has_errors [] d e h = ground arith
replace_last_warning-has_errors (x ∷ []) d e h = ground arith
replace_last_warning-has_errors (x ∷ y ∷ xs) d e h =
    let rest = replace_last_warning-has_errors (y ∷ xs) d e (omega arith) in ground arith

push_diagnostic-has_errors :
    (ds : List LabelDiagnostic) (d : LabelDiagnostic)
    → has_errors (push_diagnostic ds d) ≡ (has_errors ds || is_error d)
unfolding push_diagnostic
push_diagnostic-has_errors ds d =
    let added = has_errors-append ds d in
    let kept = replace_last_warning-has_errors ds d in ground arith

length-push_diagnostic :
    (ds : List LabelDiagnostic) (d : LabelDiagnostic)
    → length ds ≤ 32
    → length (push_diagnostic ds d) ≤ 32
unfolding push_diagnostic
length-push_diagnostic ds d h =
    let more = length-append ds (d ∷ []) in
    let same = length-replace_last_warning ds d in ground arith

or_assoc : (a b c : Bool) → ((a || b) || c) ≡ (a || (b || c))
or_assoc a b c = ground arith

push_all_from :
    (kept ds : List LabelDiagnostic)
    → length kept ≤ 32
    → (length (push_all kept ds) ≤ 32)
      × (has_errors (push_all kept ds) ≡ (has_errors kept || has_errors ds))
unfolding push_all has_errors
push_all_from kept [] h = (h, ground arith)
push_all_from kept (d ∷ ds) h =
    let (few, same) = push_all_from (push_diagnostic kept d) ds (length-push_diagnostic kept d h) in
    let first = push_diagnostic-has_errors kept d in (few, ground arith)

-- However many diagnostics a source gives, at most 32 are kept, and the kept ones have an error exactly
-- if some diagnostic was one.
pub push_all-has_errors :
    (ds : List LabelDiagnostic)
    → (length (push_all [] ds) ≤ 32) × (has_errors (push_all [] ds) ≡ has_errors ds)
unfolding has_errors
push_all-has_errors ds = push_all_from [] ds (omega arith)
