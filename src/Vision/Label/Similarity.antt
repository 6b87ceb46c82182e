-- ===== src/Vision/Label/Similarity.antt =====
-- label.rs, `text_similarity`: the edit distance of a recognised text. The quotient of the distance is left
-- as its numerator and denominator; `is_space` is `char::is_whitespace`.
pub mod Distance
mod Tests
use easycon_sdk.Common.{
  ℕ, zero, suc, ◌+◌, ◌-◌, ◌*◌, ◌^◌, ◌%◌, min, max, ltb, ◌==◌, ◌&&◌, ◌||◌, Bool, true, false, List,
  [], ◌∷◌, length, if◌then◌else◌,
}
use easycon_sdk.Vision.Error.{
  limit_error, cancelled_error, VisionResult, ok_vision, err_vision, fail_vision,
}

abbrev pub max_label_text_bytes : ℕ
max_label_text_bytes = 65_536

abbrev pub max_label_text_scalars : ℕ
max_label_text_scalars = 4096

abbrev pub max_label_edit_cells : ℕ
max_label_edit_cells = 4_194_304

-- `usize::from(actual_character != *expected_character)`.
abbrev pub differs : ℕ → ℕ → ℕ
differs a e = if a == e then 0 else 1

-- The inner loop: `previous` from `column` on, `left` is `current[column]`, the result is `current` from
-- `column + 1` on.
abbrev pub fill :
    (actual_character : ℕ) → (left : ℕ) → (previous : List ℕ) → (expected : List ℕ) → List ℕ
fill a left (p ∷ p' ∷ ps) (e ∷ es) =
    let cell = min (min (p + differs a e) (p' + 1)) (left + 1) in cell ∷ fill a cell (p' ∷ ps) es
fill a left _ _ = []

-- `0..=expected_length`, from `n` on.
abbrev pub first_row : (n : ℕ) → (expected : List ℕ) → List ℕ
first_row n [] = n ∷ []
first_row n (e ∷ es) = n ∷ first_row (n + 1) es

abbrev pub rejected : VisionResult (List ℕ)
rejected = fail_vision cancelled_error "OCR text comparison was cancelled"

-- The outer loop: the last row, unless the token is cancelled at a row whose number 64 divides.
unfoldable pub edit_rows :
    (cancelled : ℕ → Bool)
    → (row : ℕ) → (actual : List ℕ) → (expected : List ℕ) → (previous : List ℕ)
    → VisionResult (List ℕ)
edit_rows cancelled row [] expected previous = ok_vision previous
edit_rows cancelled row (a ∷ rest_actual) expected previous =
    let rest =
      edit_rows cancelled (row + 1) rest_actual expected
        ((row + 1) ∷ fill a (row + 1) previous expected) in
    if row % 64 == 0 && cancelled row then rejected else rest

-- `previous[expected_length]`.
abbrev pub last_cell : List ℕ → ℕ
last_cell [] = 0
last_cell (c ∷ []) = c
last_cell (c ∷ d ∷ cs) = last_cell (d ∷ cs)

abbrev utf8_length : ℕ → ℕ
utf8_length c = if ltb c 0x80 then 1 else if ltb c 0x800 then 2 else if ltb c 0x10000 then 3 else 4

abbrev pub text_bytes : List ℕ → ℕ
text_bytes [] = 0
text_bytes (c ∷ cs) = utf8_length c + text_bytes cs

unfoldable pub bounded_scalar_count : List ℕ → VisionResult ℕ
bounded_scalar_count text =
    if ltb max_label_text_bytes (text_bytes text)
    then fail_vision limit_error "OCR text exceeds 65536 bytes"
    else if ltb max_label_text_scalars (length text)
    then fail_vision limit_error "OCR text exceeds 4096 Unicode scalars"
    else ok_vision (length text)

abbrev pub trim_start : (ℕ → Bool) → List ℕ → List ℕ
trim_start is_space [] = []
trim_start is_space (c ∷ cs) =
    let rest = trim_start is_space cs in if is_space c then rest else c ∷ cs

abbrev all_space : (ℕ → Bool) → List ℕ → Bool
all_space is_space [] = true
all_space is_space (c ∷ cs) = is_space c && all_space is_space cs

abbrev pub trim_end : (ℕ → Bool) → List ℕ → List ℕ
trim_end is_space [] = []
trim_end is_space (c ∷ cs) = if all_space is_space (c ∷ cs) then [] else c ∷ trim_end is_space cs

-- The similarity is 1 - distance / denominator.
pub record Similarity : Type 0 where
  pub distance : ℕ
  pub denominator : ℕ

-- `?`.
abbrev pub and_vision : {A B : Type 0} → VisionResult A → (A → VisionResult B) → VisionResult B
and_vision (ok_vision a) next = next a
and_vision (err_vision e) next = err_vision e

-- The token's answers: before the counts, after them, at a row, and after the rows.
pub record Polls : Type 0 where
  pub at_start : Bool
  pub after_counts : Bool
  pub at_row : ℕ → Bool
  pub at_end : Bool

abbrev reject_if : {A : Type 0} → Bool → VisionResult A → VisionResult A
reject_if true r = fail_vision cancelled_error "OCR text comparison was cancelled"
reject_if false r = r

abbrev compared : Polls → List ℕ → List ℕ → VisionResult Similarity
compared polls actual expected =
    if ltb max_label_edit_cells (length actual * length expected)
    then fail_vision limit_error "OCR edit cell count exceeds 4194304"
    else and_vision (edit_rows polls.at_row 0 actual expected (first_row 0 expected)) (λ row.
      reject_if polls.at_end (
        ok_vision (record {
          distance = last_cell row;
          denominator = max (length actual) (length expected);
        })))

-- A text without scalars is like another one, and unlike any other.
abbrev similar_counts : Polls → List ℕ → List ℕ → VisionResult Similarity
similar_counts polls actual expected =
    if length actual == 0 || length expected == 0
    then ok_vision
        (record { distance = if length actual == length expected then 0 else 1; denominator = 1 })
    else compared polls actual expected

unfoldable pub text_similarity :
    (is_space : ℕ → Bool)
    → (actual : List ℕ) → (expected : List ℕ) → Polls
    → VisionResult Similarity
unfolding edit_rows bounded_scalar_count
text_similarity is_space actual expected polls =
    let trimmed = trim_end is_space (trim_start is_space actual) in
    reject_if polls.at_start (
      and_vision (bounded_scalar_count trimmed) (λ m.
        and_vision (bounded_scalar_count expected)
          (λ n. reject_if polls.after_counts (similar_counts polls trimmed expected))))
