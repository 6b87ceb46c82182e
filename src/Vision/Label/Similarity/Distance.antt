-- ===== src/Vision/Label/Similarity/Distance.antt =====
-- label.rs, `text_similarity`: the loop over the cells computes the edit distance.
use easycon_sdk.Common.{
  ℕ, suc, ◌+◌, ◌≡◌, refl, ◌∙◌, ap, min, ◌==◌, ◌&&◌, ◌%◌, Bool, true, false, List, [], ◌∷◌, length,
  arith,
}
use easycon_sdk.Vision.Error.{ok_vision}
use easycon_sdk.Vision.Label.Similarity.{differs, fill, first_row, edit_rows, last_cell}

-- The edit distance of two texts, each given from its last character on: the cheapest of replacing or keeping
-- the last characters, of deleting one and of inserting one.
abbrev pub edit_distance : List ℕ → List ℕ → ℕ
edit_distance [] ys = length ys
edit_distance (x ∷ xs) [] = suc (length xs)
edit_distance (x ∷ xs) (y ∷ ys) =
    min (min (edit_distance xs ys + differs x y) (edit_distance xs (y ∷ ys) + 1))
      (edit_distance (x ∷ xs) ys + 1)

-- The distances from `actual` to the prefixes of the expected text, `done` being the one before `es`.
abbrev distances : List ℕ → List ℕ → List ℕ → List ℕ
distances actual done [] = edit_distance actual done ∷ []
distances actual done (e ∷ es) = edit_distance actual done ∷ distances actual (e ∷ done) es

first_row-distances : (done es : List ℕ) → first_row (length done) es ≡ distances [] done es
first_row-distances done [] = refl
first_row-distances done (e ∷ es) =
    let count : length done + 1 ≡ length (e ∷ done) = omega arith in
    ap (λ row. length done ∷ row)
      (ap (λ n. first_row n es) count ∙ first_row-distances (e ∷ done) es)

-- One row of cells is the row of distances for one more character.
fill-distances :
    (a : ℕ) (actual done es : List ℕ)
    → edit_distance (a ∷ actual) done
        ∷ fill a (edit_distance (a ∷ actual) done) (distances actual done es) es
      ≡ distances (a ∷ actual) done es
fill-distances a actual done [] = refl
fill-distances a actual done (e ∷ []) = refl
fill-distances a actual done (e ∷ e' ∷ es) =
    ap (λ row. edit_distance (a ∷ actual) done ∷ row) (fill-distances a actual (e ∷ done) (e' ∷ es))

abbrev pub reverse_onto : List ℕ → List ℕ → List ℕ
reverse_onto done [] = done
reverse_onto done (x ∷ xs) = reverse_onto (x ∷ done) xs

abbrev pub reverse : List ℕ → List ℕ
reverse xs = reverse_onto [] xs

last_cell-distances :
    (actual done es : List ℕ)
    → last_cell (distances actual done es) ≡ edit_distance actual (reverse_onto done es)
last_cell-distances actual done [] = refl
last_cell-distances actual done (e ∷ []) = refl
last_cell-distances actual done (e ∷ e' ∷ es) = last_cell-distances actual (e ∷ done) (e' ∷ es)

and_false : (b : Bool) → (b && false) ≡ false
and_false true = refl
and_false false = refl

edit_rows-distances :
    (cancelled : ℕ → Bool) (done actual expected : List ℕ)
    → ((row : ℕ) → cancelled row ≡ false)
    → edit_rows cancelled (length done) actual expected (distances done [] expected)
      ≡ ok_vision (distances (reverse_onto done actual) [] expected)
unfolding edit_rows
edit_rows-distances cancelled done [] expected calm = refl
edit_rows-distances cancelled done (a ∷ actual) expected calm =
    let count : length done + 1 ≡ length (a ∷ done) = omega arith in
    let row : length (a ∷ done) ∷ fill a (length (a ∷ done)) (distances done [] expected) expected
        ≡ distances (a ∷ done) [] expected =
      fill-distances a done [] expected in
    rw (calm (length done), and_false (length done % 64 == 0), count, row)
      (edit_rows-distances cancelled (a ∷ done) actual expected calm)

-- The first character of `actual` is compared first, so the texts are reversed for `edit_distance`. A
-- comparison that is not cancelled ends with the edit distance of the texts in its last cell.
pub edit_rows-edit_distance :
    (cancelled : ℕ → Bool) (actual expected : List ℕ)
    → ((row : ℕ) → cancelled row ≡ false)
    → (cells : List ℕ) × (edit_rows cancelled 0 actual expected (first_row 0 expected)
        ≡ ok_vision cells)
      × (last_cell cells ≡ edit_distance (reverse actual) (reverse expected))
edit_rows-edit_distance cancelled actual expected calm = (
  distances (reverse actual) [] expected,
  rw (first_row-distances [] expected) (edit_rows-distances cancelled [] actual expected calm),
  last_cell-distances (reverse actual) [] expected,
)
