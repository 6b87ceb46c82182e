-- ===== src/Vision/Label/Similarity/Tests.antt =====
-- label.rs: the edit distance of two texts.
use easycon_sdk.Common.{ℕ, ◌==◌, ◌≡◌, refl, false, List, [], ◌∷◌}
use easycon_sdk.Vision.Error.{ok_vision}
use easycon_sdk.Vision.Label.Similarity.{first_row, edit_rows, last_cell, Polls, text_similarity}
use easycon_sdk.Vision.Label.Similarity.Distance.{edit_distance, reverse, edit_rows-edit_distance}

-- "flaw" and "lawn".
abbrev flaw : List ℕ
flaw = 102 ∷ 108 ∷ 97 ∷ 119 ∷ []

abbrev lawn : List ℕ
lawn = 108 ∷ 97 ∷ 119 ∷ 110 ∷ []

edit_rows-edit_distance_example :
    (cells : List ℕ) × (edit_rows (λ row. false) 0 flaw lawn (first_row 0 lawn) ≡ ok_vision cells)
    × (last_cell cells ≡ edit_distance (reverse flaw) (reverse lawn))
edit_rows-edit_distance_example = edit_rows-edit_distance (λ row. false) flaw lawn (λ row. refl)

abbrev calm : Polls
calm = record { at_start = false; after_counts = false; at_row = λ row. false; at_end = false }

two_edits :
    text_similarity (λ c. c == 32) (32 ∷ flaw) lawn calm
    ≡ ok_vision (record { distance = 2; denominator = 4 })
unfolding text_similarity
two_edits = refl
