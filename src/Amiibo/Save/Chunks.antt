-- ===== src/Amiibo/Save/Chunks.antt =====
-- The chunks of a save: each is full but the last, and together they are the data.
use easycon_sdk.Common.{ℕ, zero, suc, ◌≤◌, ◌≡◌, refl, ap, List, [], ◌∷◌, ◌++◌, length, arith}
use easycon_sdk.Amiibo.Save.{cut, chunks_of}

abbrev pub concat : List (List ℕ) → List ℕ
concat [] = []
concat (c ∷ cs) = c ++ concat cs

-- Every chunk but the last has 20 bytes, and the last has 1 to 20.
abbrev pub IsChunked : List (List ℕ) → Type 0
IsChunked [] = Unit {0}
IsChunked (c ∷ []) = (1 ≤ length c) × (length c ≤ 20)
IsChunked (c ∷ d ∷ cs) = (length c ≡ 20) × IsChunked (d ∷ cs)

-- The chunk that is being cut: full if another one follows.
abbrev IsFirst : ℕ → List ℕ → List (List ℕ) → Type 0
IsFirst room c [] = length c ≤ room
IsFirst room c (d ∷ cs) = length c ≡ room

cut-concat : (room : ℕ) (xs : List ℕ) → (cut room xs).0 ++ concat (cut room xs).1 ≡ xs
cut-concat room [] = ground arith
cut-concat zero (x ∷ xs) = ap (λ ys. x ∷ ys) (cut-concat 19 xs)
cut-concat (suc room) (x ∷ xs) = ap (λ ys. x ∷ ys) (cut-concat room xs)

cut-IsChunked :
    (room : ℕ) (xs : List ℕ)
    → IsFirst room (cut room xs).0 (cut room xs).1 × IsChunked (cut room xs).1
cut-IsChunked room [] = ground arith
cut-IsChunked zero (x ∷ xs) =
    (refl, first (cut 19 xs).0 (cut 19 xs).1 (cut-IsChunked 19 xs).0 (cut-IsChunked 19 xs).1)
  where
    first :
        (c : List ℕ) (cs : List (List ℕ))
        → IsFirst 19 c cs
        → IsChunked cs
        → IsChunked ((x ∷ c) ∷ cs)
    first c [] h v = (omega arith, omega arith)
    first c (d ∷ cs) h v = (omega arith, v)
cut-IsChunked (suc room) (x ∷ xs) =
    (longer (cut room xs).0 (cut room xs).1 (cut-IsChunked room xs).0, (cut-IsChunked room xs).1)
  where
    longer : (c : List ℕ) (cs : List (List ℕ)) → IsFirst room c cs → IsFirst (suc room) (x ∷ c) cs
    longer c [] h = omega arith
    longer c (d ∷ cs) h = omega arith

pub chunks_of-concat : (xs : List ℕ) → concat (chunks_of xs) ≡ xs
unfolding chunks_of
chunks_of-concat [] = refl
chunks_of-concat (x ∷ xs) = cut-concat 0 (x ∷ xs)

pub chunks_of-IsChunked : (xs : List ℕ) → IsChunked (chunks_of xs)
unfolding chunks_of
chunks_of-IsChunked xs = (cut-IsChunked 0 xs).1
