-- ===== src/Runtime/Table.antt =====
-- `std::collections::HashMap` with numbers as keys, as an association list that holds a key once.
use easycon_sdk.Common.{
  ℕ, ◌+◌, ◌≤◌, ◌≡◌, refl, ◌==◌, Option, none, some, List, [], ◌∷◌, arith, if◌then◌else◌, is_some,
  ◌++◌, ◌⊎◌,
}

module _ {ℓ} {V : Type ℓ} where
  abbrev pub get : ℕ → List (ℕ × V) → Option V
  get k [] = none
  get k ((j, v) ∷ m) = if k == j then some v else get k m

  abbrev pub remove : ℕ → List (ℕ × V) → List (ℕ × V)
  remove k [] = []
  remove k ((j, v) ∷ m) = let rest = remove k m in if k == j then rest else (j, v) ∷ rest

  abbrev pub insert : ℕ → V → List (ℕ × V) → List (ℕ × V)
  insert k v m = (k, v) ∷ remove k m

  -- How often a key stands in the list.
  abbrev pub occurs : ℕ → List (ℕ × V) → ℕ
  occurs k [] = 0
  occurs k ((j, v) ∷ m) = (if k == j then 1 else 0) + occurs k m

  abbrev pub IsTable : List (ℕ × V) → Type 0
  IsTable m = (k : ℕ) → occurs k m ≤ 1

  pub occurs-remove :
      (k j : ℕ) (m : List (ℕ × V)) → occurs k (remove j m) ≡ (if k == j then 0 else occurs k m)
  occurs-remove k j [] = ground arith
  occurs-remove k j ((i, v) ∷ m) = ground (arith, occurs-remove k j m)

  pub get-remove :
      (k j : ℕ) (m : List (ℕ × V)) → get k (remove j m) ≡ (if k == j then none else get k m)
  get-remove k j [] = ground arith
  get-remove k j ((i, v) ∷ m) = ground (arith, get-remove k j m)

  pub occurs-get :
      (k : ℕ) (m : List (ℕ × V))
      → occurs k m ≤ 1
      → occurs k m ≡ (if is_some (get k m) then 1 else 0)
  occurs-get k [] h = refl
  occurs-get k ((i, v) ∷ m) h = ground (arith, occurs-get k m)

  pub occurs-append :
      (k i : ℕ) (v : V) (m : List (ℕ × V))
      → occurs k (m ++ (i, v) ∷ []) ≡ occurs k m + (if k == i then 1 else 0)
  occurs-append k i v [] = ground arith
  occurs-append k i v ((j, w) ∷ m) = ground (arith, occurs-append k i v m)

  pub get-append :
      (k i : ℕ) (v d : V) (m : List (ℕ × V))
      → get k (m ++ (i, v) ∷ []) ≡ some d
      → (get k m ≡ some d) ⊎ ((k ≡ i) × (v ≡ d))
  get-append k i v d [] h = ground arith
  get-append k i v d ((j, w) ∷ m) h = ground (arith, get-append k i v d m)

  pub occurs_sum : (k : ℕ) (m n : List (ℕ × V)) → occurs k (m ++ n) ≡ occurs k m + occurs k n
  occurs_sum k [] n = omega arith
  occurs_sum k ((i, v) ∷ m) n = omega (arith, occurs_sum k m n)

  pub occurs-none : (k : ℕ) (m : List (ℕ × V)) → get k m ≡ none → occurs k m ≡ 0
  occurs-none k [] h = refl
  occurs-none k ((i, v) ∷ m) h = ground (arith, occurs-none k m)
