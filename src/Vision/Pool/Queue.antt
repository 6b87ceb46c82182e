-- ===== src/Vision/Pool/Queue.antt =====
-- pool.rs: queues of rising tickets.
use easycon_sdk.Common.{
  ℕ, ◌+◌, ◌≤◌, ◌<◌, ◌≡◌, Bool, true, false, List, [], ◌∷◌, ◌++◌, length, ◌==◌, arith, inl, inr,
  Bool-cases,
}
use easycon_sdk.Vision.Pool.{remove_ticket}

-- Rising tickets from `low` on, all below `high`.
abbrev pub Between : ℕ → List ℕ → ℕ → Type 0
Between low [] high = low ≤ high
Between low (t ∷ ts) high = (low ≤ t) × Between (t + 1) ts high

-- Falling tickets, all below `high`.
abbrev pub Falling : ℕ → List ℕ → Type 0
Falling high [] = Unit {0}
Falling high (t ∷ ts) = (t < high) × Falling t ts

pub Falling-higher :
    (high high' : ℕ) (ts : List ℕ) → high ≤ high' → Falling high ts → Falling high' ts
Falling-higher high high' [] h v = tt
Falling-higher high high' (t ∷ ts) h v = (omega (arith, h, v.0), v.1)

pub Between-le : (low : ℕ) (ts : List ℕ) (high : ℕ) → Between low ts high → low ≤ high
Between-le low [] high v = v
Between-le low (t ∷ ts) high v = omega (arith, v.0, Between-le (t + 1) ts high v.1)

pub Between-lower :
    (low low' : ℕ) (ts : List ℕ) (high : ℕ)
    → low' ≤ low
    → Between low ts high
    → Between low' ts high
Between-lower low low' [] high h v = omega (arith, h, v)
Between-lower low low' (t ∷ ts) high h v = (omega (arith, h, v.0), v.1)

pub Between-push :
    (low : ℕ) (ts : List ℕ) (high : ℕ)
    → Between low ts high
    → Between low (ts ++ high ∷ []) (high + 1)
Between-push low [] high v = (v, omega arith)
Between-push low (t ∷ ts) high v = (v.0, Between-push (t + 1) ts high v.1)

pub Between-higher :
    (low : ℕ) (ts : List ℕ) (high high' : ℕ)
    → high ≤ high'
    → Between low ts high
    → Between low ts high'
Between-higher low [] high high' h v = omega (arith, h, v)
Between-higher low (t ∷ ts) high high' h v = (v.0, Between-higher (t + 1) ts high high' h v.1)

pub remove_ticket-Between :
    (low : ℕ) (ts : List ℕ) (high ticket : ℕ)
    → Between low ts high
    → Between low (remove_ticket ts ticket).0 high
remove_ticket-Between low [] high ticket v = v
remove_ticket-Between low (t ∷ ts) high ticket v = elim (Bool-cases (t == ticket)) [
  | inl e ↦ rw e (Between-lower (t + 1) low ts high (omega (arith, v.0)) v.1)
  | inr e ↦ rw e (v.0, remove_ticket-Between (t + 1) ts high ticket v.1)
]

abbrev pub one_if : Bool → ℕ
one_if true = 1
one_if false = 0

pub length-remove_ticket :
    (ts : List ℕ) (ticket : ℕ)
    → length (remove_ticket ts ticket).0 + one_if (remove_ticket ts ticket).1 ≡ length ts
length-remove_ticket [] ticket = ground arith
length-remove_ticket (t ∷ ts) ticket = elim (Bool-cases (t == ticket)) [
  | inl e ↦ rw e (omega arith)
  | inr e ↦ rw e (let rest = length-remove_ticket ts ticket in omega (arith, rest))
]
