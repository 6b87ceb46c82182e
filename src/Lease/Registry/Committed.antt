-- ===== src/Lease/Registry/Committed.antt =====
-- session.rs, `ReleaseInterruptRegistry`: which chores commit a release, and that none undoes it.
use easycon_sdk.Common.{
  ◌==◌, ◌||◌, zero, suc, get_elem?, Option, none, some, sym, ap, ℕ, ◌≡◌, refl, ◌∙◌, Bool, true,
  false, inl, inr, List, [], ◌∷◌, ◌++◌, arith, Bool-cases,
}
use mathlib.Core.Path.{subst}
use easycon_sdk.Model.Error.{Result}
use easycon_sdk.Lease.Release.{
  ReleaseOutcome, committed, ReleaseRecord, complete_release, request_close_interrupt,
}
use easycon_sdk.Lease.Registry.{
  Store, retain, complete_at, interrupt_at, Chore, completing, interrupting, do_chore, chores_for,
}

abbrev pub is_committed : ReleaseRecord → Bool
is_committed r = elim r.phase [ committed consumed outcome ↦ true | _ ↦ false ]

pub complete_release-committed :
    (r : ReleaseRecord) (outcome : Result ReleaseOutcome)
    → is_committed (complete_release r outcome).0 ≡ true
unfolding complete_release
complete_release-committed r outcome = ground arith

pub request_close_interrupt-committed :
    (r : ReleaseRecord) → is_committed (request_close_interrupt r).release ≡ is_committed r
unfolding request_close_interrupt
request_close_interrupt-committed r = ground arith

-- A committed release stays committed.
abbrev pub Stays : Store → Store → Type 0
Stays before after = (j : ℕ) → is_committed (before j) ≡ true → is_committed (after j) ≡ true

pub complete_at-Stays :
    (outcome : Result ReleaseOutcome) (i : ℕ) (store : Store)
    → Stays store (complete_at outcome i store)
complete_at-Stays outcome i store j h = ground (arith, complete_release-committed (store i) outcome)

pub complete_at-committed :
    (outcome : Result ReleaseOutcome) (i : ℕ) (store : Store)
    → is_committed (complete_at outcome i store i) ≡ true
complete_at-committed outcome i store = ground (arith, complete_release-committed (store i) outcome)

pub interrupt_at-committed :
    (i : ℕ) (store : Store) (j : ℕ)
    → is_committed ((interrupt_at i store).0 j) ≡ is_committed (store j)
interrupt_at-committed i store j = ground (arith, request_close_interrupt-committed (store i))

-- Whether a completion of a release is owed.
abbrev pub owes : ℕ → List (ℕ × Chore) → Bool
owes j [] = false
owes j ((i, completing outcome) ∷ owed) = i == j || owes j owed
owes j ((i, interrupting) ∷ owed) = owes j owed

-- A release has its outcome, or a thread is about to give it one.
abbrev pub is_covered : Store → List (ℕ × Chore) → ℕ → Bool
is_covered store owed j = is_committed (store j) || owes j owed

pub do_chore-committed :
    (chore : ℕ × Chore) (store : Store) (j : ℕ)
    → is_committed ((do_chore chore store).0 j) ≡ is_covered store (chore ∷ []) j
unfolding do_chore
do_chore-committed (i, completing outcome) store j =
    ground (arith, complete_release-committed (store i) outcome)
do_chore-committed (i, interrupting) store j =
    ground (arith, request_close_interrupt-committed (store i))

abbrev pub all_done : List (ℕ × Chore) → Store → Store
all_done [] store = store
all_done (chore ∷ owed) store = all_done owed (do_chore chore store).0

-- Once what is owed is done, the covered releases are committed.
pub all_done-committed :
    (owed : List (ℕ × Chore)) (store : Store) (j : ℕ)
    → is_committed (all_done owed store j) ≡ is_covered store owed j
all_done-committed [] store j = ground arith
all_done-committed ((i, completing outcome) ∷ owed) store j =
    let chore : ℕ × Chore = (i, completing outcome) in
    let rest = all_done-committed owed (do_chore chore store).0 j in
    let first = do_chore-committed chore store j in ground arith
all_done-committed ((i, interrupting) ∷ owed) store j =
    let chore : ℕ × Chore = (i, interrupting) in
    let rest = all_done-committed owed (do_chore chore store).0 j in
    let first = do_chore-committed chore store j in ground arith

pub owes-append :
    (j : ℕ) (owed more : List (ℕ × Chore)) → owes j (owed ++ more) ≡ (owes j owed || owes j more)
owes-append j [] more = refl
owes-append j ((i, completing outcome) ∷ owed) more = ground (arith, owes-append j owed more)
owes-append j ((i, interrupting) ∷ owed) more = owes-append j owed more

abbrev pub AllCovered : Store → List (ℕ × Chore) → List ℕ → Type 0
AllCovered store owed [] = Unit {0}
AllCovered store owed (i ∷ is) = (is_covered store owed i ≡ true) × AllCovered store owed is

-- What is covered stays so.
abbrev pub Keeps : Store → List (ℕ × Chore) → Store → List (ℕ × Chore) → Type 0
Keeps before owed after owed' =
    (j : ℕ) → is_covered before owed j ≡ true → is_covered after owed' j ≡ true

pub AllCovered-Keeps :
    (before : Store) (owed : List (ℕ × Chore)) (after : Store) (owed' : List (ℕ × Chore))
    (is : List ℕ)
    → Keeps before owed after owed'
    → AllCovered before owed is
    → AllCovered after owed' is
AllCovered-Keeps before owed after owed' [] keeps v = tt
AllCovered-Keeps before owed after owed' (i ∷ is) keeps v =
    (keeps i v.0, AllCovered-Keeps before owed after owed' is keeps v.1)

pub append-Keeps :
    (store : Store) (owed more : List (ℕ × Chore)) → Keeps store owed store (owed ++ more)
append-Keeps store owed more j h = ground (arith, owes-append j owed more)

pub Stays-Keeps :
    (before after : Store) (owed : List (ℕ × Chore))
    → Stays before after
    → Keeps before owed after owed
Stays-Keeps before after owed stays j h = ground (arith, stays j)

abbrev pub without : ℕ → List (ℕ × Chore) → List (ℕ × Chore)
without k [] = []
without zero (chore ∷ owed) = owed
without (suc k) (chore ∷ owed) = chore ∷ without k owed

owes-head :
    (j : ℕ) (chore : ℕ × Chore) (owed : List (ℕ × Chore))
    → owes j (chore ∷ owed) ≡ (owes j (chore ∷ []) || owes j owed)
owes-head j (i, completing outcome) owed = ground arith
owes-head j (i, interrupting) owed = refl

abbrev or_chore : Option (ℕ × Chore) → ℕ × Chore → ℕ × Chore
or_chore none c = c
or_chore (some chore) c = chore

owes-without :
    (j k : ℕ) (owed : List (ℕ × Chore)) (chore : ℕ × Chore)
    → get_elem? owed k ≡ some chore
    → owes j owed ≡ true
    → (owes j (chore ∷ []) || owes j (without k owed)) ≡ true
owes-without j k [] chore h o = absurd (ground arith)
owes-without j zero (c ∷ owed) chore h o =
    let same : c ≡ chore = ap (λ o. or_chore o c) h in
    subst (λ x. (owes j (x ∷ []) || owes j owed) ≡ true) same (sym (owes-head j c owed) ∙ o)
owes-without j (suc k) ((i, completing outcome) ∷ owed) chore h o =
    ground (arith, owes-without j k owed chore)
owes-without j (suc k) ((i, interrupting) ∷ owed) chore h o = owes-without j k owed chore h o

-- A thread does one of the chores.
pub work-Keeps :
    (store : Store) (owed : List (ℕ × Chore)) (k : ℕ) (chore : ℕ × Chore)
    → get_elem? owed k ≡ some chore
    → Keeps store owed (do_chore chore store).0 (without k owed)
work-Keeps store owed k (i, c) found j h =
    ground (arith, do_chore-committed (i, c) store j, owes-without j k owed (i, c) found)

pub retain-AllCovered :
    (alive : ℕ → Bool) (store : Store) (owed : List (ℕ × Chore)) (is : List ℕ)
    → AllCovered store owed is
    → AllCovered store owed (retain alive is)
retain-AllCovered alive store owed [] v = tt
retain-AllCovered alive store owed (i ∷ is) v = elim (Bool-cases (alive i)) [
  | inl e ↦ rw e (v.0, retain-AllCovered alive store owed is v.1)
  | inr e ↦ rw e (retain-AllCovered alive store owed is v.1)
]

pub AllCovered-append :
    (store : Store) (owed : List (ℕ × Chore)) (is : List ℕ) (i : ℕ)
    → AllCovered store owed is
    → is_covered store owed i ≡ true
    → AllCovered store owed (is ++ i ∷ [])
AllCovered-append store owed [] i v h = (h, tt)
AllCovered-append store owed (j ∷ is) i v h = (v.0, AllCovered-append store owed is i v.1 h)

-- A section that owes a completion to each of a list covers the list.
pub chores_for-AllCovered :
    (store : Store) (outcome : Result ReleaseOutcome) (owed : List (ℕ × Chore)) (is : List ℕ)
    → AllCovered store (owed ++ chores_for (completing outcome) is) is
chores_for-AllCovered store outcome owed [] = tt
chores_for-AllCovered store outcome owed (i ∷ is) =
    let chore : ℕ × Chore = (i, completing outcome) in
    let owed' = owed ++ chore ∷ chores_for (completing outcome) is in
    let fewer = owed ++ chores_for (completing outcome) is in
    (
      ground (arith, owes-append i owed (chore ∷ chores_for (completing outcome) is)),
      AllCovered-Keeps store fewer store owed' is
          (λ j h. ground (
            arith,
            owes-append j owed (chores_for (completing outcome) is),
            owes-append j owed (chore ∷ chores_for (completing outcome) is),
          ))
          (chores_for-AllCovered store outcome owed is),
    )

abbrev pub AllCommitted : Store → List ℕ → Type 0
AllCommitted store [] = Unit {0}
AllCommitted store (i ∷ is) = (is_committed (store i) ≡ true) × AllCommitted store is

pub all_done-AllCommitted :
    (owed : List (ℕ × Chore)) (store : Store) (is : List ℕ)
    → AllCovered store owed is
    → AllCommitted (all_done owed store) is
all_done-AllCommitted owed store [] v = tt
all_done-AllCommitted owed store (i ∷ is) v =
    (all_done-committed owed store i ∙ v.0, all_done-AllCommitted owed store is v.1)
