-- ===== src/Runtime/Arbiter/Once.antt =====
-- concurrency.rs: one winner, one commit, and one change of owner, over any order of calls.
use easycon_sdk.Common.{
  ℕ, ◌+◌, ◌≡◌, refl, ◌∙◌, ◌≢◌, Bool, true, false, Option, some, is_some, if◌then◌else◌, List, [],
  ◌∷◌, arith,
}
use easycon_sdk.Runtime.Arbiter.{
  Evidence, Winner, ClaimResult, claimed, ArbiterState, new_arbiter, claim, commit, Call, claims,
  joins, hands_off, commits, after, run,
}

-- What holds of an arbiter between two calls.
pub record IsSound (s : ArbiterState) : Type 0 where
  pub committed_won : s.committed ≡ true → is_some s.winner ≡ true
  pub primary_first : s.handoff_used ≡ false → s.active_owner ≡ s.primary_owner
  pub handed_off : s.handoff_used ≡ true → s.transfer_owner ≡ some s.active_owner
  pub joined_first : s.handoff_used ≡ true → s.primary_owner_joined ≡ true

new_arbiter-IsSound : (p : ℕ) (t : Option ℕ) → IsSound (new_arbiter p t)
unfolding new_arbiter
new_arbiter-IsSound p t = ground arith

after-IsSound : (s : ArbiterState) (c : Call) → IsSound s → IsSound (after s c)
unfolding after
after-IsSound s (claims o e w) v = ground arith
after-IsSound s (joins o) v = ground arith
after-IsSound s (hands_off o) v = ground arith
after-IsSound s (commits o w) v = ground arith

run-IsSound : (s : ArbiterState) (cs : List Call) → IsSound s → IsSound (run s cs)
unfolding run
run-IsSound s [] v = v
run-IsSound s (c ∷ cs) v = run-IsSound (after s c) cs (after-IsSound s c v)

-- From a new arbiter, over any calls: a commit has a winner behind it, the active owner is the primary
-- one until the handoff and the registered transfer owner after it, and the handoff follows the join.
pub run-new_arbiter-IsSound :
    (p : ℕ) (t : Option ℕ) (cs : List Call) → IsSound (run (new_arbiter p t) cs)
run-new_arbiter-IsSound p t cs = run-IsSound (new_arbiter p t) cs (new_arbiter-IsSound p t)

-- How many claims and commits succeed.
abbrev won : ClaimResult → ℕ
won claimed = 1
won _ = 0

abbrev one_if : Bool → ℕ
one_if b = if b then 1 else 0

abbrev wins_now : ArbiterState → Call → ℕ
wins_now s (claims o e w) = won (claim s o e w).1
wins_now s _ = 0

abbrev commits_now : ArbiterState → Call → ℕ
commits_now s (commits o w) = one_if (commit s o w).1
commits_now s _ = 0

abbrev pub wins : ArbiterState → List Call → ℕ
wins s [] = 0
wins s (c ∷ cs) = wins_now s c + wins (after s c) cs

abbrev pub commit_count : ArbiterState → List Call → ℕ
commit_count s [] = 0
commit_count s (c ∷ cs) = commits_now s c + commit_count (after s c) cs

wins_step :
    (s : ArbiterState) (c : Call)
    → IsSound s
    → wins_now s c + one_if (is_some s.winner) ≡ one_if (is_some (after s c).winner)
unfolding after
wins_step s (claims o e w) v = ground arith
wins_step s (joins o) v = ground arith
wins_step s (hands_off o) v = ground arith
wins_step s (commits o w) v = ground arith

commits_step :
    (s : ArbiterState) (c : Call)
    → commits_now s c + one_if s.committed ≡ one_if (after s c).committed
unfolding after
commits_step s (claims o e w) = ground arith
commits_step s (joins o) = ground arith
commits_step s (hands_off o) = ground arith
commits_step s (commits o w) = ground arith

wins-run :
    (s : ArbiterState) (cs : List Call)
    → IsSound s
    → wins s cs + one_if (is_some s.winner) ≡ one_if (is_some (run s cs).winner)
unfolding run
wins-run s [] v = omega arith
wins-run s (c ∷ cs) v =
    omega (arith, wins_step s c v, wins-run (after s c) cs (after-IsSound s c v))

commits_run :
    (s : ArbiterState) (cs : List Call)
    → commit_count s cs + one_if s.committed ≡ one_if (run s cs).committed
unfolding run
commits_run s [] = omega arith
commits_run s (c ∷ cs) = omega (arith, commits_step s c, commits_run (after s c) cs)

-- From a new arbiter, over any calls, one claim succeeds if a winner is recorded and none otherwise,
-- and one commit succeeds if the result is committed and none otherwise.
pub one_winner :
    (p : ℕ) (t : Option ℕ) (cs : List Call)
    → let s = new_arbiter p t in
      let e = run s cs in
      (wins s cs ≡ (if is_some e.winner then 1 else 0))
      × (commit_count s cs ≡ (if e.committed then 1 else 0))
unfolding new_arbiter
one_winner p t cs = (
  omega (arith, wins-run (new_arbiter p t) cs (new_arbiter-IsSound p t)),
  omega (arith, commits_run (new_arbiter p t) cs),
)

after_winner :
    (s : ArbiterState) (c : Call) (w : Winner) → s.winner ≡ some w → (after s c).winner ≡ some w
unfolding after
after_winner s (claims o e v) w h = ground arith
after_winner s (joins o) w h = ground arith
after_winner s (hands_off o) w h = ground arith
after_winner s (commits o v) w h = ground arith

-- A recorded winner is never replaced.
pub run_winner :
    (s : ArbiterState) (cs : List Call) (w : Winner)
    → s.winner ≡ some w
    → (run s cs).winner ≡ some w
unfolding run
run_winner s [] w h = h
run_winner s (c ∷ cs) w h = run_winner (after s c) cs w (after_winner s c w h)

after-transfer_owner : (s : ArbiterState) (c : Call) → (after s c).transfer_owner ≡ s.transfer_owner
unfolding after
after-transfer_owner s (claims o e w) = ground arith
after-transfer_owner s (joins o) = ground arith
after-transfer_owner s (hands_off o) = ground arith
after-transfer_owner s (commits o w) = ground arith

run-transfer_owner :
    (s : ArbiterState) (cs : List Call) → (run s cs).transfer_owner ≡ s.transfer_owner
unfolding run
run-transfer_owner s [] = refl
run-transfer_owner s (c ∷ cs) = run-transfer_owner (after s c) cs ∙ after-transfer_owner s c

stranger_fails :
    (s : ArbiterState) (p : ℕ) (e : Evidence) (w : Winner)
    → s.active_owner ≢ p
    → ((claim s p e w).1 ≢ claimed) × ((commit s p w).1 ≡ false)
unfolding claim commit
stranger_fails s p e w h = (λ r. ground arith, ground arith)

-- After the handoff the primary owner, if it is another than the transfer owner, wins no claim and
-- commits nothing, whatever has happened in between.
pub handoff_excludes_primary :
    (p t : ℕ) (cs : List Call) (e : Evidence) (w : Winner)
    → p ≢ t
    → (run (new_arbiter p (some t)) cs).handoff_used ≡ true
    → let s = run (new_arbiter p (some t)) cs in
      ((claim s p e w).1 ≢ claimed) × ((commit s p w).1 ≡ false)
handoff_excludes_primary p t cs e w ne used =
    let s = run (new_arbiter p (some t)) cs in
    let registered : s.transfer_owner ≡ some t =
      run-transfer_owner (new_arbiter p (some t)) cs ∙ unfold new_arbiter in refl in
    let active = (run-new_arbiter-IsSound p (some t) cs).handed_off used in
    stranger_fails s p e w (λ same. ne (ground (arith, registered, active)))
