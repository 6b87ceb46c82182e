-- ===== src/Runtime/Arbiter/Tests.antt =====
-- concurrency.rs: the laws of the terminal arbiter at concrete calls.
use easycon_sdk.Common.{◌≡◌, refl, true, none, some, is_some, if◌then◌else◌, List, [], ◌∷◌}
use easycon_sdk.Runtime.Arbiter.{
  effect_accepted, not_delivered, success, cancellation, ArbiterState, new_arbiter, claim, Call,
  claims, joins, hands_off, commits, after, run, mark_primary_owner_joined, handoff,
}
use easycon_sdk.Runtime.Arbiter.Once.{wins, commit_count, one_winner}

-- The primary owner 1 leaves without a claim and the transfer owner 2 takes over.
abbrev rescue : List Call
rescue = hands_off 2 ∷ joins 1 ∷ hands_off 2 ∷ claims 1 effect_accepted success ∷ []

-- Two owners compete for the result.
abbrev race : List Call
race =
    claims 1 not_delivered cancellation
    ∷ claims 1 effect_accepted success
    ∷ commits 1 success
    ∷ commits 1 cancellation
    ∷ commits 1 cancellation
    ∷ []

abbrev cancelled_arbiter : ArbiterState
cancelled_arbiter = record (new_arbiter 1 none) { winner = some cancellation }

one_winner_example :
    let s = new_arbiter 1 (some 2) in
    let e = run s race in
    (wins s race ≡ (if is_some e.winner then 1 else 0))
    × (commit_count s race ≡ (if e.committed then 1 else 0))
one_winner_example = one_winner 1 (some 2) race

rescue_used : (run (new_arbiter 1 (some 2)) rescue).handoff_used ≡ true
unfolding run after new_arbiter mark_primary_owner_joined handoff claim
rescue_used = refl
