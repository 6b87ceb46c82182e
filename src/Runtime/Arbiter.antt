-- ===== src/Runtime/Arbiter.antt =====
-- crates/easycon-runtime/src/concurrency.rs, `TerminalArbiterState`: who may fix the terminal result
-- of an operation. Owners are u64 identifiers. Each method runs under the operation's lock.
pub mod Once
mod Tests
use easycon_sdk.Common.{
  ℕ, Bool, true, false, not, ◌&&◌, ◌||◌, Option, none, some, ◌==◌, is_some, if◌then◌else◌, List, [],
  ◌∷◌,
}

pub data Evidence : Type 0 where
  effect_accepted not_delivered execution_failed : Evidence

pub data Winner : Type 0 where
  success failure cancellation : Winner

pub data ClaimResult : Type 0 where
  claimed observe rejected_owner rejected_evidence : ClaimResult

pub record ArbiterState : Type 0 where
  pub primary_owner : ℕ
  pub transfer_owner : Option ℕ
  pub active_owner : ℕ
  pub primary_owner_joined : Bool
  pub handoff_used : Bool
  pub winner : Option Winner
  pub committed : Bool

unfoldable pub new_arbiter : ℕ → Option ℕ → ArbiterState
new_arbiter primary transfer = record {
  primary_owner = primary;
  transfer_owner = transfer;
  active_owner = primary;
  primary_owner_joined = false;
  handoff_used = false;
  winner = none;
  committed = false;
}

unfoldable pub evidence_allows_winner : Evidence → Winner → Bool
evidence_allows_winner effect_accepted success = true
evidence_allows_winner not_delivered cancellation = true
evidence_allows_winner execution_failed failure = true
evidence_allows_winner _ _ = false

-- `==` on the winners and on an optional owner.
abbrev pub same_winner : Winner → Winner → Bool
same_winner success success = true
same_winner failure failure = true
same_winner cancellation cancellation = true
same_winner _ _ = false

abbrev pub is_winner : Option Winner → Winner → Bool
is_winner none w = false
is_winner (some v) w = same_winner v w

abbrev pub is_owner : Option ℕ → ℕ → Bool
is_owner none o = false
is_owner (some p) o = p == o

unfoldable pub claim : ArbiterState → ℕ → Evidence → Winner → ArbiterState × ClaimResult
unfolding evidence_allows_winner
claim s owner evidence winner =
    if is_some s.winner || s.committed
    then (s, observe)
    else if not (owner == s.active_owner)
    then (s, rejected_owner)
    else if not (evidence_allows_winner evidence winner)
    then (s, rejected_evidence)
    else (record s { winner = some winner }, claimed)

unfoldable pub mark_primary_owner_joined : ArbiterState → ℕ → ArbiterState × Bool
mark_primary_owner_joined s owner =
    if not (owner == s.primary_owner) || s.primary_owner_joined
    then (s, false)
    else (record s { primary_owner_joined = true }, true)

unfoldable pub handoff : ArbiterState → ℕ → ArbiterState × Bool
handoff s owner =
    if s.committed
      || is_some s.winner
      || s.handoff_used
      || not s.primary_owner_joined
      || not (is_owner s.transfer_owner owner)
      || not (s.active_owner == s.primary_owner)
    then (s, false)
    else (record s { active_owner = owner; handoff_used = true }, true)

unfoldable pub commit : ArbiterState → ℕ → Winner → ArbiterState × Bool
commit s owner winner =
    if s.committed || not (s.active_owner == owner) || not (is_winner s.winner winner)
    then (s, false)
    else (record s { committed = true }, true)

-- A call by any party, in any order.
pub data Call : Type 0 where
  claims : ℕ → Evidence → Winner → Call
  joins : ℕ → Call
  hands_off : ℕ → Call
  commits : ℕ → Winner → Call

unfoldable pub after : ArbiterState → Call → ArbiterState
unfolding claim mark_primary_owner_joined handoff commit
after s (claims o e w) = (claim s o e w).0
after s (joins o) = (mark_primary_owner_joined s o).0
after s (hands_off o) = (handoff s o).0
after s (commits o w) = (commit s o w).0

unfoldable pub run : ArbiterState → List Call → ArbiterState
run s [] = s
run s (c ∷ cs) = run (after s c) cs
