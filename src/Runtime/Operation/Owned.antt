-- ===== src/Runtime/Operation/Owned.antt =====
-- operation.rs: the methods of an operation with a settlement owner. A method that ends in
-- `finish_claimed_terminal` is its first critical section here; `none` is the panic of an `expect`.
use easycon_sdk.Common.{
  ℕ, Bool, true, false, not, ◌&&◌, ◌||◌, ◌==◌, if◌then◌else◌, Option, none, some, [], ◌∷◌,
}
use easycon_sdk.Model.Error.{Result}
use easycon_sdk.Runtime.Arbiter.{Evidence, ClaimResult, claimed, observe, ArbiterState, claim}
use easycon_sdk.Runtime.Operation.{
  OperationState, pending, running, cancelling, is_terminal, already_terminal, invalid,
  TerminalCandidate, TerminalPrimary, ClaimedTerminalState, held, finishing, abandoned,
  OwnerCleanup, CleanupObserver, ClaimedTerminalTransaction, OperationOwnerData, OperationData,
  published, token_deactivated, notified, Done, done, Admission, answers, finishes, winner_kind,
  primary_from_candidate, same_evidence, same_candidate,
}

pub data ClaimOutcome : Type 0 where
  claim_granted claim_observe claim_rejected claim_closed : ClaimOutcome

abbrev pub set_owner : OperationData → OperationOwnerData → OperationData
set_owner d o = record d { owner = some o }

abbrev announce_in : OperationState → OperationData → Done (Unit {0})
announce_in pending d =
    done (record d { state = cancelling }) (published cancelling ∷ notified ∷ []) tt
announce_in running d =
    done (record d { state = cancelling }) (published cancelling ∷ notified ∷ []) tt
announce_in _ d = done d [] tt

unfoldable pub publish_claimed_cancellation : OperationData → Done (Unit {0})
publish_claimed_cancellation d = announce_in d.state d

-- A claim on a transaction that an earlier claim has left: only its owner recovers it, when abandoned.
abbrev reclaim :
    OperationData
    → OperationOwnerData
    → ClaimedTerminalTransaction
    → ClaimedTerminalState
    → ℕ
    → Evidence
    → TerminalCandidate
    → Done ClaimOutcome
reclaim d o c abandoned id evidence candidate =
    if c.owner_id == id && same_evidence c.evidence evidence && same_candidate c.candidate candidate
    then done (set_owner d (record o { claimed = some (record c { state = held }) })) []
        claim_granted
    else done d [] claim_rejected
reclaim d o c _ id evidence candidate = done d [] claim_observe

-- The seal of a successful claim.
abbrev granted :
    OperationData
    → OperationOwnerData
    → ArbiterState
    → ℕ
    → Evidence
    → TerminalCandidate
    → TerminalPrimary
    → Done ClaimOutcome
granted d o arbiter id evidence candidate primary =
    done
      (record d {
        terminal_in_progress = true;
        owner = some (record o {
          arbiter = arbiter;
          claimed = some (record {
            owner_id = id;
            evidence = evidence;
            candidate = candidate;
            primary = primary;
            winner = winner_kind primary;
            propagation = true;
            state = held;
          });
        });
      })
      (token_deactivated ∷ []) claim_granted

abbrev arbitrate :
    OperationData
    → OperationOwnerData
    → ℕ
    → Evidence
    → TerminalCandidate
    → TerminalPrimary
    → ArbiterState × ClaimResult
    → Done ClaimOutcome
arbitrate d o id evidence candidate primary (a, claimed) =
    granted d o a id evidence candidate primary
arbitrate d o id evidence candidate primary (a, observe) = done d [] claim_observe
arbitrate d o id evidence candidate primary (a, _) = done d [] claim_rejected

abbrev claim_primary :
    OperationData
    → Option OperationOwnerData
    → ℕ
    → Evidence
    → TerminalCandidate
    → Option TerminalPrimary
    → Done ClaimOutcome
claim_primary d o id evidence candidate none = done d [] claim_rejected
claim_primary d none id evidence candidate (some primary) = done d [] claim_rejected
claim_primary d (some o) id evidence candidate (some primary) =
    arbitrate d o id evidence candidate primary (claim o.arbiter id evidence (winner_kind primary))

abbrev pub claimed_by : Option OperationOwnerData → Option ClaimedTerminalTransaction
claimed_by none = none
claimed_by (some o) = o.claimed

abbrev claim_with :
    OperationData → Option OperationOwnerData → ℕ → Evidence → TerminalCandidate → Done ClaimOutcome
claim_with d none id evidence candidate =
    claim_primary d none id evidence candidate
      (primary_from_candidate candidate d.state d.cancellation_reason)
claim_with d (some o) id evidence candidate = elim o.claimed [
  | none ↦
      claim_primary d (some o) id evidence candidate
        (primary_from_candidate candidate d.state d.cancellation_reason)
  | some c ↦ reclaim d o c c.state id evidence candidate
]

-- The claim's critical section. A cancellation that wins calls `publish_claimed_cancellation` next.
unfoldable pub claim_owned : OperationData → ℕ → Evidence → TerminalCandidate → Done ClaimOutcome
unfolding claim primary_from_candidate same_candidate
claim_owned d id evidence candidate =
    if is_terminal d.state
    then done d [] claim_closed
    else claim_with d d.owner id evidence candidate

-- The transaction that a finish takes out of the owner record, with its callbacks.
abbrev take_claim :
    OperationData
    → OperationOwnerData
    → ClaimedTerminalTransaction
    → Result (Unit {0})
    → Bool
    → Option OwnerCleanup
    → Option CleanupObserver
    → Option (Done Admission)
take_claim d o c domain true (some cleanup) (some observer) = some (
    done
      (set_owner d (record o {
        cleanup = none;
        on_cleanup_settled = none;
        claimed = some (record c { propagation = false; state = finishing });
      }))
      []
      (finishes (record {
        primary = c.primary;
        owner_commit = some (c.owner_id, c.winner);
        cleanup = cleanup;
        on_cleanup_settled = observer;
        domain_cleanup = domain;
      })))
take_claim d o c domain _ _ _ = none

abbrev is_held : ClaimedTerminalState → Bool
is_held held = true
is_held _ = false

abbrev finish_claim :
    OperationData
    → OperationOwnerData
    → Option ClaimedTerminalTransaction
    → ℕ
    → Result (Unit {0})
    → Option (Done Admission)
finish_claim d o none id domain = some (done d [] (answers invalid))
finish_claim d o (some c) id domain =
    if not (c.owner_id == id) || not (is_held c.state)
    then some (done d [] (answers invalid))
    else take_claim d o c domain c.propagation o.cleanup o.on_cleanup_settled

abbrev finish_with :
    OperationData → Option OperationOwnerData → ℕ → Result (Unit {0}) → Option (Done Admission)
finish_with d none id domain = some (done d [] (answers invalid))
finish_with d (some o) id domain = finish_claim d o o.claimed id domain

unfoldable pub finish_claimed : OperationData → ℕ → Result (Unit {0}) → Option (Done Admission)
finish_claimed d id domain =
    if is_terminal d.state
    then some (done d [] (answers already_terminal))
    else finish_with d d.owner id domain

abbrev abandon_claim :
    OperationData → OperationOwnerData → Option ClaimedTerminalTransaction → ℕ → Done (Unit {0})
abandon_claim d o none id = done d [] tt
abandon_claim d o (some c) id =
    if not (c.owner_id == id) || not (is_held c.state)
    then done d [] tt
    else done (set_owner d (record o { claimed = some (record c { state = abandoned }) }))
        (notified ∷ []) tt

abbrev abandon_with : OperationData → Option OperationOwnerData → ℕ → Done (Unit {0})
abandon_with d none id = done d [] tt
abandon_with d (some o) id = abandon_claim d o o.claimed id

unfoldable pub abandon_claimed : OperationData → ℕ → Done (Unit {0})
abandon_claimed d id = abandon_with d d.owner id
