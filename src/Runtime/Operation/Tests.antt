-- ===== src/Runtime/Operation/Tests.antt =====
-- operation.rs: the laws of operations at concrete calls.
use easycon_sdk.Common.{◌≡◌, refl, true, false, none, some, List, [], ◌∷◌, arith}
use easycon_sdk.Model.Error.{ok}
use easycon_sdk.Runtime.Arbiter.{effect_accepted, not_delivered}
use easycon_sdk.Runtime.Operation.{
  OperationState, succeeded, u64_value, requested, deadline, success_candidate,
  cancellation_candidate, success_primary, cancellation_primary, completes, panics, CleanupObserver,
  Finishing, new_operation, new_owned, snapshot,
}
use easycon_sdk.Runtime.Operation.Legacy.{execution_value, cancellation_request}
use easycon_sdk.Runtime.Operation.System.{
  System, Call, starts, cancels, ends, claims, announces, finishes_claim, abandons, commits,
  falls_back, run,
}
use easycon_sdk.Runtime.Operation.Sound.{Consistent, IsSound, run_total}
use easycon_sdk.Runtime.Operation.Snapshot.{
  alone, new_operation-IsSound, run_terminal, run-new_owned,
}

abbrev attentive : CleanupObserver
attentive r = true

-- A success and a cancellation race for one owned operation.
abbrev race : List Call
race =
    starts
    ∷ cancels requested
    ∷ claims 1 not_delivered cancellation_candidate
    ∷ abandons 1
    ∷ claims 1 effect_accepted (success_candidate (u64_value 5))
    ∷ claims 1 not_delivered cancellation_candidate
    ∷ announces
    ∷ finishes_claim 1 (ok tt)
    ∷ cancels deadline
    ∷ commits 0
    ∷ falls_back
    ∷ []

abbrev short_run : List Call
short_run =
    starts
    ∷ ends (execution_value (u64_value 5)) panics attentive
    ∷ ends cancellation_request panics attentive
    ∷ commits 0
    ∷ []

run_total_example : (t : System) × (run short_run (alone new_operation) ≡ some t) × IsSound t
run_total_example = run_total short_run (alone new_operation) new_operation-IsSound

run-new_owned_example :
    (t : System) × (run race (alone (new_owned 1 (some 2) (completes (ok tt)) attentive)) ≡ some t)
    × Consistent t.data_now.state t.data_now.result t.data_now.error
run-new_owned_example = run-new_owned race 1 (some 2) (completes (ok tt)) attentive

abbrev ended : System
ended = alone (record new_operation { state = succeeded; result = some (u64_value 5) })

ended-IsSound : IsSound ended
ended-IsSound = ground arith

run_terminal_example :
    (t : System) × (run short_run ended ≡ some t) × (snapshot t.data_now ≡ snapshot ended.data_now)
run_terminal_example = run_terminal short_run ended ended-IsSound refl

abbrev stopping : System
stopping = alone (record new_operation {
  state = OperationState.cancelling;
  cancellation_reason = some deadline;
})

stopping-IsSound : IsSound stopping
stopping-IsSound = ground arith

abbrev failing_observer : Finishing
failing_observer = record {
  primary = success_primary (u64_value 5);
  owner_commit = none;
  cleanup = completes (ok tt);
  on_cleanup_settled = λ r. false;
  domain_cleanup = ok tt;
}

abbrev panicking_cancellation : Finishing
panicking_cancellation = record failing_observer {
  primary = cancellation_primary requested;
  cleanup = panics;
}
