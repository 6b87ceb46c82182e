-- ===== src/Runtime/Publish/Tests.antt =====
-- runtime.rs: two subscriptions of one Runtime.
use easycon_sdk.Common.{◌≡◌, true, none, some, List, [], ◌∷◌, arith}
use easycon_sdk.Runtime.Events.{SubscriptionOptions, ordinary, state_kind, info, debug}
use easycon_sdk.Runtime.Publish.{EventDraft, Publisher, new_publisher}
use easycon_sdk.Runtime.Publish.Fed.{
  Call, publish_one, close_one, subscribe_one, pull_one, run, IsPublisher, run-IsPublisher,
}

abbrev draft : EventDraft
draft = record {
  class = ordinary;
  kind = state_kind;
  code = "runtime.state";
  severity = info;
  operation_id = none;
  resource_id = none;
  detail = none;
}

abbrev narrow : SubscriptionOptions
narrow = record { capacity = 1; minimum_severity = debug; include_logs = true }

abbrev some_calls : List Call
some_calls =
    subscribe_one true narrow
    ∷ publish_one draft 5
    ∷ subscribe_one true narrow
    ∷ publish_one draft 6
    ∷ pull_one 0
    ∷ close_one draft 7
    ∷ pull_one 1
    ∷ publish_one draft 8
    ∷ []

run-IsPublisher_example :
    (p : Publisher) × (run some_calls new_publisher ≡ some p) × IsPublisher 0 p
run-IsPublisher_example = run-IsPublisher some_calls (omega arith)
