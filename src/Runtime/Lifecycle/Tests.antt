-- ===== src/Runtime/Lifecycle/Tests.antt =====
-- concurrency.rs: the laws of a task's life at concrete calls.
use easycon_sdk.Common.{ℕ, ◌≡◌, true, false, List, [], ◌∷◌}
use easycon_sdk.Runtime.Lifecycle.{
  Call, bind, complete, claim, finish, persist, unlink, abort, step,
}
use easycon_sdk.Runtime.Lifecycle.Order.{awaiting, removed, state_of, step-next}

-- A task that panics with the code 101, with calls out of place.
abbrev panicking : List (Call ℕ)
panicking =
    complete 7
    ∷ bind
    ∷ abort
    ∷ complete 101
    ∷ finish
    ∷ claim
    ∷ claim
    ∷ finish
    ∷ unlink true
    ∷ persist
    ∷ unlink true
    ∷ []

abbrev panic_code : ℕ
panic_code = 101

step-next_example :
    step (unlink false) (state_of (awaiting panic_code))
    ≡ (state_of (removed panic_code false false), true)
step-next_example = step-next (awaiting panic_code) (unlink false)
