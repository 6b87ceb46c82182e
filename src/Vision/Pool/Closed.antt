-- ===== src/Vision/Pool/Closed.antt =====
-- pool.rs: what is left to do once a close has begun.
use easycon_sdk.Common.{◌≡◌, refl, ◌∙◌, Bool, true, false, List, [], ◌∷◌, arith}
use easycon_sdk.Vision.Pool.{NativePoolOptions, PoolLifecycle, pool_open}
use easycon_sdk.Vision.Pool.Order.{
  World, Call, reserve_one, commit_one, drop_one, take_one, finish_one, close_one, drain_one,
  cancel_one, end_one, step, run,
}

abbrev pub is_open : PoolLifecycle → Bool
is_open pool_open = true
is_open _ = false

step-started :
    (options : NativePoolOptions) (c : Call) (w : World)
    → is_open w.pool.lifecycle ≡ false
    → ((step options c w).started ≡ w.started)
      × (is_open (step options c w).pool.lifecycle ≡ false)
      × ((step options c w).pool.next_ticket ≡ w.pool.next_ticket)
unfolding step
step-started options (reserve_one b) w h = ground arith
step-started options commit_one w h = ground arith
step-started options drop_one w h = ground arith
step-started options take_one w h = ground arith
step-started options finish_one w h = ground arith
step-started options (cancel_one ticket) w h = ground arith
step-started options close_one w h = ground arith
step-started options drain_one w h = ground arith
step-started options (end_one joins) w h = ground arith

-- Once a close has begun, whatever is called then: no further job is started and no ticket given.
pub run-started :
    (options : NativePoolOptions) (cs : List Call) (w : World)
    → is_open w.pool.lifecycle ≡ false
    → ((run options cs w).started ≡ w.started)
      × ((run options cs w).pool.next_ticket ≡ w.pool.next_ticket)
unfolding run
run-started options [] w h = (refl, refl)
run-started options (c ∷ cs) w h =
    let (same, still, next) = step-started options c w h in
    let (later, last) = run-started options cs (step options c w) still in
    (later ∙ same, last ∙ next)
