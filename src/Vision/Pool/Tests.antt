-- ===== src/Vision/Pool/Tests.antt =====
-- pool.rs: a pool of workers at concrete calls.
use easycon_sdk.Common.{false, List, [], ◌∷◌, ◌++◌, arith}
use easycon_sdk.Vision.Pool.{NativePoolOptions}
use easycon_sdk.Vision.Pool.Order.{
  Call, reserve_one, commit_one, take_one, finish_one, close_one, drain_one, end_one, run,
  new_world, IsOrdered, run-IsOrdered,
}

abbrev two_jobs : NativePoolOptions
two_jobs = record { workers = 1; max_queued_jobs = 2 }

-- Two jobs are queued and the first is started when a close begins.
abbrev busy : List Call
busy = reserve_one false ∷ commit_one ∷ reserve_one false ∷ commit_one ∷ take_one ∷ close_one ∷ []

abbrev after_close : List Call
after_close = take_one ∷ reserve_one false ∷ drain_one ∷ finish_one ∷ end_one [] ∷ []

run-IsOrdered_example : IsOrdered two_jobs (run two_jobs (busy ++ after_close) new_world)
run-IsOrdered_example = run-IsOrdered two_jobs (busy ++ after_close) (omega arith)
