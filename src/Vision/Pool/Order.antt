-- ===== src/Vision/Pool/Order.antt =====
-- pool.rs: submissions, workers, cancellations and a close in any order.
use easycon_sdk.Common.{
  ℕ, ◌+◌, ◌-◌, ◌≤◌, ◌≡◌, refl, Bool, Option, none, some, List, [], ◌∷◌, ◌++◌, length, arith,
  length-append,
}
use easycon_sdk.Vision.Pool.{
  NativePoolOptions, PoolLifecycle, pool_open, pool_closing, pool_closed, PoolState, new_state,
  Taken, worker_ends, worker_waits, runs_job, take_job, finish_job, Reserved, reserves,
  reserve_fails, reserve_waits, reserve, commit, drop_reservation, cancel_queued, begin_close,
  drain_queue, Joined, end_close,
}
use easycon_sdk.Vision.Pool.Queue.{
  Between, Falling, Between-le, Falling-higher, Between-push, Between-higher, remove_ticket-Between,
  one_if, length-remove_ticket,
}

-- The pool; the ticket that a submission has reserved; the tickets that were started, the newest first;
-- and how many jobs were cancelled in the queue and how many reservations dropped.
pub record World : Type 0 where
  pub pool : PoolState
  pub holder : Option ℕ
  pub started : List ℕ
  pub cancelled : ℕ
  pub dropped : ℕ

pub data Call : Type 0 where
  reserve_one : (is_cancelled : Bool) → Call
  commit_one drop_one take_one finish_one close_one drain_one : Call
  cancel_one : (ticket : ℕ) → Call
  end_one : List Joined → Call

abbrev reserved : World → PoolState × Reserved → World
reserved w (s, reserves ticket) = record w { pool = s; holder = some ticket }
reserved w (s, reserve_fails e) = record w { pool = s }
reserved w (s, reserve_waits) = record w { pool = s }

abbrev committed : World → Option ℕ → World
committed w none = w
committed w (some ticket) = record w { pool = (commit w.pool ticket).0; holder = none }

abbrev dropped_one : World → Option ℕ → World
dropped_one w none = w
dropped_one w (some ticket) = record w {
  pool = drop_reservation w.pool;
  holder = none;
  dropped = w.dropped + 1;
}

abbrev taken : World → PoolState × Taken → World
taken w (s, runs_job ticket) = record w { pool = s; started = ticket ∷ w.started }
taken w (s, worker_ends) = record w { pool = s }
taken w (s, worker_waits) = record w { pool = s }

abbrev drained : World → Option (PoolState × List ℕ) → World
drained w none = w
drained w (some (s, jobs)) = record w { pool = s; cancelled = w.cancelled + length jobs }

-- The closer drains the queue once it has begun to close.
abbrev drain_in : PoolLifecycle → World → World
drain_in pool_closing w = drained w (drain_queue w.pool)
drain_in _ w = w

unfoldable pub step : NativePoolOptions → Call → World → World
unfolding reserve commit drop_reservation take_job finish_job cancel_queued begin_close drain_queue
    end_close
step options (reserve_one is_cancelled) w = reserved w (reserve options is_cancelled w.pool)
step options commit_one w = committed w w.holder
step options drop_one w = dropped_one w w.holder
step options take_one w = taken w (take_job w.pool)
step options finish_one w = record w { pool = finish_job w.pool }
step options (cancel_one ticket) w =
    let (s, found) = cancel_queued w.pool ticket in
    record w { pool = s; cancelled = w.cancelled + one_if found }
step options close_one w = record w { pool = (begin_close w.pool).0 }
step options drain_one w = drain_in w.pool.lifecycle w
step options (end_one joins) w = record w { pool = (end_close w.pool joins).0 }

unfoldable pub run : NativePoolOptions → List Call → World → World
run options [] w = w
run options (c ∷ cs) w = run options cs (step options c w)

abbrev pub new_world : World
new_world = record { pool = new_state; holder = none; started = []; cancelled = 0; dropped = 0 }

-- The ticket that is reserved is the last one given.
abbrev Held : Option ℕ → ℕ → ℕ → Type 0
Held none reserved next = reserved ≡ 0
Held (some ticket) reserved next = (reserved ≡ 1) × (ticket + 1 ≡ next)

pub record IsOrdered (options : NativePoolOptions) (w : World) : Type 0 where
  pub next_start : ℕ
  pub started_in_order : Falling next_start w.started
  pub queued_in_order : Between next_start w.pool.queue (w.pool.next_ticket - w.pool.reserved)
  pub held : Held w.holder w.pool.reserved w.pool.next_ticket
  pub bounded : length w.pool.queue + w.pool.reserved ≤ options.max_queued_jobs
  pub accounted :
      length w.started + length w.pool.queue + w.pool.reserved + w.cancelled + w.dropped + 1
      ≡ w.pool.next_ticket

reserve_one-IsOrdered :
    (options : NativePoolOptions) (b : Bool) (w : World)
    → IsOrdered options w
    → IsOrdered options (step options (reserve_one b) w)
unfolding step
reserve_one-IsOrdered options b w v = ground arith

-- What the commit of a reservation leaves.
pushed :
    (low : ℕ) (queue : List ℕ) (ticket reserved next : ℕ)
    → Held (some ticket) reserved next
    → Between low queue (next - reserved)
    → Between low (queue ++ ticket ∷ []) (next - 0)
pushed low queue ticket reserved next h v =
    let last : next - reserved ≡ ticket = omega (arith, h.0, h.1) in
    let all : ticket + 1 ≡ next - 0 = omega (arith, h.1) in
    rw⁻¹ all (Between-push low queue ticket (rw⁻¹ last v))

commit_one-IsOrdered :
    (options : NativePoolOptions) (w : World)
    → IsOrdered options w
    → IsOrdered options (step options commit_one w)
unfolding step
commit_one-IsOrdered options w v = on_holder w.holder refl
  where
    on_holder :
        (holder : Option ℕ) → w.holder ≡ holder → IsOrdered options (step options commit_one w)
    on_holder none e = ground arith
    on_holder (some ticket) e = ground (
      arith,
      pushed v.next_start w.pool.queue ticket w.pool.reserved w.pool.next_ticket,
      length-append w.pool.queue (ticket ∷ []),
    )

drop_one-IsOrdered :
    (options : NativePoolOptions) (w : World)
    → IsOrdered options w
    → IsOrdered options (step options drop_one w)
unfolding step
drop_one-IsOrdered options w v = ground (
  arith,
  Between-higher v.next_start w.pool.queue (w.pool.next_ticket - w.pool.reserved)
      (w.pool.next_ticket - 0),
)

take_one-IsOrdered :
    (options : NativePoolOptions) (w : World)
    → IsOrdered options w
    → IsOrdered options (step options take_one w)
unfolding step
take_one-IsOrdered options w v = on_queue w.pool.lifecycle w.pool.queue refl refl
  where
    on_queue :
        (lifecycle : PoolLifecycle) (queue : List ℕ)
        → w.pool.lifecycle ≡ lifecycle
        → w.pool.queue ≡ queue
        → IsOrdered options (step options take_one w)
    on_queue pool_open (t ∷ ts) e f = record {
      next_start = t + 1;
      started_in_order = ground (arith, Falling-higher v.next_start t w.started);
      queued_in_order = ground arith;
      held = ground arith;
      bounded = ground arith;
      accounted = ground arith;
    }
    on_queue pool_open [] e f = record {
      next_start = v.next_start;
      started_in_order = ground arith;
      queued_in_order = ground arith;
      held = ground arith;
      bounded = ground arith;
      accounted = ground arith;
    }
    on_queue pool_closing queue e f = ground arith
    on_queue pool_closed queue e f = ground arith

cancel_one-IsOrdered :
    (options : NativePoolOptions) (ticket : ℕ) (w : World)
    → IsOrdered options w
    → IsOrdered options (step options (cancel_one ticket) w)
unfolding step
cancel_one-IsOrdered options ticket w v = ground (
  arith,
  remove_ticket-Between v.next_start w.pool.queue (w.pool.next_ticket - w.pool.reserved) ticket,
  length-remove_ticket w.pool.queue ticket,
)

drain_one-IsOrdered :
    (options : NativePoolOptions) (w : World)
    → IsOrdered options w
    → IsOrdered options (step options drain_one w)
unfolding step
drain_one-IsOrdered options w v =
    ground (arith, Between-le v.next_start w.pool.queue (w.pool.next_ticket - w.pool.reserved))

step-IsOrdered :
    (options : NativePoolOptions) (c : Call) (w : World)
    → IsOrdered options w
    → IsOrdered options (step options c w)
step-IsOrdered options (reserve_one b) w v = reserve_one-IsOrdered options b w v
step-IsOrdered options commit_one w v = commit_one-IsOrdered options w v
step-IsOrdered options drop_one w v = drop_one-IsOrdered options w v
step-IsOrdered options take_one w v = take_one-IsOrdered options w v
step-IsOrdered options finish_one w v = unfold step in ground arith
step-IsOrdered options (cancel_one ticket) w v = cancel_one-IsOrdered options ticket w v
step-IsOrdered options close_one w v = unfold step in ground arith
step-IsOrdered options drain_one w v = drain_one-IsOrdered options w v
step-IsOrdered options (end_one joins) w v = unfold step in ground arith

run_from-IsOrdered :
    (options : NativePoolOptions) (cs : List Call) (w : World)
    → IsOrdered options w
    → IsOrdered options (run options cs w)
unfolding run
run_from-IsOrdered options [] w v = v
run_from-IsOrdered options (c ∷ cs) w v =
    run_from-IsOrdered options cs (step options c w) (step-IsOrdered options c w v)

-- Any submissions, cancellations, workers and closes on a new pool with room for a job, in any order: the
-- jobs start in the order of their tickets, each at most once; the queue holds later tickets in their
-- order, and with the reservation no more than the pool's limit; and every ticket was started, is queued
-- or reserved, or its job was cancelled or its reservation dropped.
pub run-IsOrdered :
    (options : NativePoolOptions) (cs : List Call)
    → 1 ≤ options.max_queued_jobs
    → IsOrdered options (run options cs new_world)
run-IsOrdered options cs h = run_from-IsOrdered options cs new_world (record {
  next_start = 1;
  started_in_order = tt;
  queued_in_order = omega arith;
  held = refl;
  bounded = omega arith;
  accounted = refl;
})
