-- ===== src/Vision/Pool.antt =====
-- pool.rs: the pool of native workers. Each function is one critical section under the lock of the state;
-- a section that waits on the condition variable answers that it waits. A job is its ticket.
pub mod Queue
pub mod Order
pub mod Closed
mod Tests
use easycon_sdk.Common.{
  ℕ, zero, suc, ◌+◌, ◌-◌, ◌^◌, ltb, leb, ◌==◌, ◌||◌, not, Bool, true, false, Option, none, some,
  List, [], ◌∷◌, ◌++◌, length, if◌then◌else◌, checked_add,
}
use easycon_sdk.Vision.Error.{
  validation_error, limit_error, cancelled_error, pool_closed_error, internal_error, VisionError,
  new_vision_error, VisionResult, ok_vision, err_vision, fail_vision,
}

pub record NativePoolOptions : Type 0 where
  pub workers : ℕ
  pub max_queued_jobs : ℕ

abbrev pub max_native_workers : ℕ
max_native_workers = 64

abbrev pub max_queued : ℕ
max_queued = 4096

-- `NativePoolOptions::new`.
unfoldable pub new_options : ℕ → ℕ → VisionResult NativePoolOptions
new_options workers max_queued_jobs =
    if workers == 0 || max_queued_jobs == 0
    then fail_vision validation_error "native pool workers and queue capacity must be non-zero"
    else if ltb max_native_workers workers || ltb max_queued max_queued_jobs
    then fail_vision limit_error "native pool configuration exceeds hard ceilings"
    else ok_vision (record { workers = workers; max_queued_jobs = max_queued_jobs })

pub data PoolLifecycle : Type 0 where
  pool_open pool_closing pool_closed : PoolLifecycle

pub record PoolState : Type 0 where
  pub lifecycle : PoolLifecycle
  pub next_ticket : ℕ
  pub reserved : ℕ
  pub queue : List ℕ
  pub in_flight : ℕ
  pub close_result : Option (VisionResult (Unit {0}))

-- The state that `NativePool::new` starts with.
abbrev pub new_state : PoolState
new_state = record {
  lifecycle = pool_open;
  next_ticket = 1;
  reserved = 0;
  queue = [];
  in_flight = 0;
  close_result = none;
}

-- `counts`.
pub record NativePoolCounts : Type 0 where
  pub queued : ℕ
  pub running : ℕ
  pub all_workers : ℕ
  pub is_closed : Bool

abbrev pub counts : NativePoolOptions → PoolState → NativePoolCounts
counts options s = record {
  queued = length s.queue;
  running = s.in_flight;
  all_workers = options.workers;
  is_closed = elim s.lifecycle [ pool_closed ↦ true | _ ↦ false ];
}

-- What a worker finds: nothing any more, nothing yet, or a job.
pub data Taken : Type 0 where
  worker_ends worker_waits : Taken
  runs_job : ℕ → Taken

abbrev pop_front : PoolState → List ℕ → PoolState × Taken
pop_front s [] = (s, worker_waits)
pop_front s (ticket ∷ queue) =
    (record s { queue = queue; in_flight = s.in_flight + 1 }, runs_job ticket)

abbrev take_in : PoolLifecycle → PoolState → PoolState × Taken
take_in pool_open s = pop_front s s.queue
take_in _ s = (s, if s.reserved == 0 then worker_ends else worker_waits)

-- One turn of `worker_loop` up to the job.
unfoldable pub take_job : PoolState → PoolState × Taken
take_job s = take_in s.lifecycle s

-- The end of a turn; the source asserts that `in_flight` is positive.
unfoldable pub finish_job : PoolState → PoolState
finish_job s = record s { in_flight = s.in_flight - 1 }

-- What a submission finds: an error, another one's reservation, or its ticket.
pub data Reserved : Type 0 where
  reserve_fails : VisionError → Reserved
  reserve_waits : Reserved
  reserves : ℕ → Reserved

abbrev ticketed : PoolState → Option ℕ → PoolState × Reserved
ticketed s none =
    (s, reserve_fails (new_vision_error internal_error "native job ticket space exhausted"))
ticketed s (some next) = (record s { next_ticket = next; reserved = 1 }, reserves s.next_ticket)

abbrev admitted : NativePoolOptions → PoolState → PoolState × Reserved
admitted options s =
    if leb options.max_queued_jobs (length s.queue)
    then (s, reserve_fails (new_vision_error limit_error "native job queue is full"))
    else ticketed s (checked_add s.next_ticket 1)

abbrev reserve_in : PoolLifecycle → NativePoolOptions → PoolState → PoolState × Reserved
reserve_in pool_open options s = if s.reserved == 0 then admitted options s else (s, reserve_waits)
reserve_in _ options s =
    (s, reserve_fails (new_vision_error pool_closed_error "native pool is closed"))

-- One turn of the loop of `reserve`.
unfoldable pub reserve :
    NativePoolOptions → (is_cancelled : Bool) → PoolState → PoolState × Reserved
reserve options is_cancelled s =
    if is_cancelled
    then (
      s,
      reserve_fails (new_vision_error cancelled_error "native job was cancelled before admission"),
    )
    else reserve_in s.lifecycle options s

-- `AdmissionReservation::commit`: whether the reservation was still there.
unfoldable pub commit : PoolState → (ticket : ℕ) → PoolState × Bool
commit s ticket =
    if s.reserved == 0
    then (s, false)
    else (record s { reserved = 0; queue = s.queue ++ ticket ∷ [] }, true)

-- The drop of a pending `AdmissionReservation`.
unfoldable pub drop_reservation : PoolState → PoolState
drop_reservation s = record s { reserved = 0 }

-- The queue without the first job of that ticket, and whether there was one.
abbrev pub remove_ticket : List ℕ → ℕ → List ℕ × Bool
remove_ticket [] ticket = ([], false)
remove_ticket (t ∷ ts) ticket =
    let (rest, found) = remove_ticket ts ticket in
    if t == ticket then (ts, true) else (t ∷ rest, found)

unfoldable pub cancel_queued : PoolState → (ticket : ℕ) → PoolState × Bool
cancel_queued s ticket =
    let (queue, found) = remove_ticket s.queue ticket in (record s { queue = queue }, found)

-- What a close finds first: that it is the closer, another closer, or the saved result.
pub data Closing : Type 0 where
  closes close_waits : Closing
  close_ends : VisionResult (Unit {0}) → Closing

abbrev saved_result : Option (VisionResult (Unit {0})) → VisionResult (Unit {0})
saved_result none = fail_vision internal_error "closed native pool has no saved result"
saved_result (some r) = r

abbrev close_in : PoolLifecycle → PoolState → PoolState × Closing
close_in pool_open s = (record s { lifecycle = pool_closing }, closes)
close_in pool_closing s = (s, close_waits)
close_in pool_closed s = (s, close_ends (saved_result s.close_result))

unfoldable pub begin_close : PoolState → PoolState × Closing
begin_close s = close_in s.lifecycle s

-- The closer takes the queue, unless it waits for a reservation: the jobs to cancel.
unfoldable pub drain_queue : PoolState → Option (PoolState × List ℕ)
drain_queue s = if s.reserved == 0 then some (record s { queue = [] }, s.queue) else none

-- How a worker's task was joined.
pub data Joined : Type 0 where
  completed panicked self_join : Joined

abbrev pub join_result : VisionResult (Unit {0}) → List Joined → VisionResult (Unit {0})
join_result r [] = r
join_result r (completed ∷ js) = join_result r js
join_result (ok_vision x) (panicked ∷ js) =
    join_result (fail_vision internal_error "native pool worker panicked outside the job boundary")
      js
join_result (ok_vision x) (self_join ∷ js) =
    join_result (fail_vision internal_error "native pool worker attempted to join itself") js
join_result (err_vision e) (j ∷ js) = join_result (err_vision e) js

abbrev is_empty : List ℕ → Bool
is_empty [] = true
is_empty (x ∷ xs) = false

-- The end of `close_inner`, after the joins.
unfoldable pub end_close : PoolState → List Joined → PoolState × VisionResult (Unit {0})
end_close s joins =
    let converged = s.in_flight == 0 in
    let result =
      if not converged || not (s.reserved == 0) || not (is_empty s.queue)
      then fail_vision internal_error "native pool workers exited before ownership converged"
      else join_result (ok_vision tt) joins in
    (record s { close_result = some result; lifecycle = pool_closed }, result)

-- What `make_job` runs: whether the token is cancelled before and after the call, and the call's result, absent if it panicked.
unfoldable pub run_job : {A : Type 0} → Bool → Option (VisionResult A) → Bool → VisionResult A
run_job true called after = fail_vision cancelled_error "native job was cancelled before execution"
run_job false called true = fail_vision cancelled_error "native job was cancelled while in flight"
run_job false none false = fail_vision internal_error "native job panicked"
run_job false (some r) false = r
