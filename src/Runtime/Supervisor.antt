-- ===== src/Runtime/Supervisor.antt =====
-- runtime.rs: the state of a Runtime, its registries and its close, each function as one critical section
-- under the lock of the state. A registry is its ids, and a thread is its number.
pub mod System
pub mod Once
pub mod Shut
pub mod Unique
pub mod Path
pub mod Task
mod Tests
use easycon_sdk.Common.{
  ℕ, ◌+◌, ◌-◌, ◌^◌, ltb, ◌==◌, ◌||◌, not, Bool, true, false, String, Option, none, some, List, [],
  ◌∷◌, if◌then◌else◌,
}
use easycon_sdk.Model.Error.{
  ErrorDomain, ErrorCode, runtime_closing, invalid_argument, EasyConError, new_error,
  validation_error,
}
use easycon_sdk.Runtime.Table.{insert, remove}
use easycon_sdk.Runtime.Deadline.{fetch_add}

pub data RuntimeState : Type 0 where
  active closing closed close_failed : RuntimeState

pub record RuntimeCounts : Type 0 where
  pub active_operations : ℕ
  pub active_resources : ℕ
  pub active_tasks : ℕ

pub data ClosePhase : Type 0 where
  at_start resource_cleanup task_join operation_finalization internal_task_join registry_convergence
        final_event :
      ClosePhase

pub record CloseReport : Type 0 where
  pub phase : ClosePhase
  pub diagnostic : String
  pub resource_id : Option ℕ
  pub task_id : Option ℕ
  pub counts : RuntimeCounts

pub data CloseOutcome : Type 0 where
  ended_closed : CloseOutcome
  ended_failed : CloseReport → CloseOutcome

abbrev pub Ids : Type 0
Ids = List (ℕ × Unit {0})

-- `admission_open` is that of the deadline scheduler.
pub record RuntimeInner : Type 0 where
  pub runtime_handles : ℕ
  pub state : RuntimeState
  pub close_in_progress : Bool
  pub close_owner : Option ℕ
  pub close_outcome : Option CloseOutcome
  pub next_id : ℕ
  pub operations : Ids
  pub resources : Ids
  pub tasks : Ids
  pub admission_open : Bool

-- What `Runtime::new` leaves: the first id is that of the deadline task.
abbrev pub new_runtime : RuntimeInner
new_runtime = record {
  runtime_handles = 1;
  state = active;
  close_in_progress = false;
  close_owner = none;
  close_outcome = none;
  next_id = 2;
  operations = [];
  resources = [];
  tasks = (1, tt) ∷ [];
  admission_open = true;
}

abbrev pub is_active : RuntimeState → Bool
is_active active = true
is_active _ = false

abbrev pub ensure_active : RuntimeState → Option EasyConError
ensure_active active = none
ensure_active _ =
    some (new_error ErrorDomain.runtime runtime_closing "Runtime is closing or closed")

abbrev pub allocate_id : RuntimeInner → RuntimeInner × Option ℕ
allocate_id r = let (next, id) = fetch_add r.next_id in (record r { next_id = next }, id)

-- What an admission answers: an error, the panic of `allocate_id`, or an id.
pub data Admitted : Type 0 where
  refuses : EasyConError → Admitted
  panics : Admitted
  admits : (id : ℕ) → Admitted

pub data Kind : Type 0 where
  an_operation a_resource a_task : Kind

abbrev register : Kind → RuntimeInner → ℕ → RuntimeInner
register an_operation r id = record r { operations = insert id tt r.operations }
register a_resource r id = record r { resources = insert id tt r.resources }
register a_task r id = record r { tasks = insert id tt r.tasks }

abbrev allocated : Kind → RuntimeInner × Option ℕ → RuntimeInner × Admitted
allocated kind (r, none) = (r, panics)
allocated kind (r, some id) = (register kind r id, admits id)

abbrev admit_in : Kind → RuntimeInner → Option EasyConError → RuntimeInner × Admitted
admit_in kind r (some e) = (r, refuses e)
admit_in kind r none = allocated kind (allocate_id r)

-- `register_resource`, and `spawn_supervised` up to the registration of its task.
unfoldable pub admit : Kind → RuntimeInner → RuntimeInner × Admitted
unfolding fetch_add
admit kind r = admit_in kind r (ensure_active r.state)

abbrev parented : RuntimeInner → Bool → Bool → RuntimeInner × Admitted
parented r owned alive =
    if not owned
    then (
      r,
      refuses (validation_error "operation cancellation parent belongs to a different Runtime"),
    )
    else if not alive
    then (r, refuses (validation_error "operation cancellation parent is no longer active"))
    else allocated an_operation (allocate_id r)

abbrev operation_in : RuntimeInner → Option EasyConError → Bool → Bool → RuntimeInner × Admitted
operation_in r (some e) owned alive = (r, refuses e)
operation_in r none owned alive = parented r owned alive

-- The section of `create_operation_with_parent` that registers: whether the parent is of this Runtime, and
-- whether it still gives a child.
unfoldable pub create_operation_with_parent :
    RuntimeInner → (owned alive : Bool) → RuntimeInner × Admitted
unfolding fetch_add
create_operation_with_parent r owned alive = operation_in r (ensure_active r.state) owned alive

-- A transferable owner takes one id more; the operation is registered once all are taken.
abbrev third_id : ℕ → RuntimeInner × Option ℕ → RuntimeInner × Admitted
third_id id (r, none) = (r, panics)
third_id id (r, some transfer_owner) = (register an_operation r id, admits id)

abbrev second_id : Bool → ℕ → RuntimeInner × Option ℕ → RuntimeInner × Admitted
second_id transferable id (r, none) = (r, panics)
second_id false id (r, some owner) = (register an_operation r id, admits id)
second_id true id (r, some owner) = third_id id (allocate_id r)

abbrev first_id : Bool → RuntimeInner × Option ℕ → RuntimeInner × Admitted
first_id transferable (r, none) = (r, panics)
first_id transferable (r, some id) = second_id transferable id (allocate_id r)

abbrev owned_in : RuntimeInner → Option EasyConError → Bool → Bool → RuntimeInner × Admitted
owned_in r (some e) alive transferable = (r, refuses e)
owned_in r none alive transferable =
    if not alive
    then (r, refuses (validation_error "operation cancellation parent is no longer active"))
    else first_id transferable (allocate_id r)

unfoldable pub create_operation_with_settlement_owner :
    RuntimeInner → (alive transferable : Bool) → RuntimeInner × Admitted
unfolding fetch_add
create_operation_with_settlement_owner r alive transferable =
    owned_in r (ensure_active r.state) alive transferable

-- `ResourceRegistration::unregister`, `unregister_operation`, and the end of `join_supervised_task`.
unfoldable pub unregister : Kind → RuntimeInner → (id : ℕ) → RuntimeInner
unregister an_operation r id = record r { operations = remove id r.operations }
unregister a_resource r id = record r { resources = remove id r.resources }
unregister a_task r id = record r { tasks = remove id r.tasks }

pub data CloseRejection : Type 0 where
  supervised_task close_owner_thread : CloseRejection

-- What a turn of `close` finds.
pub data Closing : Type 0 where
  rejects : CloseRejection → Closing
  owns_close close_waits : Closing
  close_ends : Option CloseOutcome → Closing

abbrev pub turn_in : RuntimeState → RuntimeInner → RuntimeInner × Closing
turn_in active r =
    (record r { admission_open = false; state = closing; close_in_progress = true }, owns_close)
turn_in closing r =
    if r.close_in_progress
    then (r, close_waits)
    else (record r { close_in_progress = true }, owns_close)
turn_in closed r = (r, close_ends r.close_outcome)
turn_in close_failed r = (r, close_ends r.close_outcome)

abbrev pub is_thread : Option ℕ → ℕ → Bool
is_thread none thread = false
is_thread (some owner) thread = owner == thread

-- `close` with a turn of the loop of `close_impl`; `close_ends none` is the panic of `saved_close_outcome`.
unfoldable pub close : RuntimeInner → (thread : ℕ) → (is_supervised : Bool) → RuntimeInner × Closing
close r thread is_supervised =
    if is_supervised
    then (r, rejects supervised_task)
    else if is_thread r.close_owner thread
    then (r, rejects close_owner_thread)
    else turn_in r.state r

unfoldable pub bind_close_owner : RuntimeInner → (thread : ℕ) → RuntimeInner
bind_close_owner r thread = record r { close_owner = some thread }

abbrev pub close_target : CloseOutcome → RuntimeState
close_target ended_closed = closed
close_target (ended_failed report) = close_failed

unfoldable pub complete_close : RuntimeInner → CloseOutcome → RuntimeInner
complete_close r outcome = record r { close_outcome = some outcome; state = close_target outcome }

-- The drop of the `CloseOwnerGuard`.
unfoldable pub drop_close_owner : RuntimeInner → RuntimeInner
drop_close_owner r = record r { close_owner = none }

abbrev pub usize_limit : ℕ
usize_limit = 2 ^ 64

-- The clone of an owning handle; absent if the count is exhausted.
unfoldable pub clone_handle : RuntimeInner → Option RuntimeInner
clone_handle r =
    if ltb (r.runtime_handles + 1) usize_limit
    then some (record r { runtime_handles = r.runtime_handles + 1 })
    else none

abbrev last_dropped : RuntimeState → RuntimeInner → RuntimeInner × Bool
last_dropped active r = (record r { admission_open = false; state = closing }, true)
last_dropped _ r = (r, false)

-- The drop of an owning handle: whether the root is cancelled.
unfoldable pub drop_handle : RuntimeInner → RuntimeInner × Bool
drop_handle r =
    if r.runtime_handles == 0
    then (r, false)
    else let less = record r { runtime_handles = r.runtime_handles - 1 } in
      if r.runtime_handles == 1 then last_dropped r.state less else (less, false)
