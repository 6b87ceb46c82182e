-- ===== src/Runtime/Supervisor/System.antt =====
-- runtime.rs: admissions, closes and handles of a Runtime from any threads, as interleaved sections.
use easycon_sdk.Common.{ℕ, ◌+◌, Bool, Option, none, some, List, [], ◌∷◌}
use easycon_sdk.Runtime.Supervisor.{
  RuntimeInner, new_runtime, CloseOutcome, Kind, admit, create_operation_with_parent,
  create_operation_with_settlement_owner, unregister, Closing, rejects, owns_close, close_waits,
  close_ends, close, bind_close_owner, complete_close, drop_close_owner, clone_handle, drop_handle,
}

-- The thread that carries the close out; how many became its owner, how often an outcome was saved and what the
-- calls of `close` have returned, `none` being a panic.
pub record World : Type 0 where
  pub runtime : RuntimeInner
  pub closer : Option ℕ
  pub owners : ℕ
  pub commits : ℕ
  pub returned : List (Option CloseOutcome)

abbrev pub new_world : World
new_world = record { runtime = new_runtime; closer = none; owners = 0; commits = 0; returned = [] }

pub data Call : Type 0 where
  admit_one : Kind → Call
  create_one : (owned alive : Bool) → Call
  own_one : (alive transferable : Bool) → Call
  unregister_one : Kind → (id : ℕ) → Call
  close_one : (thread : ℕ) → (is_supervised : Bool) → Call
  complete_one : CloseOutcome → Call
  bind_one unbind_one clone_one drop_one : Call

abbrev pub closed_by : World → ℕ → RuntimeInner × Closing → World
closed_by w thread (r, rejects e) = record w { runtime = r }
closed_by w thread (r, owns_close) = record w {
  runtime = r;
  closer = some thread;
  owners = w.owners + 1;
}
closed_by w thread (r, close_waits) = record w { runtime = r }
closed_by w thread (r, close_ends outcome) = record w {
  runtime = r;
  returned = outcome ∷ w.returned;
}

abbrev bound : World → Option ℕ → World
bound w none = w
bound w (some thread) = record w { runtime = bind_close_owner w.runtime thread }

-- The owner returns the outcome that it saves.
abbrev completed : World → CloseOutcome → Option ℕ → World
completed w outcome none = w
completed w outcome (some thread) = record w {
  runtime = complete_close w.runtime outcome;
  closer = none;
  commits = w.commits + 1;
  returned = some outcome ∷ w.returned;
}

abbrev pub unbound : World → Option ℕ → World
unbound w none = record w { runtime = drop_close_owner w.runtime }
unbound w (some thread) = w

abbrev cloned : World → Option RuntimeInner → World
cloned w none = w
cloned w (some r) = record w { runtime = r }

unfoldable pub step : Call → World → World
unfolding admit create_operation_with_parent create_operation_with_settlement_owner unregister close
    bind_close_owner complete_close drop_close_owner clone_handle drop_handle
step (admit_one kind) w = record w { runtime = (admit kind w.runtime).0 }
step (create_one owned alive) w = record w {
  runtime = (create_operation_with_parent w.runtime owned alive).0;
}
step (own_one alive transferable) w = record w {
  runtime = (create_operation_with_settlement_owner w.runtime alive transferable).0;
}
step (unregister_one kind id) w = record w { runtime = unregister kind w.runtime id }
step (close_one thread is_supervised) w = closed_by w thread (close w.runtime thread is_supervised)
step (complete_one outcome) w = completed w outcome w.closer
step bind_one w = bound w w.closer
step unbind_one w = unbound w w.closer
step clone_one w = cloned w (clone_handle w.runtime)
step drop_one w = record w { runtime = (drop_handle w.runtime).0 }

unfoldable pub run : List Call → World → World
run [] w = w
run (c ∷ calls) w = run calls (step c w)
