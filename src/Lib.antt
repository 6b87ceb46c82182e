-- ===== src/Lib.antt =====
-- EasyCon SDK: a model of the parts that decide what a controller sends and how work ends.
--
-- The SDK drives a game controller over a serial line. An application holds a Runtime
-- (crates/easycon-runtime), which supervises operations, tasks and event subscriptions, and Controller
-- sessions (crates/easycon-controller), which turn actions, sequences and Amiibo data into packets of a
-- transport. easycon-model has the values that they share.
--
-- Model -- crates/easycon-model/src/error.rs, id.rs and controller.rs. Errors, identifiers, buttons, HAT
-- positions and sticks.
-- Report -- crates/easycon-controller/src/protocol.rs, and `ControllerAction` of session.rs. `SwitchReport`
-- is a record; `encode` is its two loops as `feed_all` and `drain`, on a state of their four variables.
-- Sequence -- sequence.rs, and `schedule_sequence` of session.rs as the list of the reports that it
-- queues. An overflow of a target, after which the source drops the whole sequence, is an absent plan.
-- Transport -- `TransportError` of transport.rs and what session.rs makes of one.
-- Amiibo -- amiibo.rs. Limits and commands. Amiibo.Exchange is `exchange_ack` of session.rs over a lane, whose
-- clock, transport and operation are the fields of a record; Amiibo.Save is `handle_amiibo_save` over any
-- exchange, and `lane_port` puts the two together.
-- Settlement -- `WriteSettlement` of transport.rs. A method is a step on the gate and on a world, which the
-- reservations and the hook read and change.
-- Lease -- the records behind an Automation lease in session.rs: `AcquireRecord`, `OperationSettlementRecord`,
-- `ReleaseRecord`, `ReleaseInterruptRegistry` and `LeaseGeneration`. What is shared there is a number here, and
-- stands in a store; `admit` has two critical sections, between which other calls come.
-- Runtime.Arbiter and Runtime.Lifecycle -- `TerminalArbiterState` and `TaskLifecycleState` of
-- crates/easycon-runtime/src/concurrency.rs. A method answers with the state after it.
-- Runtime.Cancellation -- cancellation.rs, and `seal_cancelled_tree` of concurrency.rs: a tree of nodes that is
-- sealed by recursion. A child has with it whether its weak reference can be upgraded.
-- Runtime.Events -- the queue of a subscription in event.rs. `none` is a failed `expect`.
-- Runtime.Operation -- operation.rs. A method that ends an operation has two critical sections, with
-- callbacks between them; the model has both, and Operation.System interleaves them with every other
-- call. The arbiter is that of Runtime.Arbiter. Events, callbacks and wake-ups are a list of effects.
-- Runtime.Table -- a map of the standard library with numbers as keys, as an association list.
-- Runtime.Deadline and Runtime.Clock -- deadline.rs, and the virtual clock of clock.rs. The signal of a
-- registration is found under its id, and the heap is its sorted list. Deadline.Scheduler interleaves the critical
-- sections: what one takes off the scheduler is handed to its thread, which resolves it in any order.
-- Runtime.Supervisor -- runtime.rs: the state, the registries as ids, admissions, handles, and the election of the
-- thread that closes. Supervisor.Path is the deterministic close, as its effects and its outcome over what
-- resources, tasks, operations and event queues answer, and a panic that leaves one of its phases. Supervisor.Task is one task whose Runtime lives, with the
-- sections of its spawn, its body and the other threads that join it in any order.
-- Runtime.Publish -- the publication of events in runtime.rs, over the queues of Runtime.Events.
-- Vision -- crates/easycon-vision/src: error.rs; image.rs; pool.rs, whose critical sections are functions on the
-- pool's state; and of label.rs the text similarity, the diagnostics, the regions and the Base64 of a target.
-- Serial -- crates/easycon-serial/src/transport.rs. A write takes with it what the stream answers when it is
-- asked; what the device has of a write that fails is up to the stream.
-- Common -- tests into Bool, lists, and bits of numbers.
--
-- Locks: a section under one lock is one call, so a run is a list of calls. The loops of the registry of releases run
-- behind its lock, one record a call. Machine
-- integers are numbers with their wrap-around or saturation written out. The inner loop of `encode` runs on
-- fuel, the count of pending bits, which falls in each round. The wait for an acknowledgement runs on fuel,
-- which the number of late frames bounds; the loop that fires deadlines runs on the length of its queue, from
-- which every turn takes a pair. The retries of a chunk are counted down from their maximum. All
-- other recursion is structural.
--
-- Not modelled: threads, blocking waits, the system clock and the operating system; the deadline worker of
-- the Runtime and the deadlines of operations; the reports and the close of a session's lane; the bytes of
-- a serial handshake and the ports of Windows; the parser of labels as a whole, capture and OCR, and all native code; Display
-- texts. A callback of an operation is what it comes to: a cleanup completes or panics, and an
-- observer returns or panics. The stream below a transport, the transport of an exchange, the
-- native crop, the test for white space and the Base64 of the third party are parameters.
pub mod Common
pub mod Model
pub mod Report
pub mod Sequence
pub mod Transport
pub mod Amiibo
pub mod Settlement
pub mod Lease
pub mod Runtime
pub mod Vision
pub mod Serial
