-- ===== src/Lease.antt =====
-- crates/easycon-controller/src/session.rs: the records behind an Automation lease, from the request for
-- it to its release, and the errors that they answer with. Each method runs under its record's lock.
pub mod Acquire
pub mod Record
pub mod Release
pub mod Registry
pub mod Generation
use easycon_sdk.Model.Error.{
  EasyConError, new_error, controller, internal, device_disconnected, invalid_argument,
  internal_code,
}

abbrev pub invalid_automation_lease_error : EasyConError
invalid_automation_lease_error =
    new_error controller invalid_argument
      "Automation lease is not valid for this controller generation"

abbrev pub closed_lane_error : EasyConError
closed_lane_error = new_error controller device_disconnected "controller lane is closed"

abbrev pub acquire_clock_panic_error : EasyConError
acquire_clock_panic_error =
    new_error internal internal_code
      "Runtime Clock panicked while resolving an Automation lease acquisition"

abbrev pub acquire_resolution_panic_error : EasyConError
acquire_resolution_panic_error =
    new_error internal internal_code "Automation lease grant resolution panicked"

abbrev pub automation_admission_panic_error : EasyConError
automation_admission_panic_error =
    new_error internal internal_code "Automation lease action admission panicked"

abbrev pub lane_ended_error : EasyConError
lane_ended_error =
    new_error internal internal_code
      "controller lane ended before Automation lease cleanup was registered"
