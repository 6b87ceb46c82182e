-- ===== src/Transport.antt =====
-- crates/easycon-controller/src/transport.rs: the errors of a transport, and what session.rs makes of
-- them. The `Display` of an error is a parameter of the one message that contains it.
use easycon_sdk.Common.{Bool, true, false, String}
use easycon_sdk.Model.Error.{
  ErrorDomain, runtime, controller, io, ErrorCode, cancelled, protocol_timeout, protocol_error,
  device_disconnected, transport, EasyConError, new_error,
}

-- `io_failure` is the source's `TransportErrorKind::Io`, `wait_cancelled` its `Cancelled`.
pub data TransportErrorKind : Type 0 where
  timeout write_timeout wait_cancelled disconnected io_failure protocol : TransportErrorKind

pub record TransportError : Type 0 where
  pub kind : TransportErrorKind
  pub message : String
  pub stream_reusable : Bool
  pub cleanup_failure : Bool

-- `TransportError::new`.
abbrev pub new_transport_error : TransportErrorKind → String → TransportError
new_transport_error k m = record {
  kind = k;
  message = m;
  stream_reusable = false;
  cleanup_failure = false;
}

abbrev pub reusable_stream : TransportErrorKind → String → TransportError
reusable_stream k m = record {
  kind = k;
  message = m;
  stream_reusable = true;
  cleanup_failure = false;
}

-- `TransportError::cleanup_failure`; `describe` formats the message.
abbrev pub new_cleanup_failure :
    (TransportError → TransportError → String) → TransportError → TransportError → TransportError
new_cleanup_failure describe primary cleanup = record {
  kind = io_failure;
  message = describe primary cleanup;
  stream_reusable = false;
  cleanup_failure = true;
}

abbrev mapped_domain : TransportErrorKind → ErrorDomain
mapped_domain timeout = controller
mapped_domain write_timeout = io
mapped_domain wait_cancelled = runtime
mapped_domain disconnected = io
mapped_domain io_failure = io
mapped_domain protocol = controller

abbrev mapped_code : TransportErrorKind → ErrorCode
mapped_code timeout = protocol_timeout
mapped_code write_timeout = transport
mapped_code wait_cancelled = cancelled
mapped_code disconnected = device_disconnected
mapped_code io_failure = transport
mapped_code protocol = protocol_error

abbrev pub map_transport_error : TransportError → EasyConError
map_transport_error e = new_error (mapped_domain e.kind) (mapped_code e.kind) e.message

abbrev pub is_retryable_amiibo_error : TransportError → Bool
is_retryable_amiibo_error e = elim e.kind [ timeout ↦ true | protocol ↦ true | _ ↦ false ]

abbrev pub cancelled_transport_error : TransportError
cancelled_transport_error =
    new_transport_error wait_cancelled "Controller operation cancelled during ACK exchange"
