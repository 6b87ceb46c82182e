-- ===== src/Model/Error.antt =====
-- crates/easycon-model/src/error.rs and id.rs. A message is a text; the `Display` output is left out.
use easycon_sdk.Common.{ℕ, zero, suc, String, Option, none, some}

pub data ErrorDomain : Type 0 where
  runtime controller io validation internal : ErrorDomain

-- `internal_code` is the source's `ErrorCode::Internal`.
pub data ErrorCode : Type 0 where
  runtime_closing wait_timeout deadline_exceeded cancelled protocol_timeout protocol_error
        device_disconnected transport resource_busy invalid_argument internal_code :
      ErrorCode

-- The place of a domain and of a code in its enum, which tell them apart.
abbrev pub domain_rank : ErrorDomain → ℕ
domain_rank runtime = 0
domain_rank controller = 1
domain_rank io = 2
domain_rank validation = 3
domain_rank internal = 4

abbrev pub code_rank : ErrorCode → ℕ
code_rank runtime_closing = 0
code_rank wait_timeout = 1
code_rank deadline_exceeded = 2
code_rank cancelled = 3
code_rank protocol_timeout = 4
code_rank protocol_error = 5
code_rank device_disconnected = 6
code_rank transport = 7
code_rank resource_busy = 8
code_rank invalid_argument = 9
code_rank internal_code = 10

pub record EasyConError : Type 0 where
  pub domain : ErrorDomain
  pub code : ErrorCode
  pub message : String

abbrev pub new_error : ErrorDomain → ErrorCode → String → EasyConError
new_error d c m = record { domain = d; code = c; message = m }

-- The `validation_error` helper of sequence.rs and of amiibo.rs.
abbrev pub validation_error : String → EasyConError
validation_error m = new_error validation invalid_argument m

-- The constructor of the four identifier types; `none` is its panic on zero.
unfoldable pub new_id : ℕ → Option ℕ
new_id zero = none
new_id (suc n) = some (suc n)

-- `Result<T, EasyConError>`.
pub data Result {ℓ} (A : Type ℓ) : Type ℓ where
  ok : A → Result A
  err : EasyConError → Result A
