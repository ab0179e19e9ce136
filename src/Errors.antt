-- ===== src/Errors.antt =====
-- The typed errors of `python/seam_sdk/errors.py`, the mapping of raw errors to them and the predicates
-- on them.
pub mod Carried
pub mod Refused
mod Runs
use seam_sdk.Prelude.{Option, none, some, codes, bytes_eq, ◌&&◌, ◌||◌, Bool, true, false, Exn, []}
use seam_sdk.Bytes.{Text}
use seam_sdk.Details.{Metadata, RawMetadata, absent, normalized_trailing_metadata, reason}

-- `grpc.StatusCode`.
pub data StatusCode : Type 0 where
  ok_status cancelled unknown invalid_argument deadline_exceeded not_found already_exists :
      StatusCode
  permission_denied resource_exhausted failed_precondition aborted out_of_range : StatusCode
  unimplemented internal unavailable data_loss unauthenticated : StatusCode

-- The subclasses of `SeamRpcError`.
pub data ErrorClass : Type 0 where
  invalid_argument_error failed_precondition_error permission_denied_error : ErrorClass
  unauthenticated_error not_found_error already_exists_error : ErrorClass
  resource_exhausted_error unavailable_error deadline_exceeded_error : ErrorClass
  unimplemented_error internal_error : ErrorClass

-- `_BY_CODE.get(code, InternalError)`.
unfoldable pub by_code : StatusCode → ErrorClass
by_code invalid_argument = invalid_argument_error
by_code failed_precondition = failed_precondition_error
by_code permission_denied = permission_denied_error
by_code unauthenticated = unauthenticated_error
by_code not_found = not_found_error
by_code already_exists = already_exists_error
by_code resource_exhausted = resource_exhausted_error
by_code unavailable = unavailable_error
by_code deadline_exceeded = deadline_exceeded_error
by_code unimplemented = unimplemented_error
by_code _ = internal_error

-- `SeamRpcError` and its subclasses.
pub record RpcError : Type 0 where
  pub error_class : ErrorClass
  pub code : StatusCode
  pub details : Text
  pub trailing : Option Metadata

-- An exception that a call raises: a typed error of the server, or one of Python's.
pub data Failure : Type 0 where
  rpc : RpcError → Failure
  local : Exn → Failure

-- What gRPC raises. An accessor may be missing, the first two may return `None`, and the last may
-- raise.
pub data Accessor (A : Type 0) : Type 0 where
  missing raising : Accessor A
  returning : A → Accessor A

pub record RawError : Type 0 where
  pub code : Option (Option StatusCode)
  pub details : Option (Option Text)
  pub trailing_metadata : Accessor RawMetadata

pub data Caught : Type 0 where
  typed : RpcError → Caught
  raw : RawError → Caught

unfoldable pub code_of : Option (Option StatusCode) → StatusCode
code_of (some (some code)) = code
code_of _ = unknown

unfoldable pub details_text : Option (Option Text) → Text
details_text (some (some details)) = details
details_text _ = []

unfoldable pub observed : Accessor RawMetadata → RawMetadata
observed (returning trailing) = trailing
observed _ = absent

unfoldable pub map_rpc_error : Caught → RpcError
unfolding by_code code_of details_text observed normalized_trailing_metadata
map_rpc_error (typed e) = e
map_rpc_error (raw e) = record {
  error_class = by_code (code_of e.code);
  code = code_of e.code;
  details = details_text e.details;
  trailing = normalized_trailing_metadata (observed e.trailing_metadata);
}

abbrev pub session_unavailable_reason : Text
session_unavailable_reason = codes "SESSION_UNAVAILABLE"

abbrev pub wrong_cell_reason : Text
wrong_cell_reason = codes "WRONG_CELL"

abbrev pub tenant_moving_reason : Text
tenant_moving_reason = codes "TENANT_MOVING"

unfoldable pub is_reason : Option Text → Text → Bool
is_reason none wanted = false
is_reason (some reason) wanted = bytes_eq reason wanted

unfoldable pub is_unavailable_class : ErrorClass → Bool
is_unavailable_class unavailable_error = true
is_unavailable_class _ = false

unfoldable pub is_failed_precondition_class : ErrorClass → Bool
is_failed_precondition_class failed_precondition_error = true
is_failed_precondition_class _ = false

unfoldable pub is_unauthenticated : Failure → Bool
is_unauthenticated (rpc e) = elim e.error_class [ unauthenticated_error ↦ true | _ ↦ false ]
is_unauthenticated (local e) = false

unfoldable pub is_session_unavailable : Failure → Bool
unfolding is_reason reason is_unavailable_class
is_session_unavailable (rpc e) =
    is_unavailable_class e.error_class && is_reason (reason e.trailing) session_unavailable_reason
is_session_unavailable (local e) = false

unfoldable pub is_wrong_cell : Failure → Bool
unfolding is_reason reason is_failed_precondition_class
is_wrong_cell (rpc e) =
    is_failed_precondition_class e.error_class && is_reason (reason e.trailing) wrong_cell_reason
is_wrong_cell (local e) = false

unfoldable pub is_tenant_moving : Failure → Bool
unfolding is_reason reason is_failed_precondition_class
is_tenant_moving (rpc e) =
    is_failed_precondition_class e.error_class && is_reason (reason e.trailing) tenant_moving_reason
is_tenant_moving (local e) = false

unfoldable pub is_retryable : Failure → Bool
is_retryable e = is_session_unavailable e || is_tenant_moving e

-- `isinstance(e, (UnavailableError, FailedPreconditionError))`.
unfoldable pub is_refusal : Failure → Bool
is_refusal (rpc e) =
    is_unavailable_class e.error_class || is_failed_precondition_class e.error_class
is_refusal (local e) = false
