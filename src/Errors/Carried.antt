-- ===== src/Errors/Carried.antt =====
-- A typed error carries what the server sent with the raw one.
use seam_sdk.Prelude.{◌≡◌, refl, Option, some, ap}
use seam_sdk.Prelude.Int.{ℤ}
use seam_sdk.Bytes.{Text}
use seam_sdk.Details.{
  pairs, normalized_trailing_metadata, Dict, info_reason, info_metadata, info_macp_code, reason,
  error_metadata, macp_code, retry_after,
}
use seam_sdk.Details.Sent.{Payload, IsPayload, trailing_of, sent_info, sent_delay}
use seam_sdk.Details.Reads.{seam_error_info-sent_info, retry_after-sent_delay}
use seam_sdk.Errors.{
  StatusCode, RpcError, RawError, raw, returning, by_code, code_of, observed, map_rpc_error,
}

-- A typed error whose properties are these.
pub record Carries (e : RpcError) (info : Option (Text × Dict)) (delay : Option ℤ) : Type 0 where
  pub reason_is : reason e.trailing ≡ info_reason info
  pub metadata_is : error_metadata e.trailing ≡ info_metadata info
  pub macp_code_is : macp_code e.trailing ≡ info_macp_code info
  pub retry_after_is : retry_after e.trailing ≡ delay

-- For every payload that a server writes as proto3 has it, the fields in their order, without scalars at their
-- defaults, and with both fields of a map entry or without an empty one, and sends under the key in the trailing metadata, the typed error has the class of its
-- code, and its four properties are those of the first `ErrorInfo` of Seam's domain and of the first
-- `RetryInfo` in the payload's details, each of which fits its encoding.
pub map_rpc_error-Carries :
    (code : StatusCode) (details : Option (Option Text)) (p : Payload)
    → IsPayload p
    → let e : RawError = record {
      code = some (some code);
      details = details;
      trailing_metadata = returning (pairs (trailing_of p));
    } in
      let mapped = map_rpc_error (raw e) in
      (mapped.error_class ≡ by_code code) × Carries mapped (sent_info p.sent) (sent_delay p.sent)
unfolding map_rpc_error code_of observed normalized_trailing_metadata reason error_metadata
    macp_code
map_rpc_error-Carries code details p h = (
  refl,
  record {
    reason_is = ap info_reason (seam_error_info-sent_info h);
    metadata_is = ap info_metadata (seam_error_info-sent_info h);
    macp_code_is = ap info_macp_code (seam_error_info-sent_info h);
    retry_after_is = retry_after-sent_delay h;
  },
)
