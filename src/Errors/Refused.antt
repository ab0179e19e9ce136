-- ===== src/Errors/Refused.antt =====
-- Errors as a small server sends them, for the tests.
use seam_sdk.Prelude.{true, none, some, List, [], codes}
use seam_sdk.Bytes.{Text}
use seam_sdk.Details.{absent, pairs, status_details_key, seam_error_domain}
use seam_sdk.Details.Sent.{Sent, error_info, Payload, trailing_of}
use seam_sdk.Errors.{StatusCode, Failure, rpc, raw, returning, map_rpc_error}

abbrev pub payload : List Sent → Payload
payload sent = record {
  code = 14;
  message = codes "m";
  sent = sent;
  before = [];
  after = [];
  key = status_details_key;
}

abbrev pub refusal_of : StatusCode → List Sent → Failure
refusal_of code sent = rpc (
    map_rpc_error (
      raw (record {
        code = some (some code);
        details = none;
        trailing_metadata = returning (pairs (trailing_of (payload sent)));
      })))

abbrev pub bare : StatusCode → Failure
bare code = rpc (
    map_rpc_error (
      raw
        (record { code = some (some code); details = none; trailing_metadata = returning absent })))

abbrev pub with_reason : Text → Sent
with_reason reason =
    error_info true (record { reason = reason; domain = seam_error_domain; metadata = [] })
