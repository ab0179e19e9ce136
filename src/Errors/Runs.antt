-- ===== src/Errors/Runs.antt =====
-- A refusal with all its details, read back.
use seam_sdk.Prelude.{◌≡◌, ◌↔◌, refl, true, false, none, some, [], ◌∷◌, codes, arith}
use seam_sdk.Prelude.Int.{pos, negsuc}
use seam_sdk.Bytes.{encode, encode_char}
use seam_sdk.Bytes.Decode.{decode}
use seam_sdk.Proto.{read_field, fields, round}
use seam_sdk.Proto.Written.{groups}
use seam_sdk.Proto.RoundTrip.{fields-round}
use seam_sdk.Details.{
  ErrorInfo, seam_error_domain, protocol_reason, pairs, macp_code, str, status_details_key,
  is_status_key, Dict, lookup, status_details,
}
use seam_sdk.Details.Sent.{
  error_info, retry_info, other, utf8, write_entry, Payload, IsPayload, trailing_of, sent_info,
  sent_delay,
}
use seam_sdk.Details.Named.{Names, macp_code-Names}
use seam_sdk.Errors.{RawError, raw, returning, by_code, unavailable, map_rpc_error}
use seam_sdk.Errors.Carried.{Carries, map_rpc_error-Carries}

abbrev foreign : ErrorInfo
foreign = record { reason = codes "PROTOCOL"; domain = codes "elsewhere"; metadata = [] }

abbrev ours : ErrorInfo
ours = record {
  reason = protocol_reason;
  domain = seam_error_domain;
  metadata = (codes "macp_code", codes "FORBIDDEN") ∷ (codes "né", []) ∷ [];
}

-- An `ErrorInfo` of another domain, a delay, and Seam's, under a key in capitals.
abbrev refusal : Payload
refusal = record {
  code = 14;
  message = codes "no";
  sent =
      error_info false foreign
      ∷ retry_info (pos 3) (negsuc 4)
      ∷ error_info true ours
      ∷ other [] []
      ∷ [];
  before = (str status_details_key, str []) ∷ [];
  after = (str (codes "x"), str []) ∷ [];
  key = codes "GRPC-Status-Details-BIN";
}

refusal-IsPayload : IsPayload refusal
unfolding is_status_key utf8 write_entry encode encode_char groups lookup
refusal-IsPayload = record {
  key = refl;
  last = (refl, _);
  fits = omega arith;
  details = grind arith;
}

map_rpc_error-Carries_example :
    let e : RawError = record {
      code = some (some unavailable);
      details = none;
      trailing_metadata = returning (pairs (trailing_of refusal));
    } in
    let mapped = map_rpc_error (raw e) in
    (mapped.error_class ≡ by_code unavailable)
    × Carries mapped (sent_info refusal.sent) (sent_delay refusal.sent)
map_rpc_error-Carries_example = map_rpc_error-Carries unavailable none refusal refusal-IsPayload

refusal_code : macp_code (some (trailing_of refusal)) ≡ some (codes "FORBIDDEN")
unfolding macp_code groups utf8 encode encode_char write_entry read_field decode lookup
refusal_code = refl

macp_code-Names_example : (macp_code (some (trailing_of refusal)) ≡ some (codes "FORBIDDEN")) ↔ (
    (md : Dict) × Names protocol_reason md (status_details (some (trailing_of refusal)))
    × (lookup (codes "macp_code") md ≡ some (codes "FORBIDDEN")))
macp_code-Names_example = macp_code-Names (some (trailing_of refusal)) (codes "FORBIDDEN")

-- A field cut short ends the stream after those before it.
fields-round_example :
    fields (8 ∷ 1 ∷ 18 ∷ 5 ∷ 7 ∷ []) ≡ round fields (read_field (8 ∷ 1 ∷ 18 ∷ 5 ∷ 7 ∷ []))
fields-round_example = fields-round 8 (1 ∷ 18 ∷ 5 ∷ 7 ∷ [])
