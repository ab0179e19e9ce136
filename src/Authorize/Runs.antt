-- ===== src/Authorize/Runs.antt =====
-- Verdicts of a small server.
use seam_sdk.Prelude.{
  ℕ, suc, ◌≡◌, refl, [], codes, ltb, false, if◌then◌else◌, none, ok, err, unknown_verdict,
  protocol_violation,
}
use seam_sdk.Prelude.Int.{pos}
use seam_sdk.Bytes.{encode, encode_char, pack_le, le_bytes}
use seam_sdk.Order.{sort}
use seam_sdk.Wire.{frame, frame_text, frame_int, write, join}
use seam_sdk.Base64.{b64url_nopad, urlsafe_b64encode, urlsafe_char, rstrip_pad}
use seam_sdk.Errors.Refused.{bare}
use seam_sdk.Errors.{map_rpc_error, by_code, unauthenticated, is_unauthenticated}
use seam_sdk.Tickets.{get, store}
use seam_sdk.Calls.{
  Outcome, returned, raised, pure, raise, lift, outside_call, wire, ◌>>=◌, catch, cache_of,
  set_cache, with_cache,
}
use seam_sdk.Calls.Inversion.{outcome}
use seam_sdk.Signing.{CallFields, encode_pairs, pair_slots, v3_slots, call_sig_v3_payload}
use seam_sdk.Keys.{agent_aid, aid_from_pubkey, call_sig_v3}
use seam_sdk.Client.{
  tool_input_digest, hexdigest, admit_locked, ticket_or_admit, ticket_for, invalidate_and_admit,
  adopt_or_admit, refresh_ticket,
}
use seam_sdk.Client.Server.{toy, digest, server, seed, aid, client}
use seam_sdk.Jcs.{none_value, jcs_canonicalize}
use seam_sdk.Authorize.{
  WireVerdict, wire_allow, wire_transform, wire_other, Response, allow, AuthorizeResult, result_of,
  result_as, Request, build_authorize_request, authorize_with, refresh_and_authorize, authorize,
  signed_request,
}
use seam_sdk.Authorize.Verdicts.{Reads, Answered, authorize-Reads}
use seam_sdk.Inputs.{input_or_empty, resolve_canonical}

abbrev answer : WireVerdict → Response
answer verdict = record {
  verdict = verdict;
  reason = [];
  transformed_input = [];
  authorize_id = codes "a1";
  policy_version = codes "p1";
}

abbrev fields : CallFields
fields = record {
  tool_input_digest = [];
  tool_name = codes "ls";
  agent_id = [];
  subject = [];
  subjects = [];
  client_request_id = [];
  session_id = [];
  features = [];
}

-- The first ticket is rejected, and a fresh one is answered.
abbrev answers : WireVerdict → Request → ℕ → Outcome Response × ℕ
answers verdict req w =
    if ltb w 1 then (raised (bare unauthenticated), suc w) else (returned (answer verdict), suc w)

abbrev allows : AuthorizeResult
allows = result_as (answer wire_allow) none allow

allowed_on_resend :
    outcome (
      authorize toy digest 100 server (answers wire_allow) seed none_value none false fields client)
    ≡ returned allows
unfolding authorize refresh_and_authorize authorize_with build_authorize_request result_of result_as
    ticket_for ◌>>=◌ lift agent_aid cache_of outside_call get ticket_or_admit pure catch call_sig_v3
    call_sig_v3_payload encode_pairs pair_slots v3_slots sort tool_input_digest hexdigest encode
    encode_char join write frame frame_text frame_int pack_le le_bytes wire map_rpc_error by_code
    is_unauthenticated refresh_ticket adopt_or_admit invalidate_and_admit set_cache with_cache
    admit_locked store raise aid_from_pubkey b64url_nopad urlsafe_b64encode urlsafe_char rstrip_pad
    resolve_canonical jcs_canonicalize input_or_empty signed_request
allowed_on_resend = refl

unknown_raises : result_of (answer (wire_other (pos 0))) ≡ err unknown_verdict
unfolding result_of
unknown_raises = refl

empty_transform_raises : result_of (answer wire_transform) ≡ err protocol_violation
unfolding result_of
empty_transform_raises = refl

authorize-Reads_example :
    (resp : Response) × Answered toy digest 100 server
      (answers wire_allow)
      seed
      none_value
      none
      false
      fields
      resp
    × Reads resp allows
authorize-Reads_example =
    authorize-Reads toy digest 100 server (answers wire_allow) seed none_value none false fields
      client allows allowed_on_resend

aid_of_seed : agent_aid toy seed ≡ ok aid
unfolding agent_aid
aid_of_seed = refl
