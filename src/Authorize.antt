-- ===== src/Authorize.antt =====
-- The advisory `Authorize` call: `build_authorize_request` and `result_of` of
-- `python/seam_sdk/_authorize.py`, and `SeamClient.authorize` of `python/seam_sdk/client.py`.
pub mod Verdicts
pub mod Bounds
mod Runs
use seam_sdk.Prelude.{
  ℕ, Option, none, some, List, [], ◌∷◌, Bool, true, false, if◌then◌else◌, bytes_eq, Result, ok, err,
  unknown_verdict, protocol_violation,
}
use seam_sdk.Prelude.Int.{ℤ}
use seam_sdk.Bytes.{Bytes, Text}
use seam_sdk.Errors.{Failure, is_unauthenticated}
use seam_sdk.Calls.{Outcome, Outside, sending, Client, Act, raise, lift, wire, ◌>>=◌, ◌>>◌, catch}
use seam_sdk.Signing.{CallFields}
use seam_sdk.Keys.{Ed25519, call_sig_v3}
use seam_sdk.Jcs.{Tree, none_value}
use seam_sdk.Inputs.{Given, bytes_given, resolve_canonical}
use seam_sdk.Client.{tool_input_digest, ticket_for, refresh_ticket}

-- A value of the enum on the wire: the four that `_VERDICT_NAMES` has, and any other number.
pub data WireVerdict : Type 0 where
  wire_allow wire_deny wire_transform wire_escalate : WireVerdict
  wire_other : ℤ → WireVerdict

pub record Response : Type 0 where
  pub verdict : WireVerdict
  pub reason : Text
  pub transformed_input : Bytes
  pub authorize_id : Text
  pub policy_version : Text

pub data Verdict : Type 0 where
  allow deny transform escalate : Verdict

pub record AuthorizeResult : Type 0 where
  pub verdict : Verdict
  pub reason : Text
  pub transformed_input : Option Bytes
  pub authorize_id : Text
  pub policy_version : Text

unfoldable pub verdict_name : WireVerdict → Option Verdict
verdict_name wire_allow = some allow
verdict_name wire_deny = some deny
verdict_name wire_transform = some transform
verdict_name wire_escalate = some escalate
verdict_name (wire_other n) = none

unfoldable pub result_as : Response → Option Bytes → Verdict → AuthorizeResult
result_as resp rewritten name = record {
  verdict = name;
  reason = resp.reason;
  transformed_input = rewritten;
  authorize_id = resp.authorize_id;
  policy_version = resp.policy_version;
}

unfoldable pub result_of : Response → Result AuthorizeResult
unfolding verdict_name result_as
result_of resp = elim (verdict_name resp.verdict) [
  | none ↦ err unknown_verdict
  | some transform ↦
      if bytes_eq resp.transformed_input []
      then err protocol_violation
      else ok (result_as resp (some resp.transformed_input) transform)
  | some name ↦ ok (result_as resp none name)
]

unfoldable pub allowed : AuthorizeResult → Bool
allowed r = elim r.verdict [ allow ↦ true | _ ↦ false ]

-- The message. `fields` has the digest of the input among the signed fields; `tool_input` is the
-- canonical input, unless only its digest is sent.
pub record Request : Type 0 where
  pub ticket : Bytes
  pub fields : CallFields
  pub call_sig : Bytes
  pub tool_input : Option Bytes

module _ (ed : Ed25519) (hash : Bytes → Bytes) where
  unfoldable pub signed_request : Bytes → Bytes → Bool → Bytes → CallFields → Result Request
  signed_request seed canonical digest_only ticket fields =
      let signed : CallFields = record fields {
        tool_input_digest = tool_input_digest hash canonical;
      } in
      elim (call_sig_v3 ed seed ticket signed) [
        | err e ↦ err e
        | ok signature ↦ ok (record {
          ticket = ticket;
          fields = signed;
          call_sig = signature;
          tool_input = if digest_only then none else some canonical;
        })
      ]

  -- `frames` is how deep the canonical JSON of the input may recurse.
  module _ (frames : ℕ) where
    unfoldable pub build_authorize_request :
        Bytes → Tree → Option Given → Bool → Bytes → CallFields → Result Request
    build_authorize_request seed tool_input given digest_only ticket fields =
        elim (resolve_canonical frames tool_input given) [
          | err e ↦ err e
          | ok canonical ↦ signed_request seed canonical digest_only ticket fields
        ]

    module _ {W : Type 0} (outside : Outside W) (send : Request → W → Outcome Response × W) where
      unfoldable pub authorize_with : Bytes → Bytes → Bool → CallFields → Bytes → Act W Response
      authorize_with seed canonical digest_only fields ticket = do
        req ← lift (
            build_authorize_request seed none_value (some (bytes_given canonical)) digest_only
              ticket fields)
        wire (sending none) (send req)

      unfoldable pub refresh_and_authorize :
          Bytes → Bytes → Bool → CallFields → Bytes → Failure → Act W Response
      refresh_and_authorize seed canonical digest_only fields ticket e =
          if is_unauthenticated e
          then (refresh_ticket ed hash outside seed ticket >>= λ fresh.
              authorize_with seed canonical digest_only fields fresh)
          else raise e

      -- The input is resolved once, before there is a ticket.
      unfoldable pub authorize :
          Bytes → Tree → Option Given → Bool → CallFields → Act W AuthorizeResult
      authorize seed tool_input given digest_only fields = do
        canonical ← lift (resolve_canonical frames tool_input given)
        ticket ← ticket_for ed hash outside seed
        resp ←
            catch (authorize_with seed canonical digest_only fields ticket)
              (refresh_and_authorize seed canonical digest_only fields ticket)
        lift (result_of resp)
