-- ===== src/Lib.antt =====
-- The Python SDK of Seam (`python/seam_sdk/`): the client of a runtime that records and seals the
-- decisions of agents. An agent holds an Ed25519 seed. The SDK names it by its AID, signs its calls,
-- obtains and caches admission tickets for it, and recomputes in the client the digests by which a
-- sealed record or a chain of records is audited, and judges the token that attests a decision.
--
-- Parts, and the files that model them:
--
-- `python/seam_sdk/crypto.py`
--   * Bytes.antt, Wire.antt: `_frame`, `_be64_frame`, `_opt_bytes`, `_rd_enc`, `_rd_opt_text`. A preimage
--     is a list of slots that `join` writes one after the other; Wire/Prefix.antt and Wire/Cancel.antt read
--     them back.
--   * Order.antt: `sorted` over `bytes` and pairs of `bytes`.
--   * Checks.antt: `_as_bytes`, `_sub_digest`, `_rd_text`, `_mandatory_text`, `_uint_slot`,
--     `_require_int`. An argument of any type is a `Value`.
--   * Base64.antt: `_b64url_nopad`, `_b64url_decode`.
--   * Signing.antt: the four payloads that an agent signs, `call_sig_payload`, `request_sig_payload`,
--     `call_sig_v3_payload`, `enroll_pop_payload`.
--   * Keys.antt: `aid_from_pubkey`, `_aid_to_pubkey`, `call_sig`, `request_sig`, `call_sig_v3`,
--     `enroll_pop`, `verify_enroll_pop`, `validate_enroll_pop_nonce`, and `Agent.aid` of client.py.
--   * Presentation.antt: `derived_uuid`, `pop_message_id`, `build_presentation`.
--   * Context.antt: `context_digest_v4`, over mappings and messages.
--   * Numerals.antt, Jcs.antt: `jcs_canonicalize`, with `_jcs_string`, `_jcs_number`, `_jcs_int` and
--     `_jcs_write`. A float is the bit pattern of its double, whose `repr` and whose conversion from an
--     integer are modelled.
--   * Json.antt, Tct.antt: `_no_duplicate_keys` and `verify_tct`.
--   * Commitment.antt: `explanation_digest`, `_commitment_explanation_digest`, `_seam_commitment_digest`.
--   * Record.antt: `participants_digest_v4`, `record_digest_v4`.
--   * Chain.antt: `_chain_head_attestation_digest`, `verify_chain_head_attestation`,
--     `verify_chain_head_attestation_message`.
-- `python/seam_sdk/errors.py`
--   * Proto.antt: `_varint`, `_fields` and the readers of the protobuf wire format.
--   * Details.antt: the structured details of an error, from its trailing metadata: `reason`,
--     `retry_after`, `macp_code`.
--   * Errors.antt: `map_rpc_error` and the classes by status code, `is_session_unavailable` and the other
--     predicates.
-- `python/seam_sdk/_collective.py`, `python/seam_sdk/_policy.py`, `python/seam_sdk/_seal.py`
--   * Seal.antt: `collective_outcome_of`, `policy_enforcement_of`, `seal_attestation_of`.
-- `python/seam_sdk/tenant.py`
--   * Tenant.antt: `TenantInterceptor` and the routing header.
-- `python/seam_sdk/_outcome.py`
--   * Reports.antt: `check_outcome_fields`, with `_check_idempotency_key` and `_u32` of client.py.
-- `python/seam_sdk/_authorize.py` and `python/seam_sdk/client.py`
--   * Tickets.antt: `TicketCache`.
--   * Calls.antt: what a method of the client may do: read and write the caches by AID, go on the
--     wire, read the clock, raise.
--   * Client.antt: `_admit_locked`, `_ticket_for`, `_refresh_ticket`, `_invalidate_ticket`,
--     `_forget_burned_ticket`, `_signer`, `_signed_once`, `_credentialed_call`, `credential_metadata`.
--   * Requests.antt, Verbs.antt: the nineteen RPC methods that carry a credential, from `open_session` to
--     `who_am_i`: the message that each fills, and how it is sent. Verbs/Plain.antt: the eight that carry
--     none, `run_decision` with its ballot among them.
--   * Decision.antt: `verify_decision`, `commitment_view`.
--   * Inputs.antt: `canonicalize_tool_input` and `_resolve_canonical`.
--   * Authorize.antt: `build_authorize_request`, `result_of`, `authorize`.
-- `python/seam_sdk/identity.py`
--   * Identity.antt: `load_identity_file` and `load_identity_facts`, with their validator.
--   * Publish.antt: `create_identity_file`, the publication of its file as a step relation with other
--     processes and crashes.
-- `python/seam_sdk/ids.py`
--   * Ids.antt: `_session_refusal`, `decision_id_for_session`, `parse_decision_id`.
-- `python/seam_sdk/retry.py`
--   * Retry.antt: `_next_delay`, `with_session_retry`.
--
-- How they interact: Client signs with Keys, over the payloads of Signing, which are written with
-- Wire; it holds a cache of Tickets for each AID, and branches on Errors, which reads Details, which
-- parses with Proto. Authorize digests and signs the bytes of Inputs, which Jcs writes. Verbs sends
-- the messages of Requests through Client; Decision fetches a proof with Verbs and judges it with
-- Tct, which recomputes the digest of Commitment. Retry calls any method of the client again.
-- Record, Context, Chain and Commitment share Wire with Signing.
--
-- Text is a list of code points and a byte string a list of numbers. A function that may raise gives
-- a `Result`, whose errors are the exceptions with the arguments that a caller branches on; a method
-- of the client gives an outcome and the client after it, also when it raises. Numbers are not
-- bounded, as in Python; the widths of packed integers are written out, with the refusals of
-- `struct.pack`. Recursion is on the data, on fuel in a few places: the retry loop takes its number
-- of attempts, the reader of a protobuf message the length of its buffer, of which each field takes
-- a byte at least, and the printer of a decimal number one more than the number; the digits of a
-- double are sought from 10 ** 309 down to 10 ** -341, beyond which no double needs digits and where
-- all of its digits are the answer, and an integer below 2 ** 1024 is shifted to 53 bits in at most
-- 971 steps. The depth to which `_jcs_write` may recurse, which the interpreter sets, is an argument
-- of `jcs_canonicalize`: a call beyond it raises `RecursionError`, as in Python. A method that holds
-- the lock of an AID is one step; several callers are a sequence of such steps.
--
-- Parameters: Ed25519 of the `cryptography` package (Keys.antt, its documented laws in
-- Keys/Laws.antt); SHA-256 of `hashlib` as a function on byte strings of which nothing is assumed
-- (Hash.antt); the tree that `json.loads` reads (`parse` in Json.antt) and `str` on its values
-- (`text` in Identity.antt), of which nothing is assumed; of the client the transport with the
-- server behind it and the clock (`Outside` in Calls.antt), the serialization of messages and the
-- RPC stubs (`Stubs` in Verbs.antt, `PlainStubs` in Verbs/Plain.antt).
--
-- Not modelled: an input that changes or answers differently while it is canonicalized, and the
-- frames that the callees of `_jcs_write` take at the recursion limit; the pickling and the messages
-- of exceptions; of client.py the set-up of channels; of identity.py the mode of a new file and its
-- JSON; dpop.py and admin.py; aio.py, the asyncio twin of client.py; the SDKs in other languages.
pub mod Prelude
pub mod Bytes
pub mod Order
pub mod Checks
pub mod Wire
pub mod Base64
pub mod Signing
pub mod Keys
pub mod Hash
pub mod Proto
pub mod Record
pub mod Chain
pub mod Context
pub mod Commitment
pub mod Details
pub mod Errors
pub mod Tickets
pub mod Calls
pub mod Seal
pub mod Tenant
pub mod Client
pub mod Authorize
pub mod Json
pub mod Tct
pub mod Decision
pub mod Publish
pub mod Identity
pub mod Presentation
pub mod Numerals
pub mod Jcs
pub mod Inputs
pub mod Reports
pub mod Requests
pub mod Verbs
pub mod Ids
pub mod Retry
