-- ===== src/Signing.antt =====
-- The signed payloads of `python/seam_sdk/crypto.py`: `call_sig_payload`, `request_sig_payload`,
-- `call_sig_v3_payload` and `enroll_pop_payload`.
pub mod Inversion
pub mod Features
pub mod Binding
mod Runs
use seam_sdk.Prelude.{ℕ, List, [], ◌∷◌, ◌++◌, map, length, codes, Result, ok, ◌>>=◌}
use seam_sdk.Bytes.{Bytes, Text, encode}
use seam_sdk.Checks.{Value, uint_slot}
use seam_sdk.Order.{sort, pair_leb}
use seam_sdk.Wire.{Slot, framed, text, packed, join}

abbrev pub call_sig_context : Bytes
call_sig_context = codes "seam-authorize-call-v2"

-- `parts` is built, and its texts encoded, before anything is packed.
unfoldable pub call_sig_payload : Bytes → Text → Text → Text → Result Bytes
call_sig_payload ticket tool_input_digest tool_name agent_id = do
  digest ← encode tool_input_digest
  tool ← encode tool_name
  agent ← encode agent_id
  join (framed call_sig_context ∷ framed ticket ∷ framed digest ∷ framed tool ∷ framed agent ∷ [])

abbrev pub request_sig_context : Bytes
request_sig_context = codes "seam-request-call-v1"

unfoldable pub request_sig_payload : Bytes → Text → Text → Text → Result Bytes
request_sig_payload ticket rpc_full_name resource_id body_digest = do
  rpc ← encode rpc_full_name
  resource ← encode resource_id
  body ← encode body_digest
  join
      (framed request_sig_context ∷ framed ticket ∷ framed rpc ∷ framed resource ∷ framed body ∷ [])

abbrev pub call_sig_v3_context : Bytes
call_sig_v3_context = codes "seam-authorize-call-v3"

-- What `call_sig_v3_payload` signs beside the ticket. `features` are the items of the dict, in its
-- order.
pub record CallFields : Type 0 where
  pub tool_input_digest : Text
  pub tool_name : Text
  pub agent_id : Text
  pub subject : Text
  pub subjects : List Text
  pub client_request_id : Text
  pub session_id : Text
  pub features : List (Text × Text)

unfoldable pub encode_pairs : List (Text × Text) → Result (List (Bytes × Bytes))
encode_pairs [] = ok []
encode_pairs ((k, v) ∷ rest) = do
  a ← encode k
  b ← encode v
  pairs ← encode_pairs rest
  ok ((a, b) ∷ pairs)

-- `_frame(k) + _frame(v)` for each item.
unfoldable pub pair_slots : List (Bytes × Bytes) → List Slot
pair_slots [] = []
pair_slots ((k, v) ∷ rest) = framed k ∷ framed v ∷ pair_slots rest

unfoldable pub v3_slots : Bytes → CallFields → List (Bytes × Bytes) → List Slot
v3_slots ticket c feats =
    framed call_sig_v3_context
    ∷ framed ticket
    ∷ text c.tool_input_digest
    ∷ text c.tool_name
    ∷ text c.agent_id
    ∷ text c.subject
    ∷ packed 4 (length c.subjects)
    ∷ (map text c.subjects
        ++ (text c.client_request_id
            ∷ text c.session_id
            ∷ packed 4 (length feats)
            ∷ pair_slots feats))

unfoldable pub call_sig_v3_payload : Bytes → CallFields → Result Bytes
call_sig_v3_payload ticket c = do
  items ← encode_pairs c.features
  join (v3_slots ticket c (sort pair_leb items))

abbrev pub enroll_pop_v1_context : Bytes
enroll_pop_v1_context = codes "seam-enroll-pop-v1"

unfoldable pub enroll_pop_payload : Text → Text → Text → Value → Text → Result Bytes
enroll_pop_payload subject_aid tenant namespace issued_at_ms nonce = do
  head ← join (framed enroll_pop_v1_context ∷ text subject_aid ∷ text tenant ∷ text namespace ∷ [])
  issued ← uint_slot issued_at_ms 64
  rest ← join (packed 8 issued ∷ text nonce ∷ [])
  ok (head ++ rest)
