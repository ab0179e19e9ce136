-- ===== src/Verbs/Signed.antt =====
-- What the request credential of a method binds.
use seam_sdk.Prelude.{
  ◌≡◌, refl, ap, ◌⊎◌, inl, inr, Option, none, some, Result, List, [], ◌∷◌, bytes_eq, if◌then◌else◌,
  ok,
}
use seam_sdk.Bytes.{Bytes, Text}
use seam_sdk.Hash.{Collision, same_or_Collision}
use seam_sdk.Signing.{request_sig_payload}
use seam_sdk.Signing.Binding.{by_request, payload, payload_binds}
use seam_sdk.Keys.{Ed25519}
use seam_sdk.Client.{body_digest, tool_input_digest, hexdigest}
use seam_sdk.Requests.{
  Rpc, open_session_rpc, submit_proposal_rpc, submit_vote_rpc, submit_evaluation_rpc,
  submit_objection_rpc, submit_commit_rpc, submit_approval_request_rpc, submit_ballot_rpc,
  cancel_session_rpc, expire_session_rpc, session_status_rpc, get_decision_rpc, replay_decision_rpc,
  get_commitment_proof_rpc, get_escalation_rpc, report_outcome_rpc, register_context_rpc,
  resolve_context_rpc, who_am_i_rpc, full_name, Message, Sent, bodied, by_id, Route,
}
use seam_sdk.Verbs.{call_of}

abbrev all_rpcs : List Rpc
all_rpcs =
    open_session_rpc ∷ submit_proposal_rpc ∷ submit_vote_rpc ∷ submit_evaluation_rpc
    ∷ submit_objection_rpc ∷ submit_commit_rpc ∷ submit_approval_request_rpc ∷ submit_ballot_rpc
    ∷ cancel_session_rpc ∷ expire_session_rpc ∷ session_status_rpc ∷ get_decision_rpc
    ∷ replay_decision_rpc ∷ get_commitment_proof_rpc ∷ get_escalation_rpc ∷ report_outcome_rpc
    ∷ register_context_rpc ∷ resolve_context_rpc ∷ who_am_i_rpc ∷ []

find_rpc : Text → List Rpc → Option Rpc
unfolding full_name
find_rpc name [] = none
find_rpc name (r ∷ rs) =
    let rest = find_rpc name rs in if bytes_eq (full_name r) name then some r else rest

find_rpc-full_name : (r : Rpc) → find_rpc (full_name r) all_rpcs ≡ some r
unfolding find_rpc
find_rpc-full_name open_session_rpc = refl
find_rpc-full_name submit_proposal_rpc = refl
find_rpc-full_name submit_vote_rpc = refl
find_rpc-full_name submit_evaluation_rpc = refl
find_rpc-full_name submit_objection_rpc = refl
find_rpc-full_name submit_commit_rpc = refl
find_rpc-full_name submit_approval_request_rpc = refl
find_rpc-full_name submit_ballot_rpc = refl
find_rpc-full_name cancel_session_rpc = refl
find_rpc-full_name expire_session_rpc = refl
find_rpc-full_name session_status_rpc = refl
find_rpc-full_name get_decision_rpc = refl
find_rpc-full_name replay_decision_rpc = refl
find_rpc-full_name get_commitment_proof_rpc = refl
find_rpc-full_name get_escalation_rpc = refl
find_rpc-full_name report_outcome_rpc = refl
find_rpc-full_name register_context_rpc = refl
find_rpc-full_name resolve_context_rpc = refl
find_rpc-full_name who_am_i_rpc = refl

full_name-injective : (r s : Rpc) → full_name r ≡ full_name s → r ≡ s
full_name-injective r s e =
    let found : find_rpc (full_name r) all_rpcs ≡ find_rpc (full_name s) all_rpcs =
      ap (λ t. find_rpc t all_rpcs) e in
    cc (found, find_rpc-full_name r, find_rpc-full_name s)

abbrev pub rpc_of : Sent → Rpc
rpc_of (bodied path rpc message) = rpc
rpc_of (by_id rpc message id) = rpc

-- The same bytes of a message, or the same id.
pub data SameContent (serialize : Message → Bytes) : Sent → Sent → Type 0 where
  same_body :
      (p q : Route) (r s : Rpc) (m n : Message)
      → serialize m ≡ serialize n
      → SameContent serialize (bodied p r m) (bodied q s n)
  same_id :
      (r s : Rpc) (m n : Message) (i j : Text)
      → i ≡ j
      → SameContent serialize (by_id r m i) (by_id s n j)

module _ (ed : Ed25519) (serialize : Message → Bytes) (hash : Bytes → Bytes) where
  -- The bytes that `credential_metadata` signs.
  abbrev pub signed_payload : Bytes → Sent → Result Bytes
  signed_payload ticket sent =
      let call = call_of serialize sent in
      request_sig_payload ticket call.rpc_full_name call.resource_id (body_digest ed hash call.body)

  body_digest-injective :
      (a b : Option Bytes)
      → body_digest ed hash a ≡ body_digest ed hash b
      → (a ≡ b) ⊎ Collision (λ x. hexdigest (hash x))
  unfolding body_digest tool_input_digest
  body_digest-injective none none e = inl refl
  body_digest-injective none (some b) e = cc
  body_digest-injective (some a) none e = cc
  body_digest-injective (some a) (some b) e =
      let digests : hexdigest (hash a) ≡ hexdigest (hash b) = cc in
      elim (same_or_Collision (λ x. hexdigest (hash x)) a b digests) [
        | inl same ↦ inl (ap some same)
        | inr x ↦ inr x
      ]

  content :
      (x y : Sent)
      → (call_of serialize x).resource_id ≡ (call_of serialize y).resource_id
      → (call_of serialize x).body ≡ (call_of serialize y).body
      → SameContent serialize x y
  unfolding call_of
  content (bodied p r m) (bodied q s n) i b = same_body p q r s m n (cc)
  content (by_id r m i) (by_id s n j) e b = same_id r s m n i j e
  content (bodied p r m) (by_id s n j) i b = cc
  content (by_id r m i) (bodied q s n) e b = cc

  rpc_of-injective :
      (x y : Sent)
      → (call_of serialize x).rpc_full_name ≡ (call_of serialize y).rpc_full_name
      → rpc_of x ≡ rpc_of y
  unfolding call_of
  rpc_of-injective (bodied p r m) (bodied q s n) e = full_name-injective r s e
  rpc_of-injective (bodied p r m) (by_id s n j) e = full_name-injective r s e
  rpc_of-injective (by_id r m i) (bodied q s n) e = full_name-injective r s e
  rpc_of-injective (by_id r m i) (by_id s n j) e = full_name-injective r s e

  -- A request signature binds the ticket, the RPC, and the serialized message of a bodied RPC or the id
  -- of the resource of another: two calls with one signed payload agree in these, unless two messages
  -- have one hexadecimal digest.
  pub signed_payload_binds :
      (t u : Bytes) (x y : Sent) (p : Bytes)
      → signed_payload t x ≡ ok p
      → signed_payload u y ≡ ok p
      → ((t ≡ u) × (rpc_of x ≡ rpc_of y) × SameContent serialize x y)
        ⊎ Collision (λ b. hexdigest (hash b))
  signed_payload_binds t u x y p h k =
      let c = call_of serialize x in
      let d = call_of serialize y in
      let digest_x = body_digest ed hash c.body in
      let digest_y = body_digest ed hash d.body in
      let signed_x = by_request t c.rpc_full_name c.resource_id digest_x in
      let signed_y = by_request u d.rpc_full_name d.resource_id digest_y in
      let (tickets, names, ids, digests) =
        payload_binds signed_x signed_y p (unfold payload in h) (unfold payload in k) in
      elim (body_digest-injective c.body d.body digests) [
        | inr found ↦ inr found
        | inl bodies ↦ inl (tickets, rpc_of-injective x y names, content x y ids bodies)
      ]
