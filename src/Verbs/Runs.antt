-- ===== src/Verbs/Runs.antt =====
-- Methods against a server that takes no ticket.
use seam_sdk.Prelude.{ℕ, suc, ◌≡◌, refl, ◌⊎◌, none, [], ◌∷◌, codes, ok, err, type_error}
use seam_sdk.Bytes.{Bytes, encode, encode_char, pack_le, le_bytes}
use seam_sdk.Wire.{join, write, frame}
use seam_sdk.Keys.{agent_aid}
use seam_sdk.Signing.{request_sig_payload}
use seam_sdk.Hash.{Collision}
use seam_sdk.Errors.{unauthenticated, local}
use seam_sdk.Errors.Refused.{bare}
use seam_sdk.Calls.{returned, raised, lift, ◌>>=◌}
use seam_sdk.Client.{hexdigest, body_digest, tool_input_digest}
use seam_sdk.Client.Server.{toy, digest, seed, rejected, aid, client}
use seam_sdk.Requests.{vote_request, Sent, bodied, retried, submit_vote_rpc}
use seam_sdk.Verbs.{Method, submit_vote, Stubs, request_of, call_of}
use seam_sdk.Verbs.Signed.{signed_payload, rpc_of, SameContent, signed_payload_binds}
use seam_sdk.Verbs.Plain.{
  Ballot, sequence, not_sequence, PlainMethod, run_decision, PlainStubs, perform_plain,
}
use seam_sdk.Verbs.Ballots.{Performed, perform_plain-Performed}
use seam_sdk.Verbs.Tries.{Covered, request_of-Covered}

abbrev stubs : Stubs ℕ Bytes
stubs = record {
  serialize = λ m. codes "m";
  serve = λ rpc m md w. (raised (bare unauthenticated), w);
  presentation = λ agent w. (returned agent, suc w);
}

abbrev vote : Method
vote = submit_vote (codes "s") (codes "a") (codes "p") (codes "APPROVE") [] none

abbrev sent_vote : Sent
sent_vote =
    bodied retried submit_vote_rpc
      (vote_request (codes "s") (codes "a") (codes "p") (codes "APPROVE") [] none)

aid_of_seed : agent_aid toy seed ≡ ok aid
unfolding agent_aid
aid_of_seed = refl

request_of-vote : request_of [] vote ≡ ok sent_vote
unfolding request_of
request_of-vote = refl

request_of-Covered_example : Covered sent_vote
request_of-Covered_example = request_of-Covered [] vote sent_vote request_of-vote

unfoldable signed_bytes : Bytes
unfolding call_of
signed_bytes = elim (signed_payload toy stubs.serialize digest rejected sent_vote) [
  | ok p ↦ p
  | err e ↦ []
]

payload_of_vote : signed_payload toy stubs.serialize digest rejected sent_vote ≡ ok signed_bytes
unfolding signed_bytes request_sig_payload call_of body_digest tool_input_digest hexdigest encode
    encode_char join write frame pack_le le_bytes
payload_of_vote = refl

signed_payload_binds_example :
    ((rejected ≡ rejected)
      × (rpc_of sent_vote ≡ rpc_of sent_vote)
      × SameContent stubs.serialize sent_vote sent_vote)
    ⊎ Collision (λ b. hexdigest (digest b))
signed_payload_binds_example =
    signed_payload_binds toy stubs.serialize digest rejected rejected sent_vote sent_vote
      signed_bytes payload_of_vote payload_of_vote

-- A server that answers whatever it is sent.
abbrev plain_stubs : PlainStubs Bytes ℕ Bytes
plain_stubs = record {
  serve = λ message w. (returned [], suc w);
  presentation = λ agent w. (returned agent, suc w);
}

abbrev balloting : Ballot → PlainMethod Bytes
balloting vote =
    run_decision seed (codes "s") [] (sequence (codes "a" ∷ codes "APPROVE" ∷ []) ∷ vote ∷ []) none
      []

-- A text is no vote.
refuses_text :
    perform_plain plain_stubs (balloting not_sequence) client ≡ (raised (local type_error), client)
unfolding perform_plain ◌>>=◌ lift
refuses_text = refl

perform_plain-Performed_example :
    Performed plain_stubs
      (balloting (sequence (codes "b" ∷ codes "REJECT" ∷ codes "cost" ∷ [])))
      client
      (perform_plain plain_stubs
        (balloting (sequence (codes "b" ∷ codes "REJECT" ∷ codes "cost" ∷ [])))
        client)
perform_plain-Performed_example =
    perform_plain-Performed plain_stubs
      (balloting (sequence (codes "b" ∷ codes "REJECT" ∷ codes "cost" ∷ []))) client
