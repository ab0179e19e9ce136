-- ===== src/Verbs/Plain.antt =====
-- The RPC methods of `SeamClient` (`python/seam_sdk/client.py`) that carry no credential, with the ballot of
-- `run_decision`.
use seam_sdk.Prelude.{Option, none, some, List, [], ◌∷◌, Result, ok, err, type_error, ◌>>=◌}
use seam_sdk.Prelude.Int.{ℤ}
use seam_sdk.Bytes.{Bytes, Text}
use seam_sdk.Calls.{Outcome, returned, raised, Credential, sending, Client, Act, lift, wire}
use seam_sdk.Calls
use seam_sdk.Requests.{BudgetLimits}
use seam_sdk.Verbs.{presented}

-- An entry of `votes`: a sequence that is no string, or another object.
pub data Ballot : Type 0 where
  sequence : List Text → Ballot
  not_sequence : Ballot

pub record Vote : Type 0 where
  pub agent : Text
  pub value : Text
  pub reason : Text

unfoldable pub vote_of : Ballot → Result Vote
vote_of (sequence (a ∷ v ∷ [])) = ok (record { agent = a; value = v; reason = [] })
vote_of (sequence (a ∷ v ∷ r ∷ [])) = ok (record { agent = a; value = v; reason = r })
vote_of _ = err type_error

unfoldable pub vote_messages : List Ballot → Result (List Vote)
unfolding vote_of
vote_messages [] = ok []
vote_messages (b ∷ bs) = do vote ← vote_of b; votes ← vote_messages bs; ok (vote ∷ votes)

-- The methods, with their arguments. The messages that a caller hands to a verification are of some type.
pub data PlainMethod (P : Type 0) : Type 0 where
  run_decision :
      (agent_seed : Bytes) (session_id : Text) (participants : List Text) (votes : List Ballot)
      (features : Option (List (Text × Text))) (on_behalf_of : List Text)
      → PlainMethod P
  resume_session :
      (session_id : Text) (budget : ℤ) (raise_limits : Option BudgetLimits) → PlainMethod P
  issuer_aid server_info server_wire_features : PlainMethod P
  verify_commitment : (commitment : P) (signed_artifact : Bytes) → PlainMethod P
  verify_party_anchor : (party_id : Text) (anchor : P) (tenant : Text) → PlainMethod P
  verify_party_attestation : (party_id : Text) (attestation : P) → PlainMethod P

-- The request messages, each of one RPC.
pub data PlainMessage (P : Type 0) : Type 0 where
  run_decision_request :
      (session_id : Text) (participants : List Text) (votes : List Vote) (presentation : Bytes)
      (on_behalf_of : List Text) (features : List (Text × Text))
      → PlainMessage P
  resume_request :
      (session_id : Text) (budget : ℤ) (raise_limits : Option BudgetLimits) → PlainMessage P
  issuer_aid_request server_info_request : PlainMessage P
  verify_commitment_request : (commitment : P) (signed_artifact : Bytes) → PlainMessage P
  verify_anchor_request : (party_id : Text) (anchor : P) (tenant : Text) → PlainMessage P
  verify_attestation_request : (party_id : Text) (attestation : P) → PlainMessage P

-- `if features: req.features.update(features)`.
unfoldable pub given_features : Option (List (Text × Text)) → List (Text × Text)
given_features none = []
given_features (some fs) = fs

-- The stub of each RPC, and the presentation that answers a challenge, both of which may raise.
pub record PlainStubs (P W R : Type 0) : Type 0 where
  pub serve : PlainMessage P → W → Outcome R × W
  pub presentation : Bytes → W → Outcome Bytes × W

module _ {P W R : Type 0} (stubs : PlainStubs P W R) where
  unfoldable pub send_plain : PlainMessage P → Act W R
  send_plain message = wire (sending none) (stubs.serve message)

  -- The ballot is checked before the challenge.
  unfoldable pub call_run_decision :
      (agent_seed : Bytes) (session_id : Text) (participants : List Text) (votes : List Ballot)
      (features : Option (List (Text × Text))) (on_behalf_of : List Text)
      → Act W R
  unfolding vote_messages given_features send_plain
  call_run_decision agent session people votes features subjects =
      Calls.◌>>=◌ (lift (vote_messages votes)) λ ballot.
        Calls.◌>>=◌ (presented (stubs.presentation agent)) λ presentation. send_plain (
          run_decision_request session people ballot presentation subjects
            (given_features features))

  unfoldable pub call_resume_session : Text → ℤ → Option BudgetLimits → Act W R
  call_resume_session session budget raised_to =
      send_plain (resume_request session budget raised_to)

  unfoldable pub call_issuer_aid : Act W R
  call_issuer_aid = send_plain issuer_aid_request

  unfoldable pub call_server_info : Act W R
  call_server_info = send_plain server_info_request

  unfoldable pub call_server_wire_features : Act W R
  call_server_wire_features = send_plain server_info_request

  unfoldable pub call_verify_commitment : P → Bytes → Act W R
  call_verify_commitment commitment artifact =
      send_plain (verify_commitment_request commitment artifact)

  unfoldable pub call_verify_party_anchor : Text → P → Text → Act W R
  call_verify_party_anchor party anchor tenant =
      send_plain (verify_anchor_request party anchor tenant)

  unfoldable pub call_verify_party_attestation : Text → P → Act W R
  call_verify_party_attestation party attestation =
      send_plain (verify_attestation_request party attestation)

  unfoldable pub perform_plain : PlainMethod P → Act W R
  unfolding call_run_decision call_resume_session call_issuer_aid call_server_info
      call_server_wire_features call_verify_commitment call_verify_party_anchor
      call_verify_party_attestation
  perform_plain (run_decision agent session people votes features subjects) =
      call_run_decision agent session people votes features subjects
  perform_plain (resume_session session budget raised_to) =
      call_resume_session session budget raised_to
  perform_plain issuer_aid = call_issuer_aid
  perform_plain server_info = call_server_info
  perform_plain server_wire_features = call_server_wire_features
  perform_plain (verify_commitment commitment artifact) = call_verify_commitment commitment artifact
  perform_plain (verify_party_anchor party anchor tenant) =
      call_verify_party_anchor party anchor tenant
  perform_plain (verify_party_attestation party attestation) =
      call_verify_party_attestation party attestation
