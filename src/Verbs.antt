-- ===== src/Verbs.antt =====
-- The RPC methods of `SeamClient` (`python/seam_sdk/client.py`) that carry a credential: the path by which each
-- request is sent.
pub mod Signed
pub mod Tries
pub mod Plain
pub mod Ballots
mod Runs
use seam_sdk.Prelude.{ℕ, Option, none, some, List, [], Bool, true, Result, ok}
use seam_sdk.Prelude.Int.{ℤ}
use seam_sdk.Bytes.{Bytes, Text}
use seam_sdk.Checks.{Value}
use seam_sdk.Keys.{Ed25519}
use seam_sdk.Calls.{Outcome, Credential, Outside, Client, Act, pure, lift}
use seam_sdk.Calls
use seam_sdk.Client.{Call, signed_once, credentialed_call}
use seam_sdk.Reports.{Number, Metrics, ObservedAt}
use seam_sdk.Requests.{
  BudgetLimits, StepUsage, Rpc, full_name, Message, once, retried, Sent, bodied, by_id,
  open_session_sent, proposal_sent, vote_sent, evaluation_sent, objection_sent, commit_sent,
  approval_request_sent, ballot_sent, cancel_sent, expire_sent, session_status_sent,
  get_decision_sent, replay_decision_sent, get_commitment_proof_sent, get_escalation_sent,
  report_outcome_sent, register_context_sent, resolve_context_sent, who_am_i_sent,
}

-- The methods, with their arguments; `credential` and `timeout` are left to `perform`. An argument that
-- the method checks is any object.
pub data Method : Type 0 where
  open_session :
      (agent_seed : Bytes) (session_id : Text) (participants : List Text) (budget : ℤ)
      (limits : Option BudgetLimits) (mode : Text) (on_behalf_of : List Text)
      → Method
  submit_proposal :
      (session_id proposer proposal_id option : Text) (usage : Option StepUsage) → Method
  submit_vote :
      (session_id voter proposal_id value reason : Text) (usage : Option StepUsage) → Method
  submit_evaluation :
      (session_id evaluator proposal_id recommendation : Text) (confidence : Option ℕ)
      (reason : Text) (rationale_ref : Option Text) (usage : Option StepUsage)
      → Method
  submit_objection :
      (session_id objector proposal_id reason severity : Text) (usage : Option StepUsage) → Method
  submit_commit :
      (session_id commitment_id action : Text) (supersedes : Option Text) (usage : Option StepUsage)
      → Method
  submit_approval_request :
      (session_id requester request_id action : Text) (required_approvals : Value)
      (usage : Option StepUsage)
      → Method
  submit_ballot :
      (session_id voter request_id : Text) (choice : ℤ) (reason : Text) (usage : Option StepUsage)
      → Method
  cancel_session expire_session session_status : (session_id : Text) → Method
  get_decision replay_decision get_commitment_proof : (decision_id : Text) → Method
  get_escalation : (authorize_id : Text) → Method
  report_outcome :
      (decision_id : Text) (correct : Bool) (verified_by : Option Text) (idempotency_key : Value)
      (reward : Option Number) (metrics : Option Metrics) (observed_at : Option ObservedAt)
      → Method
  register_context :
      (content : Bytes) (fidelity : Text) (derived_from : Option (List Text)) → Method
  resolve_context : (refs : List Text) → Method
  who_am_i : Method

-- The presentation of `open_session` is given.
unfoldable pub request_of : Bytes → Method → Result Sent
unfolding open_session_sent proposal_sent vote_sent evaluation_sent objection_sent commit_sent
    approval_request_sent ballot_sent cancel_sent expire_sent session_status_sent get_decision_sent
    replay_decision_sent get_commitment_proof_sent get_escalation_sent report_outcome_sent
    register_context_sent resolve_context_sent who_am_i_sent
request_of presentation (open_session agent session people budget limits mode subjects) =
    ok (open_session_sent presentation session people budget limits mode subjects)
request_of _ (submit_proposal session proposer proposal option usage) =
    ok (proposal_sent session proposer proposal option usage)
request_of _ (submit_vote session voter proposal value reason usage) =
    ok (vote_sent session voter proposal value reason usage)
request_of _ (submit_evaluation session evaluator proposal recommendation conf reason ref usage) =
    ok (evaluation_sent session evaluator proposal recommendation conf reason ref usage)
request_of _ (submit_objection session objector proposal reason severity usage) =
    ok (objection_sent session objector proposal reason severity usage)
request_of _ (submit_commit session commitment action supersedes usage) =
    ok (commit_sent session commitment action supersedes usage)
request_of _ (submit_approval_request session requester request action required usage) =
    approval_request_sent session requester request action required usage
request_of _ (submit_ballot session voter request choice reason usage) =
    ok (ballot_sent session voter request choice reason usage)
request_of _ (cancel_session session) = ok (cancel_sent session)
request_of _ (expire_session session) = ok (expire_sent session)
request_of _ (session_status session) = ok (session_status_sent session)
request_of _ (get_decision decision) = ok (get_decision_sent decision)
request_of _ (replay_decision decision) = ok (replay_decision_sent decision)
request_of _ (get_commitment_proof decision) = ok (get_commitment_proof_sent decision)
request_of _ (get_escalation authorize_id) = ok (get_escalation_sent authorize_id)
request_of _ (report_outcome decision correct verified_by key reward metrics observed_at) =
    report_outcome_sent decision correct verified_by key reward metrics observed_at
request_of _ (register_context content fidelity derived) =
    ok (register_context_sent content fidelity derived)
request_of _ (resolve_context refs) = ok (resolve_context_sent refs)
request_of _ who_am_i = ok who_am_i_sent

-- `SerializeToString` of protobuf.
module _ (serialize : Message → Bytes) where
  unfoldable pub call_of : Sent → Call
  unfolding full_name
  call_of (bodied path rpc message) = record {
    rpc_full_name = full_name rpc;
    resource_id = [];
    body = some (serialize message);
  }
  call_of (by_id rpc message id) = record {
    rpc_full_name = full_name rpc;
    resource_id = id;
    body = none;
  }

-- The stubs: the reply to a message of an RPC, and the presentation that answers a challenge, both
-- of which may raise.
pub record Stubs (W R : Type 0) : Type 0 where
  pub serialize : Message → Bytes
  pub serve : Rpc → Message → Option Credential → W → Outcome R × W
  pub presentation : Bytes → W → Outcome Bytes × W

-- Challenges are not kept in the log.
unfoldable pub presented : {W : Type 0} → (W → Outcome Bytes × W) → Act W Bytes
presented f s = let (a, w) = f s.outside in let s' : Client _ = record s { outside = w } in (a, s')

module _ (ed : Ed25519) (hash : Bytes → Bytes) {W R : Type 0} (outside : Outside W)
    (stubs : Stubs W R) where
  unfoldable pub send_as : Option Bytes → Option Bytes → Sent → Act W R
  unfolding call_of
  send_as credential bound (bodied once rpc message) =
      signed_once ed hash outside (stubs.serve rpc message) credential bound
        (call_of stubs.serialize (bodied once rpc message))
  send_as credential bound (bodied retried rpc message) =
      credentialed_call ed hash outside (stubs.serve rpc message) true credential bound
        (call_of stubs.serialize (bodied retried rpc message))
  send_as credential bound (by_id rpc message id) =
      credentialed_call ed hash outside (stubs.serve rpc message) true credential bound
        (call_of stubs.serialize (by_id rpc message id))

  unfoldable pub presentation_for : Method → Act W Bytes
  presentation_for (open_session agent session people budget limits mode subjects) =
      presented (stubs.presentation agent)
  presentation_for _ = pure []

  unfoldable pub perform : Option Bytes → Option Bytes → Method → Act W R
  unfolding request_of send_as presentation_for
  perform credential bound method = Calls.◌>>=◌ (presentation_for method) λ presentation.
      Calls.◌>>=◌ (lift (request_of presentation method)) λ sent. send_as credential bound sent
