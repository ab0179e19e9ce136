-- ===== src/Requests.antt =====
-- The requests of the RPC methods of `SeamClient` (`python/seam_sdk/client.py`): one function per method, which
-- checks its arguments and fills the message.
use seam_sdk.Prelude.{ℕ, Option, none, some, List, [], codes, Bool, Result, ok, ◌>>=◌}
use seam_sdk.Prelude.Int.{ℤ}
use seam_sdk.Bytes.{Bytes, Text}
use seam_sdk.Checks.{Value}
use seam_sdk.Reports.{
  Number, Metrics, ObservedAt, OutcomeFields, check_outcome_fields, check_idempotency_key, u32,
}

-- `BudgetLimits` and `StepUsage`.
pub record BudgetLimits : Type 0 where
  pub messages : Option ℤ
  pub tokens : Option ℤ
  pub cost_micros : Option ℤ
  pub wall_ms : Option ℤ
  pub soft_pct : Option ℤ

pub record StepUsage : Type 0 where
  pub tokens : ℤ
  pub cost_micros : ℤ

-- The RPCs.
pub data Rpc : Type 0 where
  open_session_rpc submit_proposal_rpc submit_vote_rpc submit_evaluation_rpc : Rpc
  submit_objection_rpc submit_commit_rpc submit_approval_request_rpc submit_ballot_rpc : Rpc
  cancel_session_rpc expire_session_rpc session_status_rpc get_decision_rpc : Rpc
  replay_decision_rpc get_commitment_proof_rpc get_escalation_rpc report_outcome_rpc : Rpc
  register_context_rpc resolve_context_rpc who_am_i_rpc : Rpc

unfoldable pub full_name : Rpc → Text
full_name open_session_rpc = codes "/seam.api.v1.SeamCoordination/OpenSession"
full_name submit_proposal_rpc = codes "/seam.api.v1.SeamCoordination/SubmitProposal"
full_name submit_vote_rpc = codes "/seam.api.v1.SeamCoordination/SubmitVote"
full_name submit_evaluation_rpc = codes "/seam.api.v1.SeamCoordination/SubmitEvaluation"
full_name submit_objection_rpc = codes "/seam.api.v1.SeamCoordination/SubmitObjection"
full_name submit_commit_rpc = codes "/seam.api.v1.SeamCoordination/SubmitCommit"
full_name submit_approval_request_rpc = codes "/seam.api.v1.SeamCoordination/SubmitApprovalRequest"
full_name submit_ballot_rpc = codes "/seam.api.v1.SeamCoordination/SubmitBallot"
full_name cancel_session_rpc = codes "/seam.api.v1.SeamCoordination/CancelSession"
full_name expire_session_rpc = codes "/seam.api.v1.SeamCoordination/ExpireSession"
full_name session_status_rpc = codes "/seam.api.v1.SeamCoordination/SessionStatus"
full_name get_decision_rpc = codes "/seam.api.v1.SeamCoordination/GetDecision"
full_name replay_decision_rpc = codes "/seam.api.v1.SeamCoordination/ReplayDecision"
full_name get_commitment_proof_rpc = codes "/seam.api.v1.SeamCoordination/GetCommitmentProof"
full_name get_escalation_rpc = codes "/seam.api.v1.SeamAuthorization/GetEscalation"
full_name report_outcome_rpc = codes "/seam.api.v1.SeamCoordination/ReportOutcome"
full_name register_context_rpc = codes "/seam.api.v1.SeamContext/RegisterContext"
full_name resolve_context_rpc = codes "/seam.api.v1.SeamContext/ResolveContext"
full_name who_am_i_rpc = codes "/seam.api.v1.SeamTrust/WhoAmI"

-- The request messages, with their fields.
pub data Message : Type 0 where
  open_session_request :
      (session_id : Text) (participants : List Text) (budget : ℤ) (mode : Text)
      (presentation : Bytes) (on_behalf_of : List Text) (limits : Option BudgetLimits)
      → Message
  proposal_request :
      (session_id proposer proposal_id option : Text) (usage : Option StepUsage) → Message
  vote_request :
      (session_id voter proposal_id value reason : Text) (usage : Option StepUsage) → Message
  evaluation_request :
      (session_id evaluator proposal_id recommendation reason : Text) (confidence : Option ℕ)
      (rationale_ref : Option Text) (usage : Option StepUsage)
      → Message
  objection_request :
      (session_id objector proposal_id reason severity : Text) (usage : Option StepUsage) → Message
  commit_request :
      (session_id commitment_id action : Text) (supersedes : Option Text) (usage : Option StepUsage)
      → Message
  approval_request_request :
      (session_id requester request_id action : Text) (required_approvals : ℕ)
      (usage : Option StepUsage)
      → Message
  ballot_request :
      (session_id voter request_id : Text) (choice : ℤ) (reason : Text) (usage : Option StepUsage)
      → Message
  session_ref : (session_id : Text) → Message
  decision_ref : (decision_id : Text) → Message
  escalation_ref : (authorize_id : Text) → Message
  report_outcome_request :
      (decision_id : Text) (correct : Bool) (idempotency_key : Text) (fields : OutcomeFields)
      (verified_by : Option Text)
      → Message
  register_context_request :
      (content : Bytes) (fidelity : Text) (derived_from : List Text) → Message
  resolve_context_request : (refs : List Text) → Message
  empty_request : Message

-- How a method sends: `_signed_once`, or `_credentialed_call` with its one retry.
pub data Route : Type 0 where
  once retried : Route

-- What a method hands to its path: the RPC, the message, and the resource's id where the signature
-- covers that in place of the serialized message.
pub data Sent : Type 0 where
  bodied : Route → Rpc → Message → Sent
  by_id : Rpc → Message → Text → Sent

unfoldable pub list_or_empty : Option (List Text) → List Text
list_or_empty none = []
list_or_empty (some xs) = xs

unfoldable pub open_session_sent :
    (presentation : Bytes) (session_id : Text) (participants : List Text) (budget : ℤ)
    (limits : Option BudgetLimits) (mode : Text) (on_behalf_of : List Text)
    → Sent
open_session_sent presentation session people budget limits mode subjects =
    bodied once open_session_rpc
      (open_session_request session people budget mode presentation subjects limits)

unfoldable pub proposal_sent :
    (session_id proposer proposal_id option : Text) (usage : Option StepUsage) → Sent
proposal_sent session proposer proposal option usage =
    bodied retried submit_proposal_rpc (proposal_request session proposer proposal option usage)

unfoldable pub vote_sent :
    (session_id voter proposal_id value reason : Text) (usage : Option StepUsage) → Sent
vote_sent session voter proposal value reason usage =
    bodied retried submit_vote_rpc (vote_request session voter proposal value reason usage)

unfoldable pub evaluation_sent :
    (session_id evaluator proposal_id recommendation : Text) (confidence : Option ℕ) (reason : Text)
    (rationale_ref : Option Text) (usage : Option StepUsage)
    → Sent
evaluation_sent session evaluator proposal recommendation confidence reason rationale usage =
    bodied retried submit_evaluation_rpc (
      evaluation_request session evaluator proposal recommendation reason confidence rationale
        usage)

unfoldable pub objection_sent :
    (session_id objector proposal_id reason severity : Text) (usage : Option StepUsage) → Sent
objection_sent session objector proposal reason severity usage =
    bodied retried submit_objection_rpc
      (objection_request session objector proposal reason severity usage)

unfoldable pub commit_sent :
    (session_id commitment_id action : Text) (supersedes : Option Text) (usage : Option StepUsage)
    → Sent
commit_sent session commitment action supersedes usage =
    bodied retried submit_commit_rpc (commit_request session commitment action supersedes usage)

unfoldable pub approval_request_sent :
    (session_id requester request_id action : Text) (required_approvals : Value)
    (usage : Option StepUsage)
    → Result Sent
approval_request_sent session requester request action required usage = do
  n ← u32 required
  ok (
      bodied retried submit_approval_request_rpc
        (approval_request_request session requester request action n usage))

unfoldable pub ballot_sent :
    (session_id voter request_id : Text) (choice : ℤ) (reason : Text) (usage : Option StepUsage)
    → Sent
ballot_sent session voter request choice reason usage =
    bodied retried submit_ballot_rpc (ballot_request session voter request choice reason usage)

unfoldable pub cancel_sent : (session_id : Text) → Sent
cancel_sent session = bodied once cancel_session_rpc (session_ref session)

unfoldable pub expire_sent : (session_id : Text) → Sent
expire_sent session = bodied once expire_session_rpc (session_ref session)

unfoldable pub session_status_sent : (session_id : Text) → Sent
session_status_sent session = by_id session_status_rpc (session_ref session) session

unfoldable pub get_decision_sent : (decision_id : Text) → Sent
get_decision_sent decision = by_id get_decision_rpc (decision_ref decision) decision

unfoldable pub replay_decision_sent : (decision_id : Text) → Sent
replay_decision_sent decision = by_id replay_decision_rpc (decision_ref decision) decision

unfoldable pub get_commitment_proof_sent : (decision_id : Text) → Sent
get_commitment_proof_sent decision = by_id get_commitment_proof_rpc (decision_ref decision) decision

unfoldable pub get_escalation_sent : (authorize_id : Text) → Sent
get_escalation_sent authorize_id =
    by_id get_escalation_rpc (escalation_ref authorize_id) authorize_id

unfoldable pub report_outcome_sent :
    (decision_id : Text) (correct : Bool) (verified_by : Option Text) (idempotency_key : Value)
    (reward : Option Number) (metrics : Option Metrics) (observed_at : Option ObservedAt)
    → Result Sent
report_outcome_sent decision correct verified_by key reward metrics observed_at = do
  checked ← check_idempotency_key key
  outcome ← check_outcome_fields reward metrics observed_at
  ok (
      bodied retried report_outcome_rpc
        (report_outcome_request decision correct checked outcome verified_by))

unfoldable pub register_context_sent :
    (content : Bytes) (fidelity : Text) (derived_from : Option (List Text)) → Sent
unfolding list_or_empty
register_context_sent content fidelity derived =
    bodied retried register_context_rpc
      (register_context_request content fidelity (list_or_empty derived))

unfoldable pub resolve_context_sent : (refs : List Text) → Sent
resolve_context_sent refs = bodied retried resolve_context_rpc (resolve_context_request refs)

unfoldable pub who_am_i_sent : Sent
who_am_i_sent = by_id who_am_i_rpc empty_request []
