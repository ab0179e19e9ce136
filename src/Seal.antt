-- ===== src/Seal.antt =====
-- The decoders of `python/seam_sdk/_collective.py`, `_policy.py` and `_seal.py`. A field of a message
-- with presence is an `Option`, which is `HasField`; an enumeration is open.
pub mod Withheld
mod Runs
use seam_sdk.Prelude.{
  ℕ, Option, none, some, Bool, true, false, Result, ok, err, unknown_collective_verdict, ◌>>=◌, ◌⊎◌,
  inl, inr,
}
use seam_sdk.Prelude.Int.{ℤ}
use seam_sdk.Bytes.{Text}

-- `pb.CollectiveVerdict`; every other value, `UNSPECIFIED` included, is its number.
pub data WireCollective : Type 0 where
  wire_approved wire_declined wire_split wire_escalated wire_no_votes : WireCollective
  wire_unknown : ℤ → WireCollective

pub data CollectiveVerdict : Type 0 where
  approved_verdict declined_verdict split_verdict escalated_verdict no_votes_verdict :
      CollectiveVerdict

-- `_VERDICT_NAMES.get`: the name, or the number that has none.
unfoldable pub collective_name : WireCollective → CollectiveVerdict ⊎ ℤ
collective_name wire_approved = inl approved_verdict
collective_name wire_declined = inl declined_verdict
collective_name wire_split = inl split_verdict
collective_name wire_escalated = inl escalated_verdict
collective_name wire_no_votes = inl no_votes_verdict
collective_name (wire_unknown n) = inr n

-- `pb.CollectiveOutcome`.
pub record WireOutcome : Type 0 where
  pub verdict : WireCollective
  pub approve_count : ℕ
  pub reject_count : ℕ
  pub abstain_count : ℕ
  pub declared_participant_count : ℕ
  pub stated_value_contradicted_tally : Bool
  pub effective_threshold : Option ℕ

pub record CollectiveOutcome : Type 0 where
  pub verdict : CollectiveVerdict
  pub approve_count : ℕ
  pub reject_count : ℕ
  pub abstain_count : ℕ
  pub declared_participant_count : ℕ
  pub stated_value_contradicted_tally : Bool
  pub effective_threshold : Option ℕ

abbrev pub is_approved : CollectiveVerdict → Bool
is_approved approved_verdict = true
is_approved _ = false

unfoldable pub approved : CollectiveOutcome → Bool
approved o = is_approved o.verdict

abbrev pub outcome_as : WireOutcome → CollectiveVerdict → CollectiveOutcome
outcome_as outcome name = record {
  verdict = name;
  approve_count = outcome.approve_count;
  reject_count = outcome.reject_count;
  abstain_count = outcome.abstain_count;
  declared_participant_count = outcome.declared_participant_count;
  stated_value_contradicted_tally = outcome.stated_value_contradicted_tally;
  effective_threshold = outcome.effective_threshold;
}

unfoldable pub decode_collective : WireOutcome → Text → Result CollectiveOutcome
unfolding collective_name
decode_collective outcome decision_id = elim (collective_name outcome.verdict) [
  | inr raw_value ↦ err (unknown_collective_verdict raw_value decision_id)
  | inl name ↦ ok (outcome_as outcome name)
]

-- The decoded field of an optional message.
abbrev pub decoded : Option WireOutcome → Text → Result (Option CollectiveOutcome)
decoded none decision_id = ok none
decoded (some outcome) decision_id = do o ← decode_collective outcome decision_id; ok (some o)

-- `pb.PolicyEnforcement`, whose `enforced` has no presence of its own, and its decoded form.
pub record WirePolicy : Type 0 where
  pub enforced : Bool
  pub policy_id : Option Text

pub record PolicyEnforcement : Type 0 where
  pub enforced : Bool
  pub policy_id : Option Text

-- A `DecisionResponse` or a `SessionStep`, as far as the decoders read it.
pub record Answer : Type 0 where
  pub decision_id : Text
  pub collective_outcome : Option WireOutcome
  pub policy_enforcement : Option WirePolicy

unfoldable pub collective_outcome_of : Answer → Result (Option CollectiveOutcome)
unfolding decode_collective
collective_outcome_of resp = decoded resp.collective_outcome resp.decision_id

unfoldable pub policy_enforcement_of : Answer → Option PolicyEnforcement
policy_enforcement_of resp = elim resp.policy_enforcement [
  | none ↦ none
  | some enforcement ↦
      some (record { enforced = enforcement.enforced; policy_id = enforcement.policy_id })
]

-- `pb.SealAttestationAvailability` and `pb.SealReason`.
pub data WireAvailability : Type 0 where
  wire_recorded wire_not_recorded wire_key_unavailable wire_archived : WireAvailability
  wire_clearance_denied wire_unavailable : WireAvailability
  wire_availability : ℤ → WireAvailability

pub data Availability : Type 0 where
  recorded not_recorded key_unavailable archived clearance_denied : Availability
  not_available unrecognized : Availability

unfoldable pub availability_name : WireAvailability → Availability
availability_name wire_recorded = recorded
availability_name wire_not_recorded = not_recorded
availability_name wire_key_unavailable = key_unavailable
availability_name wire_archived = archived
availability_name wire_clearance_denied = clearance_denied
availability_name wire_unavailable = not_available
availability_name (wire_availability n) = unrecognized

pub data WireReason : Type 0 where
  wire_commit wire_cancel wire_expire_ttl wire_expire_suspend_cap : WireReason
  wire_reason : ℤ → WireReason

pub data SealReason : Type 0 where
  commit cancel expire_ttl expire_suspend_cap unrecognized_reason : SealReason

unfoldable pub reason_name : WireReason → SealReason
reason_name wire_commit = commit
reason_name wire_cancel = cancel
reason_name wire_expire_ttl = expire_ttl
reason_name wire_expire_suspend_cap = expire_suspend_cap
reason_name (wire_reason n) = unrecognized_reason

pub record WireAttestation : Type 0 where
  pub availability : WireAvailability
  pub seal_reason : WireReason
  pub collective_outcome : Option WireOutcome

-- `pb.DecisionRecordView`, as far as the decoder reads it.
pub record RecordView : Type 0 where
  pub decision_id : Text
  pub seal_attestation : Option WireAttestation

pub record SealAttestation : Type 0 where
  pub availability : Availability
  pub seal_reason : Option SealReason
  pub collective_outcome : Option CollectiveOutcome

-- The outcome is read under a commit only.
unfoldable pub collective_of :
    WireAttestation → SealReason → Text → Result (Option CollectiveOutcome)
unfolding decode_collective
collective_of att commit decision_id = decoded att.collective_outcome decision_id
collective_of att _ decision_id = ok none

abbrev pub attested : SealReason → Option CollectiveOutcome → SealAttestation
attested reason collective = record {
  availability = recorded;
  seal_reason = some reason;
  collective_outcome = collective;
}

unfoldable pub attestation_of : WireAttestation → Availability → Text → Result SealAttestation
unfolding collective_of reason_name
attestation_of att recorded decision_id = do
  collective ← collective_of att (reason_name att.seal_reason) decision_id
  ok (attested (reason_name att.seal_reason) collective)
attestation_of att availability decision_id =
    ok (record { availability = availability; seal_reason = none; collective_outcome = none })

abbrev pub some_ok : Result SealAttestation → Result (Option SealAttestation)
some_ok r = r >>= λ a. ok (some a)

unfoldable pub attestation_read : Option WireAttestation → Text → Result (Option SealAttestation)
unfolding attestation_of availability_name
attestation_read none decision_id = ok none
attestation_read (some att) decision_id =
    some_ok (attestation_of att (availability_name att.availability) decision_id)

unfoldable pub seal_attestation_of : RecordView → Result (Option SealAttestation)
unfolding attestation_read
seal_attestation_of view = attestation_read view.seal_attestation view.decision_id
