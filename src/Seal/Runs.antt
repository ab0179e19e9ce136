-- ===== src/Seal/Runs.antt =====
-- Attestations as they are read.
use seam_sdk.Prelude.{◌≡◌, refl, none, some, false, codes, err, unknown_collective_verdict}
use seam_sdk.Prelude.Int.{pos}
use seam_sdk.Seal.{
  WireOutcome, wire_approved, wire_unknown, wire_recorded, wire_commit, Answer, RecordView,
  collective_outcome_of, seal_attestation_of, decode_collective, collective_name,
}
use seam_sdk.Seal.Withheld.{
  OutcomeCase, SealCase, collective_outcome_of-OutcomeCase, seal_attestation_of-SealCase,
}

abbrev outcome : WireOutcome
outcome = record {
  verdict = wire_unknown (pos 0);
  approve_count = 3;
  reject_count = 0;
  abstain_count = 0;
  declared_participant_count = 3;
  stated_value_contradicted_tally = false;
  effective_threshold = none;
}

abbrev answered : Answer
answered = record {
  decision_id = codes "d";
  collective_outcome = some (record outcome { verdict = wire_approved });
  policy_enforcement = none;
}

collective_outcome_of-OutcomeCase_example :
    OutcomeCase answered.collective_outcome answered.decision_id (collective_outcome_of answered)
collective_outcome_of-OutcomeCase_example = collective_outcome_of-OutcomeCase answered

-- A record sealed by a commit whose verdict is not known, and the same with its attestation archived.
abbrev view : RecordView
view = record {
  decision_id = codes "d";
  seal_attestation = some (record {
    availability = wire_recorded;
    seal_reason = wire_commit;
    collective_outcome = some outcome;
  });
}

unknown_raises : seal_attestation_of view ≡ err (unknown_collective_verdict (pos 0) (codes "d"))
unfolding seal_attestation_of decode_collective collective_name
unknown_raises = refl

seal_attestation_of-SealCase_example : SealCase view (seal_attestation_of view)
seal_attestation_of-SealCase_example = seal_attestation_of-SealCase view
