-- ===== src/Seal/Withheld.antt =====
-- What a decoded attestation or outcome says of the message.
use seam_sdk.Prelude.{
  ◌≡◌, ◌≢◌, ◌↔◌, ◌⊎◌, inl, inr, refl, Option, none, some, true, Result, ok, err,
  unknown_collective_verdict, Exn, ◌>>=◌,
}
use seam_sdk.Prelude.Int.{ℤ}
use seam_sdk.Bytes.{Text}
use seam_sdk.Seal.{
  WireCollective, wire_approved, wire_declined, wire_split, wire_escalated, wire_no_votes,
  wire_unknown, collective_name, WireOutcome, CollectiveOutcome, approved, is_approved, outcome_as,
  CollectiveVerdict, approved_verdict, declined_verdict, split_verdict, escalated_verdict,
  no_votes_verdict, decode_collective, Answer, collective_outcome_of, decoded, WireAvailability,
  wire_recorded, wire_not_recorded, wire_key_unavailable, wire_archived, wire_clearance_denied,
  wire_unavailable, wire_availability, recorded, availability_name, WireReason, wire_commit,
  wire_cancel, wire_expire_ttl, wire_expire_suspend_cap, wire_reason, commit, reason_name,
  WireAttestation, RecordView, SealAttestation, attestation_of, attested, some_ok, collective_of,
  attestation_read, seal_attestation_of,
}

-- The known verdicts, on the wire and decoded.
pub data Known : WireCollective → CollectiveVerdict → Type 0 where
  known_approved : Known wire_approved approved_verdict
  known_declined : Known wire_declined declined_verdict
  known_split : Known wire_split split_verdict
  known_escalated : Known wire_escalated escalated_verdict
  known_no_votes : Known wire_no_votes no_votes_verdict

-- A decoded outcome: the message holds none, or one of a known verdict, which keeps its verdict and its
-- counters and is an approval exactly if the runtime says so; a verdict that is not known is refused with
-- its number.
pub data OutcomeCase (message : Option WireOutcome) (decision_id : Text)
    : Result (Option CollectiveOutcome) → Type 0 where
  no_outcome : message ≡ none → OutcomeCase message decision_id (ok none)
  known :
      (w : WireOutcome) (o : CollectiveOutcome)
      → message ≡ some w
      → Known w.verdict o.verdict
      → ((approved o ≡ true) ↔ (w.verdict ≡ wire_approved))
      → w.approve_count ≡ o.approve_count
      → w.reject_count ≡ o.reject_count
      → w.abstain_count ≡ o.abstain_count
      → w.declared_participant_count ≡ o.declared_participant_count
      → w.stated_value_contradicted_tally ≡ o.stated_value_contradicted_tally
      → w.effective_threshold ≡ o.effective_threshold
      → OutcomeCase message decision_id (ok (some o))
  refused :
      (w : WireOutcome) (n : ℤ)
      → message ≡ some w
      → w.verdict ≡ wire_unknown n
      → OutcomeCase message decision_id (err (unknown_collective_verdict n decision_id))

collective_name_cases :
    (v : WireCollective)
    → ((c : CollectiveVerdict) × (collective_name v ≡ inl c)
        × Known v c
        × ((is_approved c ≡ true) ↔ (v ≡ wire_approved)))
      ⊎ ((n : ℤ) × (collective_name v ≡ inr n) × (v ≡ wire_unknown n))
unfolding collective_name
collective_name_cases wire_approved =
    inl (approved_verdict, refl, known_approved, (λ h. refl, λ h. refl))
collective_name_cases wire_declined =
    inl (declined_verdict, refl, known_declined, (λ h. cc, λ h. cc))
collective_name_cases wire_split = inl (split_verdict, refl, known_split, (λ h. cc, λ h. cc))
collective_name_cases wire_escalated =
    inl (escalated_verdict, refl, known_escalated, (λ h. cc, λ h. cc))
collective_name_cases wire_no_votes =
    inl (no_votes_verdict, refl, known_no_votes, (λ h. cc, λ h. cc))
collective_name_cases (wire_unknown n) = inr (n, refl, refl)

decode_collective_cases :
    (w : WireOutcome) (decision_id : Text)
    → ((c : CollectiveVerdict) × (decode_collective w decision_id ≡ ok (outcome_as w c))
        × Known w.verdict c
        × ((is_approved c ≡ true) ↔ (w.verdict ≡ wire_approved)))
      ⊎ ((n : ℤ) × (decode_collective w decision_id
            ≡ err (unknown_collective_verdict n decision_id))
          × (w.verdict ≡ wire_unknown n))
unfolding decode_collective
decode_collective_cases w decision_id = elim (collective_name_cases w.verdict) [
  | inl (c, named, is_known, same) ↦ inl (c, rw (named, decode_collective) refl, is_known, same)
  | inr (n, named, same) ↦ inr (n, rw (named, decode_collective) refl, same)
]

decoded-OutcomeCase :
    (message : Option WireOutcome) (decision_id : Text)
    → OutcomeCase message decision_id (decoded message decision_id)
unfolding decode_collective approved
decoded-OutcomeCase none decision_id = no_outcome refl
decoded-OutcomeCase (some w) decision_id = elim (decode_collective_cases w decision_id) [
  | inl (c, e, is_known, same) ↦
      rw e (known w (outcome_as w c) refl is_known same refl refl refl refl refl refl)
  | inr (n, e, same) ↦ rw e (refused w n refl same)
]

-- Every response decodes as the message says: an outcome exactly if there is one whose verdict is
-- known, an approval exactly if that verdict is the approval, with the counters and the threshold as
-- they were; an unknown verdict is refused with its number and the decision.
pub collective_outcome_of-OutcomeCase :
    (resp : Answer)
    → OutcomeCase resp.collective_outcome resp.decision_id (collective_outcome_of resp)
unfolding collective_outcome_of
collective_outcome_of-OutcomeCase resp =
    decoded-OutcomeCase resp.collective_outcome resp.decision_id

-- The five ways in which a record's attestation is read.
pub data SealCase (view : RecordView) : Result (Option SealAttestation) → Type 0 where
  no_attestation : view.seal_attestation ≡ none → SealCase view (ok none)
  withheld :
      (att : WireAttestation) (a : WireAvailability)
      → view.seal_attestation ≡ some att
      → att.availability ≡ a
      → a ≢ wire_recorded
      → SealCase view (
          ok (
            some (record {
              availability = availability_name a;
              seal_reason = none;
              collective_outcome = none;
            })))
  not_commit :
      (att : WireAttestation) (r : WireReason)
      → view.seal_attestation ≡ some att
      → att.availability ≡ wire_recorded
      → att.seal_reason ≡ r
      → r ≢ wire_commit
      → SealCase view (
          ok (
            some (record {
              availability = recorded;
              seal_reason = some (reason_name r);
              collective_outcome = none;
            })))
  committed :
      (att : WireAttestation) (o : Option CollectiveOutcome)
      → view.seal_attestation ≡ some att
      → att.availability ≡ wire_recorded
      → att.seal_reason ≡ wire_commit
      → OutcomeCase att.collective_outcome view.decision_id (ok o)
      → SealCase view (
          ok (
            some (record {
              availability = recorded;
              seal_reason = some commit;
              collective_outcome = o;
            })))
  unknown_verdict_read :
      (att : WireAttestation) (e : Exn)
      → view.seal_attestation ≡ some att
      → att.availability ≡ wire_recorded
      → att.seal_reason ≡ wire_commit
      → OutcomeCase att.collective_outcome view.decision_id (err e)
      → SealCase view (err e)

module _ (view : RecordView) where
  commit_read :
      (att : WireAttestation)
      → view.seal_attestation ≡ some att
      → att.availability ≡ wire_recorded
      → att.seal_reason ≡ wire_commit
      → (r : Result (Option CollectiveOutcome))
      → OutcomeCase att.collective_outcome view.decision_id r
      → SealCase view (some_ok (r >>= λ o. ok (attested commit o)))
  commit_read att present is_recorded is_commit (ok o) case =
      committed att o present is_recorded is_commit case
  commit_read att present is_recorded is_commit (err e) case =
      unknown_verdict_read att e present is_recorded is_commit case

  reason_read :
      (att : WireAttestation)
      → view.seal_attestation ≡ some att
      → att.availability ≡ wire_recorded
      → (r : WireReason) → att.seal_reason ≡ r
      → SealCase view (
          some_ok (
            collective_of att (reason_name r) view.decision_id >>= λ o.
            ok (attested (reason_name r) o)))
  unfolding collective_of reason_name
  reason_read att present is_recorded wire_commit e =
      commit_read att present is_recorded e _
        (decoded-OutcomeCase att.collective_outcome view.decision_id)
  reason_read att present is_recorded wire_cancel e =
      not_commit att wire_cancel present is_recorded e (λ h. cc)
  reason_read att present is_recorded wire_expire_ttl e =
      not_commit att wire_expire_ttl present is_recorded e (λ h. cc)
  reason_read att present is_recorded wire_expire_suspend_cap e =
      not_commit att wire_expire_suspend_cap present is_recorded e (λ h. cc)
  reason_read att present is_recorded (wire_reason n) e =
      not_commit att (wire_reason n) present is_recorded e (λ h. cc)

  availability_read :
      (att : WireAttestation)
      → view.seal_attestation ≡ some att
      → (a : WireAvailability) → att.availability ≡ a
      → SealCase view (some_ok (attestation_of att (availability_name a) view.decision_id))
  unfolding attestation_of availability_name
  availability_read att present wire_recorded e = reason_read att present e att.seal_reason refl
  availability_read att present wire_not_recorded e =
      withheld att wire_not_recorded present e (λ h. cc)
  availability_read att present wire_key_unavailable e =
      withheld att wire_key_unavailable present e (λ h. cc)
  availability_read att present wire_archived e = withheld att wire_archived present e (λ h. cc)
  availability_read att present wire_clearance_denied e =
      withheld att wire_clearance_denied present e (λ h. cc)
  availability_read att present wire_unavailable e =
      withheld att wire_unavailable present e (λ h. cc)
  availability_read att present (wire_availability n) e =
      withheld att (wire_availability n) present e (λ h. cc)

  attestation_read-SealCase :
      (s : Option WireAttestation)
      → view.seal_attestation ≡ s
      → SealCase view (attestation_read s view.decision_id)
  unfolding attestation_read
  attestation_read-SealCase none e = no_attestation e
  attestation_read-SealCase (some att) e = availability_read att e att.availability refl

-- Every record is read in one of these ways: what its attestation holds is withheld unless it was
-- recorded, an outcome is read under a commit only, and only an unknown verdict there raises.
pub seal_attestation_of-SealCase : (view : RecordView) → SealCase view (seal_attestation_of view)
unfolding seal_attestation_of
seal_attestation_of-SealCase view = attestation_read-SealCase view view.seal_attestation refl
