-- ===== src/Decision/Pinned.antt =====
-- How a fetched proof is judged.
use seam_sdk.Prelude.{
  ◌≡◌, ◌≢◌, refl, sym, ap, ◌∙◌, subst, none, Option, Bool, true, false, bytes_eq, bytes_eq→eq,
  bytes_eq_refl, if◌then◌else◌, Result, ok, err, Exn, issuer_mismatch, ◌>>=◌,
}
use seam_sdk.Prelude.Int.{ℤ}
use seam_sdk.Bytes.{Bytes, Text}
use seam_sdk.Bytes.Decode.{decode}
use seam_sdk.Keys.{Ed25519}
use seam_sdk.Json.{Json}
use seam_sdk.Tct.{verify_tct, now_of}
use seam_sdk.Tct.Soundness.{Attested, verify_tct-Attested}
use seam_sdk.Errors.{local}
use seam_sdk.Calls.{Outcome, returned, raised, Outside, Client, lift, continue}
use seam_sdk.Calls
use seam_sdk.Calls.Inversion.{outcome, returned_injective, not_returned}
use seam_sdk.Verbs.{get_commitment_proof, Stubs, perform}
use seam_sdk.Decision.{CommitmentProof, commitment_view, verify_proof, verify_decision}

module _ (ed : Ed25519) (hash : Bytes → Bytes) (parse : Bytes → Result Json)
    (proof : CommitmentProof) (expected : Text) (clock : ℤ) where
  -- How a fetched proof is judged.
  pub data Judged : Outcome Bool → Type 0 where
    substituted :
        proof.issuer_aid ≢ expected
        → Judged (raised (local (issuer_mismatch proof.issuer_aid expected)))
    undecodable :
        (e : Exn)
        → proof.issuer_aid ≡ expected
        → decode proof.commitment.signed_artifact ≡ err e
        → Judged (raised (local e))
    refused :
        (token : Text)
        → proof.issuer_aid ≡ expected
        → decode proof.commitment.signed_artifact ≡ ok token
        → verify_tct ed hash parse expected token (commitment_view proof.commitment) none clock
          ≡ false
        → Judged (returned false)
    accepted :
        (token : Text)
        → proof.issuer_aid ≡ expected
        → decode proof.commitment.signed_artifact ≡ ok token
        → Attested ed hash parse expected token (commitment_view proof.commitment) clock
        → Judged (returned true)

  module _ {W : Type 0} (s : Client W) where
    by_token :
        (token : Text) (b : Bool)
        → proof.issuer_aid ≡ expected
        → decode proof.commitment.signed_artifact ≡ ok token
        → verify_tct ed hash parse expected token (commitment_view proof.commitment) none clock ≡ b
        → Judged (returned b)
    unfolding now_of
    by_token token true named decoded h = accepted token named decoded (
        verify_tct-Attested ed hash parse expected token (commitment_view proof.commitment) none
          clock h)
    by_token token false named decoded h = refused token named decoded h

    by_artifact :
        (r : Result Text)
        → proof.issuer_aid ≡ expected
        → decode proof.commitment.signed_artifact ≡ r
        → Judged (
            outcome (
              lift
                (r >>= λ token. ok (
                  verify_tct ed hash parse expected token
                    (commitment_view proof.commitment)
                    none
                    clock))
                s))
    unfolding lift
    by_artifact (ok token) named decoded = by_token token _ named decoded refl
    by_artifact (err e) named decoded = undecodable e named decoded

    by_issuer :
        (b : Bool)
        → bytes_eq proof.issuer_aid expected ≡ b
        → Judged (
            outcome (
              lift
                (if b
                  then (decode proof.commitment.signed_artifact >>= λ token. ok (
                      verify_tct ed hash parse expected token
                        (commitment_view proof.commitment)
                        none
                        clock))
                  else err (issuer_mismatch proof.issuer_aid expected))
                s))
    unfolding lift
    by_issuer true e = by_artifact _ (bytes_eq→eq proof.issuer_aid expected e) refl
    by_issuer false e = substituted λ same.
        differs (sym (bytes_eq_refl expected) ∙ ap (λ t. bytes_eq t expected) (sym same) ∙ e)
      where
        differs : true ≡ false → ⊥
        differs e = cc

    verify_proof-Judged :
        Judged (outcome (lift (verify_proof ed hash parse proof expected clock) s))
    unfolding verify_proof
    verify_proof-Judged = by_issuer _ refl

module _ (ed : Ed25519) (hash : Bytes → Bytes) (parse : Bytes → Result Json) (expected : Text)
    (clock : ℤ) {W : Type 0} where
  after_fetch :
      (proof : CommitmentProof) (p : Outcome CommitmentProof × Client W)
      → outcome p ≡ returned proof
      → Judged ed hash parse proof expected clock
          (outcome (continue (λ proof. lift (verify_proof ed hash parse proof expected clock)) p))
  after_fetch proof (returned q, s) e =
      subst
        (λ q.
          Judged ed hash parse proof expected clock
            (outcome (lift (verify_proof ed hash parse q expected clock) s)))
        (sym (returned_injective e)) (verify_proof-Judged ed hash parse proof expected clock s)
  after_fetch proof (raised x, s) e = absurd (not_returned e)

  -- When the proof of a decision was fetched, the call raises IssuerMismatchError exactly for a proof
  -- that names another issuer than the pinned one, raises what decoding the artifact raises, or answers
  -- what `verify_tct` answers for the pinned issuer; so it answers True only for that issuer's own token
  -- over the commitment of the proof.
  pub verify_decision-Judged :
      (outside : Outside W) (stubs : Stubs W CommitmentProof) (credential bound : Option Bytes)
      (decision : Text) (s : Client W) (proof : CommitmentProof)
      → outcome (perform ed hash outside stubs credential bound (get_commitment_proof decision) s)
        ≡ returned proof
      → Judged ed hash parse proof expected clock (
          outcome (
            verify_decision ed hash parse outside stubs credential bound decision expected clock s))
  unfolding verify_decision Calls.◌>>=◌
  verify_decision-Judged outside stubs credential bound decision s proof h =
      after_fetch proof
        (perform ed hash outside stubs credential bound (get_commitment_proof decision) s) h
