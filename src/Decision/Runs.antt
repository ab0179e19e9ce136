-- ===== src/Decision/Runs.antt =====
-- A decision of a toy issuer, under its own pin and under another.
use seam_sdk.Prelude.{ℕ, ◌≡◌, refl, none, [], codes, true, false, issuer_mismatch, Bool}
use seam_sdk.Prelude.Int.{pos}
use seam_sdk.Bytes.{Text}
use seam_sdk.Bytes.{to_bytes_big, le_bytes, encode, encode_char}
use seam_sdk.Bytes.Decode.{decode, decode_from}
use seam_sdk.Base64.{
  b64url_nopad, rstrip_pad, urlsafe_b64encode, urlsafe_char, b64url_decode, a2b_base64, char_value,
}
use seam_sdk.Keys.{aid_from_pubkey, key_of, aid_to_pubkey}
use seam_sdk.Wire.{join, write, be64_frame, be64_text, be64_opt_text}
use seam_sdk.Commitment.{
  seam_commitment_digest, field_slots, explanation_digest, entries_bytes,
  commitment_explanation_digest,
}
use seam_sdk.Tct.{verify_tct}
use seam_sdk.Json.{integer}
use seam_sdk.Errors.{local}
use seam_sdk.Calls.{Outcome, returned, raised, ◌>>=◌, pure, lift, wire}
use seam_sdk.Client.{hexdigest, credentialed_call, credentialed_call_as, signer}
use seam_sdk.Calls.Inversion.{outcome}
use seam_sdk.Tct.Tokens.{toy, constant, issuer, parse, token}
use seam_sdk.Client.Server.{server, client}
use seam_sdk.Verbs.{get_commitment_proof, Stubs, perform}
use seam_sdk.Decision.{CommitmentProof, other_kind, kind_word, verify_proof, verify_decision}
use seam_sdk.Decision.Pinned.{Judged, verify_decision-Judged}

unknown_kind : kind_word (other_kind (pos 107)) ≡ codes "<unknown kind 107>"
unfolding kind_word
unknown_kind = refl

abbrev proof : CommitmentProof
proof = record {
  issuer_aid = issuer;
  commitment = record {
    id = codes "c";
    action = codes "a";
    authority = [];
    auth_method = codes "m";
    trust_basis = codes "t";
    supersedes = none;
    committer = [];
    explanation_digest = [];
    explanation = [];
    signed_artifact = token (codes "AQ");
  };
}

abbrev stubs : Stubs ℕ CommitmentProof
stubs = record {
  serialize = λ m. [];
  serve = λ rpc m md w. (returned proof, w);
  presentation = λ agent w. (returned agent, w);
}

fetched :
    outcome (perform toy constant server stubs none none (get_commitment_proof (codes "d")) client)
    ≡ returned proof
unfolding perform ◌>>=◌ pure lift credentialed_call credentialed_call_as signer wire
fetched = refl

abbrev verified : Text → ℕ → Outcome Bool
verified expected clock = outcome (
    verify_decision toy constant (parse (integer (pos 100))) server stubs none none (codes "d")
      expected (pos clock) client)

true_decision : verified issuer 99 ≡ returned true
unfolding perform ◌>>=◌ pure lift credentialed_call credentialed_call_as signer wire verify_decision
    verify_proof decode decode_from verify_tct b64url_nopad rstrip_pad urlsafe_b64encode
    urlsafe_char key_of aid_to_pubkey aid_from_pubkey b64url_decode a2b_base64 char_value
    seam_commitment_digest join field_slots write be64_frame to_bytes_big le_bytes be64_text encode
    encode_char be64_opt_text hexdigest explanation_digest entries_bytes
    commitment_explanation_digest
true_decision = refl

expired_decision : verified issuer 100 ≡ returned false
unfolding perform ◌>>=◌ pure lift credentialed_call credentialed_call_as signer wire verify_decision
    verify_proof decode decode_from verify_tct b64url_nopad rstrip_pad urlsafe_b64encode
    urlsafe_char key_of aid_to_pubkey aid_from_pubkey b64url_decode a2b_base64 char_value
    seam_commitment_digest join field_slots write be64_frame to_bytes_big le_bytes be64_text encode
    encode_char be64_opt_text hexdigest explanation_digest entries_bytes
    commitment_explanation_digest
expired_decision = refl

another_pin :
    verified (codes "aid:pubkey:other") 99
    ≡ raised (local (issuer_mismatch issuer (codes "aid:pubkey:other")))
unfolding perform ◌>>=◌ pure lift credentialed_call credentialed_call_as signer wire verify_decision
    verify_proof decode decode_from aid_from_pubkey b64url_nopad rstrip_pad urlsafe_b64encode
    urlsafe_char
another_pin = refl

verify_decision-Judged_example :
    Judged toy constant (parse (integer (pos 100))) proof issuer (pos 99) (verified issuer 99)
verify_decision-Judged_example =
    verify_decision-Judged toy constant (parse (integer (pos 100))) issuer (pos 99) server stubs
      none none (codes "d") client proof fetched
