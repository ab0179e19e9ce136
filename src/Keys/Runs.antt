-- ===== src/Keys/Runs.antt =====
-- The signing and verifying functions with a toy key pair, and the enrolment theorems at it.
use seam_sdk.Prelude.{
  ℕ, ◌⊎◌, ◌<◌, ◌≡◌, refl, sym, ap, ◌∙◌, [], ◌∷◌, ◌++◌, codes, All, ltb, bytes_eq, bytes_eq_refl,
  Bool-cases, ltb→lt, inl, inr, subst, ok_injective, if◌then◌else◌, true, false, arith, Result, ok,
  err, value_error,
}
use seam_sdk.Prelude.Int.{pos}
use seam_sdk.Bytes.{Bytes, Text, encode, encode_char, pack_le, le_bytes}
use seam_sdk.Base64.{
  b64url_nopad, urlsafe_b64encode, urlsafe_char, rstrip_pad, b64url_decode, a2b_base64, char_value,
}
use seam_sdk.Checks.{int, str, uint_slot}
use seam_sdk.Wire.{frame, frame_text, frame_int, write, join}
use seam_sdk.Signing.{enroll_pop_payload}
use seam_sdk.Keys.{
  Ed25519, EnrollProof, aid_from_pubkey, aid_to_pubkey, agent_aid, validate_enroll_pop_nonce,
  enroll_pop, key_of, verify_enroll_pop,
}
use seam_sdk.Keys.Laws.{Ambiguous, Ed25519Laws, aid_to_pubkey-aid_from_pubkey}
use seam_sdk.Keys.Enrolment.{verify_enroll_pop-enroll_pop, verify_enroll_pop_binds}

-- A seed of one byte is its own key, and a signature is the message under the key.
abbrev load_toy : Bytes → Result Bytes
load_toy (b ∷ []) = if ltb b 256 then ok (b ∷ []) else err value_error
load_toy _ = err value_error

abbrev toy : Ed25519
toy = record {
  load_seed = load_toy;
  load_public = load_toy;
  public_key = λ k. k;
  sign = λ k m. k ++ m;
  verify = λ k s m. bytes_eq s (k ++ m);
}

load_toy-ok :
    (seed k : Bytes) → load_toy seed ≡ ok k → (b : ℕ) × (b < 256) × (seed ≡ b ∷ []) × (k ≡ b ∷ [])
load_toy-ok [] k h = cc
load_toy-ok (b ∷ []) k h = elim (Bool-cases (ltb b 256)) [
  | inl small ↦ (b, ltb→lt b 256 small, refl, sym (ok_injective (rw small at h)))
  | inr large ↦ absurd (refused (rw large at h))
]
  where
    refused : err value_error ≡ ok k → ⊥
    refused e = cc
load_toy-ok (b ∷ c ∷ s) k h = cc

toy_key_bytes : (seed k : Bytes) → load_toy seed ≡ ok k → All (λ x. x < 256) k
toy_key_bytes seed k h =
    let (b, small, _, e) = load_toy-ok seed k h in subst (All (λ x. x < 256)) (sym e) (small, _)

toy_load_public : (seed k : Bytes) → load_toy seed ≡ ok k → load_toy k ≡ ok k
toy_load_public seed k h = let (b, _, es, e) = load_toy-ok seed k h in ap load_toy (e ∙ sym es) ∙ h

toy_laws : Ed25519Laws toy
toy_laws = record {
  public_key_bytes = toy_key_bytes;
  load_public_key = toy_load_public;
  verify_sign = λ seed k m h. bytes_eq_refl (k ++ m);
}

abbrev key : Bytes
key = 200 ∷ []

key_bytes : All (λ x. x < 256) key
key_bytes = (omega arith, _)

aid_of_key-decoded : aid_to_pubkey (aid_from_pubkey key) ≡ ok key
aid_of_key-decoded = aid_to_pubkey-aid_from_pubkey key key_bytes

abbrev enrol_message : Bytes
enrol_message =
    18
    ∷ 0
    ∷ 0
    ∷ 0
    ∷ (codes "seam-enroll-pop-v1"
        ++ (21
            ∷ 0
            ∷ 0
            ∷ 0
            ∷ (codes "aid:pubkey:ed25519:yA"
                ++ (1 ∷ 0 ∷ 0 ∷ 0 ∷ b't' ∷ 0 ∷ 0 ∷ 0 ∷ 0 ∷ 8 ∷ 0 ∷ 0 ∷ 0 ∷ 0 ∷ 1 ∷ 0 ∷ 0 ∷ 0 ∷ 0 ∷ 0
                    ∷ 0 ∷ 2 ∷ 0 ∷ 0 ∷ 0 ∷ b'n' ∷ b'_' ∷ []))))

abbrev proof : EnrollProof
proof = record { issued_at_ms = int (pos 256); nonce = codes "n_"; signature = 200 ∷ enrol_message }

proof_made : enroll_pop toy key (codes "t") [] (int (pos 256)) (str (codes "n_")) ≡ ok proof
unfolding enroll_pop validate_enroll_pop_nonce aid_from_pubkey b64url_nopad urlsafe_b64encode
    urlsafe_char rstrip_pad enroll_pop_payload join write frame frame_text frame_int encode
    encode_char pack_le le_bytes uint_slot
proof_made = refl

verify_enroll_pop-enroll_pop_example :
    (aid : Text) × (agent_aid toy key ≡ ok aid)
    × (verify_enroll_pop toy aid (codes "t") [] proof.issued_at_ms proof.nonce proof.signature
        ≡ true)
verify_enroll_pop-enroll_pop_example =
    verify_enroll_pop-enroll_pop toy toy_laws key (codes "t") [] (int (pos 256)) (str (codes "n_"))
      proof proof_made

proof_verifies :
    verify_enroll_pop toy
      (codes "aid:pubkey:ed25519:yA")
      (codes "t")
      []
      (int (pos 256))
      (codes "n_")
      (200 ∷ enrol_message)
    ≡ true
unfolding verify_enroll_pop key_of aid_to_pubkey b64url_decode a2b_base64 char_value
    enroll_pop_payload join write frame frame_text frame_int encode encode_char pack_le le_bytes
    uint_slot
proof_verifies = refl

-- Another tenant is refused.
other_tenant :
    verify_enroll_pop toy
      (codes "aid:pubkey:ed25519:yA")
      (codes "u")
      []
      (int (pos 256))
      (codes "n_")
      (200 ∷ enrol_message)
    ≡ false
unfolding verify_enroll_pop key_of aid_to_pubkey b64url_decode a2b_base64 char_value
    enroll_pop_payload join write frame frame_text frame_int encode encode_char pack_le le_bytes
    uint_slot
other_tenant = refl

verify_enroll_pop_binds_example :
    ((codes "t" ≡ codes "t")
      × ◌≡◌ {A = Text} [] []
      × (int (pos 256) ≡ int (pos 256))
      × (codes "n_" ≡ codes "n_"))
    ⊎ Ambiguous toy
verify_enroll_pop_binds_example =
    verify_enroll_pop_binds toy (codes "aid:pubkey:ed25519:yA") (codes "t") [] (codes "t") []
      (int (pos 256)) (int (pos 256)) (codes "n_") (codes "n_") (200 ∷ enrol_message) proof_verifies
      proof_verifies
