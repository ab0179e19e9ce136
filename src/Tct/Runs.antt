-- ===== src/Tct/Runs.antt =====
-- A token of a toy issuer over a commitment, accepted and refused.
use seam_sdk.Prelude.{ℕ, ◌≡◌, refl, ◌⊎◌, Bool, true, false, [], ◌∷◌, codes, none, some, ok}
use seam_sdk.Prelude.Int.{pos, negsuc}
use seam_sdk.Bytes.{Text}
use seam_sdk.Hash.{Collision}
use seam_sdk.Client.{hexdigest}
use seam_sdk.Keys.{aid_from_pubkey, key_of, aid_to_pubkey}
use seam_sdk.Bytes.{to_bytes_big, le_bytes, encode, encode_char}
use seam_sdk.Wire.{join, write, be64_frame, be64_text, be64_opt_text}
use seam_sdk.Base64.{
  b64url_nopad, rstrip_pad, urlsafe_b64encode, urlsafe_char, b64url_decode, a2b_base64, char_value,
}
use seam_sdk.Commitment.{
  seam_commitment_digest, field_slots, explanation_digest, entries_bytes,
  commitment_explanation_digest,
}
use seam_sdk.Commitment.Binding.{SameCommitment}
use seam_sdk.Json.{Json, integer, real, boolean, loads}
use seam_sdk.Json.Keys.{DistinctKeys, loads-DistinctKeys}
use seam_sdk.Tct.{now_of, verify_tct, expiry, truncated_double}
use seam_sdk.Tct.Tokens.{toy, constant, issuer, commitment, payload, parse, token}
use seam_sdk.Tct.Soundness.{Attested, verify_tct-Attested, verify_tct_binds}

-- 2.0e9 as a double, and -(2 ^ 63), and 2 ^ 63, which is out of range.
abbrev two_billion : ℕ
two_billion = 0x41ddcd6500000000

whole : truncated_double two_billion ≡ pos 2000000000
unfolding truncated_double
whole = refl

cut : truncated_double 0xbff8000000000000 ≡ negsuc 0
unfolding truncated_double
cut = refl

lowest : expiry (real 0xc3e0000000000000) ≡ some (negsuc 9223372036854775807)
unfolding expiry
lowest = refl

too_large : expiry (real 0x43e0000000000000) ≡ none
unfolding expiry
too_large = refl

-- The check of a token whose payload expires as stated, at a time.
abbrev accepts : Json → Text → Text → ℕ → Bool
accepts exp payload_b64 id now =
    verify_tct toy constant (parse exp) issuer (token payload_b64) (commitment id) (some (pos now))
      (pos 0)

accepted : accepts (integer (pos 100)) (codes "AQ") (codes "c") 99 ≡ true
unfolding verify_tct b64url_nopad rstrip_pad urlsafe_b64encode urlsafe_char key_of aid_to_pubkey
    aid_from_pubkey b64url_decode a2b_base64 char_value seam_commitment_digest join field_slots
    write be64_frame to_bytes_big le_bytes be64_text encode encode_char be64_opt_text hexdigest
    explanation_digest entries_bytes commitment_explanation_digest
accepted = refl

accepted_other : accepts (integer (pos 100)) (codes "AQ") (codes "d") 99 ≡ true
unfolding verify_tct b64url_nopad rstrip_pad urlsafe_b64encode urlsafe_char key_of aid_to_pubkey
    aid_from_pubkey b64url_decode a2b_base64 char_value seam_commitment_digest join field_slots
    write be64_frame to_bytes_big le_bytes be64_text encode encode_char be64_opt_text hexdigest
    explanation_digest entries_bytes commitment_explanation_digest
accepted_other = refl

accepted_double : accepts (real two_billion) (codes "AQ") (codes "c") 1999999999 ≡ true
unfolding verify_tct b64url_nopad rstrip_pad urlsafe_b64encode urlsafe_char key_of aid_to_pubkey
    aid_from_pubkey b64url_decode a2b_base64 char_value seam_commitment_digest join field_slots
    write be64_frame to_bytes_big le_bytes be64_text encode encode_char be64_opt_text hexdigest
    explanation_digest entries_bytes commitment_explanation_digest
accepted_double = refl

expired : accepts (integer (pos 100)) (codes "AQ") (codes "c") 100 ≡ false
unfolding verify_tct b64url_nopad rstrip_pad urlsafe_b64encode urlsafe_char key_of aid_to_pubkey
    aid_from_pubkey b64url_decode a2b_base64 char_value
expired = refl

boolean_expiry : accepts (boolean true) (codes "AQ") (codes "c") 0 ≡ false
unfolding verify_tct b64url_nopad rstrip_pad urlsafe_b64encode urlsafe_char key_of aid_to_pubkey
    aid_from_pubkey b64url_decode a2b_base64 char_value
boolean_expiry = refl

duplicate_key : accepts (integer (pos 100)) (codes "Ag") (codes "c") 0 ≡ false
unfolding verify_tct b64url_nopad rstrip_pad urlsafe_b64encode urlsafe_char key_of aid_to_pubkey
    aid_from_pubkey b64url_decode a2b_base64 char_value
duplicate_key = refl

read_payload : loads (parse (integer (pos 100))) (1 ∷ []) ≡ ok (payload (integer (pos 100)))
unfolding loads aid_from_pubkey b64url_nopad
read_payload = refl

loads-DistinctKeys_example :
    (parse (integer (pos 100)) (1 ∷ []) ≡ ok (payload (integer (pos 100))))
    × DistinctKeys (payload (integer (pos 100)))
loads-DistinctKeys_example =
    loads-DistinctKeys (parse (integer (pos 100))) (1 ∷ []) (payload (integer (pos 100)))
      read_payload

verify_tct-Attested_example :
    Attested toy constant
      (parse (integer (pos 100)))
      issuer
      (token (codes "AQ"))
      (commitment (codes "c"))
      (pos 99)
unfolding now_of
verify_tct-Attested_example =
    verify_tct-Attested toy constant (parse (integer (pos 100))) issuer (token (codes "AQ"))
      (commitment (codes "c")) (some (pos 99)) (pos 0) accepted

verify_tct_binds_example :
    SameCommitment constant (commitment (codes "c")) (commitment (codes "d"))
    ⊎ Collision (λ b. hexdigest (constant b))
verify_tct_binds_example =
    verify_tct_binds toy constant (parse (integer (pos 100))) issuer issuer (token (codes "AQ"))
      (commitment (codes "c")) (commitment (codes "d")) (some (pos 99)) (some (pos 99)) (pos 0)
      (pos 0) accepted accepted_other
